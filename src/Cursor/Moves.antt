-- ===== src/Cursor/Moves.antt =====
-- What the stack of a cursor looks like between two calls: a leaf on top of branches.
use bbolt.Prelude.{
  ℕ, zero, suc, ◌≡◌, refl, List, [], ◌∷◌, true, false, Bool-cases, inl, inr, Outcome, ok, panic,
  out_of_fuel, ◌>>=◌, arith,
}
use bbolt.Cursor.{PageNode, ElemRef, is_leaf, descend, child_id, prev_up}

abbrev pub Branches : List ElemRef → Type 0
Branches [] = Unit
Branches (r ∷ stack) = (is_leaf r.ref ≡ false) × Branches stack

abbrev pub Placed : List ElemRef → Type 0
Placed [] = true ≡ false
Placed (r ∷ stack) = (is_leaf r.ref ≡ true) × Branches stack

module _ (look : ℕ → Outcome PageNode) (depth : ℕ) (enter : PageNode → ℕ) (k : ℕ) (r : ElemRef)
    (stack : List ElemRef) where
  pub descend_leaf :
      is_leaf r.ref ≡ true → descend look depth enter (suc k) (r ∷ stack) ≡ ok (r ∷ stack)
  unfolding descend
  descend_leaf leaf = rw leaf refl

  pub descend_branch :
      is_leaf r.ref ≡ false
      → descend look depth enter (suc k) (r ∷ stack)
        ≡ child_id r >>= λ id. look id >>= λ p.
            descend look depth enter k (record { ref = p; index = enter p } ∷ r ∷ stack)
  unfolding descend
  descend_branch branch = rw branch refl

module _ {ℓ} {A : Type ℓ} (look : ℕ → Outcome PageNode) (depth : ℕ) (f g : List ElemRef → Outcome A)
    (same : (s : List ElemRef) → Placed s → f s ≡ g s) where
  -- A look at a child, and then what is done with the page.
  via_child :
      (enter : PageNode → Outcome (List ElemRef)) (o : Outcome ℕ)
      → ((p : PageNode) → (enter p >>= f) ≡ (enter p >>= g))
      → (o >>= (λ id. look id >>= enter) >>= f) ≡ (o >>= (λ id. look id >>= enter) >>= g)
  via_child enter panic h = refl
  via_child enter out_of_fuel h = refl
  via_child enter (ok id) h = via_page (look id)
    where
      via_page : (o : Outcome PageNode) → (o >>= enter >>= f) ≡ (o >>= enter >>= g)
      via_page panic = refl
      via_page out_of_fuel = refl
      via_page (ok p) = h p

  -- Where the way down leads is a place on a leaf: only there do the continuations matter.
  pub descend-Placed :
      (enter : PageNode → ℕ) (k : ℕ) (r : ElemRef) (stack : List ElemRef)
      → Branches stack
      → (descend look depth enter k (r ∷ stack) >>= f)
        ≡ (descend look depth enter k (r ∷ stack) >>= g)
  unfolding descend
  descend-Placed enter zero r stack b = refl
  descend-Placed enter (suc k) r stack b = elim (Bool-cases (is_leaf r.ref)) [
    | inl leaf ↦ rw (descend_leaf look depth enter k r stack leaf) (same (r ∷ stack) (leaf, b))
    | inr branch ↦ rw (descend_branch look depth enter k r stack branch) (
        via_child
          (λ p. descend look depth enter k (record { ref = p; index = enter p } ∷ r ∷ stack))
          (child_id r)
          (λ p.
            descend-Placed enter k (record { ref = p; index = enter p }) (r ∷ stack) (branch, b)))
  ]

pub prev_up-Branches : (stack : List ElemRef) → Branches stack → Branches (prev_up stack)
unfolding prev_up
prev_up-Branches [] b = tt
prev_up-Branches (r ∷ stack) b = ground (arith, prev_up-Branches stack b.1)
