-- ===== src/Cursor/Skip.antt =====
-- PrevN is as many calls of Prev.
use bbolt.Prelude.{
  ℕ, zero, suc, ◌+◌, ◌-◌, ◌<◌, ◌≤◌, ◌≡◌, refl, sym, ◌∙◌, arith, List, [], ◌∷◌, true, Bool-cases,
  inl, inr, Outcome, ok, ◌>>=◌, bind_assoc, Option, none, ltb, if◌then◌else◌, get_elem?,
}
use bbolt.Cursor.{
  PageNode, ElemRef, Entry, entry_at, elements, is_leaf, descend, last, last_index, key_value, prev,
  prev_up, prev_down, prev_n, prev_n_up, prev_n_down, go_on, prev_items, hide_bucket,
}
use bbolt.Cursor.Moves.{Branches, Placed, descend-Placed, descend_leaf, prev_up-Branches}

abbrev pub Reply : Type 0
Reply = Outcome (ℕ × List ElemRef × Option Entry)

-- What is done with the reply of one call: the next call, or the end when the stack is empty.
abbrev pub then_calls :
    (ℕ → List ElemRef → Option Entry → Reply) → ℕ → List ElemRef × Option Entry → Reply
then_calls again passed ([], e) = ok (passed, [], none)
then_calls again passed (r ∷ stack, e) = again (passed + 1) (r ∷ stack) e

module _ (look : ℕ → Outcome PageNode) (depth : ℕ) where
  -- `left` calls of prev, which count those that move; they end when the stack is empty.
  pub calls_of_prev : ℕ → ℕ → List ElemRef → Option Entry → Reply
  calls_of_prev zero passed stack e = ok (passed, stack, e)
  calls_of_prev (suc left) passed stack e =
      prev look depth stack >>= then_calls (calls_of_prev left) passed

  -- The stack matters to the next call only by what prev_up makes of it.
  after_up : ℕ → ℕ → List ElemRef → Reply
  after_up left passed up = prev_down look depth up >>= then_calls (calls_of_prev left) passed

  key_at : ElemRef → Option Entry
  key_at r = entry_at (get_elem? (elements r.ref) r.index)

  -- One call within a leaf.
  within_leaf :
      (d : ℕ) (r : ElemRef) (stack : List ElemRef)
      → depth ≡ suc d
      → is_leaf r.ref ≡ true
      → 0 < r.index
      → prev look depth (r ∷ stack)
        ≡ ok (record r { index = r.index - 1 } ∷ stack, key_at (record r { index = r.index - 1 }))
  unfolding prev prev_up prev_down last key_at
  within_leaf d r stack deep leaf pos =
      let more : ltb 0 r.index ≡ true = ground arith in
      rw
        (
          more,
          deep,
          descend_leaf look depth last_index d (record r { index = r.index - 1 }) stack leaf,
        )
        refl

  -- So many calls as there are elements before the current one.
  calls_within :
      (left d passed : ℕ) (r : ElemRef) (stack : List ElemRef) (e : Option Entry)
      → depth ≡ suc d
      → is_leaf r.ref ≡ true
      → left < r.index
      → calls_of_prev (suc left) passed (r ∷ stack) e
        ≡ ok (
          passed + suc left,
          record r { index = r.index - suc left } ∷ stack,
          key_at (record r { index = r.index - suc left }),
        )
  unfolding calls_of_prev
  calls_within zero d passed r stack e deep leaf some_left =
      rw (within_leaf d r stack deep leaf (omega arith)) refl
  calls_within (suc left) d passed r stack e deep leaf some_left =
      let r' = record r { index = r.index - 1 } in
      let rest = calls_within left d (passed + 1) r' stack (key_at r') deep leaf (omega arith) in
      let sum : passed + 1 + suc left ≡ passed + suc (suc left) = omega arith in
      let back : r.index - 1 - suc left ≡ r.index - suc (suc left) = omega arith in
      rw (within_leaf d r stack deep leaf (omega arith)) (rest ∙ rw (sum, back) refl)

  -- More calls than that leave the leaf.
  calls_beyond :
      (i left d passed : ℕ) (p : PageNode) (stack : List ElemRef) (e : Option Entry)
      → depth ≡ suc d
      → is_leaf p ≡ true
      → i ≤ left
      → calls_of_prev (suc left) passed (record { ref = p; index = i } ∷ stack) e
        ≡ after_up (left - i) (passed + i) (prev_up stack)
  unfolding calls_of_prev after_up prev prev_up
  calls_beyond zero left d passed p stack e deep leaf le =
      let l : left - 0 ≡ left = omega arith in
      let s : passed + 0 ≡ passed = omega arith in rw (l, s) refl
  calls_beyond (suc i) zero d passed p stack e deep leaf le = absurd (omega arith)
  calls_beyond (suc i) (suc left) d passed p stack e deep leaf le =
      let less_one : suc i - 1 ≡ i = omega arith in
      let back : ElemRef = record { ref = p; index = i } in
      let rest = calls_beyond i left d (passed + 1) p stack (key_at back) deep leaf (omega arith) in
      let l : suc left - suc i ≡ left - i = omega arith in
      let s : passed + suc i ≡ passed + 1 + i = omega arith in
      rw
        (
          within_leaf d (record { ref = p; index = suc i }) stack deep leaf (omega arith),
          less_one,
          l,
          s,
        )
        rest

  prev_n_up-Branches :
      (n passed : ℕ) (stack : List ElemRef)
      → Branches stack
      → prev_n_up n passed stack ≡ go_on passed (prev_up stack)
  unfolding prev_n_up prev_up
  prev_n_up-Branches n passed [] b = refl
  prev_n_up-Branches n passed (r ∷ stack) b = elim (Bool-cases (ltb 0 r.index)) [
    | inl more ↦ rw (more, b.0) refl
    | inr none_left ↦ rw none_left (prev_n_up-Branches n passed stack b.1)
  ]

  -- Behind the way down: what prevN does at the leaf, and what the calls do there.
  at_leaf : ℕ → ℕ → ℕ → List ElemRef → Reply
  at_leaf k n passed s =
      if ltb (passed + 1) n
      then prev_n look depth k n (passed + 1) s
      else (key_value s >>= λ e. ok (passed + 1, s, e))

  calls_at_leaf : ℕ → ℕ → List ElemRef → Reply
  calls_at_leaf left passed s =
      key_value s >>= (λ e. ok (s, e)) >>= then_calls (calls_of_prev left) passed

  module _ (k n passed left : ℕ) (total : n ≡ passed + suc left)
      (again : (s : List ElemRef) (e : Option Entry)
        → Placed s
        → passed + 1 < n
        → prev_n look depth k n (passed + 1) s ≡ calls_of_prev left (passed + 1) s e) where
    at_leaf-calls :
        (s : List ElemRef) → Placed s → at_leaf k n passed s ≡ calls_at_leaf left passed s
    unfolding at_leaf calls_at_leaf
    at_leaf-calls [] p = absurd (cc)
    at_leaf-calls (r ∷ stack) p = elim (Bool-cases (ltb (passed + 1) n)) [
      | inl more ↦ rw more (again (r ∷ stack) _ p (ground arith))
      | inr done ↦
          let last_one : left ≡ 0 = ground arith in
          rw (done, last_one) (unfold calls_of_prev in refl)
    ]

    -- prevN above the leaf, if it does as the calls from the next leaf on.
    prev_n_down-after_up :
        (up : List ElemRef)
        → Branches up
        → prev_n_down look depth (prev_n look depth k n) n (go_on passed up)
          ≡ after_up left passed up
    unfolding prev_n_down after_up prev_down last at_leaf calls_at_leaf
    prev_n_down-after_up [] b = refl
    prev_n_down-after_up (r ∷ stack) b =
        descend-Placed look depth (at_leaf k n passed) (calls_at_leaf left passed) at_leaf-calls
          last_index depth r stack b.1
        ∙ sym (
            bind_assoc (descend look depth last_index depth (r ∷ stack))
              (λ s. key_value s >>= λ e. ok (s, e)) (then_calls (calls_of_prev left) passed))

  -- The next round of prevN, as calls.
  next_round :
      (k n passed left : ℕ)
      → n ≡ passed + suc left
      → ((l : ℕ) (s : List ElemRef) (e : Option Entry)
          → Placed s
          → n ≡ passed + 1 + suc l
          → l < left
          → prev_n look depth k n (passed + 1) s ≡ calls_of_prev (suc l) (passed + 1) s e)
      → (s : List ElemRef) (e : Option Entry) → Placed s
      → passed + 1 < n
      → prev_n look depth k n (passed + 1) s ≡ calls_of_prev left (passed + 1) s e
  next_round k n passed zero total again s e p more = absurd (omega arith)
  next_round k n passed (suc l) total again s e p more = again l s e p (omega arith) (omega arith)

  prev_n-calls :
      (k d n passed left : ℕ) (stack : List ElemRef) (e : Option Entry)
      → depth ≡ suc d
      → Placed stack
      → n ≡ passed + suc left
      → left < k
      → prev_n look depth k n passed stack ≡ calls_of_prev (suc left) passed stack e
  unfolding prev_n prev_n_up prev_n_down
  prev_n-calls zero d n passed left stack e deep p total fuel = absurd (omega arith)
  prev_n-calls (suc k) d n passed left [] e deep p total fuel = absurd (cc)
  prev_n-calls (suc k) d n passed left (r ∷ stack) e deep p total fuel =
      let leave : (c l : ℕ)
          → n ≡ c + suc l
          → l ≤ left
          → prev_n_down look depth (prev_n look depth k n) n (go_on c (prev_up stack))
            ≡ after_up l c (prev_up stack) =
        λ c l t le.
          prev_n_down-after_up k n c l t
            (next_round k n c l t
              (λ m s e' p' t' lt. prev_n-calls k d n (c + 1) m s e' deep p' t' (omega arith)))
            (prev_up stack) (prev_up-Branches stack p.1) in
      elim (Bool-cases (ltb 0 r.index)) [
        | inr at_start ↦
            let i : r.index ≡ 0 = ground arith in
            let lz : left - r.index ≡ left = omega arith in
            let cz : passed + r.index ≡ passed = omega arith in
            rw (at_start, prev_n_up-Branches n passed stack p.1)
              (leave passed left total (omega arith)
                ∙ sym (
                    rw (lz, cz) at
                      (calls_beyond r.index left d passed r.ref stack e deep p.0 (omega arith))))
        | inl more ↦ elim (Bool-cases (ltb n (passed + (r.index + 1)))) [
          | inl over ↦
              let to : passed + (r.index + 1) - n - 1 ≡ r.index - suc left = ground arith in
              rw
                (
                  more,
                  p.0,
                  over,
                  to,
                  calls_within left d passed r stack e deep p.0 (ground (arith, over)),
                  total,
                )
                (unfold key_at in refl)
          | inr short ↦
              let c : passed + (r.index + 1) - 1 ≡ passed + r.index = omega arith in
              rw (more, p.0, short, c, prev_n_up-Branches n (passed + r.index) stack p.1)
                (leave (passed + r.index) (left - r.index) (ground (arith, short)) (omega arith)
                  ∙ sym (
                      calls_beyond r.index left d passed r.ref stack e deep p.0
                        (ground (arith, short))))
        ]
      ]

-- PrevN of n > 0 is n calls of prev, with their count, on a cursor whose stack is a leaf on top of
-- branches, whatever the pages are: it stops where the stack gets empty, and then gives the number
-- of calls that moved. A fuel of n is enough for its loop.
pub prev_items-calls :
    (look : ℕ → Outcome PageNode) (d n : ℕ) (stack : List ElemRef)
    → Placed stack
    → prev_items look (suc d) (suc n) stack
      ≡ calls_of_prev look (suc d) (suc n) 0 stack none >>= λ (c, s, e). ok (c, s, hide_bucket e)
unfolding prev_items
prev_items-calls look d n stack p =
    rw
      (prev_n-calls look (suc d) (suc n) d (suc n) 0 n stack none refl p (omega arith)
        (omega arith))
      refl
