-- ===== src/Cursor/Walk.antt =====
-- First and next visit the items of a tree in their order.
use bbolt.Prelude.{
  ℕ, zero, suc, ◌+◌, ◌<◌, ◌≤◌, ◌≡◌, ◌⊎◌, refl, sym, ap, ◌∙◌, arith, List, [], ◌∷◌, ◌++◌, true,
  false, Bool-cases, inl, inr, Outcome, ok, ◌>>=◌, Option, none, some, ltb, ◌==◌, if◌then◌else◌,
  get_elem?, length,
}
use mathlib.Core.List.{append-nil}
use bbolt.Node.{Inode}
use bbolt.Cursor.{
  PageNode, ElemRef, Entry, entry_of, elements, descend, count_of, next_up, go_to_first, next,
  next_down, first, hide_bucket, entry_at, key_value,
}
use bbolt.Cursor.Tree.{Tree, id_of, items, height, leaves, Holds}
use bbolt.Cursor.Places.{
  At, Trail, add-one, at_most_one, behind, elems_of, from_top, item_here, items_from,
  items_from_end, items_from_start, leafy, leaves_behind, leaves_from, leaves_from_start,
  length_zero, sees, zero_or_more,
}
use bbolt.Cursor.Descent.{descend-Descended}

module _ (look : ℕ → Outcome PageNode) (depth : ℕ) where
  -- What next_up leaves, if it finds a ref that can move.
  record Raised (s : List ElemRef) (ts : List Tree) (u : List ElemRef) : Type 0 where
    ref : ElemRef
    stack : List ElemRef
    tree : Tree
    trees : List Tree
    found : u ≡ ref ∷ stack
    path : Trail look depth (ref ∷ stack) (tree ∷ trees)
    inside : ref.index < count_of ref
    same_items : behind s ts ≡ items_from tree ref.index ++ behind stack trees
    same_leaves : leaves_behind s ts ≡ leaves_from tree ref.index + leaves_behind stack trees

  -- next_up finds nothing only if nothing is behind the stack.
  next_up-Raised :
      (s : List ElemRef) (ts : List Tree)
      → Trail look depth s ts
      → ((next_up s ≡ none) × (behind s ts ≡ []) × (leaves_behind s ts ≡ 0))
        ⊎ ((u : List ElemRef) × (next_up s ≡ some u) × Raised s ts u)
  unfolding next_up
  next_up-Raised [] ts p = inl (refl, refl, refl)
  next_up-Raised (r ∷ s) [] p = absurd (cc)
  next_up-Raised (r ∷ s) (t ∷ ts) p = elim (Bool-cases (ltb (r.index + 1) (count_of r))) [
    | inl more ↦
        let r' = record r { index = r.index + 1 } in
        let at = p.0 in
        rw more (
          inr (
            r' ∷ s,
            refl,
            record {
              ref = r';
              stack = s;
              tree = t;
              trees = ts;
              found = refl;
              path = (
                record { kind = at.kind; holds = at.holds; below = at.below; low = at.low },
                p.1,
              );
              inside = ground (arith, more);
              same_items = rw (add-one r.index) refl;
              same_leaves = rw (add-one r.index) refl;
            },
          ))
    | inr done ↦
        let at = p.0 in
        let full : length (elements r.ref) ≤ suc r.index = ground (arith, done) in
        let (no_items, no_leaves) = items_from_end t (suc r.index) (rw at.holds at full) in
        rw (done, no_items, no_leaves)
          (elim (next_up-Raised s ts p.1) [
            | inl (e, x, y) ↦ inl (e, x, omega (arith, y))
            | inr (u, e, x) ↦ inr (
              u,
              e,
              record {
                ref = x.ref;
                stack = x.stack;
                tree = x.tree;
                trees = x.trees;
                found = x.found;
                path = x.path;
                inside = x.inside;
                same_items = rw no_items x.same_items;
                same_leaves = omega (arith, x.same_leaves, no_leaves);
              },
            )
          ])
  ]

  -- What a call of next does: it gives the next item behind the stack, or none if there is none.
  pub data Stepped (s : List ElemRef) (ts : List Tree) (o : Outcome (List ElemRef × Option Entry))
      : Type 0 where
    moved :
        (top : ElemRef) (stack : List ElemRef) (bottom : Tree) (trees : List Tree) (e : Inode)
        → o ≡ ok (top ∷ stack, some (entry_of e))
        → Trail look depth (top ∷ stack) (bottom ∷ trees)
        → get_elem? (elements top.ref) top.index ≡ some e
        → behind s ts ≡ e ∷ behind (top ∷ stack) (bottom ∷ trees)
        → leaves_behind (top ∷ stack) (bottom ∷ trees) ≤ leaves_behind s ts
        → Stepped s ts o
    at_end :
        (s' : List ElemRef)
        → o ≡ ok (s', none)
        → behind s ts ≡ []
        → (s' ≡ s) ⊎ (key_value s' ≡ ok none)
        → Stepped s ts o

  -- A round of next behind the way down.
  next_round :
      (k : ℕ) (s : List ElemRef) (ref : ElemRef) (stack : List ElemRef) (top : ElemRef)
      (stack' : List ElemRef)
      → next_up s ≡ some (ref ∷ stack)
      → descend look depth (λ p. 0) depth (ref ∷ stack) ≡ ok (top ∷ stack')
      → next look depth (suc k) s ≡ (
          if count_of top == 0
          then next look depth k (top ∷ stack')
          else ok (top ∷ stack', entry_at (get_elem? (elements top.ref) top.index)))
  unfolding next next_down go_to_first
  next_round k s ref stack top stack' up down = rw (up, down) refl

  -- A step from a place that has the same items behind it, and none at it.
  relay :
      {s s0 : List ElemRef} {ts ts0 : List Tree} {o : Outcome (List ElemRef × Option Entry)}
      → behind s ts ≡ behind s0 ts0
      → leaves_behind s0 ts0 ≤ leaves_behind s ts
      → key_value s0 ≡ ok none
      → Stepped s0 ts0 o
      → Stepped s ts o
  relay same fewer nothing (moved top stack bottom trees e r p g b l) =
      moved top stack bottom trees e r p g (same ∙ b) (omega (arith, l))
  relay same fewer nothing (at_end s' r b (inl q)) =
      at_end s' r (same ∙ b) (inr (ap key_value q ∙ nothing))
  relay same fewer nothing (at_end s' r b (inr q)) = at_end s' r (same ∙ b) (inr q)

  pub next-Stepped :
      (k : ℕ) (s : List ElemRef) (ts : List Tree)
      → Trail look depth s ts
      → leaves_behind s ts < k
      → Stepped s ts (next look depth k s)
  unfolding next next_down
  next-Stepped zero s ts p fuel = absurd (omega arith)
  next-Stepped (suc k) s ts p fuel = elim (next_up-Raised s ts p) [
    | inl (e, x, y) ↦ rw e (at_end s refl x (inl refl))
    | inr (u, e, x) ↦
        let d =
          descend-Descended look depth depth x.ref x.tree x.stack x.trees x.path.0.low x.path.0
            x.path.1 (inl x.inside) in
        let round = next_round k s x.ref x.stack d.top d.stack (e ∙ ap some x.found) d.returned in
        let at = d.path.0 in
        elim d.pointing [
          | inl inside ↦
              let some_items : (count_of d.top == 0) ≡ false = ground arith in
              let (item, get, split) =
                item_here d.bottom d.top.index d.is_bottom (rw at.holds at inside) in
              rw (round, some_items, at.holds, get)
                (moved d.top d.stack d.bottom d.trees item refl d.path (rw at.holds get)
                  (x.same_items ∙ sym d.same_items ∙ rw split refl)
                  (omega (arith, d.same_leaves, x.same_leaves, at_most_one (leafy x.tree))))
          | inr empty ↦
              let nothing : (count_of d.top == 0) ≡ true = ground arith in
              let below : length (elems_of d.bottom) ≡ 0 = rw at.holds at empty in
              let no_elems : elements d.top.ref ≡ [] = length_zero (elements d.top.ref) empty in
              let here = (items_from_end d.bottom d.top.index (omega (arith, below))).0 in
              let next_one = (items_from_end d.bottom (suc d.top.index) (omega (arith, below))).0 in
              let inner : ◌≡◌ {A = ℕ} (if leafy x.tree then 1 else 0) 0 =
                elim (Bool-cases (leafy x.tree)) [
                  | inl l ↦ absurd (omega (arith, x.inside, empty, ap count_of (d.stays l)))
                  | inr b ↦ ground (arith, b)
                ] in
              let rest =
                next-Stepped k (d.top ∷ d.stack) (d.bottom ∷ d.trees) d.path
                  (omega (arith, d.same_leaves, x.same_leaves, inner)) in
              rw (round, nothing)
                (relay (x.same_items ∙ sym d.same_items ∙ rw (here, next_one) refl)
                  (omega (arith, d.same_leaves, x.same_leaves, inner)) (rw no_elems refl) rest)
        ]
  ]

  -- Where First comes to: the first item of the tree, or nothing.
  pub data Begun (t : Tree) (o : Outcome (List ElemRef × Option Entry)) : Type 0 where
    begun :
        (top : ElemRef) (stack : List ElemRef) (bottom : Tree) (trees : List Tree) (e : Inode)
        → o ≡ ok (top ∷ stack, hide_bucket (some (entry_of e)))
        → Trail look depth (top ∷ stack) (bottom ∷ trees)
        → items t ≡ e ∷ behind (top ∷ stack) (bottom ∷ trees)
        → leaves_behind (top ∷ stack) (bottom ∷ trees) ≤ leaves t
        → Begun t o
    empty : (s : List ElemRef) → o ≡ ok (s, none) → items t ≡ [] → Begun t o

  relay_first :
      (t : Tree) (s : List ElemRef) (ts : List Tree) {o : Outcome (List ElemRef × Option Entry)}
      → items t ≡ behind s ts
      → leaves_behind s ts ≤ leaves t
      → key_value s ≡ ok none
      → Stepped s ts o
      → Begun t ((o >>= λ (s', e). ok s') >>= λ s'. key_value s' >>= λ e. ok (s', hide_bucket e))
  relay_first t s ts same fewer nothing (moved top stack bottom trees e r p g b l) =
      rw r (rw g (begun top stack bottom trees e refl p (same ∙ b) (omega (arith, l, fewer))))
  relay_first t s ts same fewer nothing (at_end s' r b (inl q)) =
      rw (r, q, nothing) (empty s refl (same ∙ b))
  relay_first t s ts same fewer nothing (at_end s' r b (inr q)) =
      rw (r, q) (empty s' refl (same ∙ b))

  -- first behind the way down from the root.
  first_round :
      (k : ℕ) (t : Tree) (p : PageNode) (top : ElemRef) (stack : List ElemRef)
      → look (id_of t) ≡ ok p
      → descend look depth (λ p. 0) depth (record { ref = p; index = 0 } ∷ []) ≡ ok (top ∷ stack)
      → first look depth k (id_of t)
        ≡ (if count_of top == 0
            then (next look depth k (top ∷ stack) >>= λ (s', e). ok s')
            else ok (top ∷ stack))
          >>= λ s'. key_value s' >>= λ e. ok (s', hide_bucket e)
  unfolding first go_to_first
  first_round k t p top stack looked down = rw (looked, down) refl

  -- The start of a walk over a tree of pages and nodes that are all there: first comes to the first
  -- item, over empty leaves if there are some, with all others behind it; in a tree without items it
  -- returns nil.
  pub first-Begun :
      (k : ℕ) (t : Tree)
      → Holds look t
      → height t ≤ depth
      → leaves t < k
      → Begun t (first look depth k (id_of t))
  first-Begun k t h low fuel =
      let root = sees look t h in
      let r : ElemRef = record { ref = root.seen; index = 0 } in
      let start : At look depth r t = record {
        kind = root.kind;
        holds = root.holds;
        below = h;
        low = low;
      } in
      let d =
        descend-Descended look depth depth r t [] [] low start tt
          (zero_or_more (length (elements root.seen))) in
      let round = first_round k t root.seen d.top d.stack root.looked d.returned in
      let at = d.path.0 in
      let whole : items t ≡ from_top (d.top ∷ d.stack) (d.bottom ∷ d.trees) =
        sym (d.same_items ∙ rw (items_from_start t) (append-nil (items t))) in
      elim d.pointing [
        | inl inside ↦
            let some_items : (count_of d.top == 0) ≡ false = ground arith in
            let (item, get, split) =
              item_here d.bottom d.top.index d.is_bottom (rw at.holds at inside) in
            rw (round, some_items, at.holds, get)
              (begun d.top d.stack d.bottom d.trees item refl d.path (whole ∙ rw split refl)
                (omega (arith, d.same_leaves, leaves_from_start t)))
        | inr empty_leaf ↦
            let nothing : (count_of d.top == 0) ≡ true = ground arith in
            let below : length (elems_of d.bottom) ≡ 0 = rw at.holds at empty_leaf in
            let no_elems : elements d.top.ref ≡ [] = length_zero (elements d.top.ref) empty_leaf in
            let here = (items_from_end d.bottom d.top.index (omega (arith, below))).0 in
            let next_one = (items_from_end d.bottom (suc d.top.index) (omega (arith, below))).0 in
            rw (round, nothing)
              (relay_first t (d.top ∷ d.stack) (d.bottom ∷ d.trees)
                (whole ∙ rw (here, next_one) refl)
                (omega (arith, d.same_leaves, leaves_from_start t)) (rw no_elems refl)
                (next-Stepped k (d.top ∷ d.stack) (d.bottom ∷ d.trees) d.path
                  (omega (arith, d.same_leaves, leaves_from_start t))))
      ]
