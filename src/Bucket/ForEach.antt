-- ===== src/Bucket/ForEach.antt =====
-- ForEach and ForEachBucket of bucket.go. The callback is a function on a state of the caller, `k`
-- bounds the empty leaves that one move of the cursor passes, and `rounds` the rounds of the loop.
use bbolt.Prelude.{
  ℕ, zero, suc, ◌+◌, ◌<◌, ◌≤◌, ◌≡◌, refl, sym, ap, ◌∙◌, arith, List, [], ◌∷◌, true, not, Bool-cases,
  Outcome, ok, out_of_fuel, ◌>>=◌, Option, none, some, if◌then◌else◌, length, ◌⊎◌, inl, inr,
}
use mathlib.Core.Path.{fun_ext}
use bbolt.Page.{has_flag, bucket_leaf_flag}
use bbolt.Node.{Bytes, Inode}
use bbolt.Cursor.{
  PageView, PageNode, ElemRef, Entry, entry_of, hide_bucket, first, next, first_item, next_item,
}
use bbolt.Cursor.Tree.{Tree, items, height, leaves, Holds, id_of}
use bbolt.Cursor.Places.{Trail, behind, leaves_behind}
use bbolt.Cursor.Walk.{next-Stepped, Stepped, moved, at_end, first-Begun, Begun, begun, empty}
use bbolt.Bucket.{BucketError, tx_closed, TxView, Bucket, page_node}

-- What a loop returns: the state of the caller, and nil or an error, the callback's or the bucket's.
abbrev pub Returned : Type 0 → Type 0 → Type 0
Returned S E = S × Option (BucketError ⊎ E)

-- if err := fn(k, v); err != nil { return err }
abbrev pub each_round :
    {S E : Type 0} → (S → Outcome (Returned S E)) → S × Option E → Outcome (Returned S E)
each_round again (s, none) = again s
each_round again (s, some err) = ok (s, some (inr err))

unfoldable pub each_loop :
    {S E : Type 0}
    → (List ElemRef → Outcome (List ElemRef × Option Entry))
    → (S → Entry → S × Option E)
    → ℕ
    → S
    → List ElemRef × Option Entry
    → Outcome (Returned S E)
each_loop step fn zero s c = out_of_fuel
each_loop step fn (suc rounds) s (stack, none) = ok (s, none)
each_loop step fn (suc rounds) s (stack, some e) =
    each_round (λ s'. step stack >>= each_loop step fn rounds s') (fn s e)

-- if flags&bucketLeafFlag != 0 { … fn(k) … }
abbrev pub on_bucket : {S E : Type 0} → (S → Bytes → S × Option E) → S → Entry → S × Option E
on_bucket fn s e = if has_flag e.flags bucket_leaf_flag then fn s e.key else (s, none)

module _ (look : ℕ → Outcome PageNode) (depth k : ℕ) where
  -- The loop over First and Next, and the one over first and next.
  each_item : {S E : Type 0} → ℕ → (S → Entry → S × Option E) → S → ℕ → Outcome (Returned S E)
  unfolding first_item next_item each_loop
  each_item rounds fn s root =
      first_item look depth k root >>= each_loop (next_item look depth k) fn rounds s

  each_bucket : {S E : Type 0} → ℕ → (S → Bytes → S × Option E) → S → ℕ → Outcome (Returned S E)
  unfolding first next each_loop
  each_bucket rounds fn s root =
      first look depth k root >>= each_loop (next look depth k) (on_bucket fn) rounds s

module _ (pages : ℕ → Outcome PageView) (depth : ℕ) where
  unfoldable pub for_each :
      {S E : Type 0}
      → TxView
      → Bucket
      → ℕ
      → ℕ
      → (S → Entry → S × Option E)
      → S
      → Outcome (Returned S E)
  unfolding page_node each_item
  for_each tx b k rounds fn s =
      if not tx.is_open
      then ok (s, some (inl tx_closed))
      else each_item (page_node pages depth b) depth k rounds fn s b.root

  unfoldable pub for_each_bucket :
      {S E : Type 0}
      → TxView
      → Bucket
      → ℕ
      → ℕ
      → (S → Bytes → S × Option E)
      → S
      → Outcome (Returned S E)
  unfolding page_node each_bucket
  for_each_bucket tx b k rounds fn s =
      if not tx.is_open
      then ok (s, some (inl tx_closed))
      else each_bucket (page_node pages depth b) depth k rounds fn s b.root

-- A callback on the items of a list, up to its first error.
abbrev pub visit_round : {S E : Type 0} → (S → Returned S E) → S × Option E → Returned S E
visit_round again (s, none) = again s
visit_round again (s, some err) = (s, some (inr err))

pub visit : {S E : Type 0} → (S → Inode → S × Option E) → S → List Inode → Returned S E
visit act s [] = (s, none)
visit act s (x ∷ xs) = visit_round (λ s'. visit act s' xs) (act s x)

each_round-visit :
    {S E : Type 0}
    → (again : S → Outcome (Returned S E)) (then_visit : S → Returned S E)
    → ((s : S) → again s ≡ ok (then_visit s))
    → (p : S × Option E) → each_round again p ≡ ok (visit_round then_visit p)
each_round-visit again then_visit same (s, none) = same s
each_round-visit again then_visit same (s, some err) = refl

each_loop_end :
    {S E : Type 0}
    → (step : List ElemRef → Outcome (List ElemRef × Option Entry)) (fn : S → Entry → S × Option E)
      (rounds : ℕ) (s : S) (stack : List ElemRef)
    → 0 < rounds
    → each_loop step fn rounds s (stack, none) ≡ ok (s, none)
unfolding each_loop
each_loop_end step fn zero s stack some_round = absurd (omega arith)
each_loop_end step fn (suc rounds) s stack some_round = refl

module _ {S E : Type 0} (look : ℕ → Outcome PageNode) (depth k : ℕ)
    (step : List ElemRef → Outcome (List ElemRef × Option Entry)) (fn : S → Entry → S × Option E)
    (act : S → Inode → S × Option E)
    (ends : (stack s' : List ElemRef)
      → next look depth k stack ≡ ok (s', none)
      → step stack ≡ ok (s', none))
    (moves : (stack s' : List ElemRef) (e : Inode)
      → next look depth k stack ≡ ok (s', some (entry_of e))
      → (x : Entry) × (step stack ≡ ok (s', some x)) × ((s : S) → fn s x ≡ act s e)) where
  -- What the loop does from each place with `rounds` rounds left.
  Visits : ℕ → Type 0
  Visits rounds =
      (s : S) (stack : List ElemRef) (ts : List Tree) (e : Inode) (x : Entry)
      → Trail look depth stack ts
      → leaves_behind stack ts < k
      → length (behind stack ts) + 1 < rounds
      → ((s : S) → fn s x ≡ act s e)
      → each_loop step fn rounds s (stack, some x) ≡ ok (visit act s (e ∷ behind stack ts))

  -- One move of the cursor, and the loop behind it.
  visit_rest :
      (rounds : ℕ) (stack : List ElemRef) (ts : List Tree)
      → Visits rounds
      → leaves_behind stack ts < k
      → length (behind stack ts) < rounds
      → Stepped look depth stack ts (next look depth k stack)
      → (s : S) → (step stack >>= each_loop step fn rounds s) ≡ ok (visit act s (behind stack ts))
  unfolding Visits each_loop visit
  visit_rest rounds stack ts loop few enough (moved top stack' bottom trees e r p g b l) s =
      let (x, stepped, same) = moves stack (top ∷ stack') e r in
      let size : length (behind stack ts) ≡ suc (length (behind (top ∷ stack') (bottom ∷ trees))) =
        ap length b in
      rw (stepped, b)
        (loop s (top ∷ stack') (bottom ∷ trees) e x p (omega (arith, l)) (omega (arith, size)) same)
  visit_rest zero stack ts loop few enough (at_end s' r b q) s = absurd (omega arith)
  visit_rest (suc rounds) stack ts loop few enough (at_end s' r b q) s =
      rw (ends stack s' r, b) refl

  -- The loop from a place in the tree visits the item there and all behind it.
  each_loop-visit : (rounds : ℕ) → Visits rounds
  unfolding each_loop visit Visits
  each_loop-visit zero s stack ts e x p few enough same = absurd (omega arith)
  each_loop-visit (suc rounds) s stack ts e x p few enough same =
      each_round-visit (λ s'. step stack >>= each_loop step fn rounds s')
        (λ s'. visit act s' (behind stack ts))
        (visit_rest rounds stack ts (each_loop-visit rounds) few (omega arith)
          (next-Stepped look depth k stack ts p few))
        (fn s x)
      ∙ ap (λ q. ok (visit_round (λ s'. visit act s' (behind stack ts)) q)) (same s)

-- What a cursor gives of an item: of a bucket only the key and the flags.
abbrev pub shown : Inode → Entry
shown e =
    if has_flag e.flags bucket_leaf_flag then record (entry_of e) { value = none } else entry_of e

-- The child buckets among the items.
abbrev pub buckets : List Inode → List Inode
buckets [] = []
buckets (x ∷ xs) = if has_flag x.flags bucket_leaf_flag then x ∷ buckets xs else buckets xs

abbrev act_on_bucket : {S E : Type 0} → (S → Bytes → S × Option E) → S → Inode → S × Option E
act_on_bucket fn s e = if has_flag e.flags bucket_leaf_flag then fn s e.key else (s, none)

shown_same :
    {S E : Type 0}
    → (fn : S → Bytes → S × Option E) (e : Inode) (s : S)
    → on_bucket fn s (shown e) ≡ act_on_bucket fn s e
shown_same fn e s = elim (Bool-cases (has_flag e.flags bucket_leaf_flag)) [
  | inl h ↦ rw (h, h) refl
  | inr h ↦ rw (h, h) refl
]

visit-buckets :
    {S E : Type 0}
    → (fn : S → Bytes → S × Option E) (s : S) (xs : List Inode)
    → visit (act_on_bucket fn) s xs ≡ visit (λ s' e. fn s' e.key) s (buckets xs)
unfolding visit
visit-buckets fn s [] = refl
visit-buckets fn s (x ∷ xs) = elim (Bool-cases (has_flag x.flags bucket_leaf_flag)) [
  | inl h ↦ rw h (ap (λ k. visit_round k (fn s x.key)) (fun_ext (λ s'. visit-buckets fn s' xs)))
  | inr h ↦ rw h (visit-buckets fn s xs)
]

shown_again : (e : Inode) → hide_bucket (some (shown e)) ≡ some (shown e)
shown_again e = elim (Bool-cases (has_flag e.flags bucket_leaf_flag)) [
  | inl h ↦ rw (h, h) refl
  | inr h ↦ rw (h, h) refl
]

module _ (look : ℕ → Outcome PageNode) (depth k : ℕ) {S E : Type 0} (rounds : ℕ) (s : S) (t : Tree)
    (h : Holds look t) (low : height t ≤ depth) (few : leaves t < k)
    (enough : length (items t) < rounds) where
  each_item-visit :
      (fn : S → Entry → S × Option E)
      → each_item look depth k rounds fn s (id_of t)
        ≡ ok (visit (λ s' e. fn s' (shown e)) s (items t))
  unfolding each_item first_item next_item Visits visit
  each_item-visit fn = by_start (first-Begun look depth k t h low few)
    where
      by_start :
          {o : Outcome (List ElemRef × Option Entry)}
          → Begun look depth t o
          → ((o >>= λ (s', e). ok (s', hide_bucket e))
              >>= each_loop (next_item look depth k) fn rounds s)
            ≡ ok (visit (λ s' e. fn s' (shown e)) s (items t))
      by_start (begun top stack bottom trees e r p g l) =
          let size : length (items t) ≡ suc (length (behind (top ∷ stack) (bottom ∷ trees))) =
            ap length g in
          rw (r, shown_again e, g)
            (each_loop-visit look depth k (next_item look depth k) fn (λ s' e'. fn s' (shown e'))
              (λ stack' s' q. rw q refl) (λ stack' s' e' q. (shown e', rw q refl, λ s''. refl))
              rounds s (top ∷ stack) (bottom ∷ trees) e (shown e) p (omega (arith, l))
              (omega (arith, size)) (λ s'. refl))
      by_start (empty s' r g) =
          rw (r, g) (each_loop_end (next_item look depth k) fn rounds s s' (omega arith))

  each_bucket-visit :
      (fn : S → Bytes → S × Option E)
      → each_bucket look depth k rounds fn s (id_of t)
        ≡ ok (visit (λ s' e. fn s' e.key) s (buckets (items t)))
  unfolding each_bucket Visits visit
  each_bucket-visit fn =
      by_start (first-Begun look depth k t h low few) ∙ ap ok (visit-buckets fn s (items t))
    where
      by_start :
          {o : Outcome (List ElemRef × Option Entry)}
          → Begun look depth t o
          → (o >>= each_loop (next look depth k) (on_bucket fn) rounds s)
            ≡ ok (visit (act_on_bucket fn) s (items t))
      by_start (begun top stack bottom trees e r p g l) =
          let size : length (items t) ≡ suc (length (behind (top ∷ stack) (bottom ∷ trees))) =
            ap length g in
          rw (r, g)
            (each_loop-visit look depth k (next look depth k) (on_bucket fn) (act_on_bucket fn)
              (λ stack' s' q. q) (λ stack' s' e' q. (entry_of e', q, λ s''. refl)) rounds s
              (top ∷ stack) (bottom ∷ trees) e (shown e) p (omega (arith, l)) (omega (arith, size))
              (shown_same fn e))
      by_start (empty s' r g) =
          rw (r, g) (each_loop_end (next look depth k) (on_bucket fn) rounds s s' (omega arith))

-- On an open transaction, ForEach of a bucket whose pages and nodes hold a tree calls its callback on
-- the items of the tree from left to right, each once, without the value for a child bucket, and
-- stops at the first error, which it returns; it ends if the cursor may pass each leaf and the loop has a
-- round more than there are items.
pub for_each-visit :
    {S E : Type 0}
    → (pages : ℕ → Outcome PageView) (depth : ℕ) (tx : TxView) (b : Bucket) (k rounds : ℕ)
      (fn : S → Entry → S × Option E) (s : S) (t : Tree)
    → tx.is_open ≡ true
    → Holds (page_node pages depth b) t
    → id_of t ≡ b.root
    → height t ≤ depth
    → leaves t < k
    → length (items t) < rounds
    → for_each pages depth tx b k rounds fn s ≡ ok (visit (λ s' e. fn s' (shown e)) s (items t))
unfolding for_each
for_each-visit pages depth tx b k rounds fn s t opened h at low few enough = rw opened (
    ap (each_item (page_node pages depth b) depth k rounds fn s) (sym at)
    ∙ each_item-visit (page_node pages depth b) depth k rounds s t h low few enough fn)

-- Under the same conditions ForEachBucket calls its callback on the keys of the child buckets in the
-- tree, from left to right, up to the first error.
pub for_each_bucket-visit :
    {S E : Type 0}
    → (pages : ℕ → Outcome PageView) (depth : ℕ) (tx : TxView) (b : Bucket) (k rounds : ℕ)
      (fn : S → Bytes → S × Option E) (s : S) (t : Tree)
    → tx.is_open ≡ true
    → Holds (page_node pages depth b) t
    → id_of t ≡ b.root
    → height t ≤ depth
    → leaves t < k
    → length (items t) < rounds
    → for_each_bucket pages depth tx b k rounds fn s
      ≡ ok (visit (λ s' e. fn s' e.key) s (buckets (items t)))
unfolding for_each_bucket
for_each_bucket-visit pages depth tx b k rounds fn s t opened h at low few enough = rw opened (
    ap (each_bucket (page_node pages depth b) depth k rounds fn s) (sym at)
    ∙ each_bucket-visit (page_node pages depth b) depth k rounds s t h low few enough fn)
