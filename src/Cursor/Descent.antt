-- ===== src/Cursor/Descent.antt =====
-- The way down of goToFirstElementOnTheStack over a tree.
use bbolt.Prelude.{
  ℕ, zero, suc, ◌+◌, ◌<◌, ◌≤◌, ◌≡◌, ◌⊎◌, refl, sym, ap, ◌∙◌, arith, List, ◌∷◌, ◌++◌, true, Outcome,
  ok, if◌then◌else◌, length,
}
use mathlib.Core.List.{append_assoc}
use bbolt.Cursor.{PageNode, ElemRef, elements, descend, child_id, count_of}
use bbolt.Cursor.Moves.{descend_leaf, descend_branch}
use bbolt.Cursor.Tree.{Tree, leaf, branch, id_of, inodes_of, items, height, Holds}
use bbolt.Cursor.Places.{
  At, Trail, behind, from_top, items_from, items_from_start, leafy, leaves_behind, leaves_from,
  leaves_from_start, nth_child, sees, some_child, zero_or_more,
}

module _ (look : ℕ → Outcome PageNode) (depth : ℕ) where
  -- Where the way down to the first item ends.
  pub record Descended (r : ElemRef) (t : Tree) (s : List ElemRef) (ts : List Tree)
      (o : Outcome (List ElemRef)) : Type 0 where
    pub top : ElemRef
    pub stack : List ElemRef
    pub bottom : Tree
    pub trees : List Tree
    pub returned : o ≡ ok (top ∷ stack)
    pub is_bottom : leafy bottom ≡ true
    pub pointing : (top.index < count_of top) ⊎ (count_of top ≡ 0)
    pub stays : leafy t ≡ true → top ≡ r
    pub path : Trail look depth (top ∷ stack) (bottom ∷ trees)
    pub same_items : from_top (top ∷ stack) (bottom ∷ trees) ≡ items_from t r.index ++ behind s ts
    pub same_leaves :
        leaves_behind (top ∷ stack) (bottom ∷ trees) + 1
        ≤ leaves_from t r.index + leaves_behind s ts + (if leafy t then 1 else 0)

  pub descend-Descended :
      (k : ℕ) (r : ElemRef) (t : Tree) (s : List ElemRef) (ts : List Tree)
      → height t ≤ k
      → At look depth r t
      → Trail look depth s ts
      → (r.index < count_of r) ⊎ (count_of r ≡ 0)
      → Descended r t s ts (descend look depth (λ p. 0) k (r ∷ s))
  unfolding height
  descend-Descended zero r (leaf id xs) s ts h a p i = absurd (omega arith)
  descend-Descended zero r (branch id cs) s ts h a p i = absurd (omega arith)
  descend-Descended (suc k) r (leaf id xs) s ts h a p i = record {
    top = r;
    stack = s;
    bottom = leaf id xs;
    trees = ts;
    returned = descend_leaf look depth (λ p. 0) k r s a.kind;
    is_bottom = refl;
    pointing = i;
    stays = λ q. refl;
    path = (a, p);
    same_items = refl;
    same_leaves = omega arith;
  }
  descend-Descended (suc k) r (branch id cs) s ts h a p i =
      let some_elem : 0 < length (inodes_of cs) = some_child look (branch id cs) a.below refl in
      let inside : r.index < length (inodes_of cs) = ground (arith, i, ap length a.holds) in
      let (e, t, get, names, below, low, same, leaf_sum) =
        nth_child look r.index cs inside (unfold Holds in a.below.2) in
      let sub = sees look t below in
      let r' : ElemRef = record { ref = sub.seen; index = 0 } in
      let at : At look depth r' t = record {
        kind = sub.kind;
        holds = sub.holds;
        below = below;
        low = omega (arith, a.low);
      } in
      let goes : child_id r ≡ ok (id_of t) = rw (a.holds, get, names) refl in
      let rest =
        descend-Descended k r' t (r ∷ s) (branch id cs ∷ ts) (omega arith) at (a, p)
          (zero_or_more (length (elements sub.seen))) in
      record {
        top = rest.top;
        stack = rest.stack;
        bottom = rest.bottom;
        trees = rest.trees;
        returned =
            descend_branch look depth (λ p'. 0) k r s a.kind ∙ rw (goes, sub.looked) rest.returned;
        is_bottom = rest.is_bottom;
        pointing = rest.pointing;
        stays = λ q. absurd (cc);
        path = rest.path;
        same_items =
            rest.same_items
            ∙ rw (items_from_start t, same) (sym (append_assoc (items t) _ (behind s ts)));
        same_leaves = omega (arith, rest.same_leaves, leaves_from_start t, leaf_sum);
      }
