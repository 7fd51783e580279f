-- ===== src/Check/Sound.antt =====
-- The check of key order against the order that a search needs.
use bbolt.Prelude.{
  ℕ, zero, suc, ◌+◌, ◌<◌, ◌≤◌, ◌≡◌, refl, ap, ◌∙◌, arith, List, [], ◌∷◌, ◌++◌, Bool, true, false,
  Outcome, ok, panic, out_of_fuel, ◌>>=◌, ◌==◌, Option, none, some, length,
}
use bbolt.Page.{has_flag, branch_page_flag, leaf_page_flag}
use bbolt.Node.{Bytes, Inode, less}
use bbolt.Node.Keys.{less-equal, less_irrefl}
use bbolt.Node.Put.{Ordered}
use bbolt.Cursor.{PageView}
use bbolt.Cursor.Tree.{
  Tree, leaf, branch, Children, end, child, id_of, inodes_of, items, items_all, height, height_all,
  SomeChild,
}
use bbolt.Cursor.Seek.{AllFrom-append, InOrder, Separated, AllBelow, AllFrom}
use bbolt.Check.{
  CheckError, verify_key_order, after_ancestor, before_next, check_leaf, check_branch, check_pages,
  Checked, recursively_check_pages,
}
use bbolt.Check.Bounds.{
  AllBelow-weaken, AllFrom-front, AllFrom-weaken, Below, Below-append, From, From-weaken, less-from,
  quiet_append, quiet_next, quiet_previous,
}

-- The page of an id, as the check reads it.
pub record PageAt (pages : ℕ → Outcome PageView) (id : ℕ) (is_branch : Bool) (xs : List Inode)
    : Type 0 where
  pub page : PageView
  pub found : pages id ≡ ok page
  pub kind : has_flag page.flags branch_page_flag ≡ is_branch
  pub leafy : is_branch ≡ false → has_flag page.flags leaf_page_flag ≡ true
  pub holds : page.elements ≡ xs

-- All pages of a tree are there, and none is empty.
unfoldable mutual
  pub Stored : (ℕ → Outcome PageView) → Tree → Type 0
  Stored pages (leaf id xs) = PageAt pages id false xs × (0 < length xs)
  Stored pages (branch id cs) =
      PageAt pages id true (inodes_of cs) × SomeChild cs × StoredAll pages cs

  pub StoredAll : (ℕ → Outcome PageView) → Children → Type 0
  StoredAll pages end = Unit
  StoredAll pages (child e t cs) = (e.pgid ≡ id_of t) × Stored pages t × StoredAll pages cs

some_append : (xs ys : List Inode) → 0 < length xs → 0 < length (xs ++ ys)
some_append [] ys h = absurd (omega arith)
some_append (x ∷ xs) ys h = omega arith

Below-none : (max : Option Bytes) → Below max []
Below-none none = tt
Below-none (some key) = tt

Below-weaken :
    (max : Option Bytes) (e : Inode) (xs : List Inode)
    → AllBelow e.key xs
    → Below max (e ∷ [])
    → Below max xs
Below-weaken none e xs h b = tt
Below-weaken (some key) e xs h b = AllBelow-weaken e.key key xs b.0 h

-- Every tree with its pages stored has an item.
some_item : (pages : ℕ → Outcome PageView) (t : Tree) → Stored pages t → 0 < length (items t)
unfolding Stored items
some_item pages (leaf id xs) h = h.1
some_item pages (branch id end) h = absurd (cc)
some_item pages (branch id (child e t cs)) h =
    some_append (items t) (items_all cs) (some_item pages t h.2.1)

-- A key between the two bounds of items that are there.
between-less :
    (a b : Bytes) (xs : List Inode) → 0 < length xs → AllFrom a xs → AllBelow b xs → less a b ≡ true
between-less a b [] some_x h k = absurd (omega arith)
between-less a b (x ∷ xs) some_x h k = less-from a x.key b h.0 k.0

-- What the check finds nothing wrong with.
pub record Checks (min max : Option Bytes) (t : Tree) : Type 0 where
  pub in_order : InOrder t
  pub from : From min (items t)
  pub below : Below max (items t)

-- A leaf without errors, from an element on.
check_leaf-quiet :
    (id : ℕ) (max : Option Bytes) (index : ℕ) (running_min : Option Bytes) (x : Inode)
    (xs : List Inode)
    → check_leaf id max index running_min (x ∷ xs) ≡ []
    → Ordered (x ∷ xs) × AllFrom x.key (x ∷ xs) × Below max (x ∷ xs)
unfolding check_leaf verify_key_order
check_leaf-quiet id max index running_min x [] h =
    let (v, later) = quiet_append (verify_key_order id index x.key running_min max) [] h in
    let (a, b) = quiet_append _ (before_next id index x.key max) v in
    (tt, (less_irrefl x.key, tt), quiet_next id index x.key max x refl b)
check_leaf-quiet id max index running_min x (y ∷ xs) h =
    let (v, later) =
      quiet_append (verify_key_order id index x.key running_min max)
        (check_leaf id max (index + 1) (some x.key) (y ∷ xs)) h in
    let (a, b) = quiet_append _ (before_next id index x.key max) v in
    let (o, f, l) = check_leaf-quiet id max (index + 1) (some x.key) y xs later in
    let (v', later') =
      quiet_append (verify_key_order id (index + 1) y.key (some x.key) max) _ later in
    let (a', b') = quiet_append _ (before_next id (index + 1) y.key max) v' in
    let next_index : (index + 1 == 0) ≡ false = ground arith in
    let step : less x.key y.key ≡ true =
      quiet_previous id (index + 1) y.key x.key (rw next_index at a') in
    (
      (step, o),
      (less_irrefl x.key, AllFrom-weaken x.key y.key (y ∷ xs) (less-equal x.key y.key step).0 f),
      Below-append max (x ∷ []) (y ∷ xs) (quiet_next id index x.key max x refl b) l,
    )

errors_of : Checked → List CheckError
errors_of (ok (m, errors)) = errors
errors_of panic = []
errors_of out_of_fuel = []

errors_in : Outcome (List CheckError) → List CheckError
errors_in (ok errors) = errors
errors_in panic = []
errors_in out_of_fuel = []

-- A round of the loop that finds nothing: the subtree, the rest and the element itself are without errors.
Quiet : Checked → (Option Bytes → Checked) → List CheckError → Type 0
Quiet o rest v =
    (m1 : Option Bytes) × (m2 : Option Bytes) × (o ≡ ok (m1, []))
    × (rest m1 ≡ ok (m2, []))
    × (v ≡ [])

abbrev join_errors : List CheckError → List CheckError → Option Bytes × List CheckError → Checked
join_errors v below (largest, later) = ok (largest, v ++ below ++ later)

Quiet-round :
    (o : Checked) (rest : Option Bytes → Checked) (v : List CheckError) (m : Option Bytes)
    → (◌>>=◌ {B = Option Bytes × List CheckError} o
        (λ (m1, below). rest m1 >>= join_errors v below))
      ≡ ok (m, [])
    → Quiet o rest v
unfolding Quiet errors_of
Quiet-round panic rest v m h = absurd (cc)
Quiet-round out_of_fuel rest v m h = absurd (cc)
Quiet-round (ok (m1, below)) rest v m h = by_rest (rest m1) refl h
  where
    by_rest :
        (o : Checked)
        → rest m1 ≡ o
        → (o >>= join_errors v below) ≡ ok (m, [])
        → Quiet (ok (m1, below)) rest v
    by_rest panic same h' = absurd (cc)
    by_rest out_of_fuel same h' = absurd (cc)
    by_rest (ok (m2, later)) same h' =
        let (q, none_later) = quiet_append (v ++ below) later (ap errors_of h') in
        let (none_here, none_below) = quiet_append v below q in
        (m1, m2, ap (λ b. ok (m1, b)) none_below, same ∙ ap (λ l. ok (m2, l)) none_later, none_here)

-- What a loop over children finds nothing wrong with.
record ChecksAll (max : Option Bytes) (index : ℕ) (running_min : Option Bytes) (e : Inode)
    (t : Tree) (cs : Children) : Type 0 where
  ordered : Ordered (e ∷ inodes_of cs)
  separated : Separated (child e t cs)
  from : AllFrom e.key (items_all (child e t cs))
  below : Below max (items_all (child e t cs))
  key_below : Below max (e ∷ [])
  element : verify_key_order e.pgid index e.key running_min max ≡ []

module _ (pages : ℕ → Outcome PageView) (k : ℕ)
    (ih : (t : Tree) (min max m : Option Bytes)
      → Stored pages t
      → height t ≤ k
      → check_pages pages k (id_of t) min max ≡ ok (m, [])
      → Checks min max t) where
  check_branch-quiet :
      (max : Option Bytes) (index : ℕ) (running_min largest m : Option Bytes) (e : Inode) (t : Tree)
      (cs : Children)
      → StoredAll pages (child e t cs)
      → height_all (child e t cs) ≤ k
      → check_branch (check_pages pages k) max index running_min largest (e ∷ inodes_of cs)
        ≡ ok (m, [])
      → ChecksAll max index running_min e t cs
  unfolding Quiet check_branch verify_key_order Stored InOrder items height
  check_branch-quiet max index running_min largest m e t end s low h =
      let (m1, m2, first, after, v) =
        Quiet-round (check_pages pages k e.pgid (some e.key) max)
          (λ m'. check_branch (check_pages pages k) max (index + 1) m' m' [])
          (verify_key_order e.pgid index e.key running_min max) m h in
      let (a, b) = quiet_append _ (before_next e.pgid index e.key max) v in
      let c = ih t (some e.key) max m1 s.1 (omega arith) (rw s.0 at first) in
      record {
        ordered = tt;
        separated = (c.in_order, tt, tt);
        from = AllFrom-append e.key (items t) [] c.from tt;
        below = Below-append max (items t) [] c.below (Below-none max);
        key_below = quiet_next e.pgid index e.key max e refl b;
        element = v;
      }
  check_branch-quiet max index running_min largest m e t (child e' t' cs) s low h =
      let (m1, m2, first, after, v) =
        Quiet-round (check_pages pages k e.pgid (some e.key) (some e'.key))
          (λ m'.
            check_branch (check_pages pages k) max (index + 1) m' m' (inodes_of (child e' t' cs)))
          (verify_key_order e.pgid index e.key running_min max) m h in
      let (a, b) = quiet_append _ (before_next e.pgid index e.key max) v in
      let c = ih t (some e.key) (some e'.key) m1 s.1 (omega arith) (rw s.0 at first) in
      let r = check_branch-quiet max (index + 1) m1 m1 m2 e' t' cs s.2 (omega arith) after in
      let step : less e.key e'.key ≡ true =
        between-less e.key e'.key (items t) (some_item pages t s.1) c.from c.below in
      record {
        ordered = (step, r.ordered);
        separated = (
          c.in_order,
          (c.below, AllFrom-front e'.key (items t') (items_all cs) r.from),
          r.separated,
        );
        from = AllFrom-append e.key (items t) (items_all (child e' t' cs)) c.from (
            AllFrom-weaken e.key e'.key (items_all (child e' t' cs))
              (less-equal e.key e'.key step).0 r.from);
        below =
            Below-append max (items t) (items_all (child e' t' cs))
              (Below-weaken max e' (items t) c.below r.key_below) r.below;
        key_below = quiet_next e.pgid index e.key max e refl b;
        element = v;
      }

-- The check of a subtree that finds nothing.
pub check_pages-Checks :
    (pages : ℕ → Outcome PageView) (k : ℕ) (t : Tree) (min max m : Option Bytes)
    → Stored pages t
    → height t ≤ k
    → check_pages pages k (id_of t) min max ≡ ok (m, [])
    → Checks min max t
unfolding check_pages check_leaf verify_key_order Stored InOrder items height errors_of
check_pages-Checks pages zero (leaf id xs) min max m s low h = absurd (omega arith)
check_pages-Checks pages zero (branch id cs) min max m s low h = absurd (omega arith)
check_pages-Checks pages (suc k) (leaf id []) min max m s low h = absurd (omega arith)
check_pages-Checks pages (suc k) (leaf id (x ∷ xs)) min max m s low h =
    let at = s.0 in
    let h' = rw (at.found, at.kind, at.leafy refl, at.holds) at h in
    let quiet : check_leaf id max 0 min (x ∷ xs) ≡ [] = ap errors_of h' in
    let (o, f, l) = check_leaf-quiet id max 0 min x xs quiet in
    let (v, later) =
      quiet_append (verify_key_order id 0 x.key min max) (check_leaf id max 1 (some x.key) xs)
        quiet in
    let (a, b) = quiet_append (after_ancestor id 0 x.key min) (before_next id 0 x.key max) v in
    record { in_order = o; from = From-weaken min id x.key (x ∷ xs) a f; below = l }
check_pages-Checks pages (suc k) (branch id end) min max m s low h = absurd (cc)
check_pages-Checks pages (suc k) (branch id (child e t cs)) min max m s low h =
    let at = s.0 in
    let h' = rw (at.found, at.kind, at.holds) at h in
    let r =
      check_branch-quiet pages k (check_pages-Checks pages k) max 0 min none m e t cs s.2
        (omega arith) h' in
    let (a, b) =
      quiet_append (after_ancestor e.pgid 0 e.key min) (before_next e.pgid 0 e.key max) r.element in
    record {
      in_order = (r.ordered, r.separated);
      from = From-weaken min e.pgid e.key (items_all (child e t cs)) a r.from;
      below = r.below;
    }

-- If all pages of a tree are there and none is empty, and the check of its root reports no error, then the
-- keys of the tree are in order: in each leaf and each branch strictly, and those of each child from
-- the key of its element on and below the key of the next element, as the search of a cursor needs it.
pub recursively_check_pages-InOrder :
    (pages : ℕ → Outcome PageView) (depth : ℕ) (t : Tree)
    → Stored pages t
    → height t ≤ depth
    → recursively_check_pages pages depth (id_of t) ≡ ok []
    → InOrder t
unfolding recursively_check_pages errors_in
recursively_check_pages-InOrder pages depth t s low h =
    by_result (check_pages pages depth (id_of t) none none) refl h
  where
    by_result :
        (o : Checked)
        → check_pages pages depth (id_of t) none none ≡ o
        → (o >>= λ (m, errors). ok errors) ≡ ok []
        → InOrder t
    by_result panic same h' = absurd (cc)
    by_result out_of_fuel same h' = absurd (cc)
    by_result (ok (m, errors)) same h' =
        (check_pages-Checks pages depth t none none m s low
          (same ∙ ap (λ e. ok (m, e)) (ap errors_in h'))).in_order
