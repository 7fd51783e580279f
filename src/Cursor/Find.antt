-- ===== src/Cursor/Find.antt =====
-- seek goes down a tree whose keys are in order to the leaf where the key belongs.
use bbolt.Prelude.{
  ℕ, zero, suc, ◌<◌, ◌≤◌, ◌≡◌, refl, sym, ap, ◌∙◌, arith, List, [], ◌∷◌, true, false, Outcome, ok,
  Option, none, some, if◌then◌else◌, get_elem?, length,
}
use bbolt.Node.{Inode, Bytes, is_exact, equal}
use bbolt.Node.Put.{Ordered, get}
use bbolt.Cursor.{
  PageNode, ElemRef, Entry, entry_at, elements, is_leaf, is_tree_page, child_id, leaf_index,
  branch_index, search, seek,
}
use bbolt.Cursor.Tree.{
  Tree, leaf, branch, Children, end, child, id_of, inodes_of, items, height, height_all, Sees,
  Holds, HoldsAll,
}
use bbolt.Cursor.Places.{some_child}
use bbolt.Cursor.Routes.{get-Around, branch_index-Routed, leaf_index-Around}
use bbolt.Cursor.Seek.{InOrder, Separated, nth_tree, get-Routed}

-- The leaf that a search comes to.
pub record Located (look : ℕ → Outcome PageNode) (key : Bytes) (t : Tree) (stack : List ElemRef)
    (o : Outcome (List ElemRef)) : Type 0 where
  pub leaf_id : ℕ
  pub xs : List Inode
  pub sees : Sees look leaf_id true xs
  pub below : List ElemRef
  pub returned : o ≡ ok (record { ref = sees.seen; index = leaf_index key xs } ∷ below)
  pub ordered : Ordered xs
  pub same : get key (items t) ≡ get key xs

-- The child at an index, with what a search needs of it.
routed_child :
    (look : ℕ → Outcome PageNode) (i : ℕ) (cs : Children)
    → i < length (inodes_of cs)
    → HoldsAll look cs
    → Separated cs
    → (e : Inode) × (t : Tree) × (get_elem? (inodes_of cs) i ≡ some e)
      × (nth_tree i cs ≡ some t)
      × (e.pgid ≡ id_of t)
      × Holds look t
      × InOrder t
      × (height t ≤ height_all cs)
unfolding Holds InOrder height
routed_child look i end h a s = absurd (omega arith)
routed_child look zero (child e t cs) h a s = (e, t, refl, refl, a.0, a.1, s.0, omega arith)
routed_child look (suc i) (child e t cs) h a s =
    let (e', t', g, n, p, b, o, l) = routed_child look i cs (omega arith) a.2 s.2 in
    (e', t', g, n, p, b, o, omega arith)

module _ (look : ℕ → Outcome PageNode) (depth : ℕ) (key : Bytes) where
  -- One round of search, on a leaf and on a branch.
  search_leaf :
      (k id : ℕ) (stack : List ElemRef) (p : PageNode)
      → look id ≡ ok p
      → is_tree_page p ≡ true
      → is_leaf p ≡ true
      → search look depth (suc k) key id stack
        ≡ ok (record { ref = p; index = leaf_index key (elements p) } ∷ stack)
  unfolding search
  search_leaf k id stack p looked typed kind = rw (looked, typed, kind) refl

  search_branch :
      (k id next : ℕ) (stack : List ElemRef) (p : PageNode)
      → look id ≡ ok p
      → is_tree_page p ≡ true
      → is_leaf p ≡ false
      → child_id (record { ref = p; index = branch_index key (elements p) }) ≡ ok next
      → search look depth (suc k) key id stack
        ≡ search look depth k key next
            (record { ref = p; index = branch_index key (elements p) } ∷ stack)
  unfolding search
  search_branch k id next stack p looked typed kind goes = rw (looked, typed, kind, goes) refl

  pub search-Located :
      (k : ℕ) (t : Tree) (stack : List ElemRef)
      → Holds look t
      → InOrder t
      → height t ≤ k
      → Located look key t stack (search look depth k key (id_of t) stack)
  unfolding Holds InOrder items height
  search-Located zero (leaf id xs) stack h o low = absurd (omega arith)
  search-Located zero (branch id cs) stack h o low = absurd (omega arith)
  search-Located (suc k) (leaf id xs) stack h o low = record {
    leaf_id = id;
    xs = xs;
    sees = h;
    below = stack;
    returned = search_leaf k id stack h.seen h.looked h.typed h.kind ∙ rw h.holds refl;
    ordered = o;
    same = refl;
  }
  search-Located (suc k) (branch id cs) stack h o low =
      let at = h.0 in
      let i = branch_index key (inodes_of cs) in
      let route =
        branch_index-Routed key (inodes_of cs) o.0 (some_child look (branch id cs) h refl) in
      let (e, t, get_e, nth, names, below, ordered, lower) =
        routed_child look i cs route.inside h.2 o.1 in
      let goes : child_id (record { ref = at.seen; index = branch_index key (elements at.seen) })
          ≡ ok (id_of t) =
        rw (at.holds, get_e, names) refl in
      let rest =
        search-Located k t
          (record { ref = at.seen; index = branch_index key (elements at.seen) } ∷ stack) below
          ordered (omega arith) in
      record {
        leaf_id = rest.leaf_id;
        xs = rest.xs;
        sees = rest.sees;
        below = rest.below;
        returned =
            search_branch k id (id_of t) stack at.seen at.looked at.typed at.kind goes
            ∙ rest.returned;
        ordered = rest.ordered;
        same = get-Routed key i cs t o.0 o.1 route nth ∙ rest.same;
      }

-- The item that a seek gives, if it has the key.
abbrev pub hit : Bytes → Option Entry → Option Entry
hit key none = none
hit key (some e) = if equal e.key key then some e else none

hit_leaf :
    (key : Bytes) (i : ℕ) (xs : List Inode)
    → hit key (entry_at (get_elem? xs i))
      ≡ entry_at (if is_exact xs key i then get_elem? xs i else none)
hit_leaf key i xs = by_elem (get_elem? xs i)
  where
    by_elem :
        (g : Option Inode)
        → hit key (entry_at g)
          ≡ entry_at (if elim g [ none ↦ false | some item ↦ equal item.key key ] then g else none)
    by_elem none = refl
    by_elem (some x) = ground arith

-- The leaf that seek comes to, and the item there.
pub record Reached (look : ℕ → Outcome PageNode) (key : Bytes) (found : Option Inode)
    (o : Outcome (List ElemRef × Option Entry)) : Type 0 where
  pub leaf_id : ℕ
  pub ref : PageNode
  pub index : ℕ
  pub below : List ElemRef
  pub entry : Option Entry
  pub returned : o ≡ ok (record { ref = ref; index = index } ∷ below, entry)
  pub looked : look leaf_id ≡ ok ref
  pub kind : is_leaf ref ≡ true
  pub hits : hit key entry ≡ entry_at found

pub seek-Reached :
    (look : ℕ → Outcome PageNode) (depth : ℕ) (key : Bytes) (t : Tree)
    → Holds look t
    → InOrder t
    → height t ≤ depth
    → Reached look key (get key (items t)) (seek look depth key (id_of t))
unfolding seek
seek-Reached look depth key t h o low =
    let f = search-Located look depth key depth t [] h o low in
    record {
      leaf_id = f.leaf_id;
      ref = f.sees.seen;
      index = leaf_index key f.xs;
      below = f.below;
      entry = entry_at (get_elem? (elements f.sees.seen) (leaf_index key f.xs));
      returned = rw f.returned refl;
      looked = f.sees.looked;
      kind = f.sees.kind;
      hits =
          rw f.sees.holds (hit_leaf key (leaf_index key f.xs) f.xs)
          ∙ ap entry_at (
              sym (
                f.same
                ∙ get-Around key (leaf_index key f.xs) f.xs f.ordered
                    (leaf_index-Around key f.xs)));
    }

-- seek on a tree whose keys are in order returns; if it gives an item with the key, that is the item
-- that the tree has under it, and otherwise the tree has none.
pub seek-get :
    (look : ℕ → Outcome PageNode) (depth : ℕ) (key : Bytes) (t : Tree)
    → Holds look t
    → InOrder t
    → height t ≤ depth
    → (stack : List ElemRef) × (e : Option Entry) × (seek look depth key (id_of t) ≡ ok (stack, e))
      × (hit key e ≡ entry_at (get key (items t)))
seek-get look depth key t h o low =
    let r = seek-Reached look depth key t h o low in
    (record { ref = r.ref; index = r.index } ∷ r.below, r.entry, r.returned, r.hits)
