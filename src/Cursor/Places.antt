-- ===== src/Cursor/Places.antt =====
-- Places in a tree: the stack of a cursor beside the trees of its pages, and the items behind it.
use bbolt.Prelude.{
  ℕ, zero, suc, ◌+◌, ◌<◌, ◌≤◌, ◌≡◌, ◌⊎◌, refl, arith, List, [], ◌∷◌, ◌++◌, Bool, true, false, inl,
  inr, Outcome, some, if◌then◌else◌, get_elem?, length, drop,
}
use bbolt.Node.{Inode}
use bbolt.Cursor.{PageNode, ElemRef, elements, is_leaf}
use bbolt.Cursor.Tree.{
  Tree, leaf, branch, Children, end, child, id_of, inodes_of, items, items_all, height, height_all,
  leaves, leaves_all, Sees, Holds, HoldsAll, drop_children,
}

-- The items of a tree from an index of its root page on, and the leaves below.
abbrev pub items_from : Tree → ℕ → List Inode
items_from (leaf id xs) i = drop i xs
items_from (branch id cs) i = items_all (drop_children i cs)

abbrev pub leaves_from : Tree → ℕ → ℕ
leaves_from (leaf id xs) i = 0
leaves_from (branch id cs) i = leaves_all (drop_children i cs)

abbrev pub elems_of : Tree → List Inode
elems_of (leaf id xs) = xs
elems_of (branch id cs) = inodes_of cs

abbrev pub leafy : Tree → Bool
leafy (leaf id xs) = true
leafy (branch id cs) = false

module _ (look : ℕ → Outcome PageNode) (depth : ℕ) where
  -- A ref to the root page of a tree.
  pub record At (r : ElemRef) (t : Tree) : Type 0 where
    pub kind : is_leaf r.ref ≡ leafy t
    pub holds : elements r.ref ≡ elems_of t
    pub below : Holds look t
    pub low : height t ≤ depth

  abbrev pub Trail : List ElemRef → List Tree → Type 0
  Trail [] [] = Unit
  Trail [] (t ∷ ts) = true ≡ false
  Trail (r ∷ s) [] = true ≡ false
  Trail (r ∷ s) (t ∷ ts) = At r t × Trail s ts

-- The items behind the refs of a stack, and the leaves.
abbrev pub behind : List ElemRef → List Tree → List Inode
behind [] ts = []
behind (r ∷ s) [] = []
behind (r ∷ s) (t ∷ ts) = items_from t (suc r.index) ++ behind s ts

abbrev pub leaves_behind : List ElemRef → List Tree → ℕ
leaves_behind [] ts = 0
leaves_behind (r ∷ s) [] = 0
leaves_behind (r ∷ s) (t ∷ ts) = leaves_from t (suc r.index) + leaves_behind s ts

-- The items from the top of the stack on.
abbrev pub from_top : List ElemRef → List Tree → List Inode
from_top [] ts = []
from_top (r ∷ s) [] = []
from_top (r ∷ s) (t ∷ ts) = items_from t r.index ++ behind s ts

-- The child at an index.
pub nth_child :
    (look : ℕ → Outcome PageNode) (i : ℕ) (cs : Children)
    → i < length (inodes_of cs)
    → HoldsAll look cs
    → (e : Inode) × (t : Tree) × (get_elem? (inodes_of cs) i ≡ some e)
      × (e.pgid ≡ id_of t)
      × Holds look t
      × (height t ≤ height_all cs)
      × (items_all (drop_children i cs) ≡ items t ++ items_all (drop_children (suc i) cs))
      × (leaves_all (drop_children i cs) ≡ leaves t + leaves_all (drop_children (suc i) cs))
unfolding Holds items leaves height
nth_child look i end h a = absurd (omega arith)
nth_child look zero (child e t cs) h a = (e, t, refl, a.0, a.1, omega arith, refl, refl)
nth_child look (suc i) (child e t cs) h a =
    let (e', t', g, p, b, l, x, y) = nth_child look i cs (omega arith) a.2 in
    (e', t', g, p, b, omega arith, x, y)

pub items_from_start : (t : Tree) → items_from t 0 ≡ items t
unfolding items
items_from_start (leaf id xs) = refl
items_from_start (branch id cs) = refl

pub leaves_from_start : (t : Tree) → leaves_from t 0 + (if leafy t then 1 else 0) ≡ leaves t
unfolding leaves
leaves_from_start (leaf id xs) = refl
leaves_from_start (branch id cs) = omega arith

pub sees :
    (look : ℕ → Outcome PageNode) (t : Tree)
    → Holds look t
    → Sees look (id_of t) (leafy t) (elems_of t)
unfolding Holds
sees look (leaf id xs) h = h
sees look (branch id cs) h = h.0

pub some_child :
    (look : ℕ → Outcome PageNode) (t : Tree)
    → Holds look t
    → leafy t ≡ false
    → 0 < length (elems_of t)
unfolding Holds
some_child look (leaf id xs) h e = absurd (cc)
some_child look (branch id end) h e = absurd (cc)
some_child look (branch id (child e' t cs)) h e = omega arith

pub drop_end : (i : ℕ) (xs : List Inode) → length xs ≤ i → drop i xs ≡ []
drop_end zero [] h = refl
drop_end zero (x ∷ xs) h = absurd (omega arith)
drop_end (suc i) [] h = refl
drop_end (suc i) (x ∷ xs) h = drop_end i xs (omega arith)

pub drop_children-end :
    (i : ℕ) (cs : Children) → length (inodes_of cs) ≤ i → drop_children i cs ≡ end
drop_children-end zero end h = refl
drop_children-end zero (child e t cs) h = absurd (omega arith)
drop_children-end (suc i) end h = refl
drop_children-end (suc i) (child e t cs) h = drop_children-end i cs (omega arith)

pub items_from_end :
    (t : Tree) (i : ℕ) → length (elems_of t) ≤ i → (items_from t i ≡ []) × (leaves_from t i ≡ 0)
unfolding items leaves
items_from_end (leaf id xs) i h = (drop_end i xs h, refl)
items_from_end (branch id cs) i h = rw (drop_children-end i cs h) (refl, refl)

pub zero_or_more : (n : ℕ) → (0 < n) ⊎ (n ≡ 0)
zero_or_more zero = inr refl
zero_or_more (suc n) = inl (omega arith)

pub item_here :
    (t : Tree) (i : ℕ)
    → leafy t ≡ true
    → i < length (elems_of t)
    → (e : Inode) × (get_elem? (elems_of t) i ≡ some e)
      × (items_from t i ≡ e ∷ items_from t (suc i))
item_here (branch id cs) i l h = absurd (cc)
item_here (leaf id []) i l h = absurd (omega arith)
item_here (leaf id (x ∷ xs)) zero l h = (x, refl, refl)
item_here (leaf id (x ∷ xs)) (suc i) l h = item_here (leaf id xs) i l (omega arith)

pub length_zero : (xs : List Inode) → length xs ≡ 0 → xs ≡ []
length_zero [] h = refl
length_zero (x ∷ xs) h = absurd (omega arith)

pub at_most_one : (b : Bool) → (if b then 1 else 0) ≤ 1
at_most_one b = ground arith

pub add-one : (i : ℕ) → i + 1 ≡ suc i
add-one i = omega arith
