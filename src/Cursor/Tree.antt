-- ===== src/Cursor/Tree.antt =====
-- The B+tree that pages and nodes hold. Of a branch each child stands with the inode that names it.
use bbolt.Prelude.{ℕ, zero, suc, ◌+◌, ◌≡◌, List, [], ◌∷◌, ◌++◌, Bool, true, false, Outcome, ok}
use Prim.Native.Nat.{max}
use bbolt.Node.{Inode}
use bbolt.Cursor.{PageNode, is_leaf, elements, is_tree_page}

mutual
  pub data Tree : Type 0 where
    leaf : ℕ → List Inode → Tree
    branch : ℕ → Children → Tree

  pub data Children : Type 0 where
    end : Children
    child : Inode → Tree → Children → Children

abbrev pub id_of : Tree → ℕ
id_of (leaf id items) = id
id_of (branch id cs) = id

abbrev pub inodes_of : Children → List Inode
inodes_of end = []
inodes_of (child e t cs) = e ∷ inodes_of cs

unfoldable mutual
  -- The items of a tree, from left to right.
  pub items : Tree → List Inode
  items (leaf id xs) = xs
  items (branch id cs) = items_all cs

  pub items_all : Children → List Inode
  items_all end = []
  items_all (child e t cs) = items t ++ items_all cs

unfoldable mutual
  pub height : Tree → ℕ
  height (leaf id xs) = 1
  height (branch id cs) = suc (height_all cs)

  pub height_all : Children → ℕ
  height_all end = 0
  height_all (child e t cs) = max (height t) (height_all cs)

unfoldable mutual
  pub leaves : Tree → ℕ
  leaves (leaf id xs) = 1
  leaves (branch id cs) = leaves_all cs

  pub leaves_all : Children → ℕ
  leaves_all end = 0
  leaves_all (child e t cs) = leaves t + leaves_all cs

-- What an id gives when it is looked at.
pub record Sees (look : ℕ → Outcome PageNode) (id : ℕ) (at_leaf : Bool) (xs : List Inode)
    : Type 0 where
  pub seen : PageNode
  pub looked : look id ≡ ok seen
  pub kind : is_leaf seen ≡ at_leaf
  pub holds : elements seen ≡ xs
  pub typed : is_tree_page seen ≡ true

abbrev pub SomeChild : Children → Type 0
SomeChild end = true ≡ false
SomeChild (child e t cs) = Unit

-- The pages and nodes of a tree are there, and no branch is empty.
unfoldable mutual
  pub Holds : (ℕ → Outcome PageNode) → Tree → Type 0
  Holds look (leaf id xs) = Sees look id true xs
  Holds look (branch id cs) = Sees look id false (inodes_of cs) × SomeChild cs × HoldsAll look cs

  pub HoldsAll : (ℕ → Outcome PageNode) → Children → Type 0
  HoldsAll look end = Unit
  HoldsAll look (child e t cs) = (e.pgid ≡ id_of t) × Holds look t × HoldsAll look cs

abbrev pub drop_children : ℕ → Children → Children
drop_children zero cs = cs
drop_children (suc i) end = end
drop_children (suc i) (child e t cs) = drop_children i cs
