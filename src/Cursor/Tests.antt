-- ===== src/Cursor/Tests.antt =====
-- A branch over two leaves, and the theorems of the cursor at it.
use bbolt.Prelude.{
  ℕ, ◌≤◌, ◌<◌, ◌≡◌, refl, arith, List, [], ◌∷◌, Outcome, ok, panic, ◌>>=◌, Option, none,
  if◌then◌else◌, ◌==◌,
}
use bbolt.Page.{branch_page_flag, leaf_page_flag, bucket_leaf_flag}
use bbolt.Node.{Inode}
use bbolt.Node.Put.{get}
use bbolt.Cursor.{
  PageView, PageNode, of_page, ElemRef, Entry, entry_at, seek, prev_items, hide_bucket,
}
use bbolt.Cursor.Tree.{Tree, leaf, branch, end, child, items, height, leaves, Holds}
use bbolt.Cursor.Seek.{InOrder}
use bbolt.Cursor.Find.{seek-get, hit}
use bbolt.Cursor.Skip.{prev_items-calls, calls_of_prev}

abbrev pub item : ℕ → Inode
item c = record { flags = 0; pgid = 0; key = c ∷ []; value = 7 ∷ [] }

-- A child bucket.
abbrev pub bucket_item : ℕ → Inode
bucket_item c = record { flags = bucket_leaf_flag; pgid = 0; key = c ∷ []; value = 0 ∷ [] }

abbrev pub link : ℕ → ℕ → Inode
link c id = record { flags = 0; pgid = id; key = c ∷ []; value = [] }

abbrev pub low_items : List Inode
low_items = item 1 ∷ bucket_item 2 ∷ []

abbrev pub high_items : List Inode
high_items = item 5 ∷ item 6 ∷ item 9 ∷ []

abbrev pub links : List Inode
links = link 1 4 ∷ link 5 5 ∷ []

abbrev pub pages : ℕ → Outcome PageView
pages id =
    if id == 3
    then ok (record { id = 3; flags = branch_page_flag; elements = links })
    else if id == 4
    then ok (record { id = 4; flags = leaf_page_flag; elements = low_items })
    else if id == 5
    then ok (record { id = 5; flags = leaf_page_flag; elements = high_items })
    else panic

abbrev pub look : ℕ → Outcome PageNode
look id = pages id >>= λ p. ok (of_page p)

abbrev pub tree : Tree
tree = branch 3 (child (link 1 4) (leaf 4 low_items) (child (link 5 5) (leaf 5 high_items) end))

abbrev pub branch_page : PageView
branch_page = record { id = 3; flags = branch_page_flag; elements = links }

abbrev pub low_page : PageView
low_page = record { id = 4; flags = leaf_page_flag; elements = low_items }

abbrev pub high_page : PageView
high_page = record { id = 5; flags = leaf_page_flag; elements = high_items }

pub tree-Holds :
    (read : ℕ → Outcome PageNode)
    → read 3 ≡ ok (of_page branch_page)
    → read 4 ≡ ok (of_page low_page)
    → read 5 ≡ ok (of_page high_page)
    → Holds read tree
unfolding Holds
tree-Holds read a b c = (
  record { seen = of_page branch_page; looked = a; kind = refl; holds = refl; typed = refl },
  tt,
  (
    refl,
    record { seen = of_page low_page; looked = b; kind = refl; holds = refl; typed = refl },
    (
      refl,
      record { seen = of_page high_page; looked = c; kind = refl; holds = refl; typed = refl },
      tt,
    ),
  ),
)

pub tree-InOrder : InOrder tree
unfolding InOrder items
tree-InOrder = (
  (refl, tt),
  ((refl, tt), ((refl, (refl, tt)), (refl, (refl, (refl, tt)))), ((refl, (refl, tt)), tt, tt)),
)

pub tree_height : height tree ≤ 4
unfolding height
tree_height = omega arith

pub tree_leaves : leaves tree < 5
unfolding leaves
tree_leaves = omega arith

seek-get_example :
    (stack : List ElemRef) × (e : Option Entry) × (seek look 4 (6 ∷ []) 3 ≡ ok (stack, e))
    × (hit (6 ∷ []) e ≡ entry_at (get (6 ∷ []) (items tree)))
seek-get_example =
    seek-get look 4 (6 ∷ []) tree (tree-Holds look refl refl refl) tree-InOrder tree_height

-- On the second item of the right leaf: two elements back are the first of it and the last of the left.
abbrev on_second : List ElemRef
on_second =
    record {
      ref = of_page (record { id = 5; flags = leaf_page_flag; elements = high_items });
      index = 1;
    }
    ∷ record {
      ref = of_page (record { id = 3; flags = branch_page_flag; elements = links });
      index = 1;
    }
    ∷ []

prev_items-calls_example :
    prev_items look 4 2 on_second
    ≡ calls_of_prev look 4 2 0 on_second none >>= λ (c, s, e). ok (c, s, hide_bucket e)
prev_items-calls_example = prev_items-calls look 3 1 on_second (refl, (refl, tt))
