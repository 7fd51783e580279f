-- ===== src/Check/Tests.antt =====
-- The check at a branch over two leaves, and at a branch over an empty leaf.
use bbolt.Prelude.{ℕ, ◌≡◌, refl, arith, [], ◌∷◌, Outcome, ok, panic, ◌==◌, if◌then◌else◌}
use bbolt.Page.{branch_page_flag, leaf_page_flag}
use bbolt.Cursor.{PageView}
use bbolt.Cursor.Tests.{pages, tree, tree_height, item, link, branch_page, low_page, high_page}
use bbolt.Cursor.Seek.{InOrder}
use bbolt.Check.{recursively_check_pages}
use bbolt.Check.Sound.{Stored, recursively_check_pages-InOrder}

tree-Stored : Stored pages tree
unfolding Stored
tree-Stored = (
  record { page = branch_page; found = refl; kind = refl; leafy = λ q. absurd (cc); holds = refl },
  tt,
  (
    refl,
    (
      record { page = low_page; found = refl; kind = refl; leafy = λ q. refl; holds = refl },
      omega arith,
    ),
    (
      refl,
      (
        record { page = high_page; found = refl; kind = refl; leafy = λ q. refl; holds = refl },
        omega arith,
      ),
      tt,
    ),
  ),
)

tree_passes : recursively_check_pages pages 4 3 ≡ ok []
unfolding recursively_check_pages
tree_passes = refl

recursively_check_pages-InOrder_example : InOrder tree
recursively_check_pages-InOrder_example =
    recursively_check_pages-InOrder pages 4 tree tree-Stored tree_height tree_passes

-- Behind an empty leaf the key of the next element is not compared: 3 after 5 passes.
abbrev disordered : ℕ → Outcome PageView
disordered id =
    if id == 3
    then ok (record {
      id = 3;
      flags = branch_page_flag;
      elements = link 1 4 ∷ link 5 6 ∷ link 3 5 ∷ [];
    })
    else if id == 4
    then ok (record { id = 4; flags = leaf_page_flag; elements = item 1 ∷ item 4 ∷ [] })
    else if id == 6
    then ok (record { id = 6; flags = leaf_page_flag; elements = [] })
    else if id == 5
    then ok (record { id = 5; flags = leaf_page_flag; elements = item 3 ∷ [] })
    else panic

empty_leaf_hides : recursively_check_pages disordered 4 3 ≡ ok []
unfolding recursively_check_pages
empty_leaf_hides = refl
