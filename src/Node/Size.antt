-- ===== src/Node/Size.antt =====
-- sizeLessThan stops early, and says the same as size.
use bbolt.Prelude.{ℕ, ◌+◌, ◌≤◌, ◌≡◌, arith, List, [], ◌∷◌, ◌||◌, ltb, ◌==◌, length}
use bbolt.Node.{
  Node, Inode, page_element_size, size, size_loop, size_less_than, size_less_loop, item_size,
}

pub size_loop_le : (sz elsz : ℕ) (items : List Inode) → sz ≤ size_loop sz elsz items
unfolding size_loop
size_loop_le sz elsz [] = omega arith
size_loop_le sz elsz (item ∷ items) =
    omega (arith, size_loop_le (sz + item_size elsz item) elsz items)

size_less_loop-size_loop :
    (v sz elsz : ℕ) (item : Inode) (items : List Inode)
    → size_less_loop v sz elsz (item ∷ items) ≡ ltb (size_loop sz elsz (item ∷ items)) v
unfolding size_less_loop size_loop
size_less_loop-size_loop v sz elsz item [] = ground arith
size_less_loop-size_loop v sz elsz item (next ∷ items) = ground (
  arith,
  size_less_loop-size_loop v (sz + item_size elsz item) elsz next items,
  size_loop_le (sz + item_size elsz item) elsz (next ∷ items),
)

-- sizeLessThan, which stops early, says of every node with inodes whether its size is below v; of a
-- node without inodes it says so whatever v is.
pub size_less_than-size :
    (n : Node) (v : ℕ) → size_less_than n v ≡ (length n.inodes == 0 || ltb (size n) v)
unfolding size_less_than size
size_less_than-size n v = by_items n.inodes
  where
    by_items :
        (items : List Inode)
        → size_less_loop v 16 (page_element_size n) items
          ≡ (length items == 0 || ltb (size_loop 16 (page_element_size n) items) v)
    by_items [] = ground arith
    by_items (item ∷ items) =
        ground (arith, size_less_loop-size_loop v 16 (page_element_size n) item items)
