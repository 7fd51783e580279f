-- ===== src/Node/Tests.antt =====
-- A leaf with three keys, and the theorems of the node at it.
use bbolt.Prelude.{
  ℕ, ◌≡◌, refl, List, [], ◌∷◌, ok, arith, true, false, ◌||◌, ltb, ◌==◌, if◌then◌else◌, length, some,
  replicate,
}
use bbolt.Node.{Node, Inode, Bytes, put, del, split, size, size_less_than, equal}
use bbolt.Node.Size.{size_less_than-size}
use bbolt.Node.Split.{split-Pieces, all_inodes, Pieces}
use bbolt.Node.Put.{Ordered, get, place, remove, inode_of, put-place, put-get, del-remove}

abbrev item : ℕ → Inode
item c = inode_of (c ∷ []) (replicate 4 1) 0 0

abbrev leaf_node : Node
leaf_node = record {
  is_leaf = true;
  unbalanced = false;
  spilled = false;
  key = 3 ∷ [];
  pgid = 5;
  inodes = item 3 ∷ item 5 ∷ item 8 ∷ item 11 ∷ item 15 ∷ [];
}

leaf_node-Ordered : Ordered leaf_node.inodes
leaf_node-Ordered = (refl, (refl, (refl, (refl, tt))))

leaf_node-size : size leaf_node ≡ 81
unfolding size
leaf_node-size = refl

size_less_than-size_example :
    size_less_than leaf_node 80 ≡ (length leaf_node.inodes == 0 || ltb (size leaf_node) 80)
size_less_than-size_example = size_less_than-size leaf_node 80

split-Pieces_example :
    (nodes : List Node) × (split 64 40 leaf_node ≡ ok nodes)
    × (all_inodes nodes ≡ leaf_node.inodes)
    × Pieces 64 leaf_node.is_leaf nodes
split-Pieces_example = split-Pieces 64 40 leaf_node

put-place_example :
    put 9 leaf_node (5 ∷ []) (6 ∷ []) [] 0 0
    ≡ ok (record leaf_node { inodes = place (5 ∷ []) (inode_of (6 ∷ []) [] 0 0) leaf_node.inodes })
put-place_example =
    put-place 9 leaf_node (5 ∷ []) (6 ∷ []) [] 0 0 (omega arith) (omega arith) (omega arith)
      leaf_node-Ordered

put-get_example :
    (n : Node) × (put 9 leaf_node (6 ∷ []) (6 ∷ []) [] 0 0 ≡ ok n)
    × Ordered n.inodes
    × ((asked : Bytes)
        → get asked n.inodes ≡ (
            if equal (6 ∷ []) asked
            then some (inode_of (6 ∷ []) [] 0 0)
            else get asked leaf_node.inodes))
put-get_example = put-get 9 leaf_node (6 ∷ []) [] 0 0 (omega arith) (omega arith) leaf_node-Ordered

del-remove_example : (del leaf_node (8 ∷ [])).inodes ≡ remove (8 ∷ []) leaf_node.inodes
del-remove_example = del-remove leaf_node (8 ∷ []) leaf_node-Ordered
