-- ===== src/Node/Split.antt =====
-- split cuts the inodes of a node into the inodes of several nodes.
use bbolt.Prelude.{
  ℕ, zero, suc, ◌+◌, ◌≤◌, ◌<◌, ◌≡◌, ◌⊎◌, inl, inr, refl, ap, ◌∙◌, arith, List, [], ◌∷◌, ◌++◌, Bool,
  true, false, Bool-cases, ◌&&◌, ◌||◌, ltb, leb, length, take, drop, length-take, length-drop,
  take-append-drop, Outcome, ok,
}
use mathlib.Core.List.{append-nil}
use bbolt.Node.{
  Node, Inode, split, split_rounds, split_rest, split_two, split_index, split_loop, size_less_than,
  item_size, page_element_size,
}

split_loop_upper :
    (threshold elsz : ℕ) (items : List Inode) (i index sz : ℕ)
    → index + 3 ≤ i + length items
    → (split_loop threshold elsz items i index sz).0 + 3 ≤ i + length items
unfolding split_loop
split_loop_upper threshold elsz [] i index sz h = h
split_loop_upper threshold elsz (item ∷ items) i index sz h =
    elim (Bool-cases (leb (length (item ∷ items)) 2)) [
      | inl stop ↦ rw stop h
      | inr more ↦ elim (Bool-cases (leb 2 i && ltb threshold (sz + item_size elsz item))) [
        | inl enough ↦ rw (more, enough) (ground arith)
        | inr room ↦
            rw (more, room)
              (ground
                (arith, split_loop_upper threshold elsz items (i + 1) i (sz + item_size elsz item)))
      ]
    ]

split_loop_lower :
    (threshold elsz : ℕ) (items : List Inode) (i index sz : ℕ)
    → 5 ≤ i + length items
    → (2 ≤ index) ⊎ (i ≤ 2)
    → 2 ≤ (split_loop threshold elsz items i index sz).0
unfolding split_loop
split_loop_lower threshold elsz [] i index sz h c = ground arith
split_loop_lower threshold elsz (item ∷ items) i index sz h c =
    elim (Bool-cases (leb (length (item ∷ items)) 2)) [
      | inl stop ↦ rw stop (ground arith)
      | inr more ↦ elim (Bool-cases (leb 2 i && ltb threshold (sz + item_size elsz item))) [
        | inl enough ↦ rw (more, enough) (ground arith)
        | inr room ↦
            rw (more, room)
              (split_loop_lower threshold elsz items (i + 1) i (sz + item_size elsz item)
                (omega arith) (ground arith))
      ]
    ]

-- splitIndex of a node with more than four inodes leaves at least two for the first page and at
-- least three for the second, whatever the threshold is.
pub split_index-bounds :
    (n : Node) (threshold : ℕ)
    → 4 < length n.inodes
    → (2 ≤ (split_index n threshold).0) × ((split_index n threshold).0 + 3 ≤ length n.inodes)
unfolding split_index
split_index-bounds n threshold h = (
  split_loop_lower threshold (page_element_size n) n.inodes 0 0 16 (omega arith)
      (inr (omega arith)),
  omega (arith, split_loop_upper threshold (page_element_size n) n.inodes 0 0 16 (omega arith)),
)

abbrev pub all_inodes : List Node → List Inode
all_inodes [] = []
all_inodes (n ∷ ns) = n.inodes ++ all_inodes ns

-- Every node but the last has two inodes or more; the last is small enough for a page, or has at
-- most four inodes. All are leaves, or none is.
abbrev pub Pieces : ℕ → Bool → List Node → Type 0
Pieces page_size leaf [] = Unit
Pieces page_size leaf (a ∷ []) =
    (a.is_leaf ≡ leaf) × ((length a.inodes ≤ 4) ⊎ (size_less_than a page_size ≡ true))
Pieces page_size leaf (a ∷ b ∷ ns) =
    (a.is_leaf ≡ leaf) × (2 ≤ length a.inodes) × Pieces page_size leaf (b ∷ ns)

Pieces-cons :
    (page_size : ℕ) (leaf : Bool) (a : Node) (ns : List Node)
    → 0 < length ns
    → a.is_leaf ≡ leaf
    → 2 ≤ length a.inodes
    → Pieces page_size leaf ns
    → Pieces page_size leaf (a ∷ ns)
Pieces-cons page_size leaf a [] some_left l two p = absurd (omega arith)
Pieces-cons page_size leaf a (b ∷ ns) some_left l two p = (l, two, p)

record Cut (page_size : ℕ) (n : Node) (r : Outcome (List Node)) : Type 0 where
  nodes : List Node
  returned : r ≡ ok nodes
  some_left : 0 < length nodes
  inodes : all_inodes nodes ≡ n.inodes
  pieces : Pieces page_size n.is_leaf nodes

split_rounds-Cut :
    (k page_size threshold : ℕ) (n : Node)
    → length n.inodes < k
    → Cut page_size n (split_rounds k page_size threshold n)
unfolding split_rounds split_rest split_two
split_rounds-Cut zero page_size threshold n fuel = absurd (omega arith)
split_rounds-Cut (suc k) page_size threshold n fuel =
    elim (Bool-cases (leb (length n.inodes) 4 || size_less_than n page_size)) [
      | inl whole ↦ rw whole (record {
        nodes = n ∷ [];
        returned = refl;
        some_left = omega arith;
        inodes = append-nil n.inodes;
        pieces = (refl, ground arith);
      })
      | inr large ↦
          let i = (split_index n threshold).0 in
          let (two, three) = split_index-bounds n threshold (ground arith) in
          let next : Node = record {
            is_leaf = n.is_leaf;
            unbalanced = false;
            spilled = false;
            key = [];
            pgid = 0;
            inodes = drop i n.inodes;
          } in
          let first = record n { inodes = take i n.inodes } in
          let rest =
            split_rounds-Cut k page_size threshold next (omega (arith, length-drop i n.inodes)) in
          rw (large, rest.returned)
            (record {
              nodes = first ∷ rest.nodes;
              returned = refl;
              some_left = omega arith;
              inodes =
                  ap (λ items. take i n.inodes ++ items) rest.inodes ∙ take-append-drop i n.inodes;
              pieces =
                  Pieces-cons page_size n.is_leaf first rest.nodes rest.some_left refl
                    (omega (arith, length-take i n.inodes (omega arith))) rest.pieces;
            })
    ]

-- split ends on every node, for every page size and threshold. The nodes that it returns hold the
-- inodes of the node in their order, each once; every one but the last has at least two, and the
-- last fits a page or has at most four.
pub split-Pieces :
    (page_size threshold : ℕ) (n : Node)
    → (nodes : List Node) × (split page_size threshold n ≡ ok nodes)
      × (all_inodes nodes ≡ n.inodes)
      × Pieces page_size n.is_leaf nodes
unfolding split
split-Pieces page_size threshold n =
    let r = split_rounds-Cut (length n.inodes + 1) page_size threshold n (omega arith) in
    (r.nodes, r.returned, r.inodes, r.pieces)
