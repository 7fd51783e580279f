-- ===== src/Node.antt =====
-- node.go: a B+tree node in memory. The links to the bucket, the parent and the children are not
-- part of the record; what the code reads through them is an argument: the high water mark of the
-- transaction for put, and the threshold for split, which the code computes from the page size and
-- the fill percentage of the bucket. Sizes count bytes in memory, and are not reduced to a word.
pub mod Keys
pub mod Size
pub mod Split
pub mod Put
mod Tests
use bbolt.Prelude.{
  ℕ, zero, suc, ◌+◌, ◌-◌, ◌*◌, List, [], ◌∷◌, ◌++◌, Bool, true, false, not, ◌&&◌, ◌||◌, Outcome, ok,
  panic, out_of_fuel, ◌>>=◌, ◌>>◌, assert, ltb, leb, ◌==◌, if◌then◌else◌, length, take, drop, set,
  get_elem?, Option, none, some,
}
use bbolt.Prelude.Search.{search_first}
use bbolt.Page.{
  page_header_size, leaf_page_element_size, branch_page_element_size, min_keys_per_page,
}

-- bytes.Compare(a, b) == -1 and bytes.Equal.
abbrev pub Bytes : Type 0
Bytes = List ℕ

abbrev pub less : Bytes → Bytes → Bool
less a [] = false
less [] (y ∷ b) = true
less (x ∷ a) (y ∷ b) = if x == y then less a b else ltb x y

abbrev pub equal : Bytes → Bytes → Bool
equal [] [] = true
equal [] (y ∷ b) = false
equal (x ∷ a) [] = false
equal (x ∷ a) (y ∷ b) = if x == y then equal a b else false

pub record Inode : Type 0 where
  pub flags : ℕ
  pub pgid : ℕ
  pub key : Bytes
  pub value : Bytes

pub record Node : Type 0 where
  pub is_leaf : Bool
  pub unbalanced : Bool
  pub spilled : Bool
  pub key : Bytes
  pub pgid : ℕ
  pub inodes : List Inode

unfoldable pub min_keys : Node → ℕ
min_keys n = if n.is_leaf then 1 else 2

unfoldable pub page_element_size : Node → ℕ
page_element_size n = if n.is_leaf then leaf_page_element_size else branch_page_element_size

-- elsz + uintptr(len(item.key)) + uintptr(len(item.value))
abbrev pub item_size : ℕ → Inode → ℕ
item_size elsz item = elsz + length item.key + length item.value

unfoldable pub size_loop : ℕ → ℕ → List Inode → ℕ
size_loop sz elsz [] = sz
size_loop sz elsz (item ∷ items) = size_loop (sz + item_size elsz item) elsz items

unfoldable pub size : Node → ℕ
unfolding size_loop page_element_size
size n = size_loop page_header_size (page_element_size n) n.inodes

pub size_less_loop : ℕ → ℕ → ℕ → List Inode → Bool
size_less_loop v sz elsz [] = true
size_less_loop v sz elsz (item ∷ items) =
    let sz' = sz + item_size elsz item in
    let rest = size_less_loop v sz' elsz items in if leb v sz' then false else rest

unfoldable pub size_less_than : Node → ℕ → Bool
unfolding size_less_loop page_element_size
size_less_than n v = size_less_loop v page_header_size (page_element_size n) n.inodes

-- bytes.Compare(n.inodes[i].key, key) != -1, for an index in range.
abbrev pub at_least : List Inode → Bytes → ℕ → Bool
at_least items key i = elim (get_elem? items i) [
  | none ↦ true
  | some item ↦ not (less item.key key)
]

unfoldable pub find_index : Node → Bytes → ℕ
find_index n key = search_first (length n.inodes) (at_least n.inodes key)

-- index < len(n.inodes) && bytes.Equal(n.inodes[index].key, key)
abbrev pub is_exact : List Inode → Bytes → ℕ → Bool
is_exact items key i = elim (get_elem? items i) [ none ↦ false | some item ↦ equal item.key key ]

abbrev blank : Inode
blank = record { flags = 0; pgid = 0; key = []; value = [] }

-- The slice after the shift and the write to its index.
abbrev pub put_at : List Inode → Bytes → ℕ → Inode → List Inode
put_at items old_key i new =
    set (if is_exact items old_key i then items else take i items ++ blank ∷ drop i items) i new

unfoldable pub put : ℕ → Node → Bytes → Bytes → Bytes → ℕ → ℕ → Outcome Node
unfolding find_index
put high_water n old_key new_key value pgid flags =
    if leb high_water pgid
    then panic
    else if length old_key == 0
    then panic
    else if length new_key == 0
    then panic
    else ok (record n {
      inodes =
          put_at n.inodes old_key (find_index n old_key)
            (record { flags = flags; pgid = pgid; key = new_key; value = value });
    })

unfoldable pub del : Node → Bytes → Node
unfolding find_index
del n key =
    let i = find_index n key in
    if is_exact n.inodes key i
    then record n { inodes = take i n.inodes ++ drop (i + 1) n.inodes; unbalanced = true }
    else n

-- The loop of splitIndex at index `i`, over the inodes from `i` on, of which it leaves out the
-- last minKeysPerPage.
pub split_loop : ℕ → ℕ → List Inode → ℕ → ℕ → ℕ → ℕ × ℕ
split_loop threshold elsz [] i index sz = (index, sz)
split_loop threshold elsz (item ∷ items) i index sz =
    let elsize = item_size elsz item in
    let rest = split_loop threshold elsz items (i + 1) i (sz + elsize) in
    if leb (length (item ∷ items)) min_keys_per_page
    then (index, sz)
    else if leb min_keys_per_page i && ltb threshold (sz + elsize)
    then (i, sz)
    else rest

unfoldable pub split_index : Node → ℕ → ℕ × ℕ
unfolding split_loop page_element_size
split_index n threshold = split_loop threshold (page_element_size n) n.inodes 0 0 page_header_size

-- The two nodes; a new node is neither balanced nor spilled, and has no key and no page.
unfoldable pub split_two : ℕ → ℕ → Node → Node × Option Node
unfolding size_less_than split_index
split_two page_size threshold n =
    if leb (length n.inodes) (min_keys_per_page * 2) || size_less_than n page_size
    then (n, none)
    else (let i = (split_index n threshold).0 in
        (
          record n { inodes = take i n.inodes },
          some (record {
            is_leaf = n.is_leaf;
            unbalanced = false;
            spilled = false;
            key = [];
            pgid = 0;
            inodes = drop i n.inodes;
          }),
        ))

-- One round of the loop of split: the first node, and the nodes that come of the second.
pub split_rest : (Node → Outcome (List Node)) → Node × Option Node → Outcome (List Node)
split_rest again (a, none) = ok (a ∷ [])
split_rest again (a, some b) = do rest ← again b; ok (a ∷ rest)

pub split_rounds : ℕ → ℕ → ℕ → Node → Outcome (List Node)
unfolding split_two split_rest
split_rounds zero page_size threshold n = out_of_fuel
split_rounds (suc k) page_size threshold n =
    split_rest (split_rounds k page_size threshold) (split_two page_size threshold n)

unfoldable pub split : ℕ → ℕ → Node → Outcome (List Node)
unfolding split_rounds split_two
split page_size threshold n = split_rounds (length n.inodes + 1) page_size threshold n
