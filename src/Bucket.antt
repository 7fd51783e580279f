-- ===== src/Bucket.antt =====
-- bucket.go: a bucket in a transaction, as the tree of its pages and of the nodes that are in
-- memory. `pages` stands for Tx.page, `depth` bounds the way down the tree, and `k` the empty
-- leaves that one move of a cursor passes. A node is known by its key in the map `nodes`, where
-- the pointer rootNode leads too until the bucket is spilled. The links from a node to its parent and
-- children, and the cache of open child buckets, are not part of the record.
pub mod Lookup
pub mod ForEach
pub mod Inline
pub mod Errors
mod Tests
use bbolt.Prelude.{
  ℕ, zero, suc, ◌+◌, ◌-◌, ◌*◌, ◌/◌, ◌%◌, ◌^◌, List, [], ◌∷◌, ◌++◌, Bool, true, false, not, ◌&&◌,
  ◌||◌, Outcome, ok, panic, out_of_fuel, ◌>>=◌, ◌>>◌, assert, ltb, leb, ◌==◌, if◌then◌else◌, length,
  get_elem?, Option, none, some,
}
use bbolt.Prelude.Map.{Map, lookup, insert}
use bbolt.Page.{
  has_flag, leaf_page_flag, bucket_leaf_flag, page_header_size, leaf_page_element_size,
}
use bbolt.Node.{Bytes, Inode, Node, equal}
use bbolt.Node
use bbolt.Cursor.{
  PageView, PageNode, of_page, of_node, ElemRef, Entry, is_leaf, hide_bucket, first_item, next_item,
  first, next, seek, key_value,
}

abbrev pub max_key_size : ℕ
max_key_size = 8191

abbrev pub max_value_size : ℕ
max_value_size = 16777215

pub data BucketError : Type 0 where
  tx_closed tx_not_writable key_required key_too_large value_too_large incompatible_value
        bucket_not_found bucket_name_required bucket_exists :
      BucketError

-- What a bucket reads of its transaction: tx.db != nil, tx.writable, tx.meta.pgid and the page size.
pub record TxView : Type 0 where
  pub is_open : Bool
  pub writable : Bool
  pub high_water : ℕ
  pub page_size : ℕ

pub record Bucket : Type 0 where
  pub root : ℕ
  pub sequence : ℕ
  pub inline_page : Option PageView
  pub root_node : Option ℕ
  pub nodes : Option (Map Node)

-- The node under a key of the map; a nil map has none.
abbrev pub cached : Bucket → ℕ → Option Node
cached b id = elim b.nodes [ none ↦ none | some m ↦ lookup id m ]

-- bytes.Equal(key, k) of what a cursor gives; nil is an empty slice.
abbrev pub is_key : Bytes → Option Entry → Bool
is_key key none = equal key []
is_key key (some e) = equal key e.key

abbrev pub is_bucket : Option Entry → Bool
is_bucket none = false
is_bucket (some e) = has_flag e.flags bucket_leaf_flag

abbrev pub value_of : Option Entry → Option Bytes
value_of none = none
value_of (some e) = e.value

-- The key of what a cursor gives; a nil key is empty.
abbrev pub key_of : Option Entry → Bytes
key_of none = []
key_of (some e) = e.key

-- The loop of node.read over the elements, with its assertion.
pub check_keys : List Inode → Outcome (Unit {0})
check_keys [] = ok tt
check_keys (e ∷ elems) = assert (ltb 0 (length e.key)) >> check_keys elems

abbrev first_key : List Inode → Bytes
first_key [] = []
first_key (e ∷ elems) = e.key

-- node.read, into a new node.
unfoldable pub read_node : PageView → Outcome Node
unfolding check_keys
read_node p =
    check_keys p.elements
    >> ok (record {
      is_leaf = has_flag p.flags leaf_page_flag;
      unbalanced = false;
      spilled = false;
      key = first_key p.elements;
      pgid = p.id;
      inodes = p.elements;
    })

-- The ids on the way down, from what stands on the stack above the root.
abbrev pub bottom_up : List ElemRef → List ElemRef
bottom_up [] = []
bottom_up (r ∷ stack) = bottom_up stack ++ r ∷ []

-- pageNode of an inline bucket, by the node of the root and the page; a nil page is a fault.
inline_view : Option Node → Option PageView → Outcome PageNode
inline_view (some n) page = ok (of_node n)
inline_view none (some p) = ok (of_page p)
inline_view none none = panic

-- The root, at the bottom of the stack.
root_of : ElemRef → List ElemRef → PageNode
root_of top [] = top.ref
root_of top (r ∷ rest) = r.ref

-- n.inodes = … on the node of the map.
abbrev pub store : Bucket → ℕ → Node → Bucket
store b id n = elim b.nodes [ none ↦ b | some m ↦ record b { nodes = some (insert id n m) } ]

-- The guards of Put and TestPut.
unfoldable pub put_guard : TxView → Bytes → Bytes → Option BucketError
put_guard tx key value =
    if not tx.is_open
    then some tx_closed
    else if not tx.writable
    then some tx_not_writable
    else if length key == 0
    then some key_required
    else if ltb max_key_size (length key)
    then some key_too_large
    else if ltb max_value_size (length value)
    then some value_too_large
    else none

abbrev pub Replied : Type 0
Replied = Outcome (Option BucketError × Bucket)

abbrev pub write_guard : TxView → Option BucketError
write_guard tx =
    if not tx.is_open
    then some tx_closed
    else if not tx.writable
    then some tx_not_writable
    else none

module _ (pages : ℕ → Outcome PageView) (depth : ℕ) where
  page_of : ℕ → Outcome PageNode
  page_of id = pages id >>= λ p. ok (of_page p)

  cached_view : ℕ → Option Node → Outcome PageNode
  unfolding page_of
  cached_view id (some n) = ok (of_node n)
  cached_view id none = page_of id

  -- pageNode.
  unfoldable pub page_node : Bucket → ℕ → Outcome PageNode
  unfolding inline_view cached_view
  page_node b id =
      if b.root == 0
      then (if not (id == 0)
          then panic
          else inline_view (elim b.root_node [ none ↦ none | some r ↦ cached b r ]) b.inline_page)
      else cached_view id (cached b id)

  -- The page that node reads: the inline page if there is one.
  source_page : Bucket → ℕ → Outcome PageView
  source_page b id = elim b.inline_page [ none ↦ pages id | some p ↦ ok p ]

  -- node, which reads the page into the map unless it is there. Without a parent it is the root.
  read_into : Bucket → Map Node → ℕ → Bool → Option Node → Outcome (Node × Bucket)
  unfolding source_page read_node
  read_into b m id no_parent (some n) = ok (n, b)
  read_into b m id no_parent none = source_page b id >>= λ p. read_node p >>= λ n. ok (
    n,
    record b {
      nodes = some (insert id n m);
      root_node = if no_parent then some id else b.root_node;
    },
  )

  unfoldable pub node : Bucket → ℕ → Bool → Outcome (Node × Bucket)
  unfolding read_into
  node b id no_parent = elim b.nodes [
    | none ↦ panic
    | some m ↦ read_into b m id no_parent (lookup id m)
  ]

  -- The loop of Cursor.node down from a node: childAt of each ref.
  unfoldable pub node_below : Bucket → ℕ → Node → List ElemRef → Outcome (ℕ × Node × Bucket)
  unfolding node
  node_below b id n [] = assert n.is_leaf >> ok (id, n, b)
  node_below b id n (r ∷ refs) = assert (not n.is_leaf) >> (elim (get_elem? n.inodes r.index) [
    | none ↦ panic
    | some e ↦ node b e.pgid false >>= λ (n', b'). node_below b' e.pgid n' refs
  ])

  -- From the bottom of the stack; a page there is read into a node.
  node_from : Bucket → PageNode → List ElemRef → Outcome (ℕ × Node × Bucket)
  unfolding node_below
  node_from b (of_node n) refs = node_below b n.pgid n refs
  node_from b (of_page p) refs = node b p.id true >>= λ (n, b'). node_below b' p.id n refs

  -- Cursor.node: the leaf node under the cursor, with its key.
  unfoldable pub cursor_node : Bucket → List ElemRef → Outcome (ℕ × Node × Bucket)
  unfolding node_from root_of
  cursor_node b [] = panic
  cursor_node b (top ∷ stack) =
      let refs = bottom_up stack in
      let down = node_from b (root_of top refs) refs in
      elim top.ref [ of_node n ↦ if n.is_leaf then ok (n.pgid, n, b) else down | of_page p ↦ down ]

  -- c.node().put(key, key, value, 0, flags)
  unfoldable pub put_at_cursor : TxView → Bucket → List ElemRef → Bytes → Bytes → ℕ → Outcome Bucket
  unfolding cursor_node Node.put
  put_at_cursor tx b stack key value flags = cursor_node b stack >>= λ (id, n, b').
      Node.put tx.high_water n key key value 0 flags >>= λ n'. ok (store b' id n')

  -- c.node().del(key)
  unfoldable pub del_at_cursor : Bucket → List ElemRef → Bytes → Outcome Bucket
  unfolding cursor_node Node.del
  del_at_cursor b stack key =
      cursor_node b stack >>= λ (id, n, b'). ok (store b' id (Node.del n key))

  -- b.Cursor().seek(key)
  unfoldable pub seek_in : Bucket → Bytes → Outcome (List ElemRef × Option Entry)
  unfolding page_node seek
  seek_in b key = seek (page_node b) depth key b.root

  -- Get.
  unfoldable pub get_value : Bucket → Bytes → Outcome (Option Bytes)
  unfolding seek_in
  get_value b key = seek_in b key >>= λ (s, e).
      ok (if is_bucket e then none else if not (is_key key e) then none else value_of e)

  -- Put and TestPut behind the guards; the Boolean of TestPut is whether the key is new.
  put_found :
      TxView
      → Bucket
      → Bytes
      → Bytes
      → List ElemRef × Option Entry
      → Outcome (Option BucketError × Bool × Bucket)
  unfolding put_at_cursor
  put_found tx b key value (s, e) =
      if is_key key e && is_bucket e
      then ok (some incompatible_value, false, b)
      else (put_at_cursor tx b s key value 0 >>= λ b'. ok (none, not (is_key key e), b'))

  unfoldable pub test_put :
      TxView → Bucket → Bytes → Bytes → Outcome (Option BucketError × Bool × Bucket)
  unfolding put_guard seek_in put_found
  test_put tx b key value = elim (put_guard tx key value) [
    | some err ↦ ok (some err, false, b)
    | none ↦ seek_in b key >>= put_found tx b key value
  ]

  -- Put, which is the same code without the Boolean.
  unfoldable pub put : TxView → Bucket → Bytes → Bytes → Replied
  unfolding put_guard seek_in put_found
  put tx b key value = elim (put_guard tx key value) [
    | some err ↦ ok (some err, b)
    | none ↦ seek_in b key >>= put_found tx b key value >>= λ (err, new, b'). ok (err, b')
  ]

  delete_found :
      Bucket
      → Bytes
      → List ElemRef × Option Entry
      → Outcome (Option BucketError × Option Bytes × Bucket)
  unfolding del_at_cursor
  delete_found b key (s, e) =
      if not (is_key key e)
      then ok (none, none, b)
      else if is_bucket e
      then ok (some incompatible_value, none, b)
      else (del_at_cursor b s key >>= λ b'. ok (none, value_of e, b'))

  -- TestDelete, and Delete, which is the same code without the value.
  unfoldable pub test_delete :
      TxView → Bucket → Bytes → Outcome (Option BucketError × Option Bytes × Bucket)
  unfolding seek_in delete_found
  test_delete tx b key = elim (write_guard tx) [
    | some err ↦ ok (some err, none, b)
    | none ↦ seek_in b key >>= delete_found b key
  ]

  unfoldable pub delete : TxView → Bucket → Bytes → Replied
  unfolding seek_in delete_found
  delete tx b key = elim (write_guard tx) [
    | some err ↦ ok (some err, b)
    | none ↦ seek_in b key >>= delete_found b key >>= λ (err, value, b'). ok (err, b')
  ]

  -- Delete of the cursor. A nil key deletes nothing but an empty key.
  unfoldable pub delete_at_cursor : TxView → Bucket → List ElemRef → Replied
  unfolding del_at_cursor
  delete_at_cursor tx b stack = elim (write_guard tx) [
    | some err ↦ ok (some err, b)
    | none ↦ key_value stack >>= λ e.
        if is_bucket e
        then ok (some incompatible_value, b)
        else (del_at_cursor b stack (key_of e) >>= λ b'. ok (none, b'))
  ]

  -- The root node is read in before the sequence changes, so that the bucket is saved.
  with_root_node : Bucket → Outcome Bucket
  unfolding node
  with_root_node b = elim b.root_node [
    | some r ↦ ok b
    | none ↦ node b b.root true >>= λ (n, b'). ok b'
  ]

  unfoldable pub set_sequence : TxView → Bucket → ℕ → Replied
  unfolding with_root_node
  set_sequence tx b v = elim (write_guard tx) [
    | some err ↦ ok (some err, b)
    | none ↦ with_root_node b >>= λ b'. ok (none, record b' { sequence = v })
  ]

  -- NextSequence; the sequence is a uint64.
  unfoldable pub next_sequence : TxView → Bucket → Outcome (Option BucketError × ℕ × Bucket)
  unfolding with_root_node
  next_sequence tx b = elim (write_guard tx) [
    | some err ↦ ok (some err, 0, b)
    | none ↦ with_root_node b >>= λ b'.
        let next_one = (b'.sequence + 1) % 2 ^ 64 in
        ok (none, next_one, record b' { sequence = next_one })
  ]
