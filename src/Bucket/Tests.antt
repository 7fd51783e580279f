-- ===== src/Bucket/Tests.antt =====
-- A bucket whose tree is a branch over two leaves, and the theorems of the bucket at it.
use bbolt.Prelude.{
  ℕ, ◌<◌, ◌≡◌, refl, arith, List, [], ◌∷◌, true, false, ◌&&◌, ◌||◌, ok, Option, none, some, length,
  leb, ◌==◌,
}
use bbolt.Prelude.Map.{lookup}
use bbolt.Prelude.Search.{search_first, search_noted}
use bbolt.Node.{Bytes, Node, size}
use bbolt.Node.Put.{get}
use bbolt.Cursor.{Entry}
use bbolt.Cursor.Tree.{items, Holds}
use bbolt.Cursor.Tests.{pages, tree, tree-InOrder, tree_height, tree_leaves, tree-Holds, item}
use bbolt.Bucket.{TxView, Bucket, page_node, get_value, test_put, put_guard, incompatible_value}
use bbolt.Bucket.Lookup.{get_value-items, plain_value}
use bbolt.Bucket.ForEach.{for_each, for_each-visit, visit, shown}
use bbolt.Bucket.Inline.{inlineable, inlineable-size, no_buckets, max_inline_bucket_size}

abbrev view : TxView
view = record { is_open = true; writable = true; high_water = 9; page_size = 4096 }

abbrev bucket : Bucket
bucket = record { root = 3; sequence = 0; inline_page = none; root_node = none; nodes = some [] }

tree-Holds-bucket : Holds (page_node pages 4 bucket) tree
unfolding page_node lookup
tree-Holds-bucket = tree-Holds (page_node pages 4 bucket) refl refl refl

-- A callback that keeps the keys, and stops at the key 6.
abbrev keep : List Bytes → Entry → List Bytes × Option ℕ
keep seen e = (e.key ∷ seen, none)

abbrev keep_key : List Bytes → Bytes → List Bytes × Option ℕ
keep_key seen k = (k ∷ seen, none)

few_items : length (items tree) < 7
unfolding items
few_items = omega arith

get_value-items_example :
    get_value pages 4 bucket (6 ∷ []) ≡ ok (plain_value (get (6 ∷ []) (items tree)))
get_value-items_example =
    get_value-items pages 4 bucket (6 ∷ []) tree tree-Holds-bucket tree-InOrder refl tree_height

for_each-visit_example :
    for_each pages 4 view bucket 5 7 keep [] ≡ ok (visit (λ s e. keep s (shown e)) [] (items tree))
for_each-visit_example =
    for_each-visit pages 4 view bucket 5 7 keep [] tree refl tree-Holds-bucket refl tree_height
      tree_leaves few_items

abbrev small_root : Node
small_root = record {
  is_leaf = true;
  unbalanced = false;
  spilled = false;
  key = [];
  pgid = 0;
  inodes = item 1 ∷ item 2 ∷ [];
}

abbrev small_bucket : Bucket
small_bucket = record {
  root = 0;
  sequence = 0;
  inline_page = none;
  root_node = some 0;
  nodes = some ((0, small_root) ∷ []);
}

inlineable-size_example : inlineable view small_bucket ≡ (
    small_root.is_leaf
    && (no_buckets small_root.inodes
        && (length small_root.inodes == 0 || leb (size small_root) (max_inline_bucket_size view))))
unfolding lookup
inlineable-size_example = inlineable-size view small_bucket small_root refl

refused_put :
    test_put pages 4 view bucket (2 ∷ []) (1 ∷ []) ≡ ok (some incompatible_value, false, bucket)
unfolding test_put page_node put_guard lookup search_noted search_first
refused_put = refl
