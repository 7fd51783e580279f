-- ===== src/Bucket/Errors.antt =====
-- What TestPut of bucket.go answers.
use bbolt.Prelude.{
  ℕ, ◌≤◌, ◌<◌, ◌≡◌, Bool, true, false, length, ◌&&◌, ◌⊎◌, Outcome, ok, panic, out_of_fuel, Option,
  none, some,
}
use bbolt.Page.{has_flag, bucket_leaf_flag}
use bbolt.Node.{Bytes, Inode, Node}
use bbolt.Node
use bbolt.Cursor.{PageView, PageNode, of_page}
use bbolt.Cursor.Tree.{Tree}
use bbolt.Bucket.{
  TxView, Bucket, BucketError, incompatible_value, tx_closed, tx_not_writable, key_required,
  key_too_large, value_too_large,
}

-- Whether an item is a child bucket, and whether there is none.
abbrev pub bucket_at : Option Inode → Bool
bucket_at none = false
bucket_at (some i) = has_flag i.flags bucket_leaf_flag

abbrev pub is_new : Option Inode → Bool
is_new none = true
is_new (some i) = false

-- When a put is an error, in the order of the checks, where `found` is the item under the key.
pub data Refusal (tx : TxView) (key value : Bytes) (found : Option Inode) (err : BucketError)
    : Type 0 where
  closed : tx.is_open ≡ false → err ≡ tx_closed → Refusal tx key value found err
  read_only :
      tx.is_open ≡ true
      → tx.writable ≡ false
      → err ≡ tx_not_writable
      → Refusal tx key value found err
  no_key :
      tx.is_open && tx.writable ≡ true
      → length key ≡ 0
      → err ≡ key_required
      → Refusal tx key value found err
  long_key :
      tx.is_open && tx.writable ≡ true
      → 8191 < length key
      → err ≡ key_too_large
      → Refusal tx key value found err
  long_value :
      tx.is_open && tx.writable ≡ true
      → 0 < length key
      → length key ≤ 8191
      → 16777215 < length value
      → err ≡ value_too_large
      → Refusal tx key value found err
  child_bucket :
      tx.is_open && tx.writable ≡ true
      → 0 < length key
      → length key ≤ 8191
      → length value ≤ 16777215
      → bucket_at found ≡ true
      → err ≡ incompatible_value
      → Refusal tx key value found err

-- No error, and whether the key is new. Without a result a page had to be read as a node.
pub data Done (look : ℕ → Outcome PageNode) (new : Bool)
    (o : Outcome (Option BucketError × Bool × Bucket)) : Type 0 where
  done : (b' : Bucket) → o ≡ ok (none, new, b') → Done look new o
  unread :
      (id : ℕ) (p : PageView)
      → look id ≡ ok (of_page p)
      → (o ≡ panic) ⊎ (o ≡ out_of_fuel)
      → Done look new o

-- The answer to a put: one of the errors, and the bucket is as it was, or, if no error applies, none, and
-- whether the key is new.
pub data Answer (look : ℕ → Outcome PageNode) (tx : TxView) (b : Bucket) (key value : Bytes)
    (found : Option Inode) (o : Outcome (Option BucketError × Bool × Bucket)) : Type 0 where
  refused :
      (err : BucketError)
      → Refusal tx key value found err
      → o ≡ ok (some err, false, b)
      → Answer look tx b key value found o
  accepted :
      tx.is_open && tx.writable ≡ true
      → 0 < length key
      → length key ≤ 8191
      → length value ≤ 16777215
      → bucket_at found ≡ false
      → Done look (is_new found) o
      → Answer look tx b key value found o

-- What the guards say.
data Guarded (tx : TxView) (key value : Bytes) (guard : Option BucketError) : Type 0 where
  stops :
      (err : BucketError)
      → guard ≡ some err
      → ((found : Option Inode) → Refusal tx key value found err)
      → Guarded tx key value guard
  passes :
      guard ≡ none
      → tx.is_open && tx.writable ≡ true
      → 0 < length key
      → length key ≤ 8191
      → length value ≤ 16777215
      → Guarded tx key value guard
