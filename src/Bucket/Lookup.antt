-- ===== src/Bucket/Lookup.antt =====
-- Get of bucket.go against the tree that the bucket's pages and nodes hold.
use bbolt.Prelude.{
  ℕ, ◌≤◌, ◌≡◌, refl, sym, ap, ◌∙◌, arith, true, false, not, Bool-cases, inl, inr, Outcome, ok,
  Option, none, some, if◌then◌else◌,
}
use bbolt.Page.{has_flag, bucket_leaf_flag}
use bbolt.Node.{Bytes, Inode, equal}
use bbolt.Node.Keys.{equal_sym}
use bbolt.Node.Put.{get}
use bbolt.Cursor.{PageView, Entry, entry_at, entry_of, seek}
use bbolt.Cursor.Tree.{Tree, items, height, Holds, id_of}
use bbolt.Cursor.Seek.{InOrder}
use bbolt.Cursor.Find.{seek-get, hit}
use bbolt.Bucket.{Bucket, is_bucket, is_key, value_of, page_node, seek_in, get_value}

-- The value of an item that is not a bucket.
abbrev pub plain_value : Option Inode → Option Bytes
plain_value none = none
plain_value (some e) = if has_flag e.flags bucket_leaf_flag then none else some e.value

get_result : (key : Bytes) (e : Option Entry) → Option Bytes
get_result key e = if is_bucket e then none else if not (is_key key e) then none else value_of e

abbrev pub or_else : Entry → Option Entry → Entry
or_else x none = x
or_else x (some e) = e

get_result-hit :
    (key : Bytes) (e : Option Entry) (g : Option Inode)
    → hit key e ≡ entry_at g
    → get_result key e ≡ plain_value g
unfolding get_result
get_result-hit key none none h = ground arith
get_result-hit key none (some i) h = absurd (cc)
get_result-hit key (some x) none h = elim (Bool-cases (equal x.key key)) [
  | inl p ↦ absurd (ground (arith, h, p))
  | inr p ↦ let q : equal key x.key ≡ false = equal_sym key x.key ∙ p in rw q (ground arith)
]
get_result-hit key (some x) (some i) h = elim (Bool-cases (equal x.key key)) [
  | inl p ↦
      let q : equal key x.key ≡ true = equal_sym key x.key ∙ p in
      let same : x ≡ entry_of i = ap (or_else x) (rw p at h) in rw q (rw same refl)
  | inr p ↦ absurd (ground (arith, h, p))
]

-- On a bucket whose pages and nodes hold a tree with its keys in order, Get returns the value of the
-- item under the key, and nil if the tree has no such item or the item is a child bucket.
pub get_value-items :
    (pages : ℕ → Outcome PageView) (depth : ℕ) (b : Bucket) (key : Bytes) (t : Tree)
    → Holds (page_node pages depth b) t
    → InOrder t
    → id_of t ≡ b.root
    → height t ≤ depth
    → get_value pages depth b key ≡ ok (plain_value (get key (items t)))
unfolding get_value seek_in get_result
get_value-items pages depth b key t h o at low =
    let (s, e, returned, found) = seek-get (page_node pages depth b) depth key t h o low in
    let here : seek (page_node pages depth b) depth key b.root ≡ ok (s, e) =
      ap (seek (page_node pages depth b) depth key) (sym at) ∙ returned in
    rw here (ap ok (get_result-hit key e (get key (items t)) found))
