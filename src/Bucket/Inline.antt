-- ===== src/Bucket/Inline.antt =====
-- inlineable of bucket.go against the size of the root node.
use bbolt.Prelude.{
  ℕ, ◌+◌, ◌≤◌, ◌≡◌, refl, ap, ◌∙◌, arith, List, [], ◌∷◌, Bool, true, false, not, ◌&&◌, ◌||◌,
  Bool-cases, inl, inr, Option, none, some, if◌then◌else◌, length, ltb, leb, ◌==◌, ◌/◌,
}
use bbolt.Page.{has_flag, bucket_leaf_flag, page_header_size, leaf_page_element_size}
use bbolt.Node.{Node, Inode, item_size, size, size_loop, page_element_size}
use bbolt.Node.Size.{size_loop_le}
use bbolt.Bucket.{TxView, Bucket, cached}

unfoldable pub max_inline_bucket_size : TxView → ℕ
max_inline_bucket_size tx = tx.page_size / 4

-- The loop of inlineable, which stops at a child bucket and at an item past the limit.
pub inline_loop : ℕ → ℕ → List Inode → Bool
inline_loop limit size [] = true
inline_loop limit size (x ∷ xs) =
    let size' = size + item_size leaf_page_element_size x in
    let rest = inline_loop limit size' xs in
    if has_flag x.flags bucket_leaf_flag then false else if ltb limit size' then false else rest

-- b.rootNode.
abbrev pub root_node_of : Bucket → Option Node
root_node_of b = elim b.root_node [ none ↦ none | some r ↦ cached b r ]

inlineable_node : ℕ → Option Node → Bool
unfolding inline_loop
inlineable_node limit none = false
inlineable_node limit (some n) =
    if not n.is_leaf then false else inline_loop limit page_header_size n.inodes

unfoldable pub inlineable : TxView → Bucket → Bool
unfolding inlineable_node max_inline_bucket_size
inlineable tx b = inlineable_node (max_inline_bucket_size tx) (root_node_of b)

abbrev pub no_buckets : List Inode → Bool
no_buckets [] = true
no_buckets (x ∷ xs) = not (has_flag x.flags bucket_leaf_flag) && no_buckets xs

-- A step past the limit, with the total past it too.
past_limit :
    (limit sz total : ℕ) (clean rest : Bool)
    → rest ≡ (clean && leb total limit)
    → sz ≤ total
    → (if ltb limit sz then false else rest) ≡ (clean && leb total limit)
past_limit limit sz total true rest same least = ground (arith, same, least)
past_limit limit sz total false rest same least = ground (arith, same, least)

inline_loop-size_loop :
    (limit sz : ℕ) (x : Inode) (xs : List Inode)
    → inline_loop limit sz (x ∷ xs)
      ≡ (no_buckets (x ∷ xs) && leb (size_loop sz leaf_page_element_size (x ∷ xs)) limit)
unfolding inline_loop size_loop
inline_loop-size_loop limit sz x [] = elim (Bool-cases (has_flag x.flags bucket_leaf_flag)) [
  | inl h ↦ rw h refl
  | inr h ↦ rw h (ground arith)
]
inline_loop-size_loop limit sz x (y ∷ xs) = elim (Bool-cases (has_flag x.flags bucket_leaf_flag)) [
  | inl h ↦ rw h refl
  | inr h ↦
      let rest = inline_loop-size_loop limit (sz + item_size leaf_page_element_size x) y xs in
      let least =
        size_loop_le (sz + item_size leaf_page_element_size x) leaf_page_element_size (y ∷ xs) in
      rw h (
        past_limit limit (sz + item_size leaf_page_element_size x) _ (no_buckets (y ∷ xs))
          (inline_loop limit (sz + item_size leaf_page_element_size x) (y ∷ xs)) rest least)
]

-- inlineable of a bucket with its root node in memory says whether the node is a leaf without child
-- buckets whose size, as size counts it, is at most a quarter of a page; of a leaf without items it
-- says yes whatever the page size is.
pub inlineable-size :
    (tx : TxView) (b : Bucket) (n : Node)
    → root_node_of b ≡ some n
    → inlineable tx b ≡ (
        n.is_leaf
        && (no_buckets n.inodes
            && (length n.inodes == 0 || leb (size n) (max_inline_bucket_size tx))))
unfolding inlineable inlineable_node size page_element_size inline_loop size_loop
inlineable-size tx b n h =
    ap (inlineable_node (max_inline_bucket_size tx)) h
    ∙ (elim (Bool-cases n.is_leaf) [ inl l ↦ rw l (by_items n.inodes) | inr l ↦ rw l refl ])
  where
    by_items :
        (xs : List Inode)
        → inline_loop (max_inline_bucket_size tx) page_header_size xs ≡ (
            no_buckets xs
            && (length xs == 0
                || leb
                    (size_loop page_header_size leaf_page_element_size xs)
                    (max_inline_bucket_size tx)))
    by_items [] = ground arith
    by_items (x ∷ xs) =
        let some_items : (length (x ∷ xs) == 0) ≡ false = ground arith in
        rw some_items (inline_loop-size_loop (max_inline_bucket_size tx) page_header_size x xs)
