-- ===== src/Cursor.antt =====
-- cursor.go: the iterator over the items of a bucket. `look` stands for Bucket.pageNode, which gives
-- the node of an id if one is in memory and the page otherwise, and `depth` bounds the rounds of the
-- loops that go down the tree. The stack of the cursor has its top first. An index of -1, which the
-- code has on a page without elements, is 0 here; no test of the code tells the two apart.
pub mod Tree
pub mod Moves
pub mod Places
pub mod Descent
pub mod Walk
pub mod Skip
pub mod Routes
pub mod Seek
pub mod Find
pub mod Tests
use bbolt.Prelude.{
  ℕ, zero, suc, ◌+◌, ◌-◌, List, [], ◌∷◌, Bool, true, false, not, ◌&&◌, ◌||◌, Outcome, ok, panic,
  out_of_fuel, ◌>>=◌, ◌>>◌, assert, ltb, leb, ◌==◌, if◌then◌else◌, length, get_elem?, Option, none,
  some,
}
use bbolt.Prelude.Search.{search_first, search_noted}
use bbolt.Page.{has_flag, branch_page_flag, leaf_page_flag, bucket_leaf_flag}
use bbolt.Node.{Bytes, Inode, Node, at_least, is_exact}

-- A page as a cursor reads it: as many elements as its count says.
pub record PageView : Type 0 where
  pub id : ℕ
  pub flags : ℕ
  pub elements : List Inode

pub data PageNode : Type 0 where
  of_page : PageView → PageNode
  of_node : Node → PageNode

abbrev pub elements : PageNode → List Inode
elements (of_page p) = p.elements
elements (of_node n) = n.inodes

-- elemRef and its two methods.
pub record ElemRef : Type 0 where
  pub ref : PageNode
  pub index : ℕ

abbrev pub is_leaf : PageNode → Bool
is_leaf (of_page p) = has_flag p.flags leaf_page_flag
is_leaf (of_node n) = n.is_leaf

abbrev pub count_of : ElemRef → ℕ
count_of r = length (elements r.ref)

-- Key, value and flags; a nil value is none. No item at all is none of the option around it.
pub record Entry : Type 0 where
  pub key : Bytes
  pub value : Option Bytes
  pub flags : ℕ

-- A nil value that Put has stored and that is not on a page yet counts as an empty one.
abbrev pub entry_of : Inode → Entry
entry_of e = record { key = e.key; value = some e.value; flags = e.flags }

-- if (flags & bucketLeafFlag) != 0 { return k, nil }
abbrev pub hide_bucket : Option Entry → Option Entry
hide_bucket none = none
hide_bucket (some e) =
    some (if has_flag e.flags bucket_leaf_flag then record e { value = none } else e)

abbrev pub entry_at : Option Inode → Option Entry
entry_at none = none
entry_at (some e) = some (entry_of e)

-- keyValue.
abbrev pub key_value : List ElemRef → Outcome (Option Entry)
key_value [] = panic
key_value (r ∷ stack) = ok (entry_at (get_elem? (elements r.ref) r.index))

abbrev pub top_count : List ElemRef → ℕ
top_count [] = 0
top_count (r ∷ stack) = count_of r

-- The page id of the branch element that a ref points to.
abbrev pub pgid_at : Option Inode → Outcome ℕ
pgid_at none = panic
pgid_at (some e) = ok e.pgid

abbrev pub child_id : ElemRef → Outcome ℕ
child_id r = pgid_at (get_elem? (elements r.ref) r.index)

-- The loop of next that moves up the stack: none if it has hit the root.
unfoldable pub next_up : List ElemRef → Option (List ElemRef)
next_up [] = none
next_up (r ∷ stack) =
    let rest = next_up stack in
    if ltb (r.index + 1) (count_of r) then some (record r { index = r.index + 1 } ∷ stack) else rest

unfoldable pub prev_up : List ElemRef → List ElemRef
prev_up [] = []
prev_up (r ∷ stack) =
    let rest = prev_up stack in
    if ltb 0 r.index then record r { index = r.index - 1 } ∷ stack else rest

-- The loop of prevN that moves up the stack: to a leaf that has enough elements before the current
-- one, or to a branch, with the number of elements passed.
pub data UpN : Type 0 where
  enough : List ElemRef → UpN
  go_on : ℕ → List ElemRef → UpN

unfoldable pub prev_n_up : ℕ → ℕ → List ElemRef → UpN
prev_n_up n passed [] = go_on passed []
prev_n_up n passed (r ∷ stack) =
    let passed' = passed + (r.index + 1) in
    let over = prev_n_up n (passed' - 1) stack in
    let rest = prev_n_up n passed stack in
    if ltb 0 r.index
    then (if is_leaf r.ref
        then (if ltb n passed' then enough (record r { index = passed' - n - 1 } ∷ stack) else over)
        else go_on passed (record r { index = r.index - 1 } ∷ stack))
    else rest

-- nsearch.
unfoldable pub leaf_index : Bytes → List Inode → ℕ
leaf_index key items = search_first (length items) (at_least items key)

-- The index of searchNode and searchPage; `exact` is set if the search looks at the key itself.
unfoldable pub branch_index : Bytes → List Inode → ℕ
unfolding leaf_index
branch_index key items =
    let i = leaf_index key items in
    let exact = search_noted (length items) (at_least items key) (is_exact items key) in
    if not exact && ltb 0 i then i - 1 else i

-- Of a page, search wants one of the two flags.
abbrev pub is_tree_page : PageNode → Bool
is_tree_page (of_page p) = has_flag p.flags branch_page_flag || has_flag p.flags leaf_page_flag
is_tree_page (of_node n) = true

-- ref.count() - 1 of a page that last enters.
abbrev pub last_index : PageNode → ℕ
last_index p = length (elements p) - 1

module _ (look : ℕ → Outcome PageNode) (depth : ℕ) where
  -- goToFirstElementOnTheStack and last, by the index at which they enter a page.
  unfoldable pub descend : (PageNode → ℕ) → ℕ → List ElemRef → Outcome (List ElemRef)
  descend enter zero stack = out_of_fuel
  descend enter (suc k) [] = panic
  descend enter (suc k) (r ∷ stack) =
      if is_leaf r.ref
      then ok (r ∷ stack)
      else (child_id r >>= λ id.
          look id >>= λ p. descend enter k (record { ref = p; index = enter p } ∷ r ∷ stack))

  unfoldable pub go_to_first : List ElemRef → Outcome (List ElemRef)
  unfolding descend
  go_to_first stack = descend (λ p. 0) depth stack

  unfoldable pub last : List ElemRef → Outcome (List ElemRef)
  unfolding descend
  last stack = descend last_index depth stack

  -- next; each round but the last one passes an empty page.
  next_down :
      (List ElemRef → Outcome (List ElemRef × Option Entry))
      → List ElemRef
      → Option (List ElemRef)
      → Outcome (List ElemRef × Option Entry)
  unfolding go_to_first
  next_down again stack none = ok (stack, none)
  next_down again stack (some up) =
      go_to_first up >>= λ s. if top_count s == 0 then again s else (key_value s >>= λ e. ok (s, e))

  unfoldable pub next : ℕ → List ElemRef → Outcome (List ElemRef × Option Entry)
  unfolding next_down next_up
  next zero stack = out_of_fuel
  next (suc k) stack = next_down (next k) stack (next_up stack)

  prev_down : List ElemRef → Outcome (List ElemRef × Option Entry)
  unfolding last
  prev_down [] = ok ([], none)
  prev_down (r ∷ stack) = last (r ∷ stack) >>= λ s. key_value s >>= λ e. ok (s, e)

  unfoldable pub prev : List ElemRef → Outcome (List ElemRef × Option Entry)
  unfolding prev_down prev_up
  prev stack = prev_down (prev_up stack)

  -- What prevN does behind its loop: `again` goes back to the label PREV.
  prev_n_down :
      (ℕ → List ElemRef → Outcome (ℕ × List ElemRef × Option Entry))
      → ℕ
      → UpN
      → Outcome (ℕ × List ElemRef × Option Entry)
  unfolding last
  prev_n_down again n (enough stack) = key_value stack >>= λ e. ok (n, stack, e)
  prev_n_down again n (go_on passed []) = ok (passed, [], none)
  prev_n_down again n (go_on passed (r ∷ stack)) = last (r ∷ stack) >>= λ s.
      if ltb (passed + 1) n
      then again (passed + 1) s
      else (key_value s >>= λ e. ok (passed + 1, s, e))

  -- prevN from the label PREV on.
  unfoldable pub prev_n : ℕ → ℕ → ℕ → List ElemRef → Outcome (ℕ × List ElemRef × Option Entry)
  unfolding prev_n_down prev_n_up
  prev_n zero n passed stack = out_of_fuel
  prev_n (suc k) n passed stack = prev_n_down (prev_n k n) n (prev_n_up n passed stack)

  -- prevSamePage: none of the option is `ok` being false.
  unfoldable pub prev_same_page : List ElemRef → Outcome (List ElemRef × Option (Option Entry))
  prev_same_page [] = ok ([], none)
  prev_same_page (r ∷ stack) =
      let back = record r { index = r.index - 1 } ∷ stack in
      if ltb 0 r.index then (key_value back >>= λ e. ok (back, some e)) else ok (r ∷ stack, none)

  -- first.
  unfoldable pub first : ℕ → ℕ → Outcome (List ElemRef × Option Entry)
  unfolding go_to_first next
  first k root = look root >>= λ p. go_to_first (record { ref = p; index = 0 } ∷ []) >>= λ s.
      (if top_count s == 0 then (next k s >>= λ (s', e). ok s') else ok s) >>= λ s'.
      key_value s' >>= λ e. ok (s', hide_bucket e)

  -- The loop of Last over empty pages.
  unfoldable pub last_loop : ℕ → List ElemRef → Outcome (List ElemRef)
  unfolding prev
  last_loop zero stack = out_of_fuel
  last_loop (suc k) [] = ok []
  last_loop (suc k) (r ∷ stack) =
      if count_of r == 0 then (prev (r ∷ stack) >>= λ (s, e). last_loop k s) else ok (r ∷ stack)

  -- Last.
  unfoldable pub last_item : ℕ → ℕ → Outcome (List ElemRef × Option Entry)
  unfolding last last_loop
  last_item k root = look root >>= λ p.
      last (record { ref = p; index = last_index p } ∷ []) >>= λ s. last_loop k s >>= λ s'.
      elim s' [
        | [] ↦ ok ([], none)
        | r ∷ stack ↦ key_value (r ∷ stack) >>= λ e. ok (r ∷ stack, hide_bucket e)
      ]

  -- search, with searchNode, searchPage and nsearch.
  unfoldable pub search : ℕ → Bytes → ℕ → List ElemRef → Outcome (List ElemRef)
  unfolding leaf_index branch_index
  search zero key id stack = out_of_fuel
  search (suc k) key id stack = look id >>= λ p.
      assert (is_tree_page p)
      >> (let r : ElemRef = record { ref = p; index = branch_index key (elements p) } in
          if is_leaf p
          then ok (record { ref = p; index = leaf_index key (elements p) } ∷ stack)
          else (child_id r >>= λ child. search k key child (r ∷ stack)))

  -- seek.
  unfoldable pub seek : Bytes → ℕ → Outcome (List ElemRef × Option Entry)
  unfolding search
  seek key root = search depth key root [] >>= λ s. key_value s >>= λ e. ok (s, e)

  -- The exported methods, on an open transaction.
  unfoldable pub first_item : ℕ → ℕ → Outcome (List ElemRef × Option Entry)
  unfolding first
  first_item k root = first k root >>= λ (s, e). ok (s, hide_bucket e)

  unfoldable pub next_item : ℕ → List ElemRef → Outcome (List ElemRef × Option Entry)
  unfolding next
  next_item k stack = next k stack >>= λ (s, e). ok (s, hide_bucket e)

  unfoldable pub prev_item : List ElemRef → Outcome (List ElemRef × Option Entry)
  unfolding prev
  prev_item stack = prev stack >>= λ (s, e). ok (s, hide_bucket e)

  -- PrevN of a number that is not negative.
  unfoldable pub prev_items : ℕ → List ElemRef → Outcome (ℕ × List ElemRef × Option Entry)
  unfolding prev_n
  prev_items zero [] = ok (0, [], none)
  prev_items zero (r ∷ stack) = key_value (r ∷ stack) >>= λ e. ok (0, r ∷ stack, hide_bucket e)
  prev_items (suc n) stack =
      prev_n (suc n) (suc n) 0 stack >>= λ (c, s, e). ok (c, s, hide_bucket e)

  -- Seek moves on from the end of a page.
  unfoldable pub seek_item : ℕ → Bytes → ℕ → Outcome (List ElemRef × Option Entry)
  unfolding seek next
  seek_item k key root = seek key root >>= λ (s, e).
      (elim s [
        | [] ↦ panic
        | r ∷ stack ↦ if leb (count_of r) r.index then next k (r ∷ stack) else ok (r ∷ stack, e)
      ])
      >>= λ (s', e'). ok (s', hide_bucket e')
