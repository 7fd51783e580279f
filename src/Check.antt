-- ===== src/Check.antt =====
-- tx_check.go: the check that the keys of the pages of a bucket are in order. `pages` stands for Tx.page
-- and `depth` bounds the way down the tree. The channel of errors is the list of what is sent to it,
-- without the text of the messages.
pub mod Bounds
pub mod Sound
mod Tests
use bbolt.Prelude.{
  ℕ, zero, suc, ◌+◌, List, [], ◌∷◌, ◌++◌, Bool, true, false, Outcome, ok, out_of_fuel, ◌>>=◌, ◌==◌,
  if◌then◌else◌, Option, none, some,
}
use bbolt.Page.{has_flag, branch_page_flag, leaf_page_flag}
use bbolt.Node.{Bytes, Inode, less, equal}
use bbolt.Cursor.{PageView}

pub data CheckError : Type 0 where
  below_ancestor : ℕ → ℕ → CheckError
  below_previous : ℕ → ℕ → CheckError
  same_as_previous : ℕ → ℕ → CheckError
  not_below_next : ℕ → ℕ → CheckError
  unexpected_type : ℕ → CheckError

-- A nil key compares as an empty one.
abbrev pub or_empty : Option Bytes → Bytes
or_empty none = []
or_empty (some key) = key

-- The errors of an element by each of the three tests.
abbrev pub after_ancestor : ℕ → ℕ → Bytes → Option Bytes → List CheckError
after_ancestor id index key none = []
after_ancestor id index key (some min) = if less key min then below_ancestor id index ∷ [] else []

abbrev pub after_previous : ℕ → ℕ → Bytes → Bytes → List CheckError
after_previous id index key previous =
    if less key previous
    then below_previous id index ∷ []
    else if equal previous key
    then same_as_previous id index ∷ []
    else []

abbrev pub before_next : ℕ → ℕ → Bytes → Option Bytes → List CheckError
before_next id index key none = []
before_next id index key (some max) = if less key max then [] else not_below_next id index ∷ []

-- verifyKeyOrder.
unfoldable pub verify_key_order : ℕ → ℕ → Bytes → Option Bytes → Option Bytes → List CheckError
verify_key_order id index key previous max_open =
    (if index == 0
      then after_ancestor id index key previous
      else after_previous id index key (or_empty previous))
    ++ before_next id index key max_open

-- The loop over the elements of a leaf page.
unfoldable pub check_leaf : ℕ → Option Bytes → ℕ → Option Bytes → List Inode → List CheckError
unfolding verify_key_order
check_leaf id max_open index running_min [] = []
check_leaf id max_open index running_min (e ∷ es) =
    verify_key_order id index e.key running_min max_open
    ++ check_leaf id max_open (index + 1) (some e.key) es

abbrev pub last_key : List Inode → Option Bytes
last_key [] = none
last_key (e ∷ []) = some e.key
last_key (e ∷ e' ∷ es) = last_key (e' ∷ es)

-- The key of the next element of a branch page, or the bound of the page.
abbrev pub next_key : Option Bytes → List Inode → Option Bytes
next_key max_open [] = max_open
next_key max_open (e ∷ es) = some e.key

-- The largest key of a subtree, and the errors in it.
abbrev pub Checked : Type 0
Checked = Outcome (Option Bytes × List CheckError)

-- The loop over the elements of a branch page, by the check of the page of an element.
unfoldable pub check_branch :
    (ℕ → Option Bytes → Option Bytes → Checked)
    → Option Bytes
    → ℕ
    → Option Bytes
    → Option Bytes
    → List Inode
    → Checked
unfolding verify_key_order
check_branch again max_open index running_min largest [] = ok (largest, [])
check_branch again max_open index running_min largest (e ∷ es) =
    again e.pgid (some e.key) (next_key max_open es) >>= λ (m, below).
    check_branch again max_open (index + 1) m m es >>= λ (largest', later).
    ok (largest', verify_key_order e.pgid index e.key running_min max_open ++ below ++ later)

module _ (pages : ℕ → Outcome PageView) where
  -- recursivelyCheckPagesInternal.
  unfoldable pub check_pages : ℕ → ℕ → Option Bytes → Option Bytes → Checked
  unfolding check_leaf check_branch
  check_pages zero id min_closed max_open = out_of_fuel
  check_pages (suc depth) id min_closed max_open = pages id >>= λ p.
      if has_flag p.flags branch_page_flag
      then check_branch (check_pages depth) max_open 0 min_closed none p.elements
      else if has_flag p.flags leaf_page_flag
      then ok (last_key p.elements, check_leaf id max_open 0 min_closed p.elements)
      else ok (none, unexpected_type id ∷ [])

  -- recursivelyCheckPages.
  unfoldable pub recursively_check_pages : ℕ → ℕ → Outcome (List CheckError)
  unfolding check_pages
  recursively_check_pages depth id = check_pages depth id none none >>= λ (m, errors). ok errors
