-- ===== src/Page.antt =====
-- page.go: the page header, its flags and the tests on them. A page in memory is this header and a
-- body; the modules that read a body take it in the form in which the code views it.
pub mod Bits
pub mod Element
pub mod Merge
pub mod Checks
mod Tests
use Prim.Native.Nat.{bit_and}
use Prim.Native.String.{String}
use bbolt.Prelude.{
  ℕ, zero, suc, ◌+◌, List, [], ◌∷◌, Bool, true, false, not, ◌||◌, Outcome, ok, panic, ltb, ◌==◌,
  if◌then◌else◌, get_elem?, Option, none, some,
}

abbrev pub branch_page_flag : ℕ
branch_page_flag = 0x01

abbrev pub leaf_page_flag : ℕ
leaf_page_flag = 0x02

abbrev pub meta_page_flag : ℕ
meta_page_flag = 0x04

abbrev pub freelist_page_flag : ℕ
freelist_page_flag = 0x10

abbrev pub bucket_leaf_flag : ℕ
bucket_leaf_flag = 0x01

-- Sizes of the structs on disk: page is 8 + 2 + 2 + 4 bytes, branchPageElement 4 + 4 + 8, and
-- leafPageElement one 64-bit word.
abbrev pub page_header_size : ℕ
page_header_size = 16

abbrev pub branch_page_element_size : ℕ
branch_page_element_size = 16

abbrev pub leaf_page_element_size : ℕ
leaf_page_element_size = 8

abbrev pub min_keys_per_page : ℕ
min_keys_per_page = 2

pub record Page : Type 0 where
  pub id : ℕ
  pub flags : ℕ
  pub count : ℕ
  pub overflow : ℕ

-- (flags & flag) != 0
abbrev pub has_flag : ℕ → ℕ → Bool
has_flag flags flag = not (bit_and flags flag == 0)

pub data PageType : Type 0 where
  branch leaf meta freelist : PageType
  unknown : ℕ → PageType

-- typ, with a name for each text that it returns.
unfoldable pub typ : Page → PageType
typ p =
    if has_flag p.flags branch_page_flag
    then branch
    else if has_flag p.flags leaf_page_flag
    then leaf
    else if has_flag p.flags meta_page_flag
    then meta
    else if has_flag p.flags freelist_page_flag
    then freelist
    else unknown p.flags

-- The [0x11]bool array.
unfoldable pub fast_check_bits : List Bool
fast_check_bits =
    false ∷ true ∷ true ∷ false ∷ true ∷ false ∷ false ∷ false ∷ false ∷ false ∷ false ∷ false
    ∷ false ∷ false ∷ false ∷ false ∷ true ∷ []

-- `||` reads the array only if the flags are in its range.
bad_flags : ℕ → Bool
unfolding fast_check_bits
bad_flags flags =
    ltb freelist_page_flag flags
    || elim (get_elem? fast_check_bits flags) [ none ↦ true | some bit ↦ not bit ]

unfoldable pub fast_check : Page → ℕ → Outcome (Unit {0})
unfolding bad_flags
fast_check p id = if not (p.id == id) then panic else if bad_flags p.flags then panic else ok tt
