-- ===== src/Database.antt =====
-- db.go: the meta pages, and the size of the memory map.
pub mod MetaPages
pub mod MapSize
pub mod Batch
mod Tests
use Prim.Native.Nat.{bit_or}
use bbolt.Prelude.{
  ℕ, zero, suc, ◌+◌, ◌-◌, ◌*◌, ◌/◌, ◌%◌, ◌^◌, List, [], ◌∷◌, Bool, true, false, not, Outcome, ok,
  panic, ◌>>=◌, ltb, leb, ◌==◌, if◌then◌else◌, Option, none, some,
}
use bbolt.Page.{Page, meta_page_flag}

abbrev pub magic_number : ℕ
magic_number = 0xED0CDACD

abbrev pub version_number : ℕ
version_number = 2

-- The bucket struct within meta.
pub record BucketHeader : Type 0 where
  pub root : ℕ
  pub sequence : ℕ

pub record Meta : Type 0 where
  pub magic : ℕ
  pub version : ℕ
  pub page_size : ℕ
  pub flags : ℕ
  pub root : BucketHeader
  pub flid : ℕ
  pub pgid : ℕ
  pub txid : ℕ
  pub checksum : ℕ

pub data MetaError : Type 0 where
  invalid version_mismatch wrong_checksum : MetaError

-- `sum64` is the hash of the fields before the checksum.
module _ (sum64 : Meta → ℕ) where
  unfoldable pub validate : Meta → Option MetaError
  validate m =
      if not (m.magic == magic_number)
      then some invalid
      else if not (m.version == version_number)
      then some version_mismatch
      else if not (m.checksum == sum64 m)
      then some wrong_checksum
      else none

  -- The last step of meta: the higher meta page, or the other one, by their errors.
  pub pick_by : Option MetaError → Option MetaError → Meta → Meta → Outcome Meta
  pick_by none other a b = ok a
  pick_by (some e) none a b = ok b
  pick_by (some e) (some e') a b = panic

  pub pick : Meta → Meta → Outcome Meta
  unfolding pick_by
  pick a b = pick_by (validate a) (validate b) a b

  -- meta, of the two meta pages.
  unfoldable pub current_meta : Meta → Meta → Outcome Meta
  unfolding pick
  current_meta meta0 meta1 =
      if ltb meta0.txid meta1.txid then pick meta1 meta0 else pick meta0 meta1

  -- ReadTxID, of the meta structs on the pages 0 and 1.
  unfoldable pub read_txid : Meta → Meta → Outcome ℕ
  unfolding pick
  read_txid meta0 meta1 =
      (if ltb meta0.txid meta1.txid then pick meta1 meta0 else pick meta0 meta1) >>= λ m. ok m.txid

  -- write: the page header and the meta struct on the page.
  unfoldable pub write_meta : Meta → Page → Outcome (Page × Meta)
  write_meta m p =
      if leb m.pgid m.root.root
      then panic
      else ok (
        record p { id = m.txid % 2; flags = bit_or p.flags meta_page_flag },
        record m { checksum = sum64 m },
      )

abbrev pub max_mmap_step : ℕ
max_mmap_step = 2 ^ 30

-- for i := uint(15); i <= 30; i++: `k` sizes are left to try.
pub doubling : ℕ → ℕ → ℕ → Option ℕ
doubling zero i size = none
doubling (suc k) i size =
    let rest = doubling k (i + 1) size in if leb size (2 ^ i) then some (2 ^ i) else rest

pub round_up : ℕ → ℕ → ℕ
round_up step sz = if ltb 0 (sz % step) then sz + (step - sz % step) else sz

-- The rounding of mmapSize above 1 GB.
pub mmap_steps : ℕ → ℕ → ℕ → ℕ
unfolding round_up
mmap_steps page_size max_map_size size =
    let sz = round_up max_mmap_step size in
    let sz' = if not (sz % page_size == 0) then (sz / page_size + 1) * page_size else sz in
    if ltb max_map_size sz' then max_map_size else sz'

-- mmapSize, by what the doubling gives; none is the error that the map is too large. The size
-- `max_map_size` depends on the platform.
pub mmap_from : ℕ → ℕ → ℕ → Option ℕ → Option ℕ
unfolding mmap_steps
mmap_from page_size max_map_size size (some sz) = some sz
mmap_from page_size max_map_size size none =
    if ltb max_map_size size then none else some (mmap_steps page_size max_map_size size)

unfoldable pub mmap_size : ℕ → ℕ → ℕ → Option ℕ
unfolding doubling mmap_from
mmap_size page_size max_map_size size = mmap_from page_size max_map_size size (doubling 16 15 size)
