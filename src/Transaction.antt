-- ===== src/Transaction.antt =====
-- The life of a transaction: Tx.init, allocate, commitFreelist, writeMeta, nonPhysicalRollback and close of
-- tx.go, and beginTx, beginRWTx, removeTx and allocate of db.go. A reader in db.txs is the id of its
-- transaction, and the writer is the transaction in db.rwtx. The locks are not part of the state: a
-- write transaction begins when rwtx is nil. `sum64` is the hash of a meta page and `remap` stands
-- for mmap: the new size of the map, or nothing for an error.
pub mod Needs
pub mod World
pub mod Take
pub mod Give
pub mod Restored
pub mod Undo
pub mod Rollback
pub mod Newest
pub mod Steps
pub mod Keeps
pub mod Preserved
pub mod Taken
pub mod Writes
pub mod Ends
pub mod Apart
pub mod Isolation
pub mod Region
pub mod HighLoad
pub mod Write
mod Tests
use bbolt.Prelude.{
  ℕ, ◌+◌, ◌-◌, ◌*◌, ◌/◌, ◌%◌, List, [], ◌∷◌, ◌++◌, Bool, true, false, not, Outcome, ok, panic,
  ◌>>=◌, ◌>>◌, assert, ltb, leb, ◌==◌, if◌then◌else◌, length, Option, none, some, ◌⊎◌, inl, inr,
  replicate,
}
use bbolt.Prelude.Map.{Map, insert}
use bbolt.Prelude.Sort.{sort}
use bbolt.Page.{Page}
use bbolt.Freelist.State.{Freelist, Backend, add64}
use bbolt.Freelist.Ops.{FreelistPage, size, write, rollback, pending_count}
use bbolt.Freelist.Ops
use bbolt.Freelist.FreePages.{free_pages}
use bbolt.Database.{Meta, current_meta, write_meta, magic_number, version_number}
use bbolt.Stats.{TxStats, Stats, add}

pub data BeginError : Type 0 where
  database_not_open invalid_mapping database_read_only high_load_pending_pages : BeginError

-- The dirty pages by their id, with their overflow.
pub record Tx : Type 0 where
  pub writable : Bool
  pub meta : Meta
  pub pages : Map ℕ
  pub stats : TxStats

pub record Db : Type 0 where
  pub opened : Bool
  pub mapped : Bool
  pub read_only : Bool
  pub page_size : ℕ
  pub data_size : ℕ
  pub hard_limit_pending_pages : ℕ
  pub meta0 : Meta
  pub meta1 : Meta
  pub freelist : Freelist
  pub txs : List ℕ
  pub rwtx : Option Tx
  pub stats : Stats

abbrev pub no_stats : TxStats
no_stats = record {
  page_count = 0;
  page_alloc = 0;
  cursor_count = 0;
  node_count = 0;
  node_deref = 0;
  rebalance = 0;
  rebalance_time = 0;
  split = 0;
  spill = 0;
  spill_time = 0;
  write = 0;
  write_time = 0;
}

-- freelistRegionSize
abbrev pub freelist_region_size : ℕ
freelist_region_size = 8388608

-- removeTx: the last one takes the place of the first that is the one.
abbrev pub last_of : ℕ → List ℕ → ℕ
last_of t [] = t
last_of t (t' ∷ txs) = last_of t' txs

abbrev pub but_last : ℕ → List ℕ → List ℕ
but_last t [] = []
but_last t (t' ∷ txs) = t ∷ but_last t' txs

abbrev pub move_last : List ℕ → List ℕ
move_last [] = []
move_last (t ∷ txs) = last_of t txs ∷ but_last t txs

pub take_out : ℕ → List ℕ → List ℕ
take_out tx [] = []
take_out tx (t ∷ txs) = let rest = take_out tx txs in if t == tx then move_last txs else t ∷ rest

unfoldable pub remove_tx : Db → ℕ → TxStats → Db
unfolding take_out add
remove_tx db tx stats =
    let txs = take_out tx db.txs in
    record db {
      txs = txs;
      stats = record db.stats { open_tx_n = length txs; tx_stats = add db.stats.tx_stats stats };
    }

-- freelistPage: the id of the page that holds the freelist of a meta page.
unfoldable pub freelist_page_id : ℕ → Meta → ℕ
freelist_page_id page_size m = 2 + m.flid % 2 * freelist_region_size / page_size

module _ (sum64 : Meta → ℕ) where
  -- The meta page `i` of a new file, and what open makes of the file: the root of init, 2 and the two regions
  -- of the freelist are in use, and no page is free.
  unfoldable pub init_meta : ℕ → ℕ → Meta
  init_meta page_size i =
      let root = 2 + freelist_region_size * 2 / page_size in
      let m : Meta = record {
        magic = magic_number;
        version = version_number;
        page_size = page_size;
        flags = 0;
        root = record { root = root; sequence = 0 };
        flid = 0;
        pgid = root + 1;
        txid = i;
        checksum = 0;
      } in
      record m { checksum = sum64 m }

  -- init.
  unfoldable pub init_tx : Db → Bool → Outcome Tx
  unfolding current_meta
  init_tx db writable = current_meta sum64 db.meta0 db.meta1 >>= λ m. ok (record {
    writable = writable;
    meta = if writable then record m { txid = add64 m.txid 1; flid = add64 m.flid 1 } else m;
    pages = [];
    stats = no_stats;
  })

  unfoldable pub begin_tx : Db → Outcome (BeginError ⊎ (Tx × Db))
  unfolding init_tx
  begin_tx db =
      if not db.opened
      then ok (inl database_not_open)
      else if not db.mapped
      then ok (inl invalid_mapping)
      else (init_tx db false >>= λ t.
          let txs = db.txs ++ t.meta.txid ∷ [] in
          ok (
            inr (
              t,
              record db {
                txs = txs;
                stats = record db.stats { tx_n = add64 db.stats.tx_n 1; open_tx_n = length txs };
              },
            )))

  module _ (b : Backend) where
    -- freePages leaves db.txs sorted.
    unfoldable pub begin_rw_tx : Db → Outcome (BeginError ⊎ Db)
    unfolding init_tx free_pages sort
    begin_rw_tx db =
        if db.read_only
        then ok (inl database_read_only)
        else if ltb db.hard_limit_pending_pages (db.stats.free_page_n + db.stats.pending_page_n)
        then ok (inl high_load_pending_pages)
        else if not db.opened
        then ok (inl database_not_open)
        else if not db.mapped
        then ok (inl invalid_mapping)
        else (init_tx db true >>= λ t. free_pages b db.txs db.freelist >>= λ f.
            ok (inr (record db { rwtx = some t; txs = sort db.txs; freelist = f })))

    -- Commit from writeMeta on: the meta page goes to its place, and close.
    unfoldable pub close_writer : Db → Tx → Db
    unfolding size pending_count add
    close_writer db tx =
        let free_n = b.free_count db.freelist in
        let pending_n = pending_count db.freelist.pending in
        record db {
          rwtx = none;
          stats = record db.stats {
            free_page_n = free_n;
            pending_page_n = pending_n;
            pending_n = length db.freelist.pending;
            free_alloc = (free_n + pending_n) * db.page_size;
            freelist_inuse = size b db.freelist;
            tx_stats = add db.stats.tx_stats tx.stats;
          };
        }

    pub store_meta : Db → Page × Meta → Db
    store_meta db (p, m) = if p.id == 0 then record db { meta0 = m } else record db { meta1 = m }

    -- writeMeta counts one write.
    pub count_write : Tx → Tx
    unfolding add
    count_write tx = record tx { stats = add tx.stats (record no_stats { write = 1 }) }

    unfoldable pub commit_meta : Db → Outcome Db
    unfolding write_meta store_meta close_writer count_write
    commit_meta db = elim db.rwtx [
      | none ↦ panic
      | some tx ↦
          write_meta sum64 tx.meta (record { id = 0; flags = 0; count = 0; overflow = 0 }) >>= λ pm.
          ok (close_writer (store_meta db pm) (count_write tx))
    ]

    -- nonPhysicalRollback of the writer.
    unfoldable pub roll_back : Db → Outcome Db
    unfolding rollback close_writer
    roll_back db = elim db.rwtx [
      | none ↦ ok db
      | some tx ↦ rollback b db.freelist tx.meta.txid >>= λ f.
          ok (close_writer (record db { freelist = f }) tx)
    ]

-- The page behind the high water mark, after mmap if it is at the end.
raise_mark : Db → Tx → ℕ → ℕ → Option ℕ → Option ℕ × Db
raise_mark db tx id count none = (none, db)
raise_mark db tx id count (some size) = (
  some id,
  record db {
    data_size = size;
    rwtx = some (record tx { meta = record tx.meta { pgid = add64 id count } });
  },
)

-- The page joins the dirty pages, and is counted.
pub note_page : ℕ → ℕ → ℕ → Tx → Tx
unfolding add
note_page id count page_size tx = record tx {
  pages = insert id (count - 1) tx.pages;
  stats = add tx.stats (record no_stats { page_count = count; page_alloc = count * page_size });
}

noted : ℕ → Option ℕ × Db → Option ℕ × Db
unfolding note_page
noted count (none, db) = (none, db)
noted count (some id, db) = elim db.rwtx [
  | none ↦ (some id, db)
  | some tx ↦ (some id, record db { rwtx = some (note_page id count db.page_size tx) })
]

module _ (b : Backend) (remap : ℕ → Option ℕ) where
  at_mark : Db → ℕ → Outcome (Option ℕ × Db)
  unfolding raise_mark
  at_mark db count = elim db.rwtx [
    | none ↦ panic
    | some tx ↦
        let min_size = add64 (add64 tx.meta.pgid count) 1 * db.page_size in
        ok (
          raise_mark db tx tx.meta.pgid count
            (if leb db.data_size min_size then remap min_size else some db.data_size))
  ]

  -- allocate of db.go: the id of the first page, or none for an error of mmap.
  unfoldable pub db_allocate : Db → ℕ → ℕ → Outcome (Option ℕ × Db)
  unfolding at_mark
  db_allocate db txid count = b.allocate db.freelist txid count >>= λ (p, f).
      if p == 0
      then at_mark (record db { freelist = f }) count
      else ok (some p, record db { freelist = f })

  -- allocate of tx.go, by the writer.
  unfoldable pub tx_allocate : Db → ℕ → Outcome (Option ℕ × Db)
  unfolding db_allocate noted
  tx_allocate db count = elim db.rwtx [
    | none ↦ panic
    | some tx ↦ db_allocate db tx.meta.txid count >>= λ r. ok (noted count r)
  ]

module _ (b : Backend) where
  -- commitFreelist: the page and its buffer, as its 64-bit words behind the page header.
  unfoldable pub region_pages : Db → ℕ
  unfolding size
  region_pages db =
      let n = size b db.freelist in if ltb n db.page_size then 1 else n / db.page_size + 1

  unfoldable pub freelist_buffer : Db → Tx → FreelistPage
  unfolding region_pages freelist_page_id
  freelist_buffer db tx = record {
    header = record {
      id = freelist_page_id db.page_size tx.meta;
      flags = 0;
      count = 0;
      overflow = region_pages db - 1;
    };
    words = replicate ((region_pages db * db.page_size - 16) / 8) 0;
  }

  unfoldable pub commit_freelist : Db → Tx → Outcome (FreelistPage × Tx)
  unfolding size write freelist_buffer
  commit_freelist db tx =
      assert (ltb (size b db.freelist) (freelist_region_size - db.page_size))
      >> (write b db.freelist (freelist_buffer db tx) >>= λ p.
          ok (p, record tx { pages = insert p.header.id p.header.overflow tx.pages }))
