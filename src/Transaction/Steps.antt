-- ===== src/Transaction/Steps.antt =====
-- The steps of a database in which readers come and go beside one writer at a time. With the state of the
-- database goes what its pages are for: the versions of the file, and the pages of the writer's.
use bbolt.Prelude.{
  ℕ, ◌+◌, ◌-◌, ◌<◌, ◌≡◌, [], false, ok, Option, none, some, inr, count, ◌==◌, if◌then◌else◌,
}
use bbolt.Page.{Page, has_flag, freelist_page_flag}
use bbolt.Freelist.State.{Freelist, Backend, u64, empty_freelist}
use bbolt.Freelist.Laws.{BackendLaws}
use bbolt.Freelist.Ops.{free, FreelistPage}
use bbolt.Freelist.FreePages.{max_txid}
use bbolt.Database.{Meta, BucketHeader, current_meta}
use bbolt.Stats.{TxStats}
use bbolt.Transaction.{
  Db, Tx, begin_tx, begin_rw_tx, remove_tx, tx_allocate, commit_freelist, commit_meta, roll_back,
  init_meta,
}
use bbolt.Transaction.World.{Pages, Sound, put_page, drop_page, set_version}
use bbolt.Transaction.Undo.{Undo}
use bbolt.Transaction.Newest.{Newest}

pub record World : Type 0 where
  pub db : Db
  pub version : ℕ → Pages
  pub current : Pages

-- The writer's transaction has another root.
abbrev pub set_root : Tx → BucketHeader → Tx
set_root tx root = record tx { meta = record tx.meta { root = root } }

module _ (sum64 : Meta → ℕ) (b : Backend) (remap : ℕ → Option ℕ) where
  -- What happens in one step. Transaction ids and page ids stay in their 64 bits; the writer frees pages
  -- that are in use, as a whole, and rolls back before it allocates.
  pub data Step (w w' : World) : Type 0 where
    begin_reader :
        (t : Tx) (db : Db)
        → begin_tx sum64 w.db ≡ ok (inr (t, db))
        → w' ≡ record w { db = db }
        → Step w w'
    end_reader :
        (r : ℕ) (stats : TxStats)
        → 0 < count r w.db.txs
        → w' ≡ record w { db = remove_tx w.db r stats }
        → Step w w'
    begin_writer :
        (m : Meta) (db : Db)
        → w.db.rwtx ≡ none
        → current_meta sum64 w.db.meta0 w.db.meta1 ≡ ok m
        → m.txid < max_txid
        → begin_rw_tx sum64 b w.db ≡ ok (inr db)
        → w' ≡ record w { db = db }
        → Step w w'
    take :
        (tx : Tx) (n p : ℕ) (db : Db)
        → w.db.rwtx ≡ some tx
        → 0 < n
        → tx.meta.pgid + n + 1 < u64
        → tx_allocate b remap w.db n ≡ ok (some p, db)
        → w' ≡ record w { db = db; current = put_page p (n - 1) w.current }
        → Step w w'
    give :
        (tx : Tx) (page : Page) (f : Freelist)
        → w.db.rwtx ≡ some tx
        → w.current page.id ≡ some page.overflow
        → has_flag page.flags freelist_page_flag ≡ false
        → free w.db.freelist tx.meta.txid page ≡ ok f
        → w' ≡ record w { db = record w.db { freelist = f }; current = drop_page page.id w.current }
        → Step w w'
    save :
        (tx tx' : Tx) (page : FreelistPage)
        → w.db.rwtx ≡ some tx
        → commit_freelist b w.db tx ≡ ok (page, tx')
        → w' ≡ record w { db = record w.db { rwtx = some tx' } }
        → Step w w'
    commit :
        (tx : Tx) (root : BucketHeader) (db : Db)
        → w.db.rwtx ≡ some tx
        → commit_meta sum64 b (record w.db { rwtx = some (set_root tx root) }) ≡ ok db
        → w' ≡ record w { db = db; version = set_version tx.meta.txid w.current w.version }
        → Step w w'
    undo :
        (tx : Tx) (m : Meta) (db : Db)
        → w.db.rwtx ≡ some tx
        → tx.pages ≡ []
        → current_meta sum64 w.db.meta0 w.db.meta1 ≡ ok m
        → roll_back sum64 b w.db ≡ ok db
        → w' ≡ record w { db = db; current = w.version m.txid }
        → Step w w'

  pub data Reach (w : World) : World → Type 0 where
    here : Reach w w
    later : {u v : World} → Reach w u → Step u v → Reach w v

-- A new file: the root page is its only page, besides the meta pages and those of the freelist.
abbrev pub new_pages : Meta → Pages
new_pages m q = if m.root.root == q then some 0 else none

unfoldable pub new_world : (Meta → ℕ) → Db → World
unfolding init_meta
new_world sum64 db =
    let m = init_meta sum64 db.page_size 1 in
    record {
      db = record db {
        meta0 = init_meta sum64 db.page_size 0;
        meta1 = m;
        freelist = empty_freelist;
        txs = [];
        rwtx = none;
      };
      version = λ r. new_pages m;
      current = new_pages m;
    }

module _ (sum64 : Meta → ℕ) (b : Backend) (laws : BackendLaws b) where
  pub record Idle (w : World) (m : Meta) : Type 0 where
    pub no_writer : w.db.rwtx ≡ none
    pub meta : Newest sum64 w.db.meta0 w.db.meta1 m
    pub sound : Sound b laws w.db.freelist w.db.txs m.txid m.txid m.pgid w.version w.current
    pub same : w.version m.txid ≡ w.current

  pub record Writing (w : World) (m : Meta) (tx : Tx) : Type 0 where
    pub writer : w.db.rwtx ≡ some tx
    pub meta : Newest sum64 w.db.meta0 w.db.meta1 m
    pub sound :
        Sound b laws w.db.freelist w.db.txs m.txid (m.txid + 1) tx.meta.pgid w.version w.current
    pub next : tx.meta.txid ≡ m.txid + 1
    pub magic : tx.meta.magic ≡ m.magic
    pub format : tx.meta.version ≡ m.version
    pub undo :
        tx.pages ≡ []
        → (base : Freelist) × Sound b laws base w.db.txs m.txid m.txid m.pgid w.version
            (w.version m.txid)
          × Undo b laws base w.db.freelist m.txid (w.version m.txid) w.current

  -- The invariant of the steps.
  pub data Fine (w : World) : Type 0 where
    idle : (m : Meta) → Idle w m → Fine w
    writing : (m : Meta) (tx : Tx) → Writing w m tx → Fine w
