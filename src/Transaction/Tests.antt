-- ===== src/Transaction/Tests.antt =====
-- A new database of pages of 4096 bytes: a reader opens, and beside it a writer replaces the root page.
use bbolt.Prelude.{
  ℕ, ◌+◌, ◌*◌, ◌%◌, ◌<◌, ◌≡◌, refl, arith, [], ◌∷◌, false, true, ok, Option, none, some, inl, count,
  within,
}
use bbolt.Prelude.Map.{Map, lookup, insert, contains}
use bbolt.Prelude.Sort.{sort}
use bbolt.Page.{Page}
use bbolt.Freelist.State.{Freelist, empty_freelist}
use bbolt.Freelist.Array.{array_backend, array_allocate, array_merge_spans}
use bbolt.Freelist.Backends.{array_laws}
use bbolt.Freelist.Ops.{free, release, release_range, size}
use bbolt.Freelist.Ops.Valid.{IsValid}
use bbolt.Freelist.FreePages.{free_pages}
use bbolt.Database.{Meta, current_meta, write_meta, validate, magic_number, version_number}
use bbolt.Transaction.{
  BeginError, Db, Tx, begin_tx, begin_rw_tx, init_tx, init_meta, no_stats, tx_allocate, db_allocate,
  commit_meta,
}
use bbolt.Transaction.Newest.{slot}
use bbolt.Transaction.World.{Seer}
use bbolt.Transaction.Steps.{
  World, begin_reader, begin_writer, take, give, commit, Reach, here, later, new_world,
}
use bbolt.Transaction.HighLoad.{begin_rw_tx-HighLoad}
use bbolt.Transaction.Write.{Chunk, write_dirty}
use bbolt.Transaction.Isolation.{isolated, write_apart, meta_always}

abbrev sum : Meta → ℕ
sum m = m.pgid + m.txid

abbrev map_to : ℕ → Option ℕ
map_to size = some size

abbrev closed_file : Db
closed_file = record {
  opened = true;
  mapped = true;
  read_only = false;
  page_size = 4096;
  data_size = 33554432;
  hard_limit_pending_pages = 1000;
  meta0 = record {
    magic = 0;
    version = 0;
    page_size = 0;
    flags = 0;
    root = record { root = 0; sequence = 0 };
    flid = 0;
    pgid = 0;
    txid = 0;
    checksum = 0;
  };
  meta1 = record {
    magic = 0;
    version = 0;
    page_size = 0;
    flags = 0;
    root = record { root = 0; sequence = 0 };
    flid = 0;
    pgid = 0;
    txid = 0;
    checksum = 0;
  };
  freelist = empty_freelist;
  txs = [];
  rwtx = none;
  stats = record {
    free_page_n = 0;
    pending_page_n = 0;
    pending_n = 0;
    free_alloc = 0;
    freelist_inuse = 0;
    tx_n = 0;
    open_tx_n = 0;
    tx_stats = no_stats;
  };
}

empty-IsValid : IsValid array_backend array_laws empty_freelist
unfolding contains lookup
empty-IsValid = record {
  store = record { ascending = tt; small = λ a h. absurd (omega arith) };
  distinct = tt;
  paired = tt;
  once = λ a. omega arith;
  in_range = λ a h. absurd (omega arith);
  cached = λ a. refl;
}

-- The root page of the new file.
abbrev root_page : Page
root_page = record { id = 4098; flags = 2; count = 0; overflow = 0 }

-- A reader begins, and a writer.
beginning : (w : World) × Reach sum array_backend map_to (new_world sum closed_file) w
unfolding new_world init_meta begin_tx begin_rw_tx init_tx current_meta validate free_pages release
    release_range sort array_merge_spans
beginning = (
  _,
  later (later here (begin_reader _ _ refl refl))
      (begin_writer _ _ refl refl (omega arith) refl refl),
)

-- The writer takes page 4099, frees the old root page 4098 and commits.
run : (w : World) × Reach sum array_backend map_to (new_world sum closed_file) w
unfolding beginning new_world init_meta begin_tx begin_rw_tx init_tx current_meta validate
    free_pages release release_range sort array_merge_spans tx_allocate db_allocate array_allocate
    free lookup insert contains commit_meta write_meta
run = (
  _,
  later
      (later (later beginning.1 (take _ 1 _ _ refl (omega arith) (omega arith) refl refl))
        (give _ root_page _ refl refl refl refl refl))
      (commit _ (record { root = 4099; sequence = 0 }) _ refl refl refl),
)

-- The reader is at the transaction 1.
isolated_example :
    (m : Meta) × (current_meta sum run.0.db.meta0 run.0.db.meta1 ≡ ok m)
    × ((r p o a : ℕ)
        → Seer run.0.db.txs m.txid r
        → run.0.version r p ≡ some o
        → 0 < within a p (o + 1)
        → count a run.0.db.freelist.ids ≡ 0)
isolated_example =
    isolated sum array_backend array_laws map_to (λ m c. refl) closed_file empty-IsValid (λ a. refl)
      run.0 run.1

old_root :
    (count 1 run.0.db.txs ≡ 1)
    × (run.0.version 1 4098 ≡ some 0)
    × (run.0.version 2 4098 ≡ none)
    × (run.0.version 2 4099 ≡ some 0)
unfolding run
old_root = (refl, refl, refl, refl)

write_apart_example :
    (m : Meta) × (current_meta sum beginning.0.db.meta0 beginning.0.db.meta1 ≡ ok m)
    × ((r p o a : ℕ)
        → Seer beginning.0.db.txs m.txid r
        → beginning.0.version r p ≡ some o
        → 0 < within a p (o + 1)
        → within a 4099 1 ≡ 0)
unfolding beginning tx_allocate db_allocate array_allocate init_tx current_meta validate new_world
    init_meta
write_apart_example =
    write_apart sum array_backend array_laws map_to (λ m c. refl) closed_file empty-IsValid
      (λ a. refl) beginning.0 _ 1 4099 _ beginning.1 refl (omega arith) (omega arith) refl

meta_always_example :
    (m : Meta) × (current_meta sum beginning.0.db.meta0 beginning.0.db.meta1 ≡ ok m)
    × (validate sum m ≡ none)
    × ((tx : Tx)
        → beginning.0.db.rwtx ≡ some tx
        → (tx.meta.txid ≡ m.txid + 1)
          × (slot m.txid beginning.0.db.meta0 beginning.0.db.meta1 ≡ m)
          × ¬ (tx.meta.txid % 2 ≡ m.txid % 2))
meta_always_example =
    meta_always sum array_backend array_laws map_to (λ m c. refl) closed_file empty-IsValid
      (λ a. refl) beginning.0 beginning.1

-- Page 5000 is free.
abbrev one_free : Freelist
one_free = record empty_freelist { ids = 5000 ∷ []; cache = (5000, tt) ∷ [] }

abbrev old_meta : Meta
old_meta = record {
  magic = magic_number;
  version = version_number;
  page_size = 4096;
  flags = 0;
  root = record { root = 4098; sequence = 0 };
  flid = 0;
  pgid = 5001;
  txid = 1;
  checksum = 5002;
}

abbrev next_tx : Tx
next_tx = record {
  writable = true;
  meta = record old_meta { flid = 1; txid = 2 };
  pages = [];
  stats = no_stats;
}

abbrev with_one_free : Db
with_one_free = record closed_file { freelist = one_free }

-- More free pages than the limit.
abbrev many_free : World
many_free = record {
  db = record closed_file {
    meta0 = old_meta;
    meta1 = old_meta;
    stats = record closed_file.stats { free_page_n = 1001 };
  };
  version = λ r q. none;
  current = λ q. none;
}

with_reader : (w : World) × Reach sum array_backend map_to many_free w
unfolding begin_tx init_tx current_meta validate
with_reader = (_, later here (begin_reader _ _ refl refl))

begin_rw_tx-HighLoad_example :
    (with_reader.0.db.rwtx ≡ none)
    × (begin_rw_tx sum array_backend with_reader.0.db ≡ ok (inl BeginError.high_load_pending_pages))
begin_rw_tx-HighLoad_example =
    begin_rw_tx-HighLoad sum array_backend map_to with_reader.0
      (record { no_writer = refl; writable = refl; high = refl }) with_reader.1

-- Page 12 with one page of overflow, and page 7, in chunks of at most 3000 bytes.
abbrev dirty : Map ℕ
dirty = (12, 1) ∷ (7, 0) ∷ []

chunk_of : ℕ → ℕ → ℕ → Chunk
chunk_of page from size = record {
  page = page;
  from = from;
  size = size;
  offset = page * 4096 + from;
}

in_order :
    write_dirty (λ c. false) 3001 4096 dirty
    ≡ ok (
      chunk_of 7 0 3000
          ∷ chunk_of 7 3000 1096
          ∷ chunk_of 12 0 3000
          ∷ chunk_of 12 3000 3000
          ∷ chunk_of 12 6000 2192
          ∷ [],
      true,
    )
unfolding write_dirty chunk_of lookup sort
in_order = refl
