-- ===== src/Transaction/Keeps.antt =====
-- Every operation keeps the invariant.
use bbolt.Prelude.{
  ℕ, ◌+◌, ◌≤◌, ◌≡◌, refl, sym, ap, arith, List, [], ◌∷◌, ◌++◌, Bool, true, false, not, Outcome, ok,
  panic, out_of_fuel, some, ◌⊎◌, inl, inr, count, ltb, if◌then◌else◌, length,
}
use bbolt.Prelude.Sort.{sort}
use bbolt.Freelist.State.{Freelist, Backend, add64}
use bbolt.Freelist.FreePages.{free_pages}
use bbolt.Database.{Meta, current_meta}
use bbolt.Stats.{Stats}
use bbolt.Transaction.{
  BeginError, Db, Tx, begin_tx, begin_rw_tx, init_tx, take_out, move_last, last_of, but_last,
  no_stats,
}

-- What is in an outcome that has a second variant.
abbrev the_second : {A : Type 0} → A → Outcome (BeginError ⊎ A) → A
the_second a (ok (inl e)) = a
the_second a (ok (inr x)) = x
the_second a panic = a
the_second a out_of_fuel = a

second-same :
    {A : Type 0}
    → (x y : A) → (◌≡◌ {A = Outcome (BeginError ⊎ A)} (ok (inr x)) (ok (inr y)))
    → x ≡ y
second-same x y h = ap (the_second x) h

-- What begin_tx does to the database, when meta gives `m`.
pub reader_in :
    (sum64 : Meta → ℕ) (db db' : Db) (t : Tx) (m : Meta)
    → current_meta sum64 db.meta0 db.meta1 ≡ ok m
    → begin_tx sum64 db ≡ ok (inr (t, db'))
    → (stats : Stats) × (db' ≡ record db { txs = db.txs ++ m.txid ∷ []; stats = stats })
unfolding begin_tx init_tx
reader_in sum64 db db' t m meta h = by_tests db.opened db.mapped (rw meta at h)
  where
    new : Db
    new =
        (let txs = db.txs ++ m.txid ∷ [] in
          record db {
            txs = txs;
            stats = record db.stats { tx_n = add64 db.stats.tx_n 1; open_tx_n = length txs };
          })

    tx : Tx
    tx = record { writable = false; meta = m; pages = []; stats = no_stats }

    result : Tx × Db
    result = (tx, new)

    by_tests :
        (is_open is_mapped : Bool)
        → (if not is_open
            then ok (inl BeginError.database_not_open)
            else if not is_mapped
            then ok (inl BeginError.invalid_mapping)
            else ok (inr result))
          ≡ ok (inr (t, db'))
        → (stats : Stats) × (db' ≡ record db { txs = db.txs ++ m.txid ∷ []; stats = stats })
    by_tests false is_mapped e = absurd cc
    by_tests true false e = absurd cc
    by_tests true true e = (new.stats, sym (ap (λ r. r.1) (second-same result (t, db') e)))

-- What begin_rw_tx does to the database, when meta gives `m` and freePages gives `f`.
pub writer_in :
    (sum64 : Meta → ℕ) (b : Backend) (db db' : Db) (m : Meta) (f : Freelist)
    → current_meta sum64 db.meta0 db.meta1 ≡ ok m
    → free_pages b db.txs db.freelist ≡ ok f
    → begin_rw_tx sum64 b db ≡ ok (inr db')
    → db' ≡ record db {
      rwtx = some (record {
        writable = true;
        meta = record m { txid = add64 m.txid 1; flid = add64 m.flid 1 };
        pages = [];
        stats = no_stats;
      });
      txs = sort db.txs;
      freelist = f;
    }
unfolding begin_rw_tx init_tx
writer_in sum64 b db db' m f meta freed h =
    by_tests db.read_only
      (ltb db.hard_limit_pending_pages (db.stats.free_page_n + db.stats.pending_page_n)) db.opened
      db.mapped (rw (meta, freed) at h)
  where
    new : Db
    new = record db {
      rwtx = some (record {
        writable = true;
        meta = record m { txid = add64 m.txid 1; flid = add64 m.flid 1 };
        pages = [];
        stats = no_stats;
      });
      txs = sort db.txs;
      freelist = f;
    }

    by_tests :
        (is_read_only high_load is_open is_mapped : Bool)
        → (if is_read_only
            then ok (inl BeginError.database_read_only)
            else if high_load
            then ok (inl BeginError.high_load_pending_pages)
            else if not is_open
            then ok (inl BeginError.database_not_open)
            else if not is_mapped
            then ok (inl BeginError.invalid_mapping)
            else ok (inr new))
          ≡ ok (inr db')
        → db' ≡ new
    by_tests true high_load is_open is_mapped e = absurd cc
    by_tests false true is_open is_mapped e = absurd cc
    by_tests false false false is_mapped e = absurd cc
    by_tests false false true false e = absurd cc
    by_tests false false true true e = sym (second-same new db' e)

-- removeTx takes one reader out.
count-but_last :
    (a t : ℕ) (txs : List ℕ) → count a (last_of t txs ∷ but_last t txs) ≡ count a (t ∷ txs)
count-but_last a t [] = refl
count-but_last a t (t' ∷ txs) = omega (arith, count-but_last a t' txs)

count-move_last : (a : ℕ) (txs : List ℕ) → count a (move_last txs) ≡ count a txs
count-move_last a [] = refl
count-move_last a (t ∷ txs) = count-but_last a t txs

pub count-take_out : (a tx : ℕ) (txs : List ℕ) → count a (take_out tx txs) ≤ count a txs
unfolding take_out
count-take_out a tx [] = omega arith
count-take_out a tx (t ∷ txs) = ground (arith, count-take_out a tx txs, count-move_last a txs)
