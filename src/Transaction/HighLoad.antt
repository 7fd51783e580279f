-- ===== src/Transaction/HighLoad.antt =====
-- The limit on pending pages, which beginRWTx checks against the statistics.
use bbolt.Prelude.{
  ℕ, ◌+◌, ◌++◌, ◌≡◌, refl, sym, ap, ◌∙◌, [], ◌∷◌, Bool, true, false, Outcome, ok, Option, none, ◌⊎◌,
  inl, inr, ltb, if◌then◌else◌, not, ◌>>=◌, length, panic, out_of_fuel,
}
use bbolt.Freelist.State.{Backend, add64}
use bbolt.Database.{Meta, current_meta}
use bbolt.Transaction.{Db, Tx, BeginError, begin_tx, begin_rw_tx, init_tx, remove_tx, no_stats}
use bbolt.Transaction.Preserved.{some-none}
use bbolt.Transaction.Steps.{
  World, Step, begin_reader, end_reader, begin_writer, take, give, save, commit, undo, Reach, here,
  later,
}

-- There is no writer, and the limit is passed.
pub record HighLoad (w : World) : Type 0 where
  pub no_writer : w.db.rwtx ≡ none
  pub writable : w.db.read_only ≡ false
  pub high :
      ltb w.db.hard_limit_pending_pages (w.db.stats.free_page_n + w.db.stats.pending_page_n) ≡ true

module _ (sum64 : Meta → ℕ) (b : Backend) where
  pub begin_rw_tx-high :
      (w : World)
      → HighLoad w
      → begin_rw_tx sum64 b w.db ≡ ok (inl BeginError.high_load_pending_pages)
  unfolding begin_rw_tx
  begin_rw_tx-high w h = rw (h.writable, h.high) refl

  out_of : BeginError ⊎ (Tx × Db) → Db → Db
  out_of (inl e) db = db
  out_of (inr r) db = r.1

  db_of : Outcome (BeginError ⊎ (Tx × Db)) → Db → Db
  db_of (ok r) db = out_of r db
  db_of o db = db

  begin_tx-HighLoad :
      (w : World) (t : Tx) (db : Db)
      → HighLoad w
      → begin_tx sum64 w.db ≡ ok (inr (t, db))
      → HighLoad (record w { db = db })
  unfolding begin_tx init_tx db_of out_of
  begin_tx-HighLoad w t db h e =
      by_tests w.db.opened w.db.mapped (current_meta sum64 w.db.meta0 w.db.meta1) e
    where
      reader : Meta → Tx
      reader m = record { writable = false; meta = m; pages = []; stats = no_stats }

      new : Tx → Db
      new t' =
          (let txs = w.db.txs ++ t'.meta.txid ∷ [] in
            record w.db {
              txs = txs;
              stats = record w.db.stats { tx_n = add64 w.db.stats.tx_n 1; open_tx_n = length txs };
            })

      result : Tx → Tx × Db
      result t' = (t', new t')

      by_tests :
          (is_open is_mapped : Bool) (o : Outcome Meta)
          → (if not is_open
              then ok (inl BeginError.database_not_open)
              else if not is_mapped
              then ok (inl BeginError.invalid_mapping)
              else (o >>= (λ m. ok (reader m)) >>= λ t'. ok (inr (result t'))))
            ≡ ok (inr (t, db))
          → HighLoad (record w { db = db })
      by_tests false is_mapped o e = absurd cc
      by_tests true false o e = absurd cc
      by_tests true true panic e = absurd cc
      by_tests true true out_of_fuel e = absurd cc
      by_tests true true (ok m) e =
          let same : new (reader m) ≡ db = ap (λ o. db_of o w.db) e in
          rw (sym same) (record { no_writer = h.no_writer; writable = h.writable; high = h.high })

module _ (sum64 : Meta → ℕ) (b : Backend) (remap : ℕ → Option ℕ) where
  Step-HighLoad : {w w' : World} → Step sum64 b remap w w' → HighLoad w → HighLoad w'
  unfolding remove_tx
  Step-HighLoad {w} (begin_reader t db h e) high = rw e (begin_tx-HighLoad sum64 b w t db high h)
  Step-HighLoad {w} (end_reader r stats h e) high =
      rw e (record { no_writer = high.no_writer; writable = high.writable; high = high.high })
  Step-HighLoad {w} (begin_writer m db no_writer meta few h e) high =
      absurd (let h' = sym (begin_rw_tx-high sum64 b w high) ∙ h in cc)
  Step-HighLoad (take tx n p db is_open pos small h e) high =
      absurd (some-none tx (sym is_open ∙ high.no_writer))
  Step-HighLoad (give tx page f is_open there plain h e) high =
      absurd (some-none tx (sym is_open ∙ high.no_writer))
  Step-HighLoad (save tx tx' page is_open h e) high =
      absurd (some-none tx (sym is_open ∙ high.no_writer))
  Step-HighLoad (commit tx root db is_open h e) high =
      absurd (some-none tx (sym is_open ∙ high.no_writer))
  Step-HighLoad (undo tx m db is_open none_taken meta h e) high =
      absurd (some-none tx (sym is_open ∙ high.no_writer))

  -- Once the pages that the statistics have as free or pending are more than HardLimitPendingPages, and no
  -- write transaction is open on a writable database, no step opens one: whatever readers come and go,
  -- beginRWTx returns ErrHighLoadPendingPages in every state that follows.
  pub begin_rw_tx-HighLoad :
      {w : World} (w' : World)
      → HighLoad w
      → Reach sum64 b remap w w'
      → (w'.db.rwtx ≡ none)
        × (begin_rw_tx sum64 b w'.db ≡ ok (inl BeginError.high_load_pending_pages))
  begin_rw_tx-HighLoad w' h reach =
      (let k = lasts reach h in (k.no_writer, begin_rw_tx-high sum64 b w' k))
    where
      lasts : {w v : World} → Reach sum64 b remap w v → HighLoad w → HighLoad v
      lasts here h = h
      lasts (later r s) h = Step-HighLoad s (lasts r h)
