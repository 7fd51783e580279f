-- ===== src/Transaction/Preserved.antt =====
-- The invariant of the steps, step by step.
use bbolt.Prelude.{
  ℕ, ◌<◌, ◌≡◌, refl, sym, ap, ◌∙◌, arith, List, [], ◌∷◌, ◌++◌, Outcome, ok, panic, out_of_fuel,
  Option, none, some, inl, inr, count, count-append,
}
use bbolt.Prelude.Sort.{sort, count-sort}
use bbolt.Freelist.State.{Backend}
use bbolt.Freelist.Laws.{BackendLaws}
use bbolt.Freelist.FreePages.{max_txid, free_pages-KeepsFor}
use bbolt.Database.{Meta, current_meta}
use bbolt.Stats.{TxStats, Stats}
use bbolt.Transaction.{Db, Tx, begin_tx, begin_rw_tx, remove_tx, take_out}
use bbolt.Transaction.World.{Sound-readers, Sound-begin, Sound-open, Seer}
use bbolt.Transaction.Undo.{Undo-begin}
use bbolt.Transaction.Newest.{Newest}
use bbolt.Transaction.Steps.{World, Fine, idle, writing}
use bbolt.Transaction.Keeps.{reader_in, writer_in, count-take_out}

pub ok-same : {A : Type 0} → (x y : A) → (◌≡◌ {A = Outcome A} (ok x) (ok y)) → x ≡ y
ok-same x y h = ap (content x) h
  where
    content : {A : Type 0} → A → Outcome A → A
    content a (ok y) = y
    content a panic = a
    content a out_of_fuel = a

pub some-none : (tx : Tx) → ¬ (◌≡◌ {A = Option Tx} (some tx) none)
some-none tx e = cc

module _ (sum64 : Meta → ℕ) (b : Backend) (laws : BackendLaws b) where
  -- Other readers, of versions that last.
  other_readers :
      (w : World) (txs : List ℕ) (stats : Stats)
      → ((m : Meta)
          → Newest sum64 w.db.meta0 w.db.meta1 m
          → (r : ℕ) → 0 < count r txs
          → Seer w.db.txs m.txid r)
      → Fine sum64 b laws w
      → Fine sum64 b laws (record w { db = record w.db { txs = txs; stats = stats } })
  other_readers w txs stats known (idle m s) = idle m (record {
    no_writer = s.no_writer;
    meta = s.meta;
    same = s.same;
    sound = Sound-readers b laws txs s.sound (known m s.meta);
  })
  other_readers w txs stats known (writing m tx s) = writing m tx (record {
    writer = s.writer;
    meta = s.meta;
    next = s.next;
    magic = s.magic;
    format = s.format;
    sound = Sound-readers b laws txs s.sound (known m s.meta);
    undo = λ h.
        (let (base, old, u) = s.undo h in (base, Sound-readers b laws txs old (known m s.meta), u));
  })

  meta_of : (w : World) → Fine sum64 b laws w → (m : Meta) × Newest sum64 w.db.meta0 w.db.meta1 m
  meta_of w (idle m s) = (m, s.meta)
  meta_of w (writing m tx s) = (m, s.meta)

  pub begin_tx-Fine :
      (w : World) (t : Tx) (db : Db)
      → Fine sum64 b laws w
      → begin_tx sum64 w.db ≡ ok (inr (t, db))
      → Fine sum64 b laws (record w { db = db })
  begin_tx-Fine w t db fine h =
      let (m, newest) = meta_of w fine in
      let (stats, e) = reader_in sum64 w.db db t m newest.newest h in
      rw e (other_readers w (w.db.txs ++ m.txid ∷ []) stats (known m newest) fine)
    where
      known :
          (m : Meta)
          → Newest sum64 w.db.meta0 w.db.meta1 m
          → (m' : Meta) → Newest sum64 w.db.meta0 w.db.meta1 m'
          → (r : ℕ) → 0 < count r (w.db.txs ++ m.txid ∷ [])
          → Seer w.db.txs m'.txid r
      known m n m' n' r h' =
          let same : m ≡ m' = ok-same m m' (sym n.newest ∙ n'.newest) in
          let same_txid : m.txid ≡ m'.txid = ap Meta.txid same in
          ground (arith, h', count-append r w.db.txs (m.txid ∷ []), same_txid)

  pub remove_tx-Fine :
      (w : World) (r : ℕ) (stats : TxStats)
      → Fine sum64 b laws w
      → Fine sum64 b laws (record w { db = remove_tx w.db r stats })
  unfolding remove_tx
  remove_tx-Fine w r stats fine =
      other_readers w (take_out r w.db.txs) (remove_tx w.db r stats).stats
        (λ m n r' h. inl (omega (arith, count-take_out r' r w.db.txs))) fine

  -- No writer is there, and meta gives the meta page that counts.
  pub begin_rw_tx-Fine :
      (w : World) (m : Meta) (db : Db)
      → Fine sum64 b laws w
      → w.db.rwtx ≡ none
      → current_meta sum64 w.db.meta0 w.db.meta1 ≡ ok m
      → m.txid < max_txid
      → begin_rw_tx sum64 b w.db ≡ ok (inr db)
      → Fine sum64 b laws (record w { db = db })
  begin_rw_tx-Fine w m db (writing m' tx s) no_writer meta few h =
      absurd (some-none tx (sym s.writer ∙ no_writer))
  begin_rw_tx-Fine w m db (idle m' s) no_writer meta few h =
      let same : m' ≡ m = ok-same m' m (sym s.meta.newest ∙ meta) in
      let few' : m'.txid < max_txid = rw same few in
      let k =
        free_pages-KeepsFor b laws w.db.freelist w.db.txs s.sound.valid
          (λ r c. (let n = s.sound.not_ahead r c in (n.0, omega (arith, n.1, few')))) in
      let e = writer_in sum64 b w.db db m' k.g s.meta.newest k.returned h in
      let base =
        Sound-begin b laws (sort w.db.txs) s.sound (λ p. ap (λ f. f p) s.same)
          (λ r. count-sort r w.db.txs) k in
      rw e (
        writing m' _ (record {
          writer = refl;
          meta = s.meta;
          sound = Sound-open b laws base;
          next = omega (arith, few');
          magic = refl;
          format = refl;
          undo = λ none_allocated. (k.g, rw s.same base, rw s.same (Undo-begin b laws base));
        }))
