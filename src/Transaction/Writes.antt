-- ===== src/Transaction/Writes.antt =====
-- The invariant of the steps, along what the writer does.
use bbolt.Prelude.{
  ℕ, ◌+◌, ◌-◌, ◌<◌, ◌≡◌, refl, sym, ap, ◌∙◌, arith, [], ◌∷◌, Bool, true, false, Bool-cases, Outcome,
  ok, panic, out_of_fuel, ◌>>=◌, ◌>>◌, assert, Option, some, inl, inr, ◌==◌, ltb,
}
use bbolt.Prelude.Map.{Map, insert}
use bbolt.Page.{Page, has_flag, freelist_page_flag}
use bbolt.Freelist.State.{Freelist, Backend, u64, add64}
use bbolt.Freelist.Laws.{BackendLaws}
use bbolt.Freelist.Ops.{free, FreelistPage, size, write}
use bbolt.Freelist.Ops.Free.{freed_up}
use bbolt.Freelist.Ops.Valid.{AllocateOk, no_room, pages, allocate_valid}
use bbolt.Database.{Meta}
use bbolt.Transaction.{
  Db, Tx, tx_allocate, note_page, commit_freelist, freelist_buffer, freelist_region_size,
}
use bbolt.Transaction.Take.{Sound-take}
use bbolt.Transaction.Give.{Sound-give}
use bbolt.Transaction.World.{put_page, drop_page}
use bbolt.Transaction.Undo.{Undo-give}
use bbolt.Transaction.Taken.{from_freelist, from_mark, NewBlock-freelist, NewBlock-mark}
use bbolt.Transaction.Preserved.{ok-same, some-none}
use bbolt.Transaction.Steps.{World, Writing, Fine, idle, writing}

insert-nil : {V : Type 0} → (k : ℕ) (v : V) (m : Map V) → ¬ (insert k v m ≡ [])
unfolding insert
insert-nil k v [] e = cc
insert-nil k v ((j, w) ∷ m) e = elim (Bool-cases (j == k)) [
  | inl h ↦ (let e' = rw h at e in cc)
  | inr h ↦ (let e' = rw h at e in cc)
]

pub some-same : (x y : Tx) → (◌≡◌ {A = Option Tx} (some x) (some y)) → x ≡ y
some-same x y h = cc

module _ (sum64 : Meta → ℕ) (b : Backend) (laws : BackendLaws b) (w : World) (tx : Tx)
    (fine : Fine sum64 b laws w) (is_open : w.db.rwtx ≡ some tx) where
  pub writer_of : (m : Meta) × Writing sum64 b laws w m tx
  writer_of = by_case fine
    where
      by_case : Fine sum64 b laws w → (m : Meta) × Writing sum64 b laws w m tx
      by_case (idle m s) = absurd (some-none tx (sym is_open ∙ s.no_writer))
      by_case (writing m t s) = (m, rw (sym (some-same t tx (sym s.writer ∙ is_open))) s)

  pub free-Fine :
      (page : Page) (f : Freelist)
      → w.current page.id ≡ some page.overflow
      → has_flag page.flags freelist_page_flag ≡ false
      → free w.db.freelist tx.meta.txid page ≡ ok f
      → Fine sum64 b laws
          (record w { db = record w.db { freelist = f }; current = drop_page page.id w.current })
  free-Fine page f here plain h =
      let (m, s) = writer_of in
      let (two, upto) = s.sound.in_file page.id page.overflow here in
      let small : page.id + page.overflow + 1 < u64 = omega (arith, upto, s.sound.small) in
      let k =
        freed_up b laws w.db.freelist (m.txid + 1) page s.sound.valid two small
          (λ a c. s.sound.in_use page.id page.overflow a here c) in
      let same : k.g ≡ f = ok-same k.g f (sym k.returned ∙ rw s.next at h) in
      rw (sym same) (
        writing m tx (record {
          writer = s.writer;
          meta = s.meta;
          next = s.next;
          magic = s.magic;
          format = s.format;
          sound = Sound-give b laws page two small s.sound here plain k;
          undo = λ e.
              (let (base, old, u) = s.undo e in
                (base, old, Undo-give b laws page two small old s.sound here plain k u));
        }))

  -- allocate, from the freelist or at the high water mark.
  pub tx_allocate-Fine :
      (remap : ℕ → Option ℕ) (n p : ℕ) (db : Db)
      → 0 < n
      → tx.meta.pgid + n + 1 < u64
      → tx_allocate b remap w.db n ≡ ok (some p, db)
      → Fine sum64 b laws (record w { db = db; current = put_page p (n - 1) w.current })
  unfolding note_page
  tx_allocate-Fine remap n p db pos small h =
      by_result (allocate_valid b laws w.db.freelist tx.meta.txid n pos writer_of.1.sound.valid)
    where
      by_result :
          AllocateOk b laws w.db.freelist tx.meta.txid n
          → Fine sum64 b laws (record w { db = db; current = put_page p (n - 1) w.current })
      by_result (no_room e full) =
          let (m, s) = writer_of in
          let (size, same) = from_mark b remap w.db db tx n p is_open h w.db.freelist e in
          let raised : add64 tx.meta.pgid n ≡ tx.meta.pgid + n = omega (arith, small) in
          rw (sym (ap (λ r. r.0) same), sym (ap (λ r. r.1) same))
            (writing m _ (record {
              writer = refl;
              meta = s.meta;
              next = s.next;
              magic = s.magic;
              format = s.format;
              sound =
                  rw raised (Sound-take b laws s.sound (NewBlock-mark b laws s.sound n pos small));
              undo = λ none_taken. absurd (insert-nil tx.meta.pgid (n - 1) tx.pages none_taken);
            }))
      by_result (pages q g e two valid counts was_free pend book) =
          let (m, s) = writer_of in
          let same = from_freelist b remap w.db db tx n p is_open h q g e (ground (arith, two)) in
          rw (sym (ap (λ r. r.0) same), sym (ap (λ r. r.1) same))
            (writing m _ (record {
              writer = refl;
              meta = s.meta;
              next = s.next;
              magic = s.magic;
              format = s.format;
              sound = Sound-take b laws s.sound (
                  NewBlock-freelist b laws s.sound n pos q g two valid counts
                    (λ a i. (was_free a i).0) pend (rw s.next at book));
              undo = λ none_taken. absurd (insert-nil q (n - 1) tx.pages none_taken);
            }))

  -- commitFreelist only adds its page to the dirty pages.
  pub commit_freelist-Fine :
      (page : FreelistPage) (tx' : Tx)
      → commit_freelist b w.db tx ≡ ok (page, tx')
      → Fine sum64 b laws (record w { db = record w.db { rwtx = some tx' } })
  unfolding commit_freelist
  commit_freelist-Fine page tx' h =
      by_write (ltb (size b w.db.freelist) (freelist_region_size - w.db.page_size))
        (write b w.db.freelist (freelist_buffer b w.db tx)) h
    where
      saved : FreelistPage → FreelistPage × Tx
      saved q = (q, record tx { pages = insert q.header.id q.header.overflow tx.pages })

      by_write :
          (fits : Bool) (o : Outcome FreelistPage)
          → (assert fits >> (o >>= λ q. ok (saved q))) ≡ ok (page, tx')
          → Fine sum64 b laws (record w { db = record w.db { rwtx = some tx' } })
      by_write false o e = absurd cc
      by_write true panic e = absurd cc
      by_write true out_of_fuel e = absurd cc
      by_write true (ok q) e =
          let (m, s) = writer_of in
          let same : (saved q).1 ≡ tx' = ap (λ r. r.1) (ok-same (saved q) (page, tx') e) in
          rw (sym same) (
            writing m _ (record {
              writer = refl;
              meta = s.meta;
              next = s.next;
              magic = s.magic;
              format = s.format;
              sound = s.sound;
              undo = λ none_taken.
                  absurd (insert-nil q.header.id q.header.overflow tx.pages none_taken);
            }))
