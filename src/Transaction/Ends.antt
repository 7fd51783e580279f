-- ===== src/Transaction/Ends.antt =====
-- The invariant of the steps, at the end of a writer.
use bbolt.Prelude.{
  ℕ, ◌+◌, ◌%◌, ◌≡◌, refl, sym, ◌∙◌, arith, [], Bool, true, false, Bool-cases, ok, panic, ◌>>=◌,
  some, inl, inr, ◌==◌, leb, if◌then◌else◌,
}
use Prim.Native.Nat.{bit_or}
use bbolt.Page.{meta_page_flag}
use bbolt.Freelist.State.{Backend}
use bbolt.Freelist.Laws.{BackendLaws}
use bbolt.Freelist.Ops.{rollback}
use bbolt.Database.{Meta, BucketHeader, current_meta, write_meta}
use bbolt.Transaction.{Db, Tx, commit_meta, close_writer, store_meta, count_write, roll_back}
use bbolt.Transaction.World.{Sound, Sound-commit, set_version}
use bbolt.Transaction.Rollback.{Undo-rollback}
use bbolt.Transaction.Newest.{Newest, Newest-next}
use bbolt.Transaction.Preserved.{ok-same}
use bbolt.Transaction.Steps.{World, Writing, Fine, idle, set_root}
use bbolt.Transaction.Writes.{writer_of}

module _ (sum64 : Meta → ℕ) (b : Backend) (laws : BackendLaws b) (w : World) (tx : Tx)
    (fine : Fine sum64 b laws w) (is_open : w.db.rwtx ≡ some tx) where
  -- The meta page goes to its place, and the writer's pages are the new version.
  pub commit_meta-Fine :
      ((m : Meta) (c : ℕ) → sum64 (record m { checksum = c }) ≡ sum64 m)
      → (root : BucketHeader) (db : Db)
      → commit_meta sum64 b (record w.db { rwtx = some (set_root tx root) }) ≡ ok db
      → Fine sum64 b laws
          (record w { db = db; version = set_version tx.meta.txid w.current w.version })
  unfolding commit_meta write_meta store_meta close_writer count_write
  commit_meta-Fine local root db h = by_root (leb tx.meta.pgid root.root) h
    where
      written : Meta
      written = (let m : Meta = record tx.meta { root = root } in record m { checksum = sum64 m })

      stored : Db
      stored =
          store_meta sum64 b (record w.db { rwtx = some (set_root tx root) })
            (
              record {
                id = tx.meta.txid % 2;
                flags = bit_or 0 meta_page_flag;
                count = 0;
                overflow = 0;
              },
              written,
            )

      by_root :
          (high : Bool)
          → ((if high
                then panic
                else ok (
                  record {
                    id = tx.meta.txid % 2;
                    flags = bit_or 0 meta_page_flag;
                    count = 0;
                    overflow = 0;
                  },
                  written,
                ))
              >>= λ pm. ok (
                  close_writer sum64 b
                    (store_meta sum64 b (record w.db { rwtx = some (set_root tx root) }) pm)
                    (count_write sum64 b (set_root tx root))))
            ≡ ok db
          → Fine sum64 b laws
              (record w { db = db; version = set_version tx.meta.txid w.current w.version })
      by_root true e = absurd cc
      by_root false e =
          let (m, s) = writer_of sum64 b laws w tx fine is_open in
          let meta =
            Newest-next sum64 w.db.meta0 w.db.meta1 m written s.meta s.next (s.magic ∙ s.meta.magic)
              (s.format ∙ s.meta.version)
              (sym (
                local (record tx.meta { root = root }) (sum64 (record tx.meta { root = root })))) in
          let sound = Sound-commit b laws s.sound in
          let same_pages : set_version (m.txid + 1) w.current w.version (m.txid + 1) ≡ w.current =
            (let itself : ((m.txid + 1) == (m.txid + 1)) ≡ true = ground arith in rw itself refl) in
          let same =
            ok-same (close_writer sum64 b stored (count_write sum64 b (set_root tx root))) db e in
          rw (sym same) (by_slot m s meta sound same_pages)
        where
          by_slot :
              (m : Meta)
              → Writing sum64 b laws w m tx
              → Newest sum64
                  (if tx.meta.txid % 2 == 0 then written else w.db.meta0)
                  (if tx.meta.txid % 2 == 0 then w.db.meta1 else written)
                  written
              → Sound b laws w.db.freelist w.db.txs
                  (m.txid + 1)
                  (m.txid + 1)
                  tx.meta.pgid
                  (set_version (m.txid + 1) w.current w.version)
                  w.current
              → set_version (m.txid + 1) w.current w.version (m.txid + 1) ≡ w.current
              → Fine sum64 b laws (record w {
                db = close_writer sum64 b stored (count_write sum64 b (set_root tx root));
                version = set_version tx.meta.txid w.current w.version;
              })
          by_slot m s meta sound same_pages = elim (Bool-cases (tx.meta.txid % 2 == 0)) [
            | inl even ↦ rw even (
                idle written (record {
                  no_writer = refl;
                  meta = rw even at meta;
                  sound = rw s.next sound;
                  same = rw s.next same_pages;
                }))
            | inr odd ↦ rw odd (
                idle written (record {
                  no_writer = refl;
                  meta = rw odd at meta;
                  sound = rw s.next sound;
                  same = rw s.next same_pages;
                }))
          ]

  -- rollback of a writer that has allocated nothing.
  pub roll_back-Fine :
      (m : Meta) (db : Db)
      → tx.pages ≡ []
      → current_meta sum64 w.db.meta0 w.db.meta1 ≡ ok m
      → roll_back sum64 b w.db ≡ ok db
      → Fine sum64 b laws (record w { db = db; current = w.version m.txid })
  unfolding roll_back close_writer
  roll_back-Fine m db none_taken meta h =
      let (m', s) = writer_of sum64 b laws w tx fine is_open in
      let same : m' ≡ m = ok-same m' m (sym s.meta.newest ∙ meta) in
      let (base, old, u) = s.undo none_taken in
      let (g, returned, sound) = Undo-rollback b laws old s.sound u in
      let returned' : rollback b w.db.freelist tx.meta.txid ≡ ok g = rw s.next returned in
      let same_db =
        ok-same (close_writer sum64 b (record w.db { freelist = g }) tx) db
          (rw (is_open, returned') at h) in
      rw (sym same_db, sym same)
        (idle m' (record { no_writer = refl; meta = s.meta; sound = sound; same = refl }))
