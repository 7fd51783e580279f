-- ===== src/Transaction/Isolation.antt =====
-- What every reachable state of the database guarantees to its readers and to the next opening of the file.
use bbolt.Prelude.{
  ℕ, ◌+◌, ◌*◌, ◌%◌, ◌<◌, ◌≡◌, refl, sym, ◌∙◌, arith, Bool-cases, ok, Option, none, some, inl, inr,
  within, ◌==◌,
}
use native.Mathlib.Nat.{div-le_self}
use bbolt.Prelude.Map.{lookup, contains}
use bbolt.Freelist.State.{Backend, u64, empty_freelist}
use bbolt.Freelist.Laws.{BackendLaws}
use bbolt.Freelist.Ops.Valid.{IsValid}
use bbolt.Database.MetaPages.{pick-valid}
use bbolt.Database.{Meta, validate, current_meta}
use bbolt.Transaction.{Db, Tx, tx_allocate, freelist_region_size, init_meta}
use bbolt.Transaction.World.{Seer}
use bbolt.Transaction.Newest.{Newest, validate-none, slot}
use bbolt.Transaction.Steps.{
  World, Step, begin_reader, end_reader, begin_writer, take, give, save, commit, undo, Reach, here,
  later, Fine, idle, writing, new_world, new_pages,
}
use bbolt.Transaction.Apart.{version_kept, allocated_apart}
use bbolt.Transaction.Preserved.{begin_tx-Fine, remove_tx-Fine, begin_rw_tx-Fine, some-none}
use bbolt.Transaction.Ends.{commit_meta-Fine, roll_back-Fine}
use bbolt.Transaction.Writes.{free-Fine, tx_allocate-Fine, commit_freelist-Fine, some-same}

module _ (sum64 : Meta → ℕ) (b : Backend) (laws : BackendLaws b) (remap : ℕ → Option ℕ)
    (local : (m : Meta) (c : ℕ) → sum64 (record m { checksum = c }) ≡ sum64 m) where
  Step-Fine : {w w' : World} → Step sum64 b remap w w' → Fine sum64 b laws w → Fine sum64 b laws w'
  Step-Fine {w} (begin_reader t db h e) fine = rw e (begin_tx-Fine sum64 b laws w t db fine h)
  Step-Fine {w} (end_reader r stats h e) fine = rw e (remove_tx-Fine sum64 b laws w r stats fine)
  Step-Fine {w} (begin_writer m db no_writer meta few h e) fine =
      rw e (begin_rw_tx-Fine sum64 b laws w m db fine no_writer meta few h)
  Step-Fine {w} (take tx n p db is_open pos small h e) fine =
      rw e (tx_allocate-Fine sum64 b laws w tx fine is_open remap n p db pos small h)
  Step-Fine {w} (give tx page f is_open there plain h e) fine =
      rw e (free-Fine sum64 b laws w tx fine is_open page f there plain h)
  Step-Fine {w} (save tx tx' page is_open h e) fine =
      rw e (commit_freelist-Fine sum64 b laws w tx fine is_open page tx' h)
  Step-Fine {w} (commit tx root db is_open h e) fine =
      rw e (commit_meta-Fine sum64 b laws w tx fine is_open local root db h)
  Step-Fine {w} (undo tx m db is_open none_taken meta h e) fine =
      rw e (roll_back-Fine sum64 b laws w tx fine is_open m db none_taken meta h)

  Reach-Fine :
      {w w' : World} → Reach sum64 b remap w w' → Fine sum64 b laws w → Fine sum64 b laws w'
  Reach-Fine here fine = fine
  Reach-Fine (later r s) fine = Step-Fine s (Reach-Fine r fine)

  new_pages-root : (m : Meta) (q o : ℕ) → new_pages m q ≡ some o → (m.root.root ≡ q) × (o ≡ 0)
  new_pages-root m q o h = elim (Bool-cases (m.root.root == q)) [
    | inl e ↦ (ground (arith, e), ground (arith, rw e at h))
    | inr e ↦ absurd (ground (arith, rw e at h))
  ]

  module _ (db : Db) (valid : IsValid b laws empty_freelist)
      (empty : (a : ℕ) → laws.free empty_freelist a ≡ 0) where
    new_world-Fine : Fine sum64 b laws (new_world sum64 db)
    unfolding new_world init_meta current_meta lookup contains
    new_world-Fine =
        let m : Meta = init_meta sum64 db.page_size 1 in
        let checked : m.checksum ≡ sum64 m = sym (local (record m { checksum = 0 }) m.checksum) in
        let small = div-le_self (freelist_region_size * 2) db.page_size in
        idle m (record {
          no_writer = refl;
          meta = record {
            magic = refl;
            version = refl;
            checked = checked;
            in_slot = refl;
            newest =
                pick-valid sum64 m (init_meta sum64 db.page_size 0)
                  (validate-none sum64 m refl refl checked);
          };
          same = refl;
          sound = record {
            valid = valid;
            positive = omega arith;
            not_ahead = λ r h. absurd (omega arith);
            booked = λ p t h. absurd cc;
            survives = λ r p o h v. inl (v, tt);
            in_file = λ p o h.
                (let e = new_pages-root m p o h in (omega (arith, e.0), omega (arith, e.0, e.1)));
            in_use = λ p o a h i. omega (arith, empty a);
            apart = λ p q o o' a h h' i i'.
                sym (new_pages-root m p o h).0 ∙ (new_pages-root m q o' h').0;
            below = λ a h. absurd (omega (arith, empty a));
            small = omega (arith, small);
            high = omega arith;
            absent = λ t h. refl;
          };
        })

    -- From a new file on and in every state that the steps lead to, no page is free that belongs to the
    -- version of an open reader or to the last committed version, the one of the meta page that counts.
    -- The freelist is empty at first, and the hash of a meta page does not read its checksum.
    pub isolated :
        (w : World)
        → Reach sum64 b remap (new_world sum64 db) w
        → (m : Meta) × (current_meta sum64 w.db.meta0 w.db.meta1 ≡ ok m)
          × ((r p o a : ℕ)
              → Seer w.db.txs m.txid r
              → w.version r p ≡ some o
              → 0 < within a p (o + 1)
              → laws.free w.db.freelist a ≡ 0)
    isolated w reach = by_case (Reach-Fine reach new_world-Fine)
      where
        by_case :
            Fine sum64 b laws w
            → (m : Meta) × (current_meta sum64 w.db.meta0 w.db.meta1 ≡ ok m)
              × ((r p o a : ℕ)
                  → Seer w.db.txs m.txid r
                  → w.version r p ≡ some o
                  → 0 < within a p (o + 1)
                  → laws.free w.db.freelist a ≡ 0)
        by_case (idle m s) = (m, s.meta.newest, version_kept b laws s.sound)
        by_case (writing m tx s) = (m, s.meta.newest, version_kept b laws s.sound)

    -- In every reachable state, whatever allocate gives to the writer, from the freelist or at the high
    -- water mark, has no page in common with the version of an open reader or the last committed version.
    -- The freelist of the new file is empty, the hash of a meta page does not read its checksum, at least
    -- one page is asked for, and page ids stay in their 64 bits.
    pub write_apart :
        (w : World) (tx : Tx) (n q : ℕ) (db' : Db)
        → Reach sum64 b remap (new_world sum64 db) w
        → w.db.rwtx ≡ some tx
        → 0 < n
        → tx.meta.pgid + n + 1 < u64
        → tx_allocate b remap w.db n ≡ ok (some q, db')
        → (m : Meta) × (current_meta sum64 w.db.meta0 w.db.meta1 ≡ ok m)
          × ((r p o a : ℕ)
              → Seer w.db.txs m.txid r
              → w.version r p ≡ some o
              → 0 < within a p (o + 1)
              → within a q n ≡ 0)
    write_apart w tx n q db' reach =
        allocated_apart sum64 b laws remap w tx n q db' (Reach-Fine reach new_world-Fine)

    -- In every reachable state meta returns a valid meta page and does not panic, an open writer has the
    -- transaction id after that page's, and the meta page that it will write is not the one that counts.
    pub meta_always :
        (w : World)
        → Reach sum64 b remap (new_world sum64 db) w
        → (m : Meta) × (current_meta sum64 w.db.meta0 w.db.meta1 ≡ ok m)
          × (validate sum64 m ≡ none)
          × ((tx : Tx)
              → w.db.rwtx ≡ some tx
              → (tx.meta.txid ≡ m.txid + 1)
                × (slot m.txid w.db.meta0 w.db.meta1 ≡ m)
                × ¬ (tx.meta.txid % 2 ≡ m.txid % 2))
    meta_always w reach = by_case (Reach-Fine reach new_world-Fine)
      where
        valid_meta : (m : Meta) → Newest sum64 w.db.meta0 w.db.meta1 m → validate sum64 m ≡ none
        valid_meta m n = validate-none sum64 m n.magic n.version n.checked

        by_case :
            Fine sum64 b laws w
            → (m : Meta) × (current_meta sum64 w.db.meta0 w.db.meta1 ≡ ok m)
              × (validate sum64 m ≡ none)
              × ((tx : Tx)
                  → w.db.rwtx ≡ some tx
                  → (tx.meta.txid ≡ m.txid + 1)
                    × (slot m.txid w.db.meta0 w.db.meta1 ≡ m)
                    × ¬ (tx.meta.txid % 2 ≡ m.txid % 2))
        by_case (idle m s) = (
          m,
          s.meta.newest,
          valid_meta m s.meta,
          λ tx e. absurd (some-none tx (sym e ∙ s.no_writer)),
        )
        by_case (writing m t s) = (
          m,
          s.meta.newest,
          valid_meta m s.meta,
          λ tx e.
              (let same : t ≡ tx = some-same t tx (sym s.writer ∙ e) in
                let next : tx.meta.txid ≡ m.txid + 1 = rw (sym same) s.next in
                (next, s.meta.in_slot, λ h. omega (arith, next, h))),
        )
