-- ===== src/Transaction/Apart.antt =====
-- In a sound state a version of the file is apart from what is free and from a new block.
use bbolt.Prelude.{
  ℕ, ◌+◌, ◌<◌, ◌≡◌, sym, ap, arith, List, Bool-cases, ok, Option, some, inl, inr, within, ltb,
}
use bbolt.Freelist.State.{Freelist, Backend, u64}
use bbolt.Freelist.Laws.{BackendLaws}
use bbolt.Freelist.Ops.Needed.{needed, needed-pending}
use bbolt.Freelist.Ops.Valid.{AllocateOk, no_room, pages, allocate_valid}
use bbolt.Database.{Meta, current_meta}
use bbolt.Transaction.{Db, Tx, tx_allocate}
use bbolt.Transaction.Take.{NewBlock}
use bbolt.Transaction.World.{Pages, Sound, Seer}
use bbolt.Transaction.Steps.{World, Writing, Fine}
use bbolt.Transaction.Taken.{from_freelist, from_mark, NewBlock-freelist, NewBlock-mark}
use bbolt.Transaction.Writes.{writer_of}

module _ (b : Backend) (laws : BackendLaws b) where
  -- What a version keeps is not free, and not part of a new block.
  pub version_kept :
      {f : Freelist} {readers : List ℕ} {committed writer mark : ℕ} {version : ℕ → Pages}
      {current : Pages} (s : Sound b laws f readers committed writer mark version current)
      (r p o a : ℕ)
      → Seer readers committed r
      → version r p ≡ some o
      → 0 < within a p (o + 1)
      → laws.free f a ≡ 0
  version_kept {f} s r p o a seer v i = elim (s.survives r p o seer v) [
    | inl stays ↦ omega (arith, s.in_use p o a stays.0 i)
    | inr needs ↦ omega (arith, needs a i, needed-pending a r f.pending, s.valid.once a)
  ]

  version_apart :
      {f g : Freelist} {readers : List ℕ} {committed writer mark mark' n q : ℕ}
      {version : ℕ → Pages} {current : Pages}
      (s : Sound b laws f readers committed writer mark version current)
      → NewBlock b laws f g writer mark mark' n q current
      → (r p o a : ℕ) → Seer readers committed r
      → version r p ≡ some o
      → 0 < within a p (o + 1)
      → within a q n ≡ 0
  version_apart {f} {g} {n = n} {q = q} s new r p o a seer v i = elim (s.survives r p o seer v) [
    | inl stays ↦ new.not_current p o a stays.0 i
    | inr needs ↦ elim (Bool-cases (ltb 0 (within a q n))) [
      | inr outside ↦ ground (arith, outside)
      | inl inside ↦
          let kept : 0 < needed a r g.pending = rw new.pends (needs a i) in
          absurd (
            omega
              (arith, kept, needed-pending a r g.pending, new.not_held a (ground (arith, inside))))
    ]
  ]

module _ (sum64 : Meta → ℕ) (b : Backend) (laws : BackendLaws b) (remap : ℕ → Option ℕ) where
  -- A block that allocate gives in a sound state.
  pub allocated_apart :
      (w : World) (tx : Tx) (n q : ℕ) (db : Db)
      → (fine : Fine sum64 b laws w) → w.db.rwtx ≡ some tx
      → 0 < n
      → tx.meta.pgid + n + 1 < u64
      → tx_allocate b remap w.db n ≡ ok (some q, db)
      → (m : Meta) × (current_meta sum64 w.db.meta0 w.db.meta1 ≡ ok m)
        × ((r p o a : ℕ)
            → Seer w.db.txs m.txid r
            → w.version r p ≡ some o
            → 0 < within a p (o + 1)
            → within a q n ≡ 0)
  allocated_apart w tx n q db fine is_open pos small h =
      let (m, s) = writer_of sum64 b laws w tx fine is_open in
      (
        m,
        s.meta.newest,
        by_result m s (allocate_valid b laws w.db.freelist tx.meta.txid n pos s.sound.valid),
      )
    where
      by_result :
          (m : Meta)
          → Writing sum64 b laws w m tx
          → AllocateOk b laws w.db.freelist tx.meta.txid n
          → (r p o a : ℕ) → Seer w.db.txs m.txid r
          → w.version r p ≡ some o
          → 0 < within a p (o + 1)
          → within a q n ≡ 0
      by_result m s (no_room e full) =
          let (size, same) = from_mark b remap w.db db tx n q is_open h w.db.freelist e in
          rw (sym (ap (λ r. r.0) same))
            (version_apart b laws s.sound (NewBlock-mark b laws s.sound n pos small))
      by_result m s (pages q' g e two valid counts was_free pend book) =
          let same = from_freelist b remap w.db db tx n q is_open h q' g e (ground (arith, two)) in
          rw (sym (ap (λ r. r.0) same)) (
            version_apart b laws s.sound (
              NewBlock-freelist b laws s.sound n pos q' g two valid counts (λ a i. (was_free a i).0)
                pend (rw s.next at book)))
