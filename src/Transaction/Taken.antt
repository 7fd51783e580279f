-- ===== src/Transaction/Taken.antt =====
-- What allocate and commitFreelist do to the database.
use bbolt.Prelude.{
  ℕ, ◌+◌, ◌-◌, ◌*◌, ◌≤◌, ◌<◌, ◌≡◌, refl, ap, ◌∙◌, arith, List, false, Bool-cases, Outcome, ok,
  panic, out_of_fuel, Option, none, some, inl, inr, within, ◌==◌, ltb, leb, if◌then◌else◌,
}
use bbolt.Prelude.Map.{insert, lookup-insert}
use bbolt.Freelist.State.{Freelist, Backend, u64, add64}
use bbolt.Freelist.Laws.{BackendLaws}
use bbolt.Freelist.Ops.Valid.{IsValid, held}
use bbolt.Transaction.{Db, Tx, tx_allocate, db_allocate, at_mark, raise_mark, noted, note_page}
use bbolt.Transaction.Take.{NewBlock}
use bbolt.Transaction.World.{Pages, Sound}

the_block : {A : Type 0} → A → Outcome (Option ℕ × A) → ℕ × A
the_block a (ok (some p, x)) = (p, x)
the_block a (ok (none, x)) = (0, x)
the_block a panic = (0, a)
the_block a out_of_fuel = (0, a)

block-same :
    {A : Type 0}
    → (p q : ℕ) (x y : A) → ◌≡◌ {A = Outcome (Option ℕ × A)} (ok (some p, x)) (ok (some q, y))
    → ◌≡◌ {A = ℕ × A} (p, x) (q, y)
unfolding the_block
block-same p q x y h = ap (the_block x) h

module _ (b : Backend) (remap : ℕ → Option ℕ) (db db' : Db) (tx : Tx) (n p : ℕ)
    (open_writer : db.rwtx ≡ some tx) (result : tx_allocate b remap db n ≡ ok (some p, db')) where
  abbrev noted_db : ℕ → Freelist → ℕ → Tx → Db
  noted_db q f size tx' = record db {
    freelist = f;
    data_size = size;
    rwtx = some (note_page q n db.page_size tx');
  }

  pub from_freelist :
      (q : ℕ) (f : Freelist)
      → b.allocate db.freelist tx.meta.txid n ≡ ok (q, f)
      → (q == 0) ≡ false
      → ◌≡◌ {A = ℕ × Db} (q, noted_db q f db.data_size tx) (p, db')
  unfolding tx_allocate db_allocate noted
  from_freelist q f e some_page =
      block-same q p (noted_db q f db.data_size tx) db' (rw (open_writer, e, some_page) at result)

  pub from_mark :
      (f : Freelist)
      → b.allocate db.freelist tx.meta.txid n ≡ ok (0, f)
      → (size : ℕ) × (◌≡◌ {A = ℕ × Db}
          (
            tx.meta.pgid,
            noted_db tx.meta.pgid f size
                (record tx { meta = record tx.meta { pgid = add64 tx.meta.pgid n } }),
          )
          (p, db'))
  unfolding tx_allocate db_allocate at_mark noted raise_mark
  from_mark f e =
      by_map (if leb db.data_size min_size then remap min_size else some db.data_size)
        (rw (open_writer, e) at result)
    where
      min_size : ℕ
      min_size = add64 (add64 tx.meta.pgid n) 1 * db.page_size

      raised : Tx
      raised = record tx { meta = record tx.meta { pgid = add64 tx.meta.pgid n } }

      by_map :
          (o : Option ℕ)
          → ◌≡◌ {A = Outcome (Option ℕ × Db)}
              (ok (
                noted n
                  (raise_mark (record db { freelist = f; rwtx = some tx }) tx tx.meta.pgid n o)))
              (ok (some p, db'))
          → (size : ℕ) × (◌≡◌ {A = ℕ × Db}
              (tx.meta.pgid, noted_db tx.meta.pgid f size raised)
              (p, db'))
      by_map none h = absurd cc
      by_map (some size) h =
          (size, block-same tx.meta.pgid p (noted_db tx.meta.pgid f size raised) db' h)

-- A block that the freelist gives, and one at the high water mark.
module _ (b : Backend) (laws : BackendLaws b) {f : Freelist} {readers : List ℕ}
    {committed writer mark : ℕ} {version : ℕ → Pages} {current : Pages}
    (s : Sound b laws f readers committed writer mark version current) (n : ℕ) (pos : 0 < n) where
  pub NewBlock-freelist :
      (p : ℕ) (g : Freelist)
      → 2 ≤ p
      → IsValid b laws g
      → ((a : ℕ) → laws.free f a ≡ laws.free g a + within a p n)
      → ((a : ℕ) → 0 < within a p n → laws.free f a ≡ 1)
      → g.pending ≡ f.pending
      → g.allocs ≡ insert p writer f.allocs
      → NewBlock b laws f g writer mark mark n p current
  NewBlock-freelist p g two valid counts was_free pend book = record {
    valid = valid;
    two = two;
    some_page = pos;
    pends = pend;
    others = λ q e. rw book (lookup-insert p q writer f.allocs ∙ rw e refl);
    noted_to = λ t h. ground (arith, rw book at h, lookup-insert p p writer f.allocs);
    fewer = λ a. rw pend (omega (arith, counts a));
    not_held = λ a h. rw pend (omega (arith, counts a, was_free a h, s.valid.once a));
    not_current = λ q o a h w. elim (Bool-cases (ltb 0 (within a p n))) [
      | inl i ↦ absurd (omega (arith, s.in_use q o a h w, was_free a (ground (arith, i))))
      | inr i ↦ ground (arith, i)
    ];
    raised = omega arith;
    inside =
        let last = was_free (p + n - 1) (ground arith) in
        omega (arith, s.below (p + n - 1) (omega (arith, last)), pos);
    small = s.small;
  }

  pub NewBlock-mark : mark + n + 1 < u64 → NewBlock b laws f f writer mark (mark + n) n mark current
  NewBlock-mark small = record {
    valid = s.valid;
    two = s.high;
    some_page = pos;
    pends = refl;
    others = λ q e. refl;
    noted_to = s.booked mark;
    fewer = λ a. omega arith;
    not_held = λ a h. elim (Bool-cases (ltb 0 (held b laws f a))) [
      | inl i ↦ absurd (ground (arith, h, s.below a (ground (arith, i))))
      | inr i ↦ ground (arith, i)
    ];
    not_current = λ q o a h w. ground (arith, w, s.in_file q o h);
    raised = omega arith;
    inside = omega arith;
    small = small;
  }
