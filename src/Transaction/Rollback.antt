-- ===== src/Transaction/Rollback.antt =====
-- The rollback of a writer that has allocated nothing.
use bbolt.Prelude.{
  ℕ, ◌+◌, ◌≤◌, ◌≡◌, refl, sym, ap, ◌∙◌, arith, List, inl, inr, ok, Option, none, some, count,
}
use bbolt.Prelude.Map.{lookup, delete_absent, lookup→contains}
use bbolt.Freelist.State.{Freelist, Backend, TxPending}
use bbolt.Freelist.Laws.{BackendLaws}
use bbolt.Freelist.Ops.{or_new, rollback}
use bbolt.Freelist.Ops.Valid.{IsValid, held}
use bbolt.Freelist.Ops.Swap.{weigh}
use bbolt.Freelist.Ops.Rollback.{rollback_undoes, rollback-none, own}
use bbolt.Transaction.World.{Pages, Sound, By}
use bbolt.Transaction.Restored.{AllUpTo, own_none, restored_upto}
use bbolt.Transaction.Undo.{Undo, own_entry}

module _ (b : Backend) (laws : BackendLaws b) where
  -- A freelist that has the same pages free and pending as the base.
  Sound-back :
      {base g : Freelist} {readers : List ℕ} {committed mark : ℕ} {version : ℕ → Pages}
      {start : Pages}
      → Sound b laws base readers committed committed mark version start
      → IsValid b laws g
      → g.pending ≡ base.pending
      → ((a : ℕ) → laws.free g a ≡ laws.free base a)
      → ((p t : ℕ) → lookup p g.allocs ≡ some t → t ≤ committed)
      → ((p o r : ℕ) → start p ≡ some o → By (lookup p base.allocs) r → By (lookup p g.allocs) r)
      → Sound b laws g readers committed committed mark version start
  Sound-back {base} {g} s v pend free booked back =
      let same : (a : ℕ) → held b laws g a ≡ held b laws base a =
        λ a. rw pend (omega (arith, free a)) in
      record {
        valid = v;
        positive = s.positive;
        not_ahead = s.not_ahead;
        booked = booked;
        survives = λ r p o h w. elim (s.survives r p o h w) [
          | inl stays ↦ inl (stays.0, back p o r stays.0 stays.1)
          | inr needs ↦ inr (λ a i. rw pend (needs a i))
        ];
        in_file = s.in_file;
        in_use = λ p o a h w. same a ∙ s.in_use p o a h w;
        apart = s.apart;
        below = λ a h. s.below a (omega (arith, same a));
        small = s.small;
        high = s.high;
        absent = λ t h. rw pend (s.absent t h);
      }

  -- rollback of the writer leads back to a freelist that is sound for the version it began with.
  pub Undo-rollback :
      {base f : Freelist} {readers : List ℕ} {committed mark mark' : ℕ} {version : ℕ → Pages}
      {start current : Pages}
      → Sound b laws base readers committed committed mark version start
      → Sound b laws f readers committed (committed + 1) mark' version current
      → Undo b laws base f committed start current
      → (g : Freelist) × (rollback b f (committed + 1) ≡ ok g)
        × Sound b laws g readers committed committed mark version start
  Undo-rollback {base} {f} {readers} {committed = c} {mark = mark} {version = version}
        {start = start} old s u =
      by_entry (lookup (c + 1) f.pending) refl
    where
      by_entry :
          (o : Option TxPending)
          → lookup (c + 1) f.pending ≡ o
          → (g : Freelist) × (rollback b f (c + 1) ≡ ok g)
            × Sound b laws g readers c c mark version start
      by_entry none e =
          let pend : f.pending ≡ base.pending =
            sym (delete_absent (c + 1) f.pending (lookup→contains (c + 1) f.pending e))
            ∙ u.others in
          (
            f,
            rollback-none b f (c + 1) e,
            Sound-back old s.valid pend u.free_same u.booked
                (λ p o r h by. rw e at (u.back p o r h by)),
          )
      by_entry (some txp) e =
          let entry : own_entry b laws f (c + 1) ≡ txp = ap or_new e in
          let early : AllUpTo c txp.alloctx = rw entry at u.earlier in
          let (g, returned, r) = rollback_undoes b laws f s.valid (c + 1) txp e in
          let none_own : (a : ℕ) → weigh (own a (c + 1)) txp.ids txp.alloctx ≡ 0 =
            λ a. own_none a c txp.ids txp.alloctx early in
          let free : (a : ℕ) → laws.free g a ≡ laws.free f a =
            λ a. omega (arith, r.gained a, none_own a) in
          let fewer : (a : ℕ) → held b laws g a + count a txp.ids ≡ held b laws f a =
            λ a. omega (arith, free a, r.dropped a) in
          let v : IsValid b laws g = record {
            store = r.store;
            distinct = r.distinct;
            paired = r.paired;
            once = λ a. omega (arith, fewer a, s.valid.once a);
            in_range = λ a h. s.valid.in_range a (omega (arith, r.dropped a));
            cached = λ a. ground (arith, r.cached a, fewer a, s.valid.once a);
          } in
          (
            g,
            returned,
            Sound-back old v (r.pends ∙ u.others) (λ a. free a ∙ u.free_same a)
                (λ p t h.
                  restored_upto p c txp.ids txp.alloctx (lookup p f.allocs) t early (u.booked p)
                    (sym (r.booked p) ∙ h))
                (λ p o r' h by. rw (r.booked p) (rw entry at (u.back p o r' h by))),
          )
