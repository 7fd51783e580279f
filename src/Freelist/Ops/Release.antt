-- ===== src/Freelist/Ops/Release.antt =====
-- release and releaseRange: which pending ids become free, and that the freelist stays valid.
use bbolt.Prelude.{
  ◌⊎◌, ◌<◌, ℕ, ◌+◌, ◌≤◌, ◌≡◌, refl, arith, List, [], ◌∷◌, ◌++◌, ok, count, count-append, length,
  ltb, ◌==◌, ◌||◌, if◌then◌else◌, false, Bool-cases, inl, inr, Outcome, none,
}
use bbolt.Prelude.Map.{Map, contains, DistinctKeys, lookup}
use bbolt.Freelist.State.{Freelist, Backend, TxPending}
use bbolt.Freelist.Laws.{BackendLaws}
use bbolt.Freelist.Ops.{
  release, release_range, release_entries, release_entry, keep_entry, released_upto, kept_above,
}
use bbolt.Freelist.Ops.Pending.{
  pending, Paired, released-kept, contains-kept_above, kept_above-DistinctKeys,
}
use bbolt.Freelist.Ops.Needed.{needed, seen_by, needed-keep_entry, needed-kept_above}
use bbolt.Freelist.Ops.Swap.{weigh, allocated_within, release_loop-Moved}
use bbolt.Freelist.Ops.Valid.{IsValid, held}

kept_above-Paired : (txid : ℕ) (m : Map TxPending) → Paired m → Paired (kept_above txid m)
unfolding kept_above
kept_above-Paired txid [] p = tt
kept_above-Paired txid ((tid, txp) ∷ m) p = ground (arith, kept_above-Paired txid m p.1)

-- How often `a` is pending for a transaction up to txid.
abbrev pub pending_upto : ℕ → ℕ → Map TxPending → ℕ
pending_upto a txid [] = 0
pending_upto a txid ((tid, txp) ∷ m) =
    (if ltb txid tid then 0 else count a txp.ids) + pending_upto a txid m

count-released_upto :
    (a txid : ℕ) (m : Map TxPending) → count a (released_upto txid m) ≡ pending_upto a txid m
unfolding released_upto
count-released_upto a txid [] = refl
count-released_upto a txid ((tid, txp) ∷ m) =
    ground (arith, count-released_upto a txid m, count-append a txp.ids (released_upto txid m))

lookup-kept_above :
    (t txid : ℕ) (m : Map TxPending)
    → lookup t (kept_above txid m) ≡ (if ltb txid t then lookup t m else none)
unfolding kept_above lookup
lookup-kept_above t txid [] = ground arith
lookup-kept_above t txid ((tid, txp) ∷ m) = ground (arith, lookup-kept_above t txid m)

-- What handing ids from the pending lists back to the store leaves.
module _ (b : Backend) (laws : BackendLaws b) (f : Freelist) (v : IsValid b laws f) where
  pub record Handed (rest : Map TxPending) (ids : List ℕ) (r : Outcome Freelist) : Type 0 where
    pub g : Freelist
    pub returned : r ≡ ok g
    pub valid : IsValid b laws g
    pub gained : (a : ℕ) → laws.free g a ≡ laws.free f a + count a ids
    pub pends : g.pending ≡ rest
    pub allocs_same : g.allocs ≡ f.allocs

  -- What handing over keeps: who has allocated what, and what is held at all.
  pub record HandedOver (g : Freelist) : Type 0 where
    pub allocs_same : g.allocs ≡ f.allocs
    pub held_same : (a : ℕ) → held b laws g a ≡ held b laws f a
    pub fewer : (a : ℕ) → pending a g.pending ≤ pending a f.pending
    pub absent : (t : ℕ) → contains t f.pending ≡ false → contains t g.pending ≡ false

  pub handed :
      (rest : Map TxPending) (ids : List ℕ)
      → DistinctKeys rest
      → Paired rest
      → ((a : ℕ) → count a ids + pending a rest ≡ pending a f.pending)
      → Handed rest ids (b.merge_spans (record f { pending = rest }) ids)
  handed rest ids d p parted =
      let stays : (a : ℕ) → laws.free (record f { pending = rest }) a ≡ laws.free f a =
        laws.free_stable f f.allocs rest f.cache in
      let (g, stored, same) =
        laws.merge_spans_law (record f { pending = rest }) ids
          (laws.stable f f.allocs rest f.cache v.store)
          (λ a. omega (arith, stays a, parted a, v.once a))
          (λ a h. v.in_range a (omega (arith, parted a))) in
      record {
        g = g;
        returned = stored.returned;
        valid = record {
          store = stored.valid;
          distinct = rw same.pending d;
          paired = rw same.pending p;
          once =
              λ a. rw same.pending (omega (arith, stored.counted a, stays a, parted a, v.once a));
          in_range = λ a. rw same.pending (λ h. v.in_range a (omega (arith, parted a)));
          cached = λ a.
              rw (same.pending, same.cache)
                (ground (arith, stored.counted a, stays a, parted a, v.cached a));
        };
        gained = λ a. omega (arith, stored.counted a, stays a);
        pends = same.pending;
        allocs_same = same.allocs;
      }

  handed_over :
      (rest : Map TxPending) (ids : List ℕ) {r : Outcome Freelist}
      → ((a : ℕ) → count a ids + pending a rest ≡ pending a f.pending)
      → ((t : ℕ) → contains t f.pending ≡ false → contains t rest ≡ false)
      → (h : Handed rest ids r) → HandedOver h.g
  handed_over rest ids parted absent h = record {
    allocs_same = h.allocs_same;
    held_same = λ a. rw h.pends (omega (arith, h.gained a, parted a));
    fewer = λ a. rw h.pends (omega (arith, parted a));
    absent = λ t c. rw h.pends (absent t c);
  }

  pub release-Handed :
      (txid : ℕ)
      → Handed (kept_above txid f.pending) (released_upto txid f.pending) (release b f txid)
  unfolding release
  release-Handed txid =
      handed (kept_above txid f.pending) (released_upto txid f.pending)
        (kept_above-DistinctKeys txid f.pending v.distinct)
        (kept_above-Paired txid f.pending v.paired) (λ a. released-kept a txid f.pending)

  -- release of a valid freelist returns a valid one, in which every id is free as often as before and as
  -- the transactions up to txid, txid included, had it pending. These have nothing pending any longer,
  -- and the transactions above txid have pending what they had.
  pub release_valid :
      (txid : ℕ)
      → (g : Freelist) × (release b f txid ≡ ok g)
        × IsValid b laws g
        × ((a : ℕ) → laws.free g a ≡ laws.free f a + pending_upto a txid f.pending)
        × ((t : ℕ) → t ≤ txid → lookup t g.pending ≡ none)
        × ((t : ℕ) → txid < t → lookup t g.pending ≡ lookup t f.pending)
  release_valid txid =
      let done = release-Handed txid in
      (
        done.g,
        done.returned,
        done.valid,
        λ a. omega (arith, done.gained a, count-released_upto a txid f.pending),
        λ t h. rw done.pends (ground (arith, h, lookup-kept_above t txid f.pending)),
        λ t h. rw done.pends (ground (arith, h, lookup-kept_above t txid f.pending)),
      )

  -- What a reader at or above txid needs stays pending.
  pub release-needed :
      (txid : ℕ)
      → (g : Freelist) × (release b f txid ≡ ok g)
        × IsValid b laws g
        × HandedOver g
        × ((a r : ℕ) → txid ≤ r → needed a r g.pending ≡ needed a r f.pending)
  release-needed txid =
      let done = release-Handed txid in
      (
        done.g,
        done.returned,
        done.valid,
        handed_over (kept_above txid f.pending) (released_upto txid f.pending)
            (λ a. released-kept a txid f.pending) (λ t. contains-kept_above t txid f.pending) done,
        λ a r h. rw done.pends (needed-kept_above a r txid f.pending h),
      )

-- How often releaseRange frees `a`: once for each pending `a` whose releasing and allocating
-- transactions both lie in the extent, but for the entries that last saw the same start.
abbrev pub released_within : ℕ → ℕ → ℕ → Map TxPending → ℕ
released_within a begin end [] = 0
released_within a begin end ((tid, txp) ∷ m) =
    (if ltb tid begin || ltb end tid || txp.last_release_begin == begin
      then 0
      else weigh (allocated_within a begin end) txp.ids txp.alloctx)
    + released_within a begin end m

record EntriesMoved (begin end : ℕ) (m : Map TxPending) (r : Outcome (Map TxPending × List ℕ))
    : Type 0 where
  rest : Map TxPending
  ids : List ℕ
  returned : r ≡ ok (rest, ids)
  absent : (k : ℕ) → contains k m ≡ false → contains k rest ≡ false
  distinct : DistinctKeys m → DistinctKeys rest
  paired : Paired rest
  parted : (a : ℕ) → count a ids + pending a rest ≡ pending a m
  gained : (a : ℕ) → count a ids ≡ released_within a begin end m
  needs : (a r : ℕ) → (r < begin) ⊎ (end < r) → needed a r rest ≡ needed a r m

-- No page allocated in the extent is seen from before it.
unseen : (a r begin end x t : ℕ) → r < begin → begin ≤ t → t ≤ end → seen_by a r x t ≡ 0
unseen a r begin end x t h p q = ground arith

-- An entry of the extent, before and after.
needs_entry :
    (a r begin end tid : ℕ) (txp txp' : TxPending)
    → (r < begin) ⊎ (end < r)
    → tid ≤ end
    → ((w : ℕ → ℕ → ℕ)
        → ((x t : ℕ) → begin ≤ t → t ≤ end → w x t ≡ 0)
        → weigh w txp'.ids txp'.alloctx ≡ weigh w txp.ids txp.alloctx)
    → ◌≡◌ {A = ℕ}
        (if ltb r tid then weigh (seen_by a r) txp'.ids txp'.alloctx else 0)
        (if ltb r tid then weigh (seen_by a r) txp.ids txp.alloctx else 0)
needs_entry a r begin end tid txp txp' (inl before) upto keeps =
    ground (arith, keeps (seen_by a r) (λ x t. unseen a r begin end x t before))
needs_entry a r begin end tid txp txp' (inr behind) upto keeps = ground arith

keep_entry-pending :
    (a tid : ℕ) (txp : TxPending) (m : Map TxPending)
    → pending a (keep_entry tid txp m) ≡ count a txp.ids + pending a m
unfolding keep_entry
keep_entry-pending a tid txp m = ground arith

keep_entry-Paired :
    (tid : ℕ) (txp : TxPending) (m : Map TxPending)
    → length txp.alloctx ≡ length txp.ids
    → Paired m
    → Paired (keep_entry tid txp m)
unfolding keep_entry
keep_entry-Paired tid txp m h p = ground arith

contains-keep_entry :
    (k tid : ℕ) (txp : TxPending) (m : Map TxPending)
    → contains k m ≡ false
    → (tid == k) ≡ false
    → contains k (keep_entry tid txp m) ≡ false
unfolding keep_entry contains lookup
contains-keep_entry k tid txp m h ne = ground arith

keep_entry-DistinctKeys :
    (tid : ℕ) (txp : TxPending) (m : Map TxPending)
    → contains tid m ≡ false
    → DistinctKeys m
    → DistinctKeys (keep_entry tid txp m)
unfolding keep_entry
keep_entry-DistinctKeys tid txp m h d = ground arith

contains-cons :
    (k tid : ℕ) (txp : TxPending) (m : Map TxPending)
    → contains k ((tid, txp) ∷ m) ≡ false
    → ((tid == k) ≡ false) × (contains k m ≡ false)
unfolding contains lookup
contains-cons k tid txp m h = ground arith

contains-cons_absent :
    (k tid : ℕ) (txp : TxPending) (m : Map TxPending)
    → (tid == k) ≡ false
    → contains k m ≡ false
    → contains k ((tid, txp) ∷ m) ≡ false
unfolding contains lookup
contains-cons_absent k tid txp m h c = ground arith

release_entries-Moved :
    (begin end : ℕ) (m : Map TxPending)
    → Paired m
    → EntriesMoved begin end m (release_entries begin end m)
unfolding release_entries release_entry
release_entries-Moved begin end [] p = record {
  rest = [];
  ids = [];
  returned = refl;
  absent = λ k h. h;
  distinct = λ d. d;
  paired = tt;
  parted = λ a. refl;
  gained = λ a. refl;
  needs = λ a r out. refl;
}
release_entries-Moved begin end ((tid, txp) ∷ m) p =
    let sub = release_entries-Moved begin end m p.1 in
    elim (Bool-cases (ltb tid begin || ltb end tid || txp.last_release_begin == begin)) [
      | inl skipped ↦ record {
        rest = (tid, txp) ∷ sub.rest;
        ids = sub.ids;
        returned = rw (sub.returned, skipped);
        absent = λ k h.
            let c = contains-cons k tid txp m h in
            contains-cons_absent k tid txp sub.rest c.0 (sub.absent k c.1);
        distinct = λ d. (sub.absent tid d.0, sub.distinct d.1);
        paired = (p.0, sub.paired);
        parted = λ a. omega (arith, sub.parted a);
        gained = λ a. ground (arith, sub.gained a, skipped);
        needs = λ a r out. omega (arith, sub.needs a r out);
      }
      | inr taken ↦
          let moved =
            release_loop-Moved (length txp.ids + 1) begin end 0 txp.ids txp.alloctx [] p.0
              (omega arith) (λ a. refl) in
          let entry : TxPending = record {
            ids = moved.ids';
            alloctx = moved.alloctx';
            last_release_begin = begin;
          } in
          record {
            rest = keep_entry tid entry sub.rest;
            ids = moved.m' ++ sub.ids;
            returned = rw (sub.returned, taken, moved.returned);
            absent = λ k h.
                let c = contains-cons k tid txp m h in
                contains-keep_entry k tid entry sub.rest (sub.absent k c.1) c.0;
            distinct = λ d.
                keep_entry-DistinctKeys tid entry sub.rest (sub.absent tid d.0) (sub.distinct d.1);
            paired = keep_entry-Paired tid entry sub.rest moved.paired sub.paired;
            parted = λ a. omega (
              arith,
              sub.parted a,
              count-append a moved.m' sub.ids,
              moved.counts a,
              keep_entry-pending a tid entry sub.rest,
            );
            gained = λ a.
                ground (arith, sub.gained a, count-append a moved.m' sub.ids, moved.moved a, taken);
            needs = λ a r out. omega (
              arith,
              sub.needs a r out,
              needed-keep_entry a r tid entry sub.rest,
              needs_entry a r begin end tid txp entry out (ground (arith, taken)) moved.keeps,
            );
          }
    ]

module _ (b : Backend) (laws : BackendLaws b) (f : Freelist) (v : IsValid b laws f)
    (begin end : ℕ) where
  -- releaseRange with begin ≤ end returns a valid freelist, in which exactly those pending ids have
  -- become free whose releasing and whose allocating transaction lie in the extent, but for the
  -- entries that last saw the same start; they are pending no longer, and all other ids are as before.
  pub release_range_valid :
      begin ≤ end
      → (g : Freelist) × (release_range b f begin end ≡ ok g)
        × IsValid b laws g
        × ((a : ℕ) → laws.free g a ≡ laws.free f a + released_within a begin end f.pending)
        × ((a : ℕ)
            → pending a g.pending + released_within a begin end f.pending ≡ pending a f.pending)
  unfolding release_range
  release_range_valid h =
      let ordered : ltb end begin ≡ false = ground arith in
      let moved = release_entries-Moved begin end f.pending v.paired in
      let done =
        handed b laws f v moved.rest moved.ids (moved.distinct v.distinct) moved.paired
          moved.parted in
      (
        done.g,
        rw (ordered, moved.returned) done.returned,
        done.valid,
        λ a. omega (arith, done.gained a, moved.gained a),
        λ a. rw done.pends (omega (arith, moved.parted a, moved.gained a)),
      )

  -- What a reader outside of the extent needs stays pending.
  pub release_range-needed :
      begin ≤ end
      → (g : Freelist) × (release_range b f begin end ≡ ok g)
        × IsValid b laws g
        × HandedOver b laws f v g
        × ((a r : ℕ) → (r < begin) ⊎ (end < r) → needed a r g.pending ≡ needed a r f.pending)
  unfolding release_range
  release_range-needed h =
      let ordered : ltb end begin ≡ false = ground arith in
      let moved = release_entries-Moved begin end f.pending v.paired in
      let done =
        handed b laws f v moved.rest moved.ids (moved.distinct v.distinct) moved.paired
          moved.parted in
      (
        done.g,
        rw (ordered, moved.returned) done.returned,
        done.valid,
        handed_over b laws f v moved.rest moved.ids moved.parted moved.absent done,
        λ a r out. rw done.pends (moved.needs a r out),
      )
