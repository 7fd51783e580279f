-- ===== src/Freelist/Ops/Free.antt =====
-- free makes the ids of a page pending, and panics if one of them is held already.
use bbolt.Prelude.{
  ℕ, ◌+◌, ◌-◌, ◌≤◌, ◌<◌, ◌≡◌, refl, arith, List, [], ◌∷◌, ◌++◌, ok, panic, count, count-append,
  within, ltb, leb, ◌==◌, if◌then◌else◌, true, false, Bool-cases, inl, inr, replicate, length,
  length-append, length-replicate, range_from, count-range_from, append_singleton,
}
use mathlib.Core.List.{append-nil}
use bbolt.Prelude.Map.{Map, lookup, insert, contains, contains-insert, insert-DistinctKeys}
use bbolt.Page.{Page}
use bbolt.Freelist.State.{Freelist, Backend, PidSet, TxPending, u64, add64, add_all}
use bbolt.Freelist.Laws.{BackendLaws}
use bbolt.Freelist.Ops.{free, free_ids_loop, alloc_txid, drop_alloc, or_new}
use bbolt.Freelist.Ops.Pending.{pending, Paired, pending-insert}
use bbolt.Freelist.Ops.Valid.{IsValid, held}

pub contains-add_all :
    (a : ℕ) (ids : List ℕ) (cache : PidSet)
    → contains a (add_all ids cache) ≡ (if ltb 0 (count a ids) then true else contains a cache)
unfolding add_all
contains-add_all a [] cache = refl
contains-add_all a (id ∷ ids) cache =
    ground (arith, contains-add_all a ids (insert id tt cache), contains-insert id a tt cache)

-- The loop, when none of the ids is in the cache.
abbrev pub appended : TxPending → List ℕ → ℕ → TxPending
appended txp ids alloc = record txp {
  ids = txp.ids ++ ids;
  alloctx = txp.alloctx ++ replicate (length ids) alloc;
}

free_ids_loop-ok :
    (ids : List ℕ) (alloc : ℕ) (txp : TxPending) (cache : PidSet)
    → ((a : ℕ) → count a ids ≤ 1)
    → ((a : ℕ) → 0 < count a ids → contains a cache ≡ false)
    → free_ids_loop ids alloc txp cache ≡ ok (appended txp ids alloc, add_all ids cache)
unfolding free_ids_loop add_all
free_ids_loop-ok [] alloc txp cache one new = simp append-nil
free_ids_loop-ok (id ∷ ids) alloc txp cache one new =
    let absent = new id (ground arith) in
    rw
      (
        absent,
        free_ids_loop-ok ids alloc (appended txp (id ∷ []) alloc) (insert id tt cache)
            (λ a. omega (arith, one a))
            (λ a h. ground (arith, new a, contains-insert id a tt cache, one a)),
      )
      (simp append_singleton)

free_ids_loop-panic :
    (ids : List ℕ) (alloc a : ℕ) (txp : TxPending) (cache : PidSet)
    → 0 < count a ids
    → contains a cache ≡ true
    → free_ids_loop ids alloc txp cache ≡ panic
unfolding free_ids_loop
free_ids_loop-panic [] alloc a txp cache h c = absurd (omega arith)
free_ids_loop-panic (id ∷ ids) alloc a txp cache h c = elim (Bool-cases (contains id cache)) [
  | inl e ↦ rw e
  | inr e ↦
      let ne : (id == a) ≡ false = ground (arith, e, c) in
      rw e (
        free_ids_loop-panic ids alloc a _ (insert id tt cache) (ground arith)
          (ground (arith, contains-insert id a tt cache)))
]

insert-Paired :
    (tid : ℕ) (txp : TxPending) (m : Map TxPending)
    → length txp.alloctx ≡ length txp.ids
    → Paired m
    → Paired (insert tid txp m)
unfolding insert
insert-Paired tid txp [] h p = (h, tt)
insert-Paired tid txp ((k, v) ∷ m) h p = ground (arith, insert-Paired tid txp m h p.1)

or_new-Paired :
    (tid : ℕ) (m : Map TxPending)
    → Paired m
    → length (or_new (lookup tid m)).alloctx ≡ length (or_new (lookup tid m)).ids
unfolding lookup
or_new-Paired tid [] p = refl
or_new-Paired tid ((k, v) ∷ m) p = ground (arith, or_new-Paired tid m p.1)

-- The pages of a page with its overflow.
abbrev pub covers : Page → ℕ → ℕ
covers p a = within a p.id (p.overflow + 1)

module _ (b : Backend) (laws : BackendLaws b) (f : Freelist) (txid : ℕ) (p : Page)
    (v : IsValid b laws f) (two : 2 ≤ p.id) (small : p.id + p.overflow + 1 < u64) where
  abbrev pub ids : List ℕ
  ids = range_from p.id (add64 p.id p.overflow + 1 - p.id)

  pub count-ids : (a : ℕ) → count a ids ≡ covers p a
  count-ids a =
      let rounds : add64 p.id p.overflow + 1 - p.id ≡ p.overflow + 1 = omega arith in
      rw rounds (count-range_from a p.id (p.overflow + 1))

  -- What free returns for a page none of whose ids is held.
  pub record FreedUp : Type 0 where
    pub g : Freelist
    pub returned : free f txid p ≡ ok g
    pub valid : IsValid b laws g
    pub counts : (a : ℕ) → pending a g.pending ≡ pending a f.pending + covers p a
    pub stays : (a : ℕ) → laws.free g a ≡ laws.free f a
    pub booked : g.allocs ≡ drop_alloc (lookup p.id f.allocs) p.id f.allocs
    pub pends :
        g.pending
        ≡ insert txid
            (appended
              (or_new (lookup txid f.pending))
              ids
              (alloc_txid (lookup p.id f.allocs) p txid))
            f.pending

  pub freed_up : ((a : ℕ) → 0 < covers p a → held b laws f a ≡ 0) → FreedUp
  unfolding free
  freed_up new =
      let valid_id : leb p.id 1 ≡ false = ground arith in
      let old = or_new (lookup txid f.pending) in
      let alloc = alloc_txid (lookup p.id f.allocs) p txid in
      let txp = appended old ids alloc in
      let loop =
        free_ids_loop-ok ids alloc old f.cache (λ a. ground (arith, count-ids a))
          (λ a h. ground (arith, count-ids a, new a, v.cached a)) in
      let allocs = drop_alloc (lookup p.id f.allocs) p.id f.allocs in
      let pend = insert txid txp f.pending in
      let cache = add_all ids f.cache in
      let g = record f { allocs = allocs; pending = pend; cache = cache } in
      let stays : (a : ℕ) → laws.free g a ≡ laws.free f a = laws.free_stable f allocs pend cache in
      let counts : (a : ℕ) → pending a pend ≡ pending a f.pending + covers p a = λ a.
        omega
          (arith, pending-insert a txid txp f.pending, count-append a old.ids ids, count-ids a) in
      record {
        g = g;
        returned = rw (valid_id, loop);
        valid = record {
          store = laws.stable f allocs pend cache v.store;
          distinct = insert-DistinctKeys txid txp f.pending v.distinct;
          paired =
              insert-Paired txid txp f.pending
                (omega (
                  arith,
                  or_new-Paired txid f.pending v.paired,
                  length-append old.ids ids,
                  length-append old.alloctx (replicate (length ids) alloc),
                  length-replicate (length ids) alloc,
                ))
                v.paired;
          once = λ a. ground (arith, stays a, counts a, new a, v.once a);
          in_range = λ a h. ground (arith, counts a, v.in_range a);
          cached = λ a.
              ground
                (arith, stays a, counts a, v.cached a, contains-add_all a ids f.cache, count-ids a);
        };
        counts = counts;
        stays = stays;
        booked = refl;
        pends = refl;
      }

  -- free of a page none of whose ids is held keeps the freelist valid: the page and its overflow
  -- become pending, and nothing else changes in what is free or pending.
  pub free_valid :
      ((a : ℕ) → 0 < covers p a → held b laws f a ≡ 0)
      → (g : Freelist) × (free f txid p ≡ ok g)
        × IsValid b laws g
        × ((a : ℕ) → pending a g.pending ≡ pending a f.pending + covers p a)
        × ((a : ℕ) → laws.free g a ≡ laws.free f a)
  free_valid new =
      let freed = freed_up new in (freed.g, freed.returned, freed.valid, freed.counts, freed.stays)

  -- free panics on a page one of whose ids is free or pending already.
  pub free_twice : (a : ℕ) → 0 < covers p a → 0 < held b laws f a → free f txid p ≡ panic
  unfolding free
  free_twice a within_page is_held =
      let valid_id : leb p.id 1 ≡ false = ground arith in
      rw (
        valid_id,
        free_ids_loop-panic ids (alloc_txid (lookup p.id f.allocs) p txid) a
            (or_new (lookup txid f.pending)) f.cache (omega (arith, count-ids a))
            (ground (arith, v.cached a)),
      )
