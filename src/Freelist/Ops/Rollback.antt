-- ===== src/Freelist/Ops/Rollback.antt =====
-- rollback of a transaction: its pending ids go back to where they came from.
use bbolt.Prelude.{
  ℕ, ◌+◌, ◌≤◌, ◌≡◌, refl, ◌∙◌, arith, List, [], ◌∷◌, ◌++◌, ok, count, count-append, length, ltb,
  ◌==◌, if◌then◌else◌, false, Outcome, Option, none, some,
}
use bbolt.Prelude.Map.{
  Map, contains, DistinctKeys, lookup, insert, delete, lookup-insert, contains-delete,
  delete-DistinctKeys,
}
use bbolt.Freelist.State.{Freelist, Backend, TxPending, PidSet}
use bbolt.Freelist.Laws.{BackendLaws}
use bbolt.Freelist.Ops.{rollback, undo, rollback_loop, or_new}
use bbolt.Freelist.Ops.Pending.{pending, Paired, pending-delete}
use bbolt.Freelist.Ops.Swap.{weigh}
use bbolt.Freelist.Ops.Valid.{IsValid, held}

-- Whether a pair is the id `a`, allocated by the transaction itself.
abbrev pub own : ℕ → ℕ → ℕ → ℕ → ℕ
own a txid x t = if t == 0 then 0 else if t == txid then (if x == a then 1 else 0) else 0

-- The allocating transaction that is on book for `a` after the rollback: the one noted with the
-- pending id, unless there is none or it is the one rolled back.
abbrev pub restored : ℕ → ℕ → List ℕ → List ℕ → Option ℕ → Option ℕ
restored a txid [] ts before = before
restored a txid (x ∷ xs) [] before = before
restored a txid (x ∷ xs) (t ∷ ts) before =
    if x == a
    then (if t == 0 then before else if t == txid then before else some t)
    else restored a txid xs ts before

pub restored_absent :
    (a txid : ℕ) (xs ts : List ℕ) (before : Option ℕ)
    → count a xs ≡ 0
    → restored a txid xs ts before ≡ before
restored_absent a txid [] ts before h = refl
restored_absent a txid (x ∷ xs) [] before h = refl
restored_absent a txid (x ∷ xs) (t ∷ ts) before h =
    ground (arith, restored_absent a txid xs ts before)

record Undone (txid : ℕ) (ids alloctx : List ℕ) (cache : PidSet) (allocs : Map ℕ) (m : List ℕ)
    (r : Outcome (PidSet × Map ℕ × List ℕ)) : Type 0 where
  cache' : PidSet
  allocs' : Map ℕ
  m' : List ℕ
  returned : r ≡ ok (cache', allocs', m')
  cached : (a : ℕ) → contains a cache' ≡ (if ltb 0 (count a ids) then false else contains a cache)
  booked : (a : ℕ) → lookup a allocs' ≡ restored a txid ids alloctx (lookup a allocs)
  moved : (a : ℕ) → count a m' ≡ count a m + weigh (own a txid) ids alloctx

next_allocs : ℕ → ℕ → ℕ → Map ℕ → Map ℕ
next_allocs txid x t allocs =
    if t == 0 then allocs else if t == txid then allocs else insert x t allocs

next_moved : ℕ → ℕ → ℕ → List ℕ → List ℕ
next_moved txid x t m = if t == 0 then m else if t == txid then m ++ x ∷ [] else m

lookup-next_allocs :
    (a txid x t : ℕ) (allocs : Map ℕ)
    → lookup a (next_allocs txid x t allocs) ≡ (
        if x == a
        then (if t == 0 then lookup a allocs else if t == txid then lookup a allocs else some t)
        else lookup a allocs)
unfolding next_allocs
lookup-next_allocs a txid x t allocs = ground (arith, lookup-insert x a t allocs)

count-next_moved :
    (a txid x t : ℕ) (m : List ℕ) → count a (next_moved txid x t m) ≡ count a m + own a txid x t
unfolding next_moved
count-next_moved a txid x t m = ground (arith, count-append a m (x ∷ []))

rollback_loop-Undone :
    (txid : ℕ) (ids alloctx : List ℕ) (cache : PidSet) (allocs : Map ℕ) (m : List ℕ)
    → length alloctx ≡ length ids
    → ((a : ℕ) → count a ids ≤ 1)
    → Undone txid ids alloctx cache allocs m (rollback_loop txid ids alloctx cache allocs m)
unfolding rollback_loop next_allocs next_moved
rollback_loop-Undone txid [] ts cache allocs m h one = record {
  cache' = cache;
  allocs' = allocs;
  m' = m;
  returned = refl;
  cached = λ a. refl;
  booked = λ a. refl;
  moved = λ a. omega arith;
}
rollback_loop-Undone txid (x ∷ xs) [] cache allocs m h one = absurd (omega arith)
rollback_loop-Undone txid (x ∷ xs) (t ∷ ts) cache allocs m h one =
    let sub =
      rollback_loop-Undone txid xs ts (delete x cache) (next_allocs txid x t allocs)
        (next_moved txid x t m) (omega arith) (λ a. omega (arith, one a)) in
    record {
      cache' = sub.cache';
      allocs' = sub.allocs';
      m' = sub.m';
      returned = sub.returned;
      cached = λ a. ground (arith, sub.cached a, contains-delete x a cache);
      booked = λ a. ground (
        arith,
        sub.booked a,
        lookup-next_allocs a txid x t allocs,
        one a,
        restored_absent a txid xs ts (lookup a (next_allocs txid x t allocs)),
      );
      moved = λ a. omega (arith, sub.moved a, count-next_moved a txid x t m);
    }

pub count-lookup :
    (a txid : ℕ) (m : Map TxPending) → count a (or_new (lookup txid m)).ids ≤ pending a m
unfolding lookup
count-lookup a txid [] = omega arith
count-lookup a txid ((k, w) ∷ m) = ground (arith, count-lookup a txid m)

pub lookup-Paired :
    (txid : ℕ) (m : Map TxPending)
    → Paired m
    → length (or_new (lookup txid m)).alloctx ≡ length (or_new (lookup txid m)).ids
unfolding lookup
lookup-Paired txid [] p = refl
lookup-Paired txid ((k, w) ∷ m) p = ground (arith, lookup-Paired txid m p.1)

delete-Paired : (txid : ℕ) (m : Map TxPending) → Paired m → Paired (delete txid m)
unfolding delete
delete-Paired txid [] p = tt
delete-Paired txid ((k, w) ∷ m) p = ground (arith, delete-Paired txid m p.1)

weigh-own : (a txid : ℕ) (xs ts : List ℕ) → weigh (own a txid) xs ts ≤ count a xs
weigh-own a txid [] ts = omega arith
weigh-own a txid (x ∷ xs) [] = omega arith
weigh-own a txid (x ∷ xs) (t ∷ ts) = ground (arith, weigh-own a txid xs ts)

pub rollback-none :
    (b : Backend) (f : Freelist) (txid : ℕ)
    → lookup txid f.pending ≡ none
    → rollback b f txid ≡ ok f
unfolding rollback undo
rollback-none b f txid absent = rw absent refl

rollback-found :
    (b : Backend) (f : Freelist) (txid : ℕ) (txp : TxPending) (cache : PidSet) (allocs : Map ℕ)
    (m : List ℕ)
    → lookup txid f.pending ≡ some txp
    → rollback_loop txid txp.ids txp.alloctx f.cache f.allocs [] ≡ ok (cache, allocs, m)
    → rollback b f txid
      ≡ b.merge_spans
          (record f { cache = cache; allocs = allocs; pending = delete txid f.pending })
          m
unfolding rollback undo
rollback-found b f txid txp cache allocs m found loop = rw (found, rollback, loop)

module _ (b : Backend) (laws : BackendLaws b) (f : Freelist) (v : IsValid b laws f) (txid : ℕ)
    (txp : TxPending) (found : lookup txid f.pending ≡ some txp) where
  -- What rollback leaves: of the ids that the transaction freed, none is pending or in the cache any
  -- longer; those that it had allocated itself are free, and for each of the others the transaction
  -- that allocated it, where one is noted, is on book again. Every other id is as before.
  pub record RolledBack (g : Freelist) : Type 0 where
    pub store : laws.Inv g
    pub distinct : DistinctKeys g.pending
    pub paired : Paired g.pending
    pub pends : g.pending ≡ delete txid f.pending
    pub gained : (a : ℕ) → laws.free g a ≡ laws.free f a + weigh (own a txid) txp.ids txp.alloctx
    pub dropped : (a : ℕ) → pending a g.pending + count a txp.ids ≡ pending a f.pending
    pub cached :
        (a : ℕ)
        → contains a g.cache ≡ (if ltb 0 (count a txp.ids) then false else ltb 0 (held b laws f a))
    pub booked :
        (a : ℕ) → lookup a g.allocs ≡ restored a txid txp.ids txp.alloctx (lookup a f.allocs)

  -- rollback of a transaction with an entry in pending, on a valid freelist, returns. Of the ids that
  -- the transaction freed none is pending by it or in the cache any longer; those that it had allocated
  -- itself are free, and each of the others is booked again to the transaction that allocated it,
  -- where one is noted. All other ids are as before.
  pub rollback_undoes : (g : Freelist) × (rollback b f txid ≡ ok g) × RolledBack g
  rollback_undoes =
      let ids_le : (a : ℕ) → count a txp.ids ≤ pending a f.pending =
        λ a. ground (arith, count-lookup a txid f.pending, found) in
      let pair : length txp.alloctx ≡ length txp.ids =
        ground (arith, lookup-Paired txid f.pending v.paired, found) in
      let undone =
        rollback_loop-Undone txid txp.ids txp.alloctx f.cache f.allocs [] pair
          (λ a. omega (arith, ids_le a, v.once a)) in
      let pend = delete txid f.pending in
      let parted : (a : ℕ) → pending a pend + count a txp.ids ≡ pending a f.pending =
        λ a. ground (arith, pending-delete a txid f.pending v.distinct, found) in
      let mid = record f { cache = undone.cache'; allocs = undone.allocs'; pending = pend } in
      let stays : (a : ℕ) → laws.free mid a ≡ laws.free f a =
        laws.free_stable f undone.allocs' pend undone.cache' in
      let few : (a : ℕ) → count a undone.m' ≤ pending a f.pending =
        λ a. omega (arith, undone.moved a, ids_le a, weigh-own a txid txp.ids txp.alloctx) in
      let (g, stored, same) =
        laws.merge_spans_law mid undone.m' (laws.stable f undone.allocs' pend undone.cache' v.store)
          (λ a. omega (arith, stays a, v.once a, few a))
          (λ a h. v.in_range a (omega (arith, few a))) in
      (
        g,
        rollback-found b f txid txp undone.cache' undone.allocs' undone.m' found undone.returned
            ∙ stored.returned,
        record {
          store = stored.valid;
          distinct = rw same.pending (delete-DistinctKeys txid f.pending v.distinct);
          paired = rw same.pending (delete-Paired txid f.pending v.paired);
          pends = same.pending;
          gained = λ a. omega (arith, stored.counted a, stays a, undone.moved a);
          dropped = λ a. rw same.pending (parted a);
          cached = λ a. rw same.cache (ground (arith, undone.cached a, v.cached a));
          booked = λ a. rw same.allocs (undone.booked a);
        },
      )
