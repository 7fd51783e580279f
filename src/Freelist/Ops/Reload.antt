-- ===== src/Freelist/Ops/Reload.antt =====
-- readIDs of both back ends: the freelist that opening a database starts with.
use bbolt.Prelude.{ℕ, ◌+◌, ◌≤◌, ◌<◌, ◌≡◌, refl, arith, List, [], ◌∷◌, ok, count, ltb, AscendingFrom}
use bbolt.Prelude.Map.{contains, contains-nil, DistinctKeys}
use bbolt.Freelist.State.{Freelist, u64, reindex, add_all, all_pending}
use bbolt.Freelist.Array.{array_backend, array_read_ids}
use bbolt.Freelist.Hashmap.{hashmap_backend, hashmap_read_ids, hashmap_get_free_page_ids}
use bbolt.Freelist.Hashmap.Allocate.{free_spans, SpanInv-stable}
use bbolt.Freelist.Hashmap.Read.{get_free_page_ids-count}
use bbolt.Freelist.Hashmap.Init.{init-Built}
use bbolt.Freelist.Backends.{array_laws, hashmap_laws, free_ids}
use bbolt.Freelist.Ops.Pending.{pending, Paired, count-all_pending}
use bbolt.Freelist.Ops.Free.{contains-add_all}
use bbolt.Freelist.Ops.Valid.{IsValid}

reindex-cached :
    (a : ℕ) (f : Freelist) (ids : List ℕ)
    → contains a (reindex f ids).cache ≡ ltb 0 (count a ids + pending a f.pending)
unfolding reindex
reindex-cached a f ids = ground (
  arith,
  contains-add_all a (all_pending f.pending) (add_all ids []),
  contains-add_all a ids [],
  contains-nil (Unit {0}) a,
  count-all_pending a f.pending,
)

-- The pending lists of a freelist that is about to read `ids`.
pub record Readable (f : Freelist) (ids : List ℕ) : Type 0 where
  pub ascending : AscendingFrom 2 ids
  pub small : (a : ℕ) → 0 < count a ids → a + 1 < u64
  pub distinct : DistinctKeys f.pending
  pub paired : Paired f.pending
  pub alone : (a : ℕ) → count a ids + pending a f.pending ≤ 1
  pub in_range : (a : ℕ) → 0 < pending a f.pending → (2 ≤ a) × (a + 1 < u64)

-- arrayReadIDs of a strictly ascending list of page ids, none of them pending, gives a valid freelist
-- that has these ids free, whatever was free and cached before; the pending lists stay.
pub array_read_ids_valid :
    (f : Freelist) (ids : List ℕ)
    → Readable f ids
    → (g : Freelist) × (array_read_ids f ids ≡ ok g)
      × IsValid array_backend array_laws g
      × ((a : ℕ) → free_ids g a ≡ count a ids)
      × (g.pending ≡ f.pending)
unfolding array_read_ids
array_read_ids_valid f ids r =
    let set = record f { ids = ids } in
    (
      reindex set ids,
      refl,
      unfold reindex in
          record {
            store = record { ascending = r.ascending; small = r.small };
            distinct = r.distinct;
            paired = r.paired;
            once = r.alone;
            in_range = r.in_range;
            cached = λ a. reindex-cached a set ids;
          },
      λ a. unfold reindex in refl,
      unfold reindex in refl,
    )

-- hashmapReadIDs of a strictly ascending list of page ids that is not empty, none of them pending,
-- gives a valid freelist that has exactly these ids free, whatever was free and cached before; the
-- pending lists stay.
pub hashmap_read_ids_valid :
    (f : Freelist) (id : ℕ) (ids : List ℕ)
    → Readable f (id ∷ ids)
    → (g : Freelist) × (hashmap_read_ids f (id ∷ ids) ≡ ok g)
      × IsValid hashmap_backend hashmap_laws g
      × ((a : ℕ) → free_spans g a ≡ count a (id ∷ ids))
      × (g.pending ≡ f.pending)
unfolding hashmap_read_ids reindex
hashmap_read_ids_valid f id ids r =
    let (g, e, built) = init-Built f id ids r.ascending r.small in
    let free_list = hashmap_get_free_page_ids g in
    let pends = built.same.pending in
    (
      reindex g free_list,
      rw e refl,
      record {
        store = SpanInv-stable g _ _ _ built.inv;
        distinct = rw pends r.distinct;
        paired = rw pends r.paired;
        once = λ a. rw pends (omega (arith, built.counts a, r.alone a));
        in_range = λ a. rw pends (r.in_range a);
        cached = λ a. ground (arith, reindex-cached a g free_list, get_free_page_ids-count g a);
      },
      built.counts,
      pends,
    )
