-- ===== src/Freelist/Tests.antt =====
-- Two small freelists, one for each back end, and the theorems about the freelist at them.
use bbolt.Prelude.{
  ℕ, ◌+◌, ◌<◌, ◌≡◌, refl, [], ◌∷◌, ok, panic, true, arith, within, count, some, none, ◌≤◌,
  replicate,
}
use bbolt.Prelude.Map.{contains, lookup}
use bbolt.Page.{Page, has_flag, freelist_page_flag}
use bbolt.Freelist.State.{Freelist, TxPending, empty_freelist}
use bbolt.Freelist.Array.{array_backend, array_merge_spans, array_allocate}
use bbolt.Freelist.Array.Scan
use bbolt.Freelist.Array.Scan.{array_allocate-Allocates}
use bbolt.Freelist.Hashmap.{
  hashmap_backend, hashmap_allocate, merge_with_existing_span, init, hashmap_read_ids,
}
use bbolt.Freelist.Hashmap.Maps.{span_count}
use bbolt.Freelist.Hashmap.Spans.{SpanInv}
use bbolt.Freelist.Hashmap.Merge.{merge_with_existing_span-SpanInv}
use bbolt.Freelist.Hashmap.Allocate.{hashmap_allocate-Allocated, free_spans}
use bbolt.Freelist.Hashmap.Init.{init-Built, Built}
use bbolt.Freelist.Laws.{Allocated}
use bbolt.Freelist.Backends.{ArrayInv, array_laws, hashmap_laws, free_ids}
use bbolt.Freelist.Ops.{
  FreelistPage, free, release, release_range, rollback, page_ids, reload, release_entry, keep_entry,
}
use bbolt.Freelist.Ops.Pending.{pending}
use bbolt.Freelist.Ops.Valid.{IsValid, AllocateOk, allocate_valid}
use bbolt.Freelist.Ops.Free.{free_valid, free_twice, covers}
use bbolt.Freelist.Ops.Release.{pending_upto, release_valid, release_range_valid, released_within}
use bbolt.Freelist.Ops.Needed.{needed}
use bbolt.Freelist.FreePages.{free_pages, free_pages-needed, free_pages-drains, max_txid}
use bbolt.Freelist.Ops.Rollback.{RolledBack, rollback_undoes}
use bbolt.Freelist.Ops.Reload.{Readable, hashmap_read_ids_valid}
use bbolt.Freelist.Ops.Reread.{reload_pending}

-- Pages 3, 4, 5 and 9 are free; transaction 6 has freed 12 and 13, which 4 and itself allocated.
abbrev by_6 : TxPending
by_6 = record { ids = 12 ∷ 13 ∷ []; alloctx = 4 ∷ 6 ∷ []; last_release_begin = 0 }

abbrev small : Freelist
small = record empty_freelist {
  ids = 3 ∷ 4 ∷ 5 ∷ 9 ∷ [];
  allocs = (7, 4) ∷ [];
  pending = (6, by_6) ∷ [];
  cache = (3, tt) ∷ (4, tt) ∷ (5, tt) ∷ (9, tt) ∷ (12, tt) ∷ (13, tt) ∷ [];
}

small-ArrayInv : ArrayInv small
small-ArrayInv = record { ascending = ground arith; small = λ a h. ground arith }

small-IsValid : IsValid array_backend array_laws small
unfolding contains lookup
small-IsValid = record {
  store = small-ArrayInv;
  distinct = (refl, tt);
  paired = (refl, tt);
  once = λ a. ground arith;
  in_range = λ a h. ground arith;
  cached = λ a. ground arith;
}

abbrev spans : Freelist
spans = record empty_freelist {
  forward_map = (3, 3) ∷ (9, 1) ∷ [];
  backward_map = (5, 3) ∷ (9, 1) ∷ [];
  freemaps = (3, (3, tt) ∷ []) ∷ (1, (9, tt) ∷ []) ∷ [];
}

spans-SpanInv : SpanInv spans
unfolding lookup contains
spans-SpanInv = record {
  distinct = (refl, (refl, tt));
  distinct_sizes = (refl, (refl, tt));
  bounds = λ s n h. ground arith;
  ends = λ s n h. ground arith;
  begins = λ e n h. ground arith;
  sizes = λ s n h. ground arith;
  starts = λ s n h. ground arith;
  disjoint = λ a. ground arith;
  apart = λ s n h. ground arith;
}

array_allocate-Allocates_example : Scan.Allocates small 8 2 (array_allocate small 8 2)
array_allocate-Allocates_example =
    array_allocate-Allocates small 8 2 (omega arith) small-ArrayInv.ascending (λ a h. ground arith)

hashmap_allocate-Allocated_example :
    Allocated SpanInv free_spans spans 8 2 (hashmap_allocate spans 8 2)
hashmap_allocate-Allocated_example =
    hashmap_allocate-Allocated spans 8 2 (omega arith) spans-SpanInv

merge_with_existing_span-SpanInv_example :
    SpanInv (merge_with_existing_span spans 6)
    × ((a : ℕ)
        → span_count a (merge_with_existing_span spans 6).forward_map
          ≡ span_count a spans.forward_map + within a 6 1)
merge_with_existing_span-SpanInv_example =
    merge_with_existing_span-SpanInv spans 6 spans-SpanInv (omega arith) (omega arith) refl

init-Built_example :
    (g : Freelist) × (init spans (4 ∷ 5 ∷ 8 ∷ []) ≡ ok g)
    × Built spans g (λ a. count a (4 ∷ 5 ∷ 8 ∷ []))
init-Built_example = init-Built spans 4 (5 ∷ 8 ∷ []) (ground arith) (λ a h. ground arith)

allocate_valid_example : AllocateOk array_backend array_laws small 8 2
allocate_valid_example =
    allocate_valid array_backend array_laws small 8 2 (omega arith) small-IsValid

-- Page 7 with its overflow page 8, which are in use.
abbrev in_use : Page
in_use = record { id = 7; flags = 2; count = 1; overflow = 1 }

-- Page 8 with its overflow page 9, which is free.
abbrev half_free : Page
half_free = record { id = 8; flags = 2; count = 1; overflow = 1 }

free_valid_example :
    (g : Freelist) × (free small 8 in_use ≡ ok g)
    × IsValid array_backend array_laws g
    × ((a : ℕ) → pending a g.pending ≡ pending a small.pending + covers in_use a)
    × ((a : ℕ) → array_laws.free g a ≡ array_laws.free small a)
free_valid_example =
    free_valid array_backend array_laws small 8 in_use small-IsValid (omega arith) (omega arith)
      (λ a h. ground arith)

free_twice_example : free small 8 half_free ≡ panic
free_twice_example =
    free_twice array_backend array_laws small 8 half_free small-IsValid (omega arith) (omega arith)
      9 (omega arith) (omega arith)

release_valid_example :
    (g : Freelist) × (release array_backend small 6 ≡ ok g)
    × IsValid array_backend array_laws g
    × ((a : ℕ) → count a g.ids ≡ count a small.ids + pending_upto a 6 small.pending)
    × ((t : ℕ) → t ≤ 6 → lookup t g.pending ≡ none)
    × ((t : ℕ) → 6 < t → lookup t g.pending ≡ lookup t small.pending)
release_valid_example = release_valid array_backend array_laws small small-IsValid 6

release_range_valid_example :
    (g : Freelist) × (release_range array_backend small 5 6 ≡ ok g)
    × IsValid array_backend array_laws g
    × ((a : ℕ)
        → array_laws.free g a ≡ array_laws.free small a + released_within a 5 6 small.pending)
    × ((a : ℕ)
        → pending a g.pending + released_within a 5 6 small.pending ≡ pending a small.pending)
release_range_valid_example =
    release_range_valid array_backend array_laws small small-IsValid 5 6 (omega arith)

small-by_6 : lookup 6 small.pending ≡ some by_6
unfolding lookup
small-by_6 = refl

rollback_undoes_example :
    (g : Freelist) × (rollback array_backend small 6 ≡ ok g)
    × RolledBack array_backend array_laws small small-IsValid 6 by_6 small-by_6 g
rollback_undoes_example =
    rollback_undoes array_backend array_laws small small-IsValid 6 by_6 small-by_6

abbrev blank : FreelistPage
blank = record {
  header = record { id = 2; flags = 0; count = 0; overflow = 0 };
  words = replicate 10 0;
}

abbrev freelist_count : ℕ
freelist_count = 6

small-Readable : Readable small (3 ∷ 4 ∷ 20 ∷ [])
small-Readable = record {
  ascending = ground arith;
  small = λ a h. ground arith;
  distinct = small-IsValid.distinct;
  paired = small-IsValid.paired;
  alone = λ a. ground arith;
  in_range = λ a h. ground arith;
}

hashmap_read_ids_valid_example :
    (g : Freelist) × (hashmap_read_ids small (3 ∷ 4 ∷ 20 ∷ []) ≡ ok g)
    × IsValid hashmap_backend hashmap_laws g
    × ((a : ℕ) → free_spans g a ≡ count a (3 ∷ 4 ∷ 20 ∷ []))
    × (g.pending ≡ small.pending)
hashmap_read_ids_valid_example = hashmap_read_ids_valid small 3 (4 ∷ 20 ∷ []) small-Readable

-- A freelist page that lists 13 and 12, both of which are pending.
abbrev all_pending_page : FreelistPage
all_pending_page = record {
  header = record { id = 2; flags = 0x10; count = 2; overflow = 0 };
  words = 13 ∷ 12 ∷ 0 ∷ [];
}

typed_page : has_flag all_pending_page.header.flags freelist_page_flag ≡ true
unfolding has_flag
typed_page = refl

ids_on_page : page_ids all_pending_page ≡ ok (13 ∷ 12 ∷ [])
unfolding page_ids
ids_on_page = refl

reload_pending_example :
    ((g : Freelist) × (reload array_backend small all_pending_page ≡ ok g)
      × ((a : ℕ) → free_ids g a ≡ 0)
      × (g.pending ≡ small.pending))
    × ((h : Freelist) × (reload hashmap_backend small all_pending_page ≡ ok h)
        × ((a : ℕ) → free_spans h a ≡ count a (13 ∷ 12 ∷ []))
        × (h.pending ≡ small.pending)
        × ¬ IsValid hashmap_backend hashmap_laws h)
reload_pending_example =
    reload_pending small all_pending_page 13 (12 ∷ []) typed_page ids_on_page (λ a. ground arith)
      (λ a h. ground (arith, h)) (λ a h. ground (arith, h))

-- Readers at 5 and 8: what transaction 6 has freed is needed at 5.
small_readers : (r : ℕ) → 0 < count r (8 ∷ 5 ∷ []) → (0 < r) × (r < max_txid)
small_readers r h = (ground (arith, h), ground (arith, h))

free_pages-needed_example :
    (g : Freelist) × (free_pages array_backend (8 ∷ 5 ∷ []) small ≡ ok g)
    × IsValid array_backend array_laws g
    × (needed 12 5 g.pending ≡ needed 12 5 small.pending)
    × (array_laws.free g 12 ≡ 0)
free_pages-needed_example =
    free_pages-needed array_backend array_laws small (8 ∷ 5 ∷ []) 12 5 small-IsValid small_readers
      (omega arith) (omega arith)

-- A reader at 0: the extent before it wraps around, and page 12, which it needs, becomes free.
abbrev at_zero : Freelist
at_zero = record small {
  pending = (1, record { ids = 12 ∷ []; alloctx = 0 ∷ []; last_release_begin = 9 }) ∷ [];
  cache = (12, tt) ∷ [];
  ids = [];
}

reader_at_zero :
    free_pages array_backend (0 ∷ []) at_zero ≡ ok (record at_zero { pending = []; ids = 12 ∷ [] })
unfolding free_pages release_entry array_merge_spans keep_entry
reader_at_zero = refl

free_pages-drains_example :
    (g : Freelist) × (free_pages array_backend [] small ≡ ok g)
    × IsValid array_backend array_laws g
    × ((a : ℕ)
        → (pending a g.pending ≡ 0) × (count a g.ids ≡ count a small.ids + pending a small.pending))
free_pages-drains_example =
    free_pages-drains array_backend array_laws small small-IsValid (omega arith, tt)
