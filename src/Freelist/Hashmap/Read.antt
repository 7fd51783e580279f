-- ===== src/Freelist/Hashmap/Read.antt =====
-- getFreePageIDs lists the ids of the spans in order, and init builds the spans from such a list.
use bbolt.Prelude.{
  ℕ, ◌+◌, ◌≤◌, ◌<◌, ◌≡◌, refl, ◌∙◌, arith, List, [], ◌∷◌, ◌==◌, Bool-cases, inl, inr, count,
  count-append, length, length-append, range_from, SortedFrom-raise, count-range_from,
  length-range_from, AscendingFrom, SortedFrom-AscendingFrom,
}
use bbolt.Prelude.Map.{Map}
use bbolt.Prelude.Sort.{sort, count-sort, sort-SortedFrom, length-sort}
use bbolt.Freelist.State.{Freelist, u64}
use bbolt.Freelist.Hashmap.{total_size, hashmap_free_count, span_ids, hashmap_get_free_page_ids}
use bbolt.Freelist.Hashmap.Maps.{span_count}
use bbolt.Freelist.Hashmap.Spans.{SpanInv}
use bbolt.Freelist.Hashmap.Allocate.{free_spans, find_span}

count-span_ids : (a : ℕ) (m : Map ℕ) → count a (span_ids m) ≡ span_count a m
unfolding span_ids
count-span_ids a [] = refl
count-span_ids a ((s, n) ∷ m) = omega (
  arith,
  count-append a (range_from s n) (span_ids m),
  count-range_from a s n,
  count-span_ids a m,
)

length-span_ids : (m : Map ℕ) → length (span_ids m) ≡ total_size m
unfolding span_ids total_size
length-span_ids [] = refl
length-span_ids ((s, n) ∷ m) =
    omega
      (arith, length-append (range_from s n) (span_ids m), length-range_from s n, length-span_ids m)

length-zero : (xs : List ℕ) → length xs ≡ 0 → xs ≡ []
length-zero [] h = refl
length-zero (x ∷ xs) h = absurd (omega arith)

-- The early return of nil is what the rest would return too.
get_free_page_ids_lem : (f : Freelist) → hashmap_get_free_page_ids f ≡ sort (span_ids f.forward_map)
unfolding hashmap_get_free_page_ids hashmap_free_count
get_free_page_ids_lem f = elim (Bool-cases (total_size f.forward_map == 0)) [
  | inl e ↦
      let nothing =
        length-zero (span_ids f.forward_map) (ground (arith, length-span_ids f.forward_map)) in
      rw (e, nothing) (unfold sort in refl)
  | inr e ↦ rw e
]

pub get_free_page_ids-count :
    (f : Freelist) (a : ℕ) → count a (hashmap_get_free_page_ids f) ≡ free_spans f a
get_free_page_ids-count f a =
    rw (get_free_page_ids_lem f)
      (count-sort a (span_ids f.forward_map) ∙ count-span_ids a f.forward_map)

pub SpanInv-in_range :
    (f : Freelist) → SpanInv f → (a : ℕ) → 0 < free_spans f a → (2 ≤ a) × (a + 1 < u64)
SpanInv-in_range f v a h =
    let (s, n, e, lo, hi) = find_span a f.forward_map v.distinct h in
    omega (arith, v.bounds s n e, lo, hi)

-- getFreePageIDs returns the free ids, each once, in strictly ascending order.
pub get_free_page_ids-AscendingFrom :
    (f : Freelist) → SpanInv f → AscendingFrom 2 (hashmap_get_free_page_ids f)
get_free_page_ids-AscendingFrom f v =
    SortedFrom-AscendingFrom 2 (hashmap_get_free_page_ids f)
      (SortedFrom-raise 0 2 (hashmap_get_free_page_ids f)
        (rw (get_free_page_ids_lem f) (sort-SortedFrom (span_ids f.forward_map)))
        (λ a h. (SpanInv-in_range f v a (omega (arith, get_free_page_ids-count f a))).0))
      (λ a. omega (arith, get_free_page_ids-count f a, v.disjoint a))

pub free_count-length : (f : Freelist) → hashmap_free_count f ≡ length (hashmap_get_free_page_ids f)
unfolding hashmap_free_count
free_count-length f =
    rw (get_free_page_ids_lem f)
      (omega (arith, length-sort (span_ids f.forward_map), length-span_ids f.forward_map))
