-- ===== src/Freelist/Backends.antt =====
-- Both back ends keep the promises of `BackendLaws`.
use bbolt.Prelude.{
  ℕ, ◌+◌, ◌-◌, ◌≤◌, ◌<◌, ◌≡◌, refl, arith, List, count, length, AscendingFrom,
  SortedFrom-AscendingFrom, AscendingFrom-SortedFrom, count-AscendingFrom, count-AscendingFrom_le,
  SortedFrom-raise,
}
use native.Mathlib.Decide.{dec_le}
use bbolt.Prelude.Sort.{sort, count-sort, sort-SortedFrom}
use bbolt.Page.Merge.Union.{merge-IsUnion}
use bbolt.Freelist.State.{Freelist, SameRest, u64}
use bbolt.Freelist.Array.{
  array_backend, array_allocate, array_merge_spans, array_free_count, array_get_free_page_ids,
}
use bbolt.Freelist.Array.Scan
use bbolt.Freelist.Array.Scan.{array_allocate-Allocates, HasRun}
use bbolt.Freelist.Hashmap.{hashmap_backend, hashmap_merge_spans}
use bbolt.Freelist.Hashmap.Spans.{SpanInv}
use bbolt.Freelist.Hashmap.Merge.{merge_all-SpanInv}
use bbolt.Freelist.Hashmap.Allocate.{free_spans, SpanInv-stable, hashmap_allocate-Allocated}
use bbolt.Freelist.Hashmap.Read.{
  SpanInv-in_range, get_free_page_ids-count, get_free_page_ids-AscendingFrom, free_count-length,
}
use bbolt.Freelist.Laws.{BackendLaws, Allocated, full, taken, Stored}

-- The invariant of the array: strictly ascending page ids above 1.
pub record ArrayInv (f : Freelist) : Type 0 where
  pub ascending : AscendingFrom 2 f.ids
  pub small : (a : ℕ) → 0 < count a f.ids → a + 1 < u64

abbrev pub free_ids : Freelist → ℕ → ℕ
free_ids f a = count a f.ids

pub ArrayInv-in_range :
    (f : Freelist) → ArrayInv f → (a : ℕ) → 0 < free_ids f a → (2 ≤ a) × (a + 1 < u64)
ArrayInv-in_range f v a h = elim (dec_le 2 a) [
  | yes le ↦ (le, v.small a h)
  | no lt ↦ absurd (omega (arith, count-AscendingFrom {lo = 2} a f.ids v.ascending (omega arith)))
]

-- `arrayAllocate` and the abstract view of it.
pub array_allocate-Allocated :
    (f : Freelist) (txid n : ℕ)
    → 0 < n
    → ArrayInv f
    → Allocated ArrayInv free_ids f txid n (array_allocate f txid n)
array_allocate-Allocated f txid n pos v =
    view (array_allocate-Allocates f txid n pos v.ascending (λ a h. omega (arith, v.small a h)))
  where
    view :
        Scan.Allocates f txid n (array_allocate f txid n)
        → Allocated ArrayInv free_ids f txid n (array_allocate f txid n)
    view (Scan.Allocates.full e none_left) = full e none_left
    view (Scan.Allocates.taken p ids e two run first asc counts) =
        taken p _ e two
          (omega (arith, v.small (p + n - 1) (run (p + n - 1) (omega arith) (omega arith))))
          (record { ascending = asc; small = λ a h. v.small a (omega (arith, counts a)) }) counts
          refl refl refl

pub array_merge_spans-Stored :
    (f : Freelist) (ids : List ℕ)
    → ArrayInv f
    → ((a : ℕ) → free_ids f a + count a ids ≤ 1)
    → ((a : ℕ) → 0 < count a ids → (2 ≤ a) × (a + 1 < u64))
    → (g : Freelist) × Stored ArrayInv free_ids
        (λ a. free_ids f a + count a ids)
        (array_merge_spans f ids)
        g
      × SameRest f g
unfolding array_merge_spans
array_merge_spans-Stored f ids v alone range =
    let (r, e, u) = merge-IsUnion f.ids (sort ids) in
    let counts : (a : ℕ) → count a r ≡ free_ids f a + count a ids =
      λ a. omega (arith, u.counted a, count-sort a ids) in
    let held : (a : ℕ) → 0 < count a r → (2 ≤ a) × (a + 1 < u64) = λ a h.
      elim (dec_le 1 (count a ids)) [
        | yes new ↦ range a new
        | no old ↦ ArrayInv-in_range f v a (omega (arith, counts a))
      ] in
    let sorted =
      u.sorted 0
        (SortedFrom-raise 2 0 f.ids (AscendingFrom-SortedFrom 2 f.ids v.ascending)
          (λ a h. omega arith))
        (sort-SortedFrom ids) in
    (
      record f { ids = r },
      record {
        returned = rw e;
        valid = record {
          ascending =
              SortedFrom-AscendingFrom 2 r (SortedFrom-raise 0 2 r sorted (λ a h. (held a h).0))
                (λ a. omega (arith, counts a, alone a));
          small = λ a h. (held a h).1;
        };
        counted = counts;
      },
      record { allocs = refl; pending = refl; cache = refl },
    )

pub array_ids_law :
    (f : Freelist)
    → ArrayInv f
    → ((a : ℕ) → count a (array_get_free_page_ids f) ≡ free_ids f a)
      × AscendingFrom 2 (array_get_free_page_ids f)
unfolding array_get_free_page_ids
array_ids_law f v = (λ a. refl, v.ascending)

pub array_count_law : (f : Freelist) → array_free_count f ≡ length (array_get_free_page_ids f)
unfolding array_get_free_page_ids array_free_count
array_count_law f = refl

abbrev pub array_laws : BackendLaws array_backend
array_laws = record {
  Inv = ArrayInv;
  free = free_ids;
  stable = λ f allocs pending cache v. record { ascending = v.ascending; small = v.small };
  free_stable = λ f allocs pending cache a. refl;
  in_range = ArrayInv-in_range;
  once = λ f v a. count-AscendingFrom_le 2 a f.ids v.ascending;
  allocate_law = array_allocate-Allocated;
  merge_spans_law = array_merge_spans-Stored;
  get_free_page_ids_law = array_ids_law;
  free_count_law = λ f v. array_count_law f;
}

pub hashmap_merge_spans-Stored :
    (f : Freelist) (ids : List ℕ)
    → SpanInv f
    → ((a : ℕ) → free_spans f a + count a ids ≤ 1)
    → ((a : ℕ) → 0 < count a ids → (2 ≤ a) × (a + 1 < u64))
    → (g : Freelist) × Stored SpanInv free_spans
        (λ a. free_spans f a + count a ids)
        (hashmap_merge_spans f ids)
        g
      × SameRest f g
unfolding hashmap_merge_spans
hashmap_merge_spans-Stored f ids v alone range =
    let (w, same, counts) =
      merge_all-SpanInv f ids v (record { alone = alone; in_range = range }) in
    (_, record { returned = refl; valid = w; counted = counts }, same)

abbrev pub hashmap_laws : BackendLaws hashmap_backend
hashmap_laws = record {
  Inv = SpanInv;
  free = free_spans;
  stable = SpanInv-stable;
  free_stable = λ f allocs pending cache a. refl;
  in_range = SpanInv-in_range;
  once = λ f v. v.disjoint;
  allocate_law = hashmap_allocate-Allocated;
  merge_spans_law = hashmap_merge_spans-Stored;
  get_free_page_ids_law = λ f v. (get_free_page_ids-count f, get_free_page_ids-AscendingFrom f v);
  free_count_law = λ f v. free_count-length f;
}
