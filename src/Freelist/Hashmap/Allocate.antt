-- ===== src/Freelist/Hashmap/Allocate.antt =====
-- hashmapAllocate takes a block out of a span that is large enough, and finds one if there is one.
use bbolt.Prelude.{
  ℕ, ◌+◌, ◌-◌, ◌≤◌, ◌<◌, ◌≡◌, ◌≢◌, refl, ap, arith, [], ◌∷◌, Option, none, some, within, ◌==◌, ltb,
  ok, true, false, Bool-cases, inl, inr,
}
use bbolt.Prelude.Map.{Map, lookup, insert, contains, DistinctKeys, delete, lookup-delete}
use bbolt.Freelist.State.{Freelist, TxPending, PidSet, add64, sub64, SameRest-trans}
use bbolt.Freelist.Array.{delete_range}
use bbolt.Freelist.Hashmap.{del_span, exact, larger, take_span, split_span, hashmap_allocate}
use bbolt.Freelist.Hashmap.Maps.{
  span_count, span_count-delete, within-le-span_count, has_start, in_starts,
}
use bbolt.Freelist.Hashmap.Spans.{
  SpanInv, Room, not_end, add_span-SpanInv, add_span-count, add_span-SameRest, del_span-SpanInv,
  del_span-count, del_span-SameRest, del_span-absent, lookup-del_span,
}
use bbolt.Freelist.Laws.{FreeRun, Allocated, full, taken}

abbrev pub free_spans : Freelist → ℕ → ℕ
free_spans f a = span_count a f.forward_map

pub SpanInv-stable :
    (f : Freelist) (allocs : Map ℕ) (pending : Map TxPending) (cache : PidSet)
    → SpanInv f
    → SpanInv (record f { allocs = allocs; pending = pending; cache = cache })
SpanInv-stable f allocs pending cache v = record {
  distinct = v.distinct;
  distinct_sizes = v.distinct_sizes;
  bounds = v.bounds;
  ends = v.ends;
  begins = v.begins;
  sizes = v.sizes;
  starts = v.starts;
  disjoint = v.disjoint;
  apart = v.apart;
}

-- What the two loops over freemaps find, and what it means that they find nothing.
exact-has_start : (o : Option PidSet) (pid : ℕ) → exact o ≡ some pid → in_starts o pid ≡ true
unfolding exact contains lookup
exact-has_start none pid h = cc
exact-has_start (some []) pid h = cc
exact-has_start (some ((s, u) ∷ starts)) pid h = ground arith

exact-none : (o : Option PidSet) (pid : ℕ) → exact o ≡ none → in_starts o pid ≡ false
unfolding exact contains lookup
exact-none none pid h = refl
exact-none (some []) pid h = refl
exact-none (some ((s, u) ∷ starts)) pid h = cc

larger-has_start :
    (n pid size : ℕ) (m : Map PidSet)
    → DistinctKeys m
    → larger n m ≡ some (pid, size)
    → (n ≤ size) × (has_start m size pid ≡ true)
unfolding larger contains lookup
larger-has_start n pid size [] d h = cc
larger-has_start n pid size ((k, []) ∷ m) d h = ground (arith, larger-has_start n pid size m d.1)
larger-has_start n pid size ((k, (s, u) ∷ starts) ∷ m) d h =
    ground (arith, larger-has_start n pid size m d.1)

larger-none :
    (n pid size : ℕ) (m : Map PidSet) → larger n m ≡ none → has_start m size pid ≡ true → size < n
unfolding larger contains lookup
larger-none n pid size [] h t = cc
larger-none n pid size ((k, []) ∷ m) h t = ground (arith, larger-none n pid size m)
larger-none n pid size ((k, (s, u) ∷ starts) ∷ m) h t = ground (arith, larger-none n pid size m)

-- A free id lies in a span.
pub find_span :
    (a : ℕ) (m : Map ℕ)
    → DistinctKeys m
    → 0 < span_count a m
    → (s : ℕ) × (n : ℕ) × (lookup s m ≡ some n) × (s ≤ a) × (a < s + n)
unfolding contains lookup
find_span a [] d h = absurd (omega arith)
find_span a ((k, v) ∷ m) d h = elim (Bool-cases (ltb 0 (within a k v))) [
  | inl here ↦ (k, v, ground arith, ground arith, ground arith)
  | inr there ↦
      let (s, n, e, lo, hi) = find_span a m d.1 (ground arith) in
      (s, n, ground (arith, d.0, e), lo, hi)
]

-- Two spans hold an id at most once together.
two_spans :
    (a s n t k : ℕ) (m : Map ℕ)
    → DistinctKeys m
    → lookup s m ≡ some n
    → lookup t m ≡ some k
    → s ≢ t
    → within a s n + within a t k ≤ span_count a m
two_spans a s n t k m d p q ne =
    let kept : lookup t (delete s m) ≡ some k = ground (arith, lookup-delete s t m, ne) in
    omega (arith, span_count-delete a s n m d p, within-le-span_count a t k (delete s m) kept)

-- Spans are maximal, so a run of free ids lies within one of them.
run_in_span :
    (f : Freelist) (p n : ℕ)
    → SpanInv f
    → 0 < n
    → FreeRun (free_spans f) p n
    → (s : ℕ) × (k : ℕ) × (lookup s f.forward_map ≡ some k) × (n ≤ k)
run_in_span f p n v pos run =
    let (s, k, e, lo, hi) =
      find_span p f.forward_map v.distinct (run p (omega arith) (omega arith)) in
    elim (Bool-cases (ltb k n)) [
      | inr big ↦ (s, k, e, ground arith)
      | inl small ↦
          let k<n : k < n = ground arith in
          let (t, j, e', lo', hi') =
            find_span (s + k) f.forward_map v.distinct (run (s + k) (omega arith) (omega arith)) in
          let ne : s ≢ t = λ q. ground (arith, q, e, e', lo', hi') in
          let touch : t ≢ s + k = λ q. ground (arith, q, e', v.apart s k e) in
          absurd (
            ground (
              arith,
              v.disjoint (s + k - 1),
              two_spans (s + k - 1) s k t j f.forward_map v.distinct e e' ne,
              touch,
              v.bounds s k e,
              lo',
              hi',
            ))
    ]

module _ (f : Freelist) (txid n pid : ℕ) (v : SpanInv f) (pos : 0 < n) where
  take_span-Allocated :
      lookup pid f.forward_map ≡ some n
      → Allocated SpanInv free_spans f txid n (ok (take_span f txid n pid n))
  unfolding take_span
  take_span-Allocated there =
      let same = del_span-SameRest f pid n in
      taken pid _ refl (v.bounds pid n there).0 (v.bounds pid n there).2
        (SpanInv-stable _ _ _ _ (del_span-SpanInv f pid n v there)) (del_span-count f pid n v there)
        (ap (insert pid txid) same.allocs) (ap (delete_range pid n) same.cache) same.pending

  module _ (size : ℕ) (there : lookup pid f.forward_map ≡ some size) (more : n < size) where
    abbrev rest : Freelist
    rest = del_span f pid size

    rest-Room : Room rest (pid + n) (size - n)
    rest-Room =
        let b = v.bounds pid size there in
        let gone = del_span-count f pid size v there in
        record {
          from_two = omega (arith, b);
          positive = omega arith;
          small = omega (arith, b);
          alone = λ a. ground (arith, gone a, v.disjoint a);
          left =
              not_end rest (del_span-SpanInv f pid size v there) (pid + n - 1)
                (del_span-absent f pid size v there (pid + n - 1) (ground (arith, b)));
          right = ground (
            arith,
            lookup-del_span f pid size v there (pid + n + (size - n)),
            v.apart pid size there,
          );
        }

    split_span-Allocated : Allocated SpanInv free_spans f txid n (ok (split_span f txid n pid size))
    unfolding split_span
    split_span-Allocated =
        let b = v.bounds pid size there in
        let w = del_span-SpanInv f pid size v there in
        let start : add64 pid n ≡ pid + n = omega (arith, b) in
        let left : sub64 size n ≡ size - n = omega (arith, b) in
        let same =
          SameRest-trans (del_span-SameRest f pid size)
            (add_span-SameRest rest (pid + n) (size - n)) in
        rw (start, left)
          (taken pid _ refl b.0 (omega (arith, b))
            (SpanInv-stable _ _ _ _ (add_span-SpanInv rest (pid + n) (size - n) w rest-Room))
            (λ a. ground (
              arith,
              add_span-count rest (pid + n) (size - n) w rest-Room a,
              del_span-count f pid size v there a,
            ))
            (ap (insert pid txid) same.allocs) (ap (delete_range pid n) same.cache) same.pending)

-- hashmapAllocate for n > 0 pages on maximal spans takes a block of n contiguous free ids, and gives
-- 0 and changes nothing only when there is no such block.
pub hashmap_allocate-Allocated :
    (f : Freelist) (txid n : ℕ)
    → 0 < n
    → SpanInv f
    → Allocated SpanInv free_spans f txid n (hashmap_allocate f txid n)
unfolding hashmap_allocate
hashmap_allocate-Allocated f txid n pos v =
    let some_pages : (n == 0) ≡ false = ground arith in
    rw some_pages (choose (exact (lookup n f.freemaps)) refl (larger n f.freemaps) refl)
  where
    choose :
        (o : Option ℕ)
        → exact (lookup n f.freemaps) ≡ o
        → (q : Option (ℕ × ℕ)) → larger n f.freemaps ≡ q
        → Allocated SpanInv free_spans f txid n (elim o [
          | some pid ↦ ok (take_span f txid n pid n)
          | none ↦ elim q [
            | some (pid, size) ↦ ok (split_span f txid n pid size)
            | none ↦ ok (0, f)
          ]
        ])
    choose (some pid) e q e' =
        take_span-Allocated f txid n pid v pos
          (v.starts pid n (exact-has_start (lookup n f.freemaps) pid e))
    choose none e (some (pid, size)) e' =
        let (big, has) = larger-has_start n pid size f.freemaps v.distinct_sizes e' in
        split_span-Allocated f txid n pid v pos size (v.starts pid size has)
          (ground (arith, big, has, exact-none (lookup n f.freemaps) pid e))
    choose none e none e' = full refl λ p run.
        let (s, k, there, big) = run_in_span f p n v pos run in
        omega (arith, big, larger-none n s k f.freemaps e' (v.sizes s k there))
