-- ===== src/Freelist/Hashmap/Spans.antt =====
-- The invariant of the three maps, and what addSpan and delSpan do to it.
use bbolt.Prelude.{
  ℕ, ◌+◌, ◌-◌, ◌≤◌, ◌<◌, ◌≡◌, ◌⊎◌, ◌≢◌, refl, arith, true, ◌==◌, if◌then◌else◌, Option, none, some,
  within, inl, inr,
}
use bbolt.Prelude.Map.{
  lookup, insert, delete, DistinctKeys, lookup-insert, lookup-delete, insert-DistinctKeys,
  delete-DistinctKeys,
}
use bbolt.Freelist.State.{SameRest, Freelist, u64, add64, sub64}
use bbolt.Freelist.Hashmap.{add_span, del_span}
use bbolt.Freelist.Hashmap.Maps.{
  span_count, span_count-insert, span_count-delete, within-le-span_count, has_start,
  has_start-add_start, has_start-delete_start, delete_start-DistinctKeys, add_start-DistinctKeys,
}

-- The spans in forwardMap are disjoint, none ends where another begins, and the other two maps hold
-- the same spans.
pub record SpanInv (f : Freelist) : Type 0 where
  pub distinct : DistinctKeys f.forward_map
  pub distinct_sizes : DistinctKeys f.freemaps
  pub bounds : (s n : ℕ) → lookup s f.forward_map ≡ some n → (2 ≤ s) × (0 < n) × (s + n < u64)
  pub ends :
      (s n : ℕ) → lookup s f.forward_map ≡ some n → lookup (s + n - 1) f.backward_map ≡ some n
  pub begins :
      (e n : ℕ)
      → lookup e f.backward_map ≡ some n
      → (n ≤ e) × (lookup (e + 1 - n) f.forward_map ≡ some n)
  pub sizes : (s n : ℕ) → lookup s f.forward_map ≡ some n → has_start f.freemaps n s ≡ true
  pub starts : (s n : ℕ) → has_start f.freemaps n s ≡ true → lookup s f.forward_map ≡ some n
  pub disjoint : (a : ℕ) → span_count a f.forward_map ≤ 1
  pub apart : (s n : ℕ) → lookup s f.forward_map ≡ some n → lookup (s + n) f.forward_map ≡ none

-- No span holds the id.
module _ (f : Freelist) (v : SpanInv f) (a : ℕ) (free : span_count a f.forward_map ≡ 0) where
  pub not_start : lookup a f.forward_map ≡ none
  not_start = absent (lookup a f.forward_map) refl
    where
      absent : (o : Option ℕ) → lookup a f.forward_map ≡ o → o ≡ none
      absent none e = refl
      absent (some n) e =
          absurd (ground (arith, free, v.bounds a n e, within-le-span_count a a n f.forward_map e))

  pub not_end : lookup a f.backward_map ≡ none
  not_end = absent (lookup a f.backward_map) refl
    where
      absent : (o : Option ℕ) → lookup a f.backward_map ≡ o → o ≡ none
      absent none e = refl
      absent (some n) e =
          let (le, back) = v.begins a n e in
          absurd (
            ground (
              arith,
              free,
              v.bounds (a + 1 - n) n back,
              within-le-span_count a (a + 1 - n) n f.forward_map back,
            ))

-- No span ends just before another.
pub not_touching :
    (f : Freelist) (v : SpanInv f) (s n : ℕ)
    → lookup s f.forward_map ≡ some n
    → lookup (s - 1) f.backward_map ≡ none
not_touching f v s n h = absent (lookup (s - 1) f.backward_map) refl
  where
    absent : (o : Option ℕ) → lookup (s - 1) f.backward_map ≡ o → o ≡ none
    absent none e = refl
    absent (some m) e =
        let (le, back) = v.begins (s - 1) m e in
        absurd (ground (arith, h, le, v.bounds s n h, v.apart (s - 1 + 1 - m) m back))

-- Room for a span that is maximal: no span meets it or touches it.
pub record Room (f : Freelist) (start size : ℕ) : Type 0 where
  pub from_two : 2 ≤ start
  pub positive : 0 < size
  pub small : start + size < u64
  pub alone : (a : ℕ) → span_count a f.forward_map + within a start size ≤ 1
  pub left : lookup (start - 1) f.backward_map ≡ none
  pub right : lookup (start + size) f.forward_map ≡ none

module _ (f : Freelist) (start size : ℕ) (v : SpanInv f) (r : Room f start size) where
  abbrev last : ℕ
  last = start + size - 1

  -- The index that the code computes with wrap-around.
  last_index : add64 (sub64 start 1) size ≡ last
  last_index = omega (arith, r.from_two, r.positive, r.small)

  start_free : lookup start f.forward_map ≡ none
  start_free = not_start f v start (ground (arith, r.alone start, r.positive))

  last_free : lookup last f.backward_map ≡ none
  last_free = not_end f v last (ground (arith, r.alone last, r.positive, r.from_two))

  module _ (s n : ℕ) (h : lookup s (insert start size f.forward_map) ≡ some n) where
    added_or_old : ((s ≡ start) × (n ≡ size)) ⊎ (lookup s f.forward_map ≡ some n)
    added_or_old = ground (arith, lookup-insert start s size f.forward_map)

  ended_or_old :
      (e n : ℕ)
      → lookup e (insert last size f.backward_map) ≡ some n
      → ((e ≡ last) × (n ≡ size)) ⊎ (lookup e f.backward_map ≡ some n)
  ended_or_old e n h = ground (arith, lookup-insert last e size f.backward_map)

  pub add_span-SpanInv : SpanInv (add_span f start size)
  unfolding add_span
  add_span-SpanInv = record {
    distinct = insert-DistinctKeys start size f.forward_map v.distinct;
    distinct_sizes = add_start-DistinctKeys start size f.freemaps v.distinct_sizes;
    bounds = λ s n h. elim (added_or_old s n h) [
      | inl (p, q) ↦ omega (arith, r.from_two, r.positive, r.small)
      | inr old ↦ v.bounds s n old
    ];
    ends = λ s n h. rw last_index (elim (added_or_old s n h) [
      | inl (p, q) ↦ ground (arith, lookup-insert last (s + n - 1) size f.backward_map)
      | inr old ↦
          ground
            (arith, lookup-insert last (s + n - 1) size f.backward_map, v.ends s n old, last_free)
    ]);
    begins = λ e n h.
        let h' = rw last_index at h in
        elim (ended_or_old e n h') [
          | inl (p, q) ↦ (
            omega (arith, r.from_two),
            ground
                (arith, r.from_two, r.positive, lookup-insert start (e + 1 - n) size f.forward_map),
          )
          | inr old ↦ (
            (v.begins e n old).0,
            ground (
              arith,
              (v.begins e n old).1,
              start_free,
              lookup-insert start (e + 1 - n) size f.forward_map,
            ),
          )
        ];
    sizes = λ s n h. elim (added_or_old s n h) [
      | inl (p, q) ↦ ground (arith, has_start-add_start start size s n f.freemaps)
      | inr old ↦ ground (arith, has_start-add_start start size s n f.freemaps, v.sizes s n old)
    ];
    starts = λ s n h. ground (
      arith,
      has_start-add_start start size s n f.freemaps,
      lookup-insert start s size f.forward_map,
      v.starts s n,
      start_free,
    );
    disjoint =
        λ a. omega (arith, span_count-insert a start size f.forward_map start_free, r.alone a);
    apart = λ s n h. elim (added_or_old s n h) [
      | inl (p, q) ↦
          ground (arith, lookup-insert start (s + n) size f.forward_map, r.right, r.positive)
      | inr old ↦ ground (
        arith,
        lookup-insert start (s + n) size f.forward_map,
        v.apart s n old,
        v.ends s n old,
        r.left,
      )
    ];
  }

  pub add_span-count :
      (a : ℕ)
      → span_count a (add_span f start size).forward_map
        ≡ span_count a f.forward_map + within a start size
  unfolding add_span
  add_span-count a = span_count-insert a start size f.forward_map start_free

-- delSpan of a span that is there.
module _ (f : Freelist) (start size : ℕ) (v : SpanInv f)
    (there : lookup start f.forward_map ≡ some size) where
  abbrev end : ℕ
  end = start + size - 1

  end_index : add64 start (sub64 size 1) ≡ end
  end_index = omega (arith, v.bounds start size there)

  other :
      (s n : ℕ)
      → lookup s (delete start f.forward_map) ≡ some n
      → (start ≢ s) × (lookup s f.forward_map ≡ some n)
  other s n h = ground (arith, lookup-delete start s f.forward_map)

  pub del_span-count :
      (a : ℕ)
      → span_count a f.forward_map
        ≡ span_count a (del_span f start size).forward_map + within a start size
  unfolding del_span
  del_span-count a = span_count-delete a start size f.forward_map v.distinct there

  pub del_span-SpanInv : SpanInv (del_span f start size)
  unfolding del_span
  del_span-SpanInv = record {
    distinct = delete-DistinctKeys start f.forward_map v.distinct;
    distinct_sizes = delete_start-DistinctKeys start size f.freemaps v.distinct_sizes;
    bounds = λ s n h. v.bounds s n (other s n h).1;
    ends = λ s n h. rw end_index (
        ground (
          arith,
          lookup-delete end (s + n - 1) f.backward_map,
          other s n h,
          v.ends s n (other s n h).1,
          v.ends start size there,
          v.bounds start size there,
          v.bounds s n (other s n h).1,
        ));
    begins = λ e n h.
        let h' = rw end_index at h in
        let old : lookup e f.backward_map ≡ some n =
          ground (arith, lookup-delete end e f.backward_map) in
        let (le, back) = v.begins e n old in
        (
          le,
          ground (
            arith,
            le,
            back,
            there,
            v.bounds start size there,
            lookup-delete end e f.backward_map,
            lookup-delete start (e + 1 - n) f.forward_map,
          ),
        );
    sizes = λ s n h.
        ground (arith, has_start-delete_start start size s n f.freemaps, v.sizes s n, other s n h);
    starts = λ s n h. ground (
      arith,
      has_start-delete_start start size s n f.freemaps,
      v.starts s n,
      lookup-delete start s f.forward_map,
      there,
    );
    disjoint = λ a.
        omega (arith, span_count-delete a start size f.forward_map v.distinct there, v.disjoint a);
    apart = λ s n h.
        ground (arith, lookup-delete start (s + n) f.forward_map, v.apart s n, other s n h);
  }

  -- Where it was, and at its two ends, there is none now.
  pub del_span-absent :
      (a : ℕ) → within a start size ≡ 1 → span_count a (del_span f start size).forward_map ≡ 0
  del_span-absent a h = omega (arith, del_span-count a, v.disjoint a)

  pub lookup-del_span :
      (s : ℕ)
      → lookup s (del_span f start size).forward_map
        ≡ (if start == s then none else lookup s f.forward_map)
  unfolding del_span
  lookup-del_span s = lookup-delete start s f.forward_map

  pub lookup-end-del_span :
      (e : ℕ)
      → lookup e (del_span f start size).backward_map
        ≡ (if end == e then none else lookup e f.backward_map)
  unfolding del_span
  lookup-end-del_span e = rw end_index (lookup-delete end e f.backward_map)

pub add_span-SameRest : (f : Freelist) (start size : ℕ) → SameRest f (add_span f start size)
unfolding add_span
add_span-SameRest f start size = record { allocs = refl; pending = refl; cache = refl }

pub del_span-SameRest : (f : Freelist) (start size : ℕ) → SameRest f (del_span f start size)
unfolding del_span
del_span-SameRest f start size = record { allocs = refl; pending = refl; cache = refl }
