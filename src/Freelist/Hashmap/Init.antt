-- ===== src/Freelist/Hashmap/Init.antt =====
-- init builds the maximal spans of a strictly ascending list of ids, in one pass.
use bbolt.Prelude.{
  ℕ, suc, ◌+◌, ◌-◌, ◌≤◌, ◌<◌, ◌≡◌, ◌≢◌, refl, arith, List, [], ◌∷◌, within, ◌==◌, ok, true, false,
  Bool-cases, inl, inr, count, AscendingFrom,
}
use bbolt.Prelude.Map.{lookup}
use bbolt.Freelist.State.{Freelist, u64, add64, SameRest, SameRest-trans}
use bbolt.Freelist.Hashmap.{add_span, init, init_loop, is_sorted}
use bbolt.Freelist.Hashmap.Spans.{
  SpanInv, Room, not_start, not_end, add_span-SpanInv, add_span-count, add_span-SameRest,
}
use bbolt.Freelist.Hashmap.Allocate.{free_spans}

-- The state of the loop: the span under construction lies above all that is stored, with a gap.
record Building (f : Freelist) (start size prev : ℕ) (ids : List ℕ) : Type 0 where
  inv : SpanInv f
  from_two : 2 ≤ start
  positive : 0 < size
  last : prev + 1 ≡ start + size
  above : (a : ℕ) → start ≤ a + 1 → free_spans f a ≡ 0
  small : start + size < u64
  ascending : AscendingFrom (suc prev) ids
  in_range : (a : ℕ) → 0 < count a ids → a + 1 < u64

module _ {f : Freelist} {start size prev : ℕ} {ids : List ℕ}
    (b : Building f start size prev ids) where
  Building-Room : Room f start size
  Building-Room = record {
    from_two = b.from_two;
    positive = b.positive;
    small = b.small;
    alone = λ a. ground (arith, b.above a, b.inv.disjoint a);
    left = not_end f b.inv (start - 1) (b.above (start - 1) (omega (arith, b.from_two)));
    right = not_start f b.inv (start + size) (b.above (start + size) (omega arith));
  }

Building-longer :
    {f : Freelist} {start size prev : ℕ} (id : ℕ) (ids : List ℕ)
    → Building f start size prev (id ∷ ids)
    → id ≡ prev + 1
    → Building f start (size + 1) id ids
Building-longer id ids b e = record {
  inv = b.inv;
  from_two = b.from_two;
  positive = omega arith;
  last = omega (arith, b.last);
  above = b.above;
  small = omega (arith, b.last, b.in_range id (ground arith));
  ascending = b.ascending.1;
  in_range = λ a h. b.in_range a (omega arith);
}

Building-fresh :
    {f : Freelist} {start size prev : ℕ} (id : ℕ) (ids : List ℕ)
    → Building f start size prev (id ∷ ids)
    → id ≢ prev + 1
    → Building (add_span f start size) id 1 id ids
Building-fresh {f} {start} {size} id ids b ne = record {
  inv = add_span-SpanInv f start size b.inv (Building-Room b);
  from_two = omega (arith, b.from_two, b.last, b.ascending, b.positive);
  positive = omega arith;
  last = refl;
  above = λ a h. ground (
    arith,
    add_span-count f start size b.inv (Building-Room b) a,
    b.above a,
    b.last,
    b.ascending,
    ne,
    b.positive,
  );
  small = b.in_range id (ground arith);
  ascending = b.ascending.1;
  in_range = λ a h. b.in_range a (omega arith);
}

-- What init leaves: the spans of what was there and of the ids.
pub record Built (f g : Freelist) (want : ℕ → ℕ) : Type 0 where
  pub inv : SpanInv g
  pub same : SameRest f g
  pub counts : (a : ℕ) → free_spans g a ≡ want a

init_loop-Built :
    (f : Freelist) (start size prev : ℕ) (ids : List ℕ)
    → Building f start size prev ids
    → Built f
        (init_loop f start size prev ids)
        (λ a. free_spans f a + within a start size + count a ids)
unfolding init_loop
init_loop-Built f start size prev [] b =
    let size_pos : (size == 0) ≡ false = ground (arith, b.positive) in
    let start_pos : (start == 0) ≡ false = ground (arith, b.from_two) in
    rw (size_pos, start_pos)
      (record {
        inv = add_span-SpanInv f start size b.inv (Building-Room b);
        same = add_span-SameRest f start size;
        counts = λ a. omega (arith, add_span-count f start size b.inv (Building-Room b) a);
      })
init_loop-Built f start size prev (id ∷ ids) b =
    let next : add64 prev 1 ≡ prev + 1 = omega (arith, b.last, b.small) in
    elim (Bool-cases (id == prev + 1)) [
      | inl e ↦
          let r =
            init_loop-Built f start (size + 1) id ids (Building-longer id ids b (ground arith)) in
          rw (next, e)
            (record {
              inv = r.inv;
              same = r.same;
              counts = λ a. ground (arith, r.counts a, b.last);
            })
      | inr e ↦
          let r =
            init_loop-Built (add_span f start size) id 1 id ids
              (Building-fresh id ids b (ground arith)) in
          rw (next, e)
            (record {
              inv = r.inv;
              same = SameRest-trans (add_span-SameRest f start size) r.same;
              counts = λ a.
                  ground (arith, r.counts a, add_span-count f start size b.inv (Building-Room b) a);
            })
    ]

AscendingFrom-is_sorted : (lo : ℕ) (ids : List ℕ) → AscendingFrom lo ids → is_sorted ids ≡ true
unfolding is_sorted
AscendingFrom-is_sorted lo [] h = refl
AscendingFrom-is_sorted lo (x ∷ []) h = refl
AscendingFrom-is_sorted lo (x ∷ y ∷ ids) h =
    ground (arith, AscendingFrom-is_sorted (suc x) (y ∷ ids) h.1)

abbrev cleared : Freelist → Freelist
cleared f = record f { freemaps = []; forward_map = []; backward_map = [] }

cleared-SpanInv : (f : Freelist) → SpanInv (cleared f)
unfolding lookup
cleared-SpanInv f = record {
  distinct = tt;
  distinct_sizes = tt;
  bounds = λ s n h. absurd (cc);
  ends = λ s n h. cc;
  begins = λ e n h. absurd (cc);
  sizes = λ s n h. cc;
  starts = λ s n h. cc;
  disjoint = λ a. omega arith;
  apart = λ s n h. cc;
}

-- init on a strictly ascending list that is not empty drops the spans that were there, and stores
-- exactly the ids of the list in maximal spans.
pub init-Built :
    (f : Freelist) (id : ℕ) (ids : List ℕ)
    → AscendingFrom 2 (id ∷ ids)
    → ((a : ℕ) → 0 < count a (id ∷ ids) → a + 1 < u64)
    → (g : Freelist) × (init f (id ∷ ids) ≡ ok g) × Built f g (λ a. count a (id ∷ ids))
unfolding init
init-Built f id ids asc range =
    let sorted = AscendingFrom-is_sorted 2 (id ∷ ids) asc in
    let r = init_loop-Built (cleared f) id 1 id ids (record {
      inv = cleared-SpanInv f;
      from_two = asc.0;
      positive = omega arith;
      last = refl;
      above = λ a h. refl;
      small = range id (ground arith);
      ascending = asc.1;
      in_range = λ a h. range a (omega arith);
    }) in
    (
      init_loop (cleared f) id 1 id ids,
      rw sorted,
      record {
        inv = r.inv;
        same = record { allocs = r.same.allocs; pending = r.same.pending; cache = r.same.cache };
        counts = λ a. ground (arith, r.counts a);
      },
    )
