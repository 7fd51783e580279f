-- ===== src/Freelist/Hashmap/Merge.antt =====
-- mergeWithExistingSpan adds one id to the spans and keeps them maximal.
use bbolt.Prelude.{
  ℕ, ◌+◌, ◌-◌, ◌≤◌, ◌<◌, ◌≡◌, refl, sym, ◌∙◌, arith, List, [], ◌∷◌, Option, none, some, within,
  count,
}
use bbolt.Prelude.Map.{lookup}
use bbolt.Freelist.State.{SameRest, SameRest-refl, SameRest-trans, Freelist, u64, add64, sub64}
use bbolt.Freelist.Hashmap.{del_span, merge_prev, merge_next, merge_with_existing_span, merge_all}
use bbolt.Freelist.Hashmap.Maps.{span_count}
use bbolt.Freelist.Hashmap.Spans.{
  SpanInv, Room, not_touching, add_span-SpanInv, add_span-count, del_span-SpanInv, del_span-count,
  lookup-del_span, lookup-end-del_span, add_span-SameRest, del_span-SameRest,
}

-- A span that is being put together around an id that is not free: what it will add is `size` ids
-- from `start`, of which `held` leave the maps first.
record Growing (f g : Freelist) (pid start size : ℕ) : Type 0 where
  inv : SpanInv g
  from_two : 2 ≤ start
  here : (start ≤ pid) × (pid < start + size)
  small : start + size < u64
  counts :
      (a : ℕ)
      → span_count a f.forward_map + within a pid 1
        ≡ span_count a g.forward_map + within a start size
  alone : (a : ℕ) → span_count a g.forward_map + within a start size ≤ 1

module _ (f : Freelist) (pid : ℕ) (v : SpanInv f) (two : 2 ≤ pid) (small : pid + 1 < u64)
    (free : span_count pid f.forward_map ≡ 0) where
  -- The step backward: afterwards no span ends just before the grown one.
  record Back (r : Freelist × ℕ × ℕ) : Type 0 where
    growing : Growing f r.0 pid r.1 r.2
    upto : r.1 + r.2 ≡ pid + 1
    left : lookup (r.1 - 1) r.0.backward_map ≡ none
    next : lookup (pid + 1) r.0.forward_map ≡ lookup (pid + 1) f.forward_map

  merge_prev-Back :
      (o : Option ℕ) → lookup (pid - 1) f.backward_map ≡ o → Back (merge_prev f pid (pid - 1) o)
  unfolding merge_prev
  merge_prev-Back none e = record {
    growing = record {
      inv = v;
      from_two = two;
      here = omega arith;
      small = small;
      counts = λ a. refl;
      alone = λ a. ground (arith, v.disjoint a, free);
    };
    upto = refl;
    left = e;
    next = refl;
  }
  merge_prev-Back (some n) e =
      let (le, back) = v.begins (pid - 1) n e in
      let s = pid - 1 + 1 - n in
      let gone = del_span-count f s n v back in
      let index : sub64 (add64 (pid - 1) 1) n ≡ s = omega (arith, le) in
      let start : sub64 pid n ≡ s = omega (arith, le) in
      let size : add64 1 n ≡ n + 1 = omega (arith, le) in
      rw (index, start, size)
        (record {
          growing = record {
            inv = del_span-SpanInv f s n v back;
            from_two = (v.bounds s n back).0;
            here = omega (arith, le);
            small = omega (arith, le);
            counts = λ a. ground (arith, gone a, le);
            alone = λ a. ground (arith, gone a, v.disjoint a, free, le);
          };
          upto = omega (arith, le);
          left =
              ground (arith, lookup-end-del_span f s n v back (s - 1), not_touching f v s n back);
          next = ground (arith, lookup-del_span f s n v back (pid + 1));
        })

  -- The step forward: then the grown span is maximal.
  record Done (start : ℕ) (r : Freelist × ℕ) : Type 0 where
    growing : Growing f r.0 pid start r.1
    room : Room r.0 start r.1

  merge_next-Done :
      (g : Freelist) (start size : ℕ)
      → Back (g, start, size)
      → (o : Option ℕ) → lookup (pid + 1) f.forward_map ≡ o
      → Done start (merge_next g (pid + 1) size o)
  unfolding merge_next
  merge_next-Done g start size b none e = record {
    growing = b.growing;
    room = record {
      from_two = b.growing.from_two;
      positive = omega (arith, b.growing.here);
      small = b.growing.small;
      alone = b.growing.alone;
      left = b.left;
      right = rw b.upto (b.next ∙ e);
    };
  }
  merge_next-Done g start size b (some n) e =
      let v' = b.growing.inv in
      let there : lookup (pid + 1) g.forward_map ≡ some n = b.next ∙ e in
      let gone = del_span-count g (pid + 1) n v' there in
      let fits = v'.bounds (pid + 1) n there in
      let sum : add64 size n ≡ size + n = omega (arith, b.upto, fits, b.growing.from_two) in
      let growing : Growing f (del_span g (pid + 1) n) pid start (size + n) = record {
        inv = del_span-SpanInv g (pid + 1) n v' there;
        from_two = b.growing.from_two;
        here = omega (arith, b.growing.here);
        small = omega (arith, b.upto, fits);
        counts = λ a. ground (arith, gone a, b.growing.counts a, b.upto);
        alone = λ a. ground (arith, gone a, b.growing.counts a, b.upto, v.disjoint a, free);
      } in
      rw sum (record {
        growing = growing;
        room = record {
          from_two = b.growing.from_two;
          positive = omega (arith, b.growing.here);
          small = omega (arith, b.upto, fits);
          alone = growing.alone;
          left = ground (arith, lookup-end-del_span g (pid + 1) n v' there (start - 1), b.left);
          right = ground (
            arith,
            b.upto,
            lookup-del_span g (pid + 1) n v' there (start + (size + n)),
            v'.apart (pid + 1) n there,
          );
        };
      })

  -- mergeWithExistingSpan of an id above 1 that is in no span keeps the spans maximal, and adds
  -- exactly that id to them.
  pub merge_with_existing_span-SpanInv :
      SpanInv (merge_with_existing_span f pid)
      × ((a : ℕ)
          → span_count a (merge_with_existing_span f pid).forward_map
            ≡ span_count a f.forward_map + within a pid 1)
  unfolding merge_with_existing_span
  merge_with_existing_span-SpanInv =
      let prev : sub64 pid 1 ≡ pid - 1 = omega arith in
      let next : add64 pid 1 ≡ pid + 1 = omega arith in
      let back = merge_prev-Back (lookup (pid - 1) f.backward_map) refl in
      let done = merge_next-Done _ _ _ back (lookup (pid + 1) f.forward_map) refl in
      rw (prev, next)
        (
          add_span-SpanInv _ _ _ done.growing.inv done.room,
          λ a. add_span-count _ _ _ done.growing.inv done.room a ∙ sym (done.growing.counts a),
        )

merge_prev-SameRest :
    (f : Freelist) (pid prev : ℕ) (o : Option ℕ) → SameRest f (merge_prev f pid prev o).0
unfolding merge_prev
merge_prev-SameRest f pid prev none = SameRest-refl f
merge_prev-SameRest f pid prev (some n) = del_span-SameRest f _ n

merge_next-SameRest :
    (f : Freelist) (next size : ℕ) (o : Option ℕ) → SameRest f (merge_next f next size o).0
unfolding merge_next
merge_next-SameRest f next size none = SameRest-refl f
merge_next-SameRest f next size (some n) = del_span-SameRest f next n

merge_with_existing_span-SameRest :
    (f : Freelist) (pid : ℕ) → SameRest f (merge_with_existing_span f pid)
unfolding merge_with_existing_span
merge_with_existing_span-SameRest f pid =
    SameRest-trans (merge_prev-SameRest f pid (sub64 pid 1) (lookup (sub64 pid 1) f.backward_map)) (
      SameRest-trans (merge_next-SameRest _ _ _ (lookup (add64 pid 1) f.forward_map))
        (add_span-SameRest _ _ _))

-- Ids that can be freed: none of them is free, and none is there twice.
pub record Fresh (f : Freelist) (ids : List ℕ) : Type 0 where
  pub alone : (a : ℕ) → span_count a f.forward_map + count a ids ≤ 1
  pub in_range : (a : ℕ) → 0 < count a ids → (2 ≤ a) × (a + 1 < u64)

pub merge_all-SpanInv :
    (f : Freelist) (ids : List ℕ)
    → SpanInv f
    → Fresh f ids
    → SpanInv (merge_all f ids)
      × SameRest f (merge_all f ids)
      × ((a : ℕ)
          → span_count a (merge_all f ids).forward_map ≡ span_count a f.forward_map + count a ids)
unfolding merge_all
merge_all-SpanInv f [] v r = (v, SameRest-refl f, λ a. omega arith)
merge_all-SpanInv f (id ∷ ids) v r =
    let range = r.in_range id (ground arith) in
    let (w, add) =
      merge_with_existing_span-SpanInv f id v range.0 range.1 (ground (arith, r.alone id)) in
    let (w', same, adds) = merge_all-SpanInv (merge_with_existing_span f id) ids w (record {
      alone = λ a. ground (arith, add a, r.alone a);
      in_range = λ a h. r.in_range a (omega arith);
    }) in
    (
      w',
      SameRest-trans (merge_with_existing_span-SameRest f id) same,
      λ a. ground (arith, add a, adds a),
    )
