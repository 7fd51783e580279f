-- ===== src/Freelist/Array/Scan.antt =====
-- arrayAllocate finds the first block of contiguous free ids, if there is one.
use bbolt.Prelude.{
  ℕ, suc, ◌+◌, ◌-◌, ◌≤◌, ◌<◌, ◌≡◌, refl, ap, ◌∙◌, arith, List, [], ◌∷◌, ◌++◌, Outcome, ok, leb,
  ◌==◌, Bool, true, false, not, ◌||◌, length, take, drop, inl, inr, Bool-cases, if◌then◌else◌, ◌⊎◌,
  count, count-append, AscendingFrom, AscendingFrom-mono, count-AscendingFrom, within, range_from,
  count-range_from, length-range_from, range_from-append_last, length-append, take-append,
  drop-append,
}
use mathlib.Core.List.{append_assoc, append-nil}
use native.Mathlib.Decide.{dec_le}
use bbolt.Prelude.Map.{insert}
use bbolt.Freelist.State.{Freelist, add64, sub64, u64}
use bbolt.Freelist.Array.{scan, array_allocate, take_block, delete_range}

-- `n` contiguous ids from `p` on are all in the list.
abbrev pub HasRun : List ℕ → ℕ → ℕ → Type 0
HasRun ids p n = (a : ℕ) → p ≤ a → a < p + n → 0 < count a ids

-- The state of the loop before the ids `rest`: the ids seen are `before` and then a run of `k`
-- from `initial` on, with a gap below it, and no block of `n` lies among them.
record Scan (ids rest : List ℕ) (n i initial previd k : ℕ) (before : List ℕ) : Type 0 where
  split : ids ≡ (before ++ range_from initial k) ++ rest
  index : i ≡ length before + k
  short : k < n
  start :
      ((k ≡ 0) × (previd ≡ 0) × (initial ≡ 0))
      ⊎ ((0 < k) × (previd + 1 ≡ initial + k) × (2 ≤ initial))
  ascending : AscendingFrom (initial + k) rest
  seen : (a : ℕ) → initial + k ≤ a → count a ids ≡ count a rest
  gap : (a : ℕ) → a + 1 ≡ initial → count a ids ≡ 0
  no_run : (p : ℕ) → p + n ≤ initial + k → ¬ HasRun ids p n
  small : (a : ℕ) → 0 < count a rest → (2 ≤ a) × (a < u64)

-- What a call of arrayAllocate for `n` pages does.
pub data Allocates (f : Freelist) (txid n : ℕ) (r : Outcome (ℕ × Freelist)) : Type 0 where
  -- There is no room: nothing changes.
  full : r ≡ ok (0, f) → ((p : ℕ) → ¬ HasRun f.ids p n) → Allocates f txid n r
  -- The lowest block of `n` free ids is taken out.
  taken :
      (p : ℕ) (ids : List ℕ)
      → r
        ≡ ok (
          p,
          record f { ids = ids; cache = delete_range p n f.cache; allocs = insert p txid f.allocs },
        )
      → 2 ≤ p
      → HasRun f.ids p n
      → ((q : ℕ) → q < p → ¬ HasRun f.ids q n)
      → AscendingFrom 2 ids
      → ((a : ℕ) → count a f.ids ≡ count a ids + within a p n)
      → Allocates f txid n r

remove_middle :
    (lo : ℕ) (xs ys zs : List ℕ) → AscendingFrom lo ((xs ++ ys) ++ zs) → AscendingFrom lo (xs ++ zs)
remove_middle lo [] [] zs h = h
remove_middle lo [] (y ∷ ys) zs h =
    remove_middle lo [] ys zs (AscendingFrom-mono (ys ++ zs) (omega arith) h.1)
remove_middle lo (x ∷ xs) ys zs h = (h.0, remove_middle (suc x) xs ys zs h.1)

-- The same at the id that the loop looks at, after the test that may start a new run.
record Turn (ids : List ℕ) (id : ℕ) (rest : List ℕ) (n i initial k : ℕ) (before : List ℕ)
    : Type 0 where
  split : ids ≡ (before ++ range_from initial k) ++ id ∷ rest
  index : i ≡ length before + k
  here : id ≡ initial + k
  two : 2 ≤ initial
  short : k < n
  ascending : AscendingFrom (suc id) rest
  seen : (a : ℕ) → suc id ≤ a → count a ids ≡ count a rest
  gap : (a : ℕ) → a + 1 ≡ initial → count a ids ≡ 0
  no_run : (p : ℕ) → p < initial → p + n ≤ suc id → ¬ HasRun ids p n
  small : (a : ℕ) → 0 < count a (id ∷ rest) → (2 ≤ a) × (a < u64)

module _ {ids : List ℕ} {id : ℕ} {rest : List ℕ} {n i initial previd k : ℕ} {before : List ℕ}
    (s : Scan ids (id ∷ rest) n i initial previd k before) where
  seen_next : (a : ℕ) → suc id ≤ a → count a ids ≡ count a rest
  seen_next a h = ground (arith, s.seen a, s.ascending)

  -- Between the ids seen and this one there is none.
  between : (a : ℕ) → initial + k ≤ a → a < id → count a ids ≡ 0
  between a h lt = omega (
    arith,
    s.seen a h,
    count-AscendingFrom {lo = id} a (id ∷ rest) (omega arith, s.ascending.1) lt,
  )

  Turn-extend : 0 < k → id ≡ initial + k → Turn ids id rest n i initial k before
  Turn-extend pos e = record {
    split = s.split;
    index = s.index;
    here = e;
    two = omega (arith, s.start);
    short = s.short;
    ascending = s.ascending.1;
    seen = seen_next;
    gap = s.gap;
    no_run = λ p below fits run. elim (dec_le (p + n) (initial + k)) [
      | yes old ↦ s.no_run p old run
      | no past ↦
          omega (
            arith,
            s.gap (initial - 1) (omega arith),
            run (initial - 1) (omega arith) (omega arith),
          )
    ];
    small = s.small;
  }

  Turn-reset :
      (initial + k < id) ⊎ (k ≡ 0) → Turn ids id rest n i id 0 (before ++ range_from initial k)
  Turn-reset new = record {
    split = rw append-nil s.split;
    index =
        omega (
          arith,
          s.index,
          length-append before (range_from initial k),
          length-range_from initial k,
        );
    here = omega arith;
    two = omega (arith, s.small id (ground arith));
    short = omega (arith, s.short);
    ascending = s.ascending.1;
    seen = seen_next;
    gap = λ a e. between a (omega (arith, s.start)) (omega arith);
    no_run = λ p below fits run. elim (dec_le (p + n) (initial + k)) [
      | yes old ↦ s.no_run p old run
      | no past ↦ elim (dec_le (p + n) id) [
        | yes short ↦ omega (
          arith,
          between (p + n - 1) (omega arith) (omega arith),
          run (p + n - 1) (omega (arith, s.short)) (omega (arith, s.short)),
        )
        | no long ↦ omega (
          arith,
          between (id - 1) (omega (arith, s.start)) (omega arith),
          run (id - 1) (omega arith) (omega arith),
        )
      ]
    ];
    small = s.small;
  }

-- One more id at the end of the run.
push_last :
    (before rest : List ℕ) (initial k id : ℕ)
    → id ≡ initial + k
    → (before ++ range_from initial k) ++ id ∷ rest ≡ (before ++ range_from initial (suc k)) ++ rest
push_last before rest initial k id e =
    rw (e, ← range_from-append_last initial k) (simp append_assoc)

-- Cutting out the run, in the two ways of the source.
cut_block :
    (before rest : List ℕ) (initial n i : ℕ)
    → i + 1 ≡ length before + n
    → (let ids = (before ++ range_from initial n) ++ rest in
        if i + 1 == n then drop (i + 1) ids else take (i + 1 - n) ids ++ drop (i + 1) ids)
      ≡ before ++ rest
cut_block before rest initial n i e =
    let behind : drop (i + 1) ((before ++ range_from initial n) ++ rest) ≡ rest =
      drop-append (before ++ range_from initial n) rest (i + 1)
        (omega (arith, length-append before (range_from initial n), length-range_from initial n)) in
    let ahead : take (i + 1 - n) ((before ++ range_from initial n) ++ rest) ≡ before =
      rw (append_assoc before (range_from initial n) rest)
        (take-append before (range_from initial n ++ rest) (i + 1 - n) (omega arith)) in
    elim (Bool-cases (i + 1 == n)) [
      | inl y ↦ rw (y, behind) (nothing before (ground arith))
      | inr x ↦ rw (x, behind, ahead)
    ]
  where
    nothing : (xs : List ℕ) → length xs ≡ 0 → rest ≡ xs ++ rest
    nothing [] h = refl
    nothing (x ∷ xs) h = absurd (omega arith)

module _ {ids : List ℕ} {id : ℕ} {rest : List ℕ} {n i initial k : ℕ} {before : List ℕ}
    (t : Turn ids id rest n i initial k before) where
  turn_next : suc k < n → Scan ids rest n (i + 1) initial id (suc k) before
  turn_next more = record {
    split = t.split ∙ push_last before rest initial k id t.here;
    index = omega (arith, t.index);
    short = more;
    start = inr (omega arith, omega (arith, t.here), t.two);
    ascending = AscendingFrom-mono rest (omega (arith, t.here)) t.ascending;
    seen = λ a h. t.seen a (omega (arith, t.here));
    gap = t.gap;
    no_run = λ p fits run. t.no_run p (omega (arith, t.here)) (omega (arith, t.here)) run;
    small = λ a h. t.small a (omega arith);
  }

  -- The ids with the run set apart, when it has its full length.
  taken_split : suc k ≡ n → ids ≡ (before ++ range_from initial n) ++ rest
  taken_split e = rw (← e) (t.split ∙ push_last before rest initial k id t.here)

  taken_run : suc k ≡ n → HasRun ids initial n
  taken_run e a lo hi = ground (
    arith,
    ap (count a) (taken_split e),
    count-append a (before ++ range_from initial n) rest,
    count-append a before (range_from initial n),
    count-range_from a initial n,
  )

  taken_count : suc k ≡ n → (a : ℕ) → count a ids ≡ count a (before ++ rest) + within a initial n
  taken_count e a = omega (
    arith,
    ap (count a) (taken_split e),
    count-append a (before ++ range_from initial n) rest,
    count-append a before (range_from initial n),
    count-append a before rest,
    count-range_from a initial n,
  )

  turn_take :
      (f : Freelist) (txid : ℕ)
      → f.ids ≡ ids
      → suc k ≡ n
      → AscendingFrom 2 ids
      → Allocates f txid n (ok (take_block f txid n i initial))
  unfolding take_block
  turn_take f txid e whole asc =
      let same = e ∙ taken_split whole in
      let cut : (if i + 1 == n
            then drop (i + 1) f.ids
            else take (i + 1 - n) f.ids ++ drop (i + 1) f.ids)
          ≡ before ++ rest =
        rw same (cut_block before rest initial n i (omega (arith, t.index))) in
      taken initial (before ++ rest)
        (ap
          (λ l. ok (
            initial,
            record f {
              ids = l;
              cache = delete_range initial n f.cache;
              allocs = insert initial txid f.allocs;
            },
          ))
          cut)
        t.two (rw e (taken_run whole))
        (λ q lt run. t.no_run q lt (omega (arith, t.here)) (rw e at run))
        (remove_middle 2 before (range_from initial n) rest (rw (taken_split whole) at asc))
        (rw e (taken_count whole))

-- The test for a new run, as the loop makes it.
abbrev new_run : ℕ → ℕ → Bool
new_run previd id = previd == 0 || not (sub64 id previd == 1)

abbrev Start : ℕ → ℕ → ℕ → Type 0
Start previd initial k =
    ((k ≡ 0) × (previd ≡ 0) × (initial ≡ 0))
    ⊎ ((0 < k) × (previd + 1 ≡ initial + k) × (2 ≤ initial))

module _ (previd id initial k : ℕ) (start : Start previd initial k) where
  fresh_cases :
      initial + k ≤ id → id < u64 → new_run previd id ≡ true → (initial + k < id) ⊎ (k ≡ 0)
  fresh_cases le small h = ground arith

  old_pos : new_run previd id ≡ false → 0 < k
  old_pos h = ground arith

  old_here : initial + k ≤ id → id < u64 → new_run previd id ≡ false → id ≡ initial + k
  old_here le small h = ground arith

module _ (f : Freelist) (txid n : ℕ) (asc : AscendingFrom 2 f.ids) where
  -- What the loop does with one id, once the run that it belongs to is known.
  step_Allocates :
      (id : ℕ) (rest : List ℕ) (i initial k : ℕ) (before : List ℕ)
      → Turn f.ids id rest n i initial k before
      → (Scan f.ids rest n (i + 1) initial id (suc k) before
          → Allocates f txid n (scan f txid n rest (i + 1) initial id))
      → Allocates f txid n (
          if add64 (sub64 id initial) 1 == n
          then ok (take_block f txid n i initial)
          else scan f txid n rest (i + 1) initial id)
  step_Allocates id rest i initial k before t next =
      elim (Bool-cases (add64 (sub64 id initial) 1 == n)) [
        | inl found ↦
            rw found (turn_take t f txid refl (ground (arith, t.here, t.two, t.small id)) asc)
        | inr short ↦
            rw short (next (turn_next t (ground (arith, t.here, t.two, t.short, t.small id))))
      ]

  scan-Allocates :
      (rest : List ℕ) (i initial previd k : ℕ) (before : List ℕ)
      → Scan f.ids rest n i initial previd k before
      → Allocates f txid n (scan f txid n rest i initial previd)
  unfolding scan
  scan-Allocates [] i initial previd k before s = full refl (λ p run.
      elim (dec_le (p + n) (initial + k)) [
        | yes old ↦ s.no_run p old run
        | no past ↦ omega (
          arith,
          s.short,
          s.seen (p + n - 1) (omega arith),
          run (p + n - 1) (omega (arith, s.short)) (omega (arith, s.short)),
        )
      ])
  scan-Allocates (id ∷ rest) i initial previd k before s =
      let bounded : id < u64 = ground (arith, s.small id) in
      let valid : leb id 1 ≡ false = ground (arith, s.small id) in
      elim (Bool-cases (new_run previd id)) [
        | inl fresh ↦
            rw (valid, fresh)
              (step_Allocates id rest i id 0 (before ++ range_from initial k)
                (Turn-reset s (fresh_cases previd id initial k s.start s.ascending.0 bounded fresh))
                (λ s'. scan-Allocates rest (i + 1) id id 1 (before ++ range_from initial k) s'))
        | inr old ↦
            rw (valid, old)
              (step_Allocates id rest i initial k before
                (Turn-extend s (old_pos previd id initial k s.start old)
                  (old_here previd id initial k s.start s.ascending.0 bounded old))
                (λ s'. scan-Allocates rest (i + 1) initial id (suc k) before s'))
      ]

-- arrayAllocate, on a strictly ascending slice of ids above 1 and for n > 0 pages, never panics:
-- it takes out the lowest block of n contiguous free ids, and gives 0 and changes nothing exactly
-- when there is no such block.
pub array_allocate-Allocates :
    (f : Freelist) (txid n : ℕ)
    → 0 < n
    → AscendingFrom 2 f.ids
    → ((a : ℕ) → 0 < count a f.ids → a < u64)
    → Allocates f txid n (array_allocate f txid n)
unfolding array_allocate
array_allocate-Allocates f txid n pos asc small =
    scan-Allocates f txid n asc f.ids 0 0 0 0 [] (record {
      split = refl;
      index = omega arith;
      short = pos;
      start = inl (refl, refl, refl);
      ascending = AscendingFrom-mono f.ids (omega arith) asc;
      seen = λ a h. refl;
      gap = λ a e. absurd (omega arith);
      no_run = λ p fits. absurd (omega arith);
      small = λ a h. (above a h, small a h);
    })
  where
    above : (a : ℕ) → 0 < count a f.ids → 2 ≤ a
    above a h = elim (dec_le 2 a) [
      | yes le ↦ le
      | no lt ↦ absurd (omega (arith, count-AscendingFrom {lo = 2} a f.ids asc (omega arith)))
    ]
