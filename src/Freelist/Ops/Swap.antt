-- ===== src/Freelist/Ops/Swap.antt =====
-- The inner loop of releaseRange, which removes entries by putting the last one in their place:
-- what it does to any sum over the pairs of an id and its allocating transaction.
use bbolt.Prelude.{
  ℕ, zero, suc, ◌+◌, ◌-◌, ◌≤◌, ◌<◌, ◌≡◌, refl, arith, List, [], ◌∷◌, ◌++◌, ok, count, count-append,
  length, ltb, ◌==◌, ◌||◌, if◌then◌else◌, some, true, false, Bool-cases, inl, inr, take, set,
  get_elem?, Outcome, ap, length-set, length-take, ◌∙◌,
}
use bbolt.Freelist.Ops.{last_or_zero, release_loop}

-- The sum of a weight over the pairs.
abbrev pub weigh : (ℕ → ℕ → ℕ) → List ℕ → List ℕ → ℕ
weigh w [] ts = 0
weigh w (x ∷ xs) [] = 0
weigh w (x ∷ xs) (t ∷ ts) = w x t + weigh w xs ts

abbrev swap_remove : ℕ → List ℕ → List ℕ
swap_remove i xs = take (length xs - 1) (set xs i (last_or_zero xs))

weigh-last :
    (w : ℕ → ℕ → ℕ) (x t : ℕ) (xs ts : List ℕ)
    → length ts ≡ length xs
    → weigh w (take (length xs) (x ∷ xs)) (take (length ts) (t ∷ ts))
        + w (last_or_zero (x ∷ xs)) (last_or_zero (t ∷ ts))
      ≡ weigh w (x ∷ xs) (t ∷ ts)
unfolding last_or_zero
weigh-last w x t [] [] h = omega arith
weigh-last w x t [] (u ∷ ts) h = absurd (omega arith)
weigh-last w x t (y ∷ xs) [] h = absurd (omega arith)
weigh-last w x t (y ∷ xs) (u ∷ ts) h = omega (arith, weigh-last w y u xs ts (omega arith))

sub-one-suc : (n : ℕ) → suc n - 1 ≡ n
sub-one-suc n = omega arith

swap_remove_first :
    (y z : ℕ) (xs : List ℕ)
    → swap_remove 0 (y ∷ z ∷ xs) ≡ last_or_zero (z ∷ xs) ∷ take (length xs) (z ∷ xs)
unfolding last_or_zero
swap_remove_first y z xs = rw (sub-one-suc (suc (length xs)))

swap_remove_later :
    (i y z : ℕ) (xs : List ℕ) → swap_remove (suc i) (y ∷ z ∷ xs) ≡ y ∷ swap_remove i (z ∷ xs)
unfolding last_or_zero
swap_remove_later i y z xs = rw (sub-one-suc (suc (length xs)), sub-one-suc (length xs))

weigh-swap_remove :
    (w : ℕ → ℕ → ℕ) (i x t : ℕ) (xs ts : List ℕ)
    → length ts ≡ length xs
    → get_elem? xs i ≡ some x
    → get_elem? ts i ≡ some t
    → weigh w (swap_remove i xs) (swap_remove i ts) + w x t ≡ weigh w xs ts
weigh-swap_remove w i x t [] ts h p q = cc
weigh-swap_remove w i x t (y ∷ xs) [] h p q = absurd (omega arith)
weigh-swap_remove w zero x t (y ∷ []) (u ∷ []) h p q = rw (sub-one-suc 0) (ground arith)
weigh-swap_remove w zero x t (y ∷ []) (u ∷ v ∷ ts) h p q = absurd (omega arith)
weigh-swap_remove w zero x t (y ∷ z ∷ xs) (u ∷ []) h p q = absurd (omega arith)
weigh-swap_remove w zero x t (y ∷ z ∷ xs) (u ∷ v ∷ ts) h p q =
    rw (swap_remove_first y z xs, swap_remove_first u v ts)
      (ground (arith, weigh-last w z v xs ts (omega arith)))
weigh-swap_remove w (suc i) x t (y ∷ []) (u ∷ ts) h p q = cc
weigh-swap_remove w (suc i) x t (y ∷ z ∷ xs) (u ∷ []) h p q = absurd (omega arith)
weigh-swap_remove w (suc i) x t (y ∷ z ∷ xs) (u ∷ v ∷ ts) h p q =
    rw (swap_remove_later i y z xs, swap_remove_later i u v ts)
      (omega (arith, weigh-swap_remove w i x t (z ∷ xs) (v ∷ ts) (omega arith) p q))

length-swap_remove :
    (i : ℕ) (xs : List ℕ) → i < length xs → length (swap_remove i xs) + 1 ≡ length xs
length-swap_remove i xs h = omega (
  arith,
  length-set xs i (last_or_zero xs),
  length-take (length xs - 1) (set xs i (last_or_zero xs))
      (omega (arith, length-set xs i (last_or_zero xs))),
)

take-swap_remove : (i : ℕ) (xs : List ℕ) → i < length xs → take i (swap_remove i xs) ≡ take i xs
take-swap_remove zero xs h = refl
take-swap_remove (suc i) [] h = absurd (omega arith)
take-swap_remove (suc i) (y ∷ []) h = absurd (omega arith)
take-swap_remove (suc i) (y ∷ z ∷ xs) h =
    rw (swap_remove_later i y z xs) (ap (◌∷◌ y) (take-swap_remove i (z ∷ xs) (omega arith)))

weigh-take_next :
    (w : ℕ → ℕ → ℕ) (i x t : ℕ) (xs ts : List ℕ)
    → get_elem? xs i ≡ some x
    → get_elem? ts i ≡ some t
    → weigh w (take (suc i) xs) (take (suc i) ts) ≡ weigh w (take i xs) (take i ts) + w x t
weigh-take_next w i x t [] ts p q = cc
weigh-take_next w i x t (y ∷ xs) [] p q = cc
weigh-take_next w zero x t (y ∷ xs) (u ∷ ts) p q = ground arith
weigh-take_next w (suc i) x t (y ∷ xs) (u ∷ ts) p q =
    omega (arith, weigh-take_next w i x t xs ts p q)

take_all : (n : ℕ) (xs : List ℕ) → length xs ≤ n → take n xs ≡ xs
take_all zero [] h = refl
take_all zero (x ∷ xs) h = absurd (omega arith)
take_all (suc n) [] h = refl
take_all (suc n) (x ∷ xs) h = ap (◌∷◌ x) (take_all n xs (omega arith))

get_elem?_inside : (i : ℕ) (xs : List ℕ) → i < length xs → (x : ℕ) × (get_elem? xs i ≡ some x)
get_elem?_inside i [] h = absurd (omega arith)
get_elem?_inside zero (x ∷ xs) h = (x, refl)
get_elem?_inside (suc i) (x ∷ xs) h = get_elem?_inside i xs (omega arith)

-- Whether a pair is the id `a`, allocated within the extent [begin, end].
abbrev pub allocated_within : ℕ → ℕ → ℕ → ℕ → ℕ → ℕ
allocated_within a begin end x t = if ltb t begin || ltb end t then 0 else (if x == a then 1 else 0)

abbrev pub is_id : ℕ → ℕ → ℕ → ℕ
is_id a x t = if x == a then 1 else 0

pub weigh-is_id :
    (a : ℕ) (xs ts : List ℕ) → length ts ≡ length xs → weigh (is_id a) xs ts ≡ count a xs
weigh-is_id a [] ts h = refl
weigh-is_id a (x ∷ xs) [] h = absurd (omega arith)
weigh-is_id a (x ∷ xs) (t ∷ ts) h = omega (arith, weigh-is_id a xs ts (omega arith))

-- What the loop returns: the ids that it moves are those allocated within the extent.
pub record Moved (begin end : ℕ) (ids alloctx m : List ℕ) (r : Outcome (List ℕ × List ℕ × List ℕ))
    : Type 0 where
  pub ids' : List ℕ
  pub alloctx' : List ℕ
  pub m' : List ℕ
  pub returned : r ≡ ok (ids', alloctx', m')
  pub paired : length alloctx' ≡ length ids'
  pub counts : (a : ℕ) → count a ids' + count a m' ≡ count a ids + count a m
  pub moved : (a : ℕ) → count a m' ≡ count a m + weigh (allocated_within a begin end) ids alloctx
  pub keeps :
      (w : ℕ → ℕ → ℕ)
      → ((x t : ℕ) → begin ≤ t → t ≤ end → w x t ≡ 0)
      → weigh w ids' alloctx' ≡ weigh w ids alloctx

-- One round of the loop, in each of its three cases.
module _ (k begin end i x t : ℕ) (ids alloctx m : List ℕ) (more : ltb i (length ids) ≡ true)
    (ex : get_elem? ids i ≡ some x) (et : get_elem? alloctx i ≡ some t) where
  release_loop-keep :
      (ltb t begin || ltb end t) ≡ true
      → release_loop (suc k) begin end i ids alloctx m
        ≡ release_loop k begin end (i + 1) ids alloctx m
  unfolding release_loop
  release_loop-keep out = rw (more, et) (ground (arith, out))

  release_loop-gone :
      (ltb t begin || ltb end t) ≡ false
      → release_loop (suc k) begin end i ids alloctx m
        ≡ release_loop k begin end i (swap_remove i ids) (swap_remove i alloctx) (m ++ x ∷ [])
  unfolding release_loop
  release_loop-gone inside = rw (more, et, ex) (ground (arith, inside))

add-one : (i : ℕ) → i + 1 ≡ suc i
add-one i = omega arith

pub release_loop-Moved :
    (k begin end i : ℕ) (ids alloctx m : List ℕ)
    → length alloctx ≡ length ids
    → length ids - i < k
    → ((a : ℕ) → weigh (allocated_within a begin end) (take i ids) (take i alloctx) ≡ 0)
    → Moved begin end ids alloctx m (release_loop k begin end i ids alloctx m)
unfolding release_loop
release_loop-Moved zero begin end i ids alloctx m h fuel done = absurd (omega arith)
release_loop-Moved (suc k) begin end i ids alloctx m h fuel done =
    elim (Bool-cases (ltb i (length ids))) [
      | inr last ↦ rw last (record {
        ids' = ids;
        alloctx' = alloctx;
        m' = m;
        returned = refl;
        paired = h;
        counts = λ a. refl;
        moved = λ a.
            ground (
              arith,
              done a,
              take_all i ids (ground arith),
              take_all i alloctx (ground (arith, h)),
            );
        keeps = λ v z. refl;
      })
      | inl more ↦
          let (x, ex) = get_elem?_inside i ids (ground arith) in
          let (t, et) = get_elem?_inside i alloctx (ground (arith, h)) in
          let inner : i < length ids = ground arith in
          elim (Bool-cases (ltb t begin || ltb end t)) [
            | inl out ↦ rw (release_loop-keep k begin end i x t ids alloctx m more ex et out) (
                release_loop-Moved k begin end (i + 1) ids alloctx m h (omega arith) (λ a.
                  rw (add-one i) (
                    ground (
                      arith,
                      weigh-take_next (allocated_within a begin end) i x t ids alloctx ex et,
                      done a,
                      out,
                    ))))
            | inr inside ↦
                let w = allocated_within in
                let li = length-swap_remove i ids inner in
                let la = length-swap_remove i alloctx (omega arith) in
                let rest =
                  release_loop-Moved k begin end i (swap_remove i ids) (swap_remove i alloctx)
                    (m ++ x ∷ []) (omega arith) (omega arith)
                    (λ a.
                      rw (take-swap_remove i ids inner, take-swap_remove i alloctx (omega arith))
                        (done a)) in
                record {
                  ids' = rest.ids';
                  alloctx' = rest.alloctx';
                  m' = rest.m';
                  returned =
                      release_loop-gone k begin end i x t ids alloctx m more ex et inside
                      ∙ rest.returned;
                  paired = rest.paired;
                  counts = λ a. ground (
                    arith,
                    rest.counts a,
                    count-append a m (x ∷ []),
                    weigh-is_id a ids alloctx h,
                    weigh-is_id a (swap_remove i ids) (swap_remove i alloctx) (omega arith),
                    weigh-swap_remove (is_id a) i x t ids alloctx h ex et,
                  );
                  moved = λ a. ground (
                    arith,
                    rest.moved a,
                    count-append a m (x ∷ []),
                    inside,
                    weigh-swap_remove (w a begin end) i x t ids alloctx h ex et,
                  );
                  keeps = λ v z. omega (
                    arith,
                    rest.keeps v z,
                    weigh-swap_remove v i x t ids alloctx h ex et,
                    z x t (ground (arith, inside)) (ground (arith, inside)),
                  );
                }
          ]
    ]
