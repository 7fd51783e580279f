-- ===== src/Page/Merge/Union.antt =====
-- merge and mergepgids compute the sorted union, and their loop ends on every input.
use bbolt.Prelude.{
  panic, ℕ, zero, suc, ◌+◌, ◌≤◌, ◌<◌, ◌≡◌, refl, sym, ap, ◌∙◌, arith, List, [], ◌∷◌, ◌++◌, Outcome,
  ok, ltb, leb, length, take, drop, true, false, inl, inr, Bool-cases, count, count-append,
  SortedFrom, SortedFrom-mono, length-append, length-take, length-drop, take-append-drop, replicate,
  length-replicate,
}
use mathlib.Core.List.{append_assoc, append-nil}
use bbolt.Prelude.Search.{search_first, search_first-Found, Found}
use bbolt.Page.Merge.{ahead, merge_loop, merge_both, mergepgids, merge}

abbrev AllLe : ℕ → List ℕ → Type 0
AllLe y [] = Unit
AllLe y (x ∷ xs) = (x ≤ y) × AllLe y xs

SortedFrom-append :
    (lo y : ℕ) (xs ys : List ℕ)
    → SortedFrom lo xs
    → AllLe y xs
    → lo ≤ y
    → SortedFrom y ys
    → SortedFrom lo (xs ++ ys)
SortedFrom-append lo y [] ys s b h t = SortedFrom-mono ys h t
SortedFrom-append lo y (x ∷ xs) ys s b h t = (s.0, SortedFrom-append x y xs ys s.1 b.1 b.0 t)

take-SortedFrom : (lo n : ℕ) (xs : List ℕ) → SortedFrom lo xs → SortedFrom lo (take n xs)
take-SortedFrom lo zero xs s = tt
take-SortedFrom lo (suc n) [] s = tt
take-SortedFrom lo (suc n) (x ∷ xs) s = (s.0, take-SortedFrom x n xs s.1)

drop-SortedFrom : (lo n : ℕ) (xs : List ℕ) → SortedFrom lo xs → SortedFrom lo (drop n xs)
drop-SortedFrom lo zero xs s = s
drop-SortedFrom lo (suc n) [] s = tt
drop-SortedFrom lo (suc n) (x ∷ xs) s = SortedFrom-mono (drop n xs) s.0 (drop-SortedFrom x n xs s.1)

-- The prefix that a search finds holds nothing above `y`.
take-AllLe :
    (lo y n : ℕ) (xs : List ℕ)
    → SortedFrom lo xs
    → n ≤ length xs
    → ((m : ℕ) → n ≡ suc m → ahead xs y m ≡ false)
    → AllLe y (take n xs)
take-AllLe lo y zero xs s h b = tt
take-AllLe lo y (suc n) [] s h b = tt
take-AllLe lo y (suc zero) (x ∷ xs) s h b = (ground (arith, b 0), tt)
take-AllLe lo y (suc (suc n)) (x ∷ []) s h b = absurd (omega arith)
take-AllLe lo y (suc (suc n)) (x ∷ z ∷ xs) s h b =
    let ih = take-AllLe x y (suc n) (z ∷ xs) s.1 (omega arith) (λ m e. b (suc m) (omega arith)) in
    (omega arith, ih)

-- Behind it stands a number above `y`, or nothing.
drop-ahead :
    (y n : ℕ) (xs : List ℕ)
    → n < length xs
    → ahead xs y n ≡ true
    → (z : ℕ) × (zs : List ℕ) × (drop n xs ≡ z ∷ zs) × (y < z)
drop-ahead y n [] h a = absurd (omega arith)
drop-ahead y zero (x ∷ xs) h a = (x, xs, refl, ground arith)
drop-ahead y (suc n) (x ∷ xs) h a = drop-ahead y n xs (omega arith) a

drop-ahead-SortedFrom :
    (y n lo : ℕ) (xs : List ℕ)
    → n < length xs
    → ahead xs y n ≡ true
    → SortedFrom lo (drop n xs)
    → SortedFrom y (drop n xs)
drop-ahead-SortedFrom y n lo [] h a s = absurd (omega arith)
drop-ahead-SortedFrom y zero lo (x ∷ xs) h a s = (ground arith, s.1)
drop-ahead-SortedFrom y (suc n) lo (x ∷ xs) h a s =
    drop-ahead-SortedFrom y n lo xs (omega arith) a s

-- What the loop adds to `merged`: all of lead and follow, in order if they are.
record Merged (merged lead follow : List ℕ) (r : Outcome (List ℕ)) : Type 0 where
  rest : List ℕ
  returned : r ≡ ok (merged ++ rest)
  counted : (a : ℕ) → count a rest ≡ count a lead + count a follow
  sized : length rest ≡ length lead + length follow
  sorted : (lo : ℕ) → SortedFrom lo lead → SortedFrom lo follow → SortedFrom lo rest

count-take-drop : (a n : ℕ) (xs : List ℕ) → count a (take n xs) + count a (drop n xs) ≡ count a xs
count-take-drop a n xs =
    sym (count-append a (take n xs) (drop n xs)) ∙ ap (count a) (take-append-drop n xs)

-- One round: a prefix of lead with nothing above `y` goes in front of what the rest yields.
add_prefix :
    (merged l : List ℕ) (y : ℕ) (follow : List ℕ) (n : ℕ) (rest : List ℕ)
    → n ≤ length l
    → ((m : ℕ) → n ≡ suc m → ahead l y m ≡ false)
    → ((lo : ℕ) → SortedFrom lo (drop n l) → SortedFrom y (drop n l))
    → ((a : ℕ) → count a rest ≡ count a (y ∷ follow) + count a (drop n l))
    → length rest ≡ length (y ∷ follow) + length (drop n l)
    → ((lo : ℕ) → SortedFrom lo (y ∷ follow) → SortedFrom lo (drop n l) → SortedFrom lo rest)
    → Merged merged l (y ∷ follow) (ok ((merged ++ take n l) ++ rest))
add_prefix merged l y follow n rest inside below above counted sized sorted = record {
  rest = take n l ++ rest;
  returned = ap ok (append_assoc merged (take n l) rest);
  counted = λ a. omega (arith, count-append a (take n l) rest, count-take-drop a n l, counted a);
  sized =
      omega (arith, length-append (take n l) rest, length-take n l inside, length-drop n l, sized);
  sorted = λ lo sl sf.
      SortedFrom-append lo y (take n l) rest (take-SortedFrom lo n l sl)
        (take-AllLe lo y n l sl inside below) sf.0
        (sorted y (omega arith, sf.1) (above lo (drop-SortedFrom lo n l sl)));
}

drop_all : (n : ℕ) (xs : List ℕ) → length xs ≤ n → drop n xs ≡ []
drop_all zero [] h = refl
drop_all zero (x ∷ xs) h = absurd (omega arith)
drop_all (suc n) [] h = refl
drop_all (suc n) (x ∷ xs) h = drop_all n xs (omega arith)

last_round :
    (merged l : List ℕ) (y : ℕ) (follow : List ℕ) (n : ℕ)
    → Found (length l) (ahead l y) n
    → length l ≤ n
    → Merged merged l (y ∷ follow) (ok ((merged ++ take n l) ++ y ∷ follow))
last_round merged l y follow n f all =
    let e = drop_all n l all in
    add_prefix merged l y follow n (y ∷ follow) f.inside f.below (λ lo s. rw e tt)
      (λ a. rw e (omega arith)) (rw e (omega arith)) (λ lo s t. s)

-- The prefix is not empty, so each round makes lead shorter.
first_round_pos :
    (x : ℕ) (lead : List ℕ) (y n : ℕ)
    → x ≤ y
    → Found (length (x ∷ lead)) (ahead (x ∷ lead) y) n
    → 0 < n
first_round_pos x lead y zero le f = absurd (let a = f.at (omega arith) in ground arith)
first_round_pos x lead y (suc n) le f = omega arith

Merged-ok :
    {merged l f : List ℕ} {r : Outcome (List ℕ)}
    → (m : Merged merged l f r) → Merged merged l f (ok (merged ++ m.rest))
Merged-ok m = record {
  rest = m.rest;
  returned = refl;
  counted = m.counted;
  sized = m.sized;
  sorted = m.sorted;
}

merge_loop-Merged :
    (k : ℕ) (merged : List ℕ) (x : ℕ) (lead : List ℕ) (y : ℕ) (follow : List ℕ)
    → length lead + length follow + 2 < k
    → x ≤ y
    → Merged merged (x ∷ lead) (y ∷ follow) (merge_loop k merged (x ∷ lead) (y ∷ follow))
unfolding merge_loop
merge_loop-Merged zero merged x lead y follow h le = absurd (omega arith)
merge_loop-Merged (suc k) merged x lead y follow h le =
    elim (Bool-cases (leb (length (x ∷ lead)) n)) [
      | inl all ↦ rw all (last_round merged (x ∷ lead) y follow n f (ground arith))
      | inr more ↦
          let (z, zs, e, above) = drop-ahead y n (x ∷ lead) (ground arith) (f.at (ground arith)) in
          let shorter = length-drop n (x ∷ lead) in
          let ih =
            merge_loop-Merged k (merged ++ take n (x ∷ lead)) y follow z zs
              (omega (arith, ap length e, shorter, first_round_pos x lead y n le f))
              (omega arith) in
          rw (more, e, ih.returned)
            (add_prefix merged (x ∷ lead) y follow n ih.rest f.inside f.below
              (λ lo s.
                drop-ahead-SortedFrom y n lo (x ∷ lead) (ground arith) (f.at (ground arith)) s)
              (λ a. rw e (ih.counted a)) (rw e ih.sized) (λ lo s t. ih.sorted lo s (rw e at t)))
    ]
  where
    n : ℕ
    n = search_first (length (x ∷ lead)) (ahead (x ∷ lead) y)

    f : Found (length (x ∷ lead)) (ahead (x ∷ lead) y) n
    f = search_first-Found (length (x ∷ lead)) (ahead (x ∷ lead) y)

Merged-swap : {l f : List ℕ} {r : Outcome (List ℕ)} → Merged [] l f r → Merged [] f l r
Merged-swap m = record {
  rest = m.rest;
  returned = m.returned;
  counted = λ a. omega (arith, m.counted a);
  sized = omega (arith, m.sized);
  sorted = λ lo s t. m.sorted lo t s;
}

merge_both-Merged : (a b : List ℕ) → Merged [] a b (merge_both a b)
unfolding merge_both
merge_both-Merged [] b = record {
  rest = b;
  returned = refl;
  counted = λ c. omega arith;
  sized = omega arith;
  sorted = λ lo s t. t;
}
merge_both-Merged (x ∷ a) [] = record {
  rest = x ∷ a;
  returned = refl;
  counted = λ c. omega arith;
  sized = omega arith;
  sorted = λ lo s t. s;
}
merge_both-Merged (x ∷ a) (y ∷ b) = elim (Bool-cases (ltb y x)) [
  | inl lt ↦ rw lt (Merged-swap (merge_loop-Merged _ [] y b x a (omega arith) (ground arith)))
  | inr le ↦ rw le (merge_loop-Merged _ [] x a y b (omega arith) (ground arith))
]

-- The sorted union of two lists: every id as often as in both, in order if both are.
pub record IsUnion (a b r : List ℕ) : Type 0 where
  pub counted : (c : ℕ) → count c r ≡ count c a + count c b
  pub sized : length r ≡ length a + length b
  pub sorted : (lo : ℕ) → SortedFrom lo a → SortedFrom lo b → SortedFrom lo r

-- On a dst that is long enough.
pub mergepgids_fits :
    (dst a b : List ℕ)
    → length a + length b ≤ length dst
    → (r : List ℕ) × (mergepgids dst a b ≡ ok (r ++ drop (length a + length b) dst)) × IsUnion a b r
unfolding mergepgids
mergepgids_fits dst a b h =
    let m = merge_both-Merged a b in
    let wide : ltb (length dst) (length a + length b) ≡ false = ground arith in
    (
      m.rest,
      rw (wide, m.returned),
      record { counted = m.counted; sized = m.sized; sorted = m.sorted },
    )

mergepgids_short :
    (dst a b : List ℕ) → ltb (length dst) (length a + length b) ≡ true → mergepgids dst a b ≡ panic
unfolding mergepgids
mergepgids_short dst a b short = rw short refl

-- What mergepgids does to dst.
pub data MergedInto (dst a b : List ℕ) (o : Outcome (List ℕ)) : Type 0 where
  too_short : length dst < length a + length b → o ≡ panic → MergedInto dst a b o
  merged :
      (r : List ℕ)
      → length a + length b ≤ length dst
      → o ≡ ok (r ++ drop (length a + length b) dst)
      → IsUnion a b r
      → MergedInto dst a b o

-- mergepgids panics on a dst that is shorter than a and b together. On any other dst, and for any a
-- and b, sorted or not, it returns: the front of dst is then the union of a and b, every id as often as in
-- both and in order if both are, and the rest of dst is untouched.
pub mergepgids-MergedInto : (dst a b : List ℕ) → MergedInto dst a b (mergepgids dst a b)
mergepgids-MergedInto dst a b = elim (Bool-cases (ltb (length dst) (length a + length b))) [
  | inl short ↦ too_short (ground (arith, short)) (mergepgids_short dst a b short)
  | inr wide ↦
      let fits : length a + length b ≤ length dst = ground (arith, wide) in
      let (r, e, u) = mergepgids_fits dst a b fits in merged r fits e u
]

-- merge returns on all inputs, and its result is the union: every id as often as in both lists
-- together, in ascending order if both lists are.
pub merge-IsUnion : (a b : List ℕ) → (r : List ℕ) × (merge a b ≡ ok r) × IsUnion a b r
unfolding merge
merge-IsUnion [] b =
    (b, refl, record { counted = λ c. omega arith; sized = omega arith; sorted = λ lo s t. t })
merge-IsUnion (x ∷ a) [] =
    (x ∷ a, refl, record { counted = λ c. omega arith; sized = omega arith; sorted = λ lo s t. s })
merge-IsUnion (x ∷ a) (y ∷ b) =
    let n = length (x ∷ a) + length (y ∷ b) in
    let (r, e, u) =
      mergepgids_fits (replicate n 0) (x ∷ a) (y ∷ b) (omega (arith, length-replicate n (zero))) in
    let none_left = drop_all n (replicate n 0) (omega (arith, length-replicate n (zero))) in
    (r, e ∙ ap (λ t. ok (r ++ t)) none_left ∙ ap ok (append-nil r), u)
