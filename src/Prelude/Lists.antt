-- ===== src/Prelude/Lists.antt =====
-- Lists measured and indexed by native numbers, under the library's names.
use Prim.Native.Nat.{ℕ, zero, suc, ◌+◌, ◌-◌, ◌<◌, ◌≤◌}
use mathlib.Core.Path.{◌≡◌, refl, ap}
use mathlib.Core.List.{List, [], ◌∷◌, ◌++◌, append_assoc}
use mathlib.Core.Option.{Option, none, some}
use native.Mathlib.Omega.{arith}
use bbolt.Prelude.Tests.{◌==◌, if◌then◌else◌, ltb, leb}

module _ {ℓ} {A : Type ℓ} where
  abbrev pub length : List A → ℕ
  length [] = 0
  length (x ∷ xs) = suc (length xs)

  abbrev pub get_elem? : List A → ℕ → Option A
  get_elem? [] i = none
  get_elem? (x ∷ xs) zero = some x
  get_elem? (x ∷ xs) (suc i) = get_elem? xs i

  abbrev pub take : ℕ → List A → List A
  take zero xs = []
  take (suc n) [] = []
  take (suc n) (x ∷ xs) = x ∷ take n xs

  abbrev pub drop : ℕ → List A → List A
  drop zero xs = xs
  drop (suc n) [] = []
  drop (suc n) (x ∷ xs) = drop n xs

  abbrev pub replicate : ℕ → A → List A
  replicate zero x = []
  replicate (suc n) x = x ∷ replicate n x

  -- A write out of bounds changes nothing.
  abbrev pub set : List A → ℕ → A → List A
  set [] i v = []
  set (x ∷ xs) zero v = v ∷ xs
  set (x ∷ xs) (suc i) v = x ∷ set xs i v

  pub length-set : (xs : List A) (i : ℕ) (v : A) → length (set xs i v) ≡ length xs
  length-set [] i v = refl
  length-set (x ∷ xs) zero v = refl
  length-set (x ∷ xs) (suc i) v = ap suc (length-set xs i v)

  pub length-replicate : (n : ℕ) (x : A) → length (replicate n x) ≡ n
  length-replicate zero x = refl
  length-replicate (suc n) x = ap suc (length-replicate n x)

  pub length-append : (xs ys : List A) → length (xs ++ ys) ≡ length xs + length ys
  length-append [] ys = omega arith
  length-append (x ∷ xs) ys = omega (arith, length-append xs ys)

  pub length-take : (n : ℕ) (xs : List A) → n ≤ length xs → length (take n xs) ≡ n
  length-take zero xs h = refl
  length-take (suc n) [] h = absurd (omega arith)
  length-take (suc n) (x ∷ xs) h = omega (arith, length-take n xs)

  pub length-drop : (n : ℕ) (xs : List A) → length (drop n xs) ≡ length xs - n
  length-drop zero xs = omega arith
  length-drop (suc n) [] = omega arith
  length-drop (suc n) (x ∷ xs) = omega (arith, length-drop n xs)

  pub take-append-drop : (n : ℕ) (xs : List A) → take n xs ++ drop n xs ≡ xs
  take-append-drop zero xs = refl
  take-append-drop (suc n) [] = refl
  take-append-drop (suc n) (x ∷ xs) = ap (◌∷◌ x) (take-append-drop n xs)

  pub take-append : (xs ys : List A) (n : ℕ) → n ≡ length xs → take n (xs ++ ys) ≡ xs
  take-append [] ys zero h = refl
  take-append [] ys (suc n) h = absurd (omega arith)
  take-append (x ∷ xs) ys zero h = absurd (omega arith)
  take-append (x ∷ xs) ys (suc n) h = ap (◌∷◌ x) (take-append xs ys n (omega arith))

  pub drop-append : (xs ys : List A) (n : ℕ) → n ≡ length xs → drop n (xs ++ ys) ≡ ys
  drop-append [] ys zero h = refl
  drop-append [] ys (suc n) h = absurd (omega arith)
  drop-append (x ∷ xs) ys zero h = absurd (omega arith)
  drop-append (x ∷ xs) ys (suc n) h = drop-append xs ys n (omega arith)

  pub append_singleton : (xs : List A) (x : A) (ys : List A) → (xs ++ x ∷ []) ++ ys ≡ xs ++ x ∷ ys
  append_singleton xs x ys = append_assoc xs (x ∷ []) ys

-- How often `a` stands in a list.
abbrev pub count : ℕ → List ℕ → ℕ
count a [] = 0
count a (x ∷ xs) = (if x == a then 1 else 0) + count a xs

pub count-append :
    (n : ℕ) (front back : List ℕ) → count n (front ++ back) ≡ count n front + count n back
count-append n [] back = omega arith
count-append n (x ∷ front) back = omega (arith, count-append n front back)

-- `n` consecutive numbers from `start`.
abbrev pub range_from : ℕ → ℕ → List ℕ
range_from start zero = []
range_from start (suc n) = start ∷ range_from (suc start) n

-- Whether `a` is one of `n` consecutive numbers from `start`, as a number.
abbrev pub within : ℕ → ℕ → ℕ → ℕ
within a start n = if leb start a then (if ltb a (start + n) then 1 else 0) else 0

pub count-range_from : (a start n : ℕ) → count a (range_from start n) ≡ within a start n
count-range_from a start zero = ground arith
count-range_from a start (suc n) = ground (arith, count-range_from a (suc start) n)

pub length-range_from : (start n : ℕ) → length (range_from start n) ≡ n
length-range_from start zero = refl
length-range_from start (suc n) = ap suc (length-range_from (suc start) n)

pub range_from-append_last :
    (start n : ℕ) → range_from start n ++ (start + n) ∷ [] ≡ range_from start (suc n)
range_from-append_last start zero = ground arith
range_from-append_last start (suc n) = ground (arith, range_from-append_last (suc start) n)

-- In ascending order, from `lo` on; equal neighbours are allowed.
abbrev pub SortedFrom : ℕ → List ℕ → Type 0
SortedFrom lo [] = Unit
SortedFrom lo (x ∷ xs) = (lo ≤ x) × SortedFrom x xs

-- In strictly ascending order, from `lo` on.
abbrev pub AscendingFrom : ℕ → List ℕ → Type 0
AscendingFrom lo [] = Unit
AscendingFrom lo (x ∷ xs) = (lo ≤ x) × AscendingFrom (suc x) xs

pub SortedFrom-mono : {a b : ℕ} (xs : List ℕ) → a ≤ b → SortedFrom b xs → SortedFrom a xs
SortedFrom-mono [] h s = tt
SortedFrom-mono (x ∷ xs) h s = (omega arith, s.1)

pub AscendingFrom-mono : {a b : ℕ} (xs : List ℕ) → a ≤ b → AscendingFrom b xs → AscendingFrom a xs
AscendingFrom-mono [] h s = tt
AscendingFrom-mono (x ∷ xs) h s = (omega arith, s.1)

pub AscendingFrom-SortedFrom : (a : ℕ) (xs : List ℕ) → AscendingFrom a xs → SortedFrom a xs
AscendingFrom-SortedFrom a [] s = tt
AscendingFrom-SortedFrom a (x ∷ xs) s =
    (s.0, SortedFrom-mono xs (omega arith) (AscendingFrom-SortedFrom (suc x) xs s.1))

-- A sorted list with no number twice is strictly ascending.
pub SortedFrom-AscendingFrom :
    (lo : ℕ) (xs : List ℕ) → SortedFrom lo xs → ((a : ℕ) → count a xs ≤ 1) → AscendingFrom lo xs
SortedFrom-AscendingFrom lo [] s h = tt
SortedFrom-AscendingFrom lo (x ∷ []) s h = (s.0, tt)
SortedFrom-AscendingFrom lo (x ∷ y ∷ xs) s h = (
  s.0,
  SortedFrom-AscendingFrom (suc x) (y ∷ xs) (ground (arith, h x), s.1.1) (λ a. ground (arith, h a)),
)

-- Nothing below the start of a strictly ascending list stands in it.
pub count-AscendingFrom :
    {lo : ℕ} (a : ℕ) (xs : List ℕ) → AscendingFrom lo xs → a < lo → count a xs ≡ 0
count-AscendingFrom a [] s h = refl
count-AscendingFrom a (x ∷ xs) s h = ground (arith, count-AscendingFrom a xs s.1)

pub count-AscendingFrom_le : (lo a : ℕ) (xs : List ℕ) → AscendingFrom lo xs → count a xs ≤ 1
count-AscendingFrom_le lo a [] s = omega arith
count-AscendingFrom_le lo a (x ∷ xs) s =
    ground (arith, count-AscendingFrom a xs s.1, count-AscendingFrom_le (suc x) a xs s.1)

-- A sorted list may start where its least number does.
pub SortedFrom-raise :
    (lo hi : ℕ) (xs : List ℕ)
    → SortedFrom lo xs
    → ((a : ℕ) → 0 < count a xs → hi ≤ a)
    → SortedFrom hi xs
SortedFrom-raise lo hi [] s h = tt
SortedFrom-raise lo hi (x ∷ xs) s h = (h x (ground arith), s.1)
