-- ===== src/Prelude/Sort.antt =====
-- The standard library's `sort.Sort` at page ids: their order is total and antisymmetric, so the
-- sorted arrangement is unique and any sorting algorithm computes it.
use Prim.Native.Nat.{ℕ, suc, ◌≤◌}
use mathlib.Core.Path.{◌≡◌, refl}
use mathlib.Core.List.{List, [], ◌∷◌}
use native.Mathlib.Omega.{arith}
use bbolt.Prelude.Tests.{leb, if◌then◌else◌}
use bbolt.Prelude.Lists.{count, length, SortedFrom}

insert : ℕ → List ℕ → List ℕ
insert x [] = x ∷ []
insert x (y ∷ ys) = if leb x y then x ∷ y ∷ ys else y ∷ insert x ys

unfoldable pub sort : List ℕ → List ℕ
unfolding insert
sort [] = []
sort (x ∷ xs) = insert x (sort xs)

count-insert : (a x : ℕ) (xs : List ℕ) → count a (insert x xs) ≡ count a (x ∷ xs)
unfolding insert
count-insert a x [] = refl
count-insert a x (y ∷ ys) = ground (arith, count-insert a x ys)

pub count-sort : (a : ℕ) (xs : List ℕ) → count a (sort xs) ≡ count a xs
unfolding sort
count-sort a [] = refl
count-sort a (x ∷ xs) = omega (arith, count-insert a x (sort xs), count-sort a xs)

insert-SortedFrom :
    {lo : ℕ} (x : ℕ) (xs : List ℕ) → lo ≤ x → SortedFrom lo xs → SortedFrom lo (insert x xs)
unfolding insert
insert-SortedFrom x [] h s = (h, tt)
insert-SortedFrom x (y ∷ ys) h s = ground (arith, insert-SortedFrom {lo = y} x ys)

pub sort-SortedFrom : (xs : List ℕ) → SortedFrom 0 (sort xs)
unfolding sort
sort-SortedFrom [] = tt
sort-SortedFrom (x ∷ xs) = insert-SortedFrom x (sort xs) (omega arith) (sort-SortedFrom xs)

length-insert : (x : ℕ) (xs : List ℕ) → length (insert x xs) ≡ suc (length xs)
unfolding insert
length-insert x [] = refl
length-insert x (y ∷ ys) = ground (arith, length-insert x ys)

pub length-sort : (xs : List ℕ) → length (sort xs) ≡ length xs
unfolding sort
length-sort [] = refl
length-sort (x ∷ xs) = omega (arith, length-insert x (sort xs), length-sort xs)
