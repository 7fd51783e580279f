-- ===== src/Prelude/Map.antt =====
-- Go maps keyed by numbers, as association lists. The order of the entries is the order in which a
-- `range` loop visits them, which Go leaves open: what holds for every list holds for every order.
use Prim.Native.Nat.{ℕ}
use mathlib.Core.Path.{◌≡◌, refl}
use mathlib.Core.Bool.{Bool, true, false}
use mathlib.Core.List.{List, [], ◌∷◌}
use mathlib.Core.Option.{Option, none, some}
use native.Mathlib.Omega.{arith}
use bbolt.Prelude.Tests.{◌==◌, if◌then◌else◌}

abbrev pub Map {ℓ} : Type ℓ → Type ℓ
Map V = List (ℕ × V)

module _ {ℓ} {V : Type ℓ} where
  -- v, ok := m[k]
  unfoldable pub lookup : ℕ → Map V → Option V
  lookup key [] = none
  lookup key ((first, value) ∷ rest) = if first == key then some value else lookup key rest

  -- m[k] = v
  unfoldable pub insert : ℕ → V → Map V → Map V
  insert key new [] = (key, new) ∷ []
  insert key new ((first, value) ∷ rest) =
      if first == key then (key, new) ∷ rest else (first, value) ∷ insert key new rest

  -- delete(m, k)
  unfoldable pub delete : ℕ → Map V → Map V
  delete k [] = []
  delete k ((j, v) ∷ m) = let rest = delete k m in if j == k then rest else (j, v) ∷ rest

  pub lookup-insert :
      (key asked : ℕ) (new : V) (m : Map V)
      → lookup asked (insert key new m) ≡ (if key == asked then some new else lookup asked m)
  unfolding lookup insert
  lookup-insert key asked new [] = refl
  lookup-insert key asked new ((first, value) ∷ rest) =
      ground (arith, lookup-insert key asked new rest)

  pub lookup-delete :
      (k j : ℕ) (m : Map V) → lookup j (delete k m) ≡ (if k == j then none else lookup j m)
  unfolding lookup delete
  lookup-delete k j [] = ground arith
  lookup-delete k j ((i, w) ∷ m) = ground (arith, lookup-delete k j m)

  unfoldable pub contains : ℕ → Map V → Bool
  contains k m = elim (lookup k m) [ none ↦ false | some _ ↦ true ]

  pub contains-insert :
      (k j : ℕ) (v : V) (m : Map V)
      → contains j (insert k v m) ≡ (if k == j then true else contains j m)
  unfolding contains
  contains-insert k j v m = ground (arith, lookup-insert k j v m)

  pub contains-delete :
      (k j : ℕ) (m : Map V) → contains j (delete k m) ≡ (if k == j then false else contains j m)
  unfolding contains
  contains-delete k j m = ground (arith, lookup-delete k j m)

pub contains-nil {ℓ} : (V : Type ℓ) (k : ℕ) → contains {V = V} k [] ≡ false
unfolding contains lookup
contains-nil V k = refl

-- No key twice.
abbrev pub DistinctKeys {ℓ} : {V : Type ℓ} → Map V → Type 0
DistinctKeys [] = Unit
DistinctKeys ((k, v) ∷ m) = (contains k m ≡ false) × DistinctKeys m

module _ {ℓ} {V : Type ℓ} where
  pub contains→lookup : (k : ℕ) (m : Map V) → contains k m ≡ false → lookup k m ≡ none
  unfolding contains
  contains→lookup k m h = ground arith

  pub lookup→contains : (k : ℕ) (m : Map V) → lookup k m ≡ none → contains k m ≡ false
  unfolding contains
  lookup→contains k m h = ground arith

  pub delete-DistinctKeys : (k : ℕ) (m : Map V) → DistinctKeys m → DistinctKeys (delete k m)
  unfolding delete
  delete-DistinctKeys k [] d = tt
  delete-DistinctKeys k ((j, v) ∷ m) d =
      ground (arith, delete-DistinctKeys k m d.1, contains-delete k j m)

  pub insert-DistinctKeys :
      (k : ℕ) (v : V) (m : Map V) → DistinctKeys m → DistinctKeys (insert k v m)
  unfolding insert
  insert-DistinctKeys k v [] d = (contains-nil V k, tt)
  insert-DistinctKeys k v ((j, w) ∷ m) d =
      ground (arith, insert-DistinctKeys k v m d.1, contains-insert k j v m)

  pub delete_absent : (k : ℕ) (m : Map V) → contains k m ≡ false → delete k m ≡ m
  unfolding delete contains lookup
  delete_absent k [] h = refl
  delete_absent k ((j, v) ∷ m) h = ground (arith, delete_absent k m)
