-- ===== src/Node/Keys.antt =====
-- bytes.Compare is a strict total order, and bytes.Equal is its equality.
use bbolt.Prelude.{sym, ◌∙◌, ◌≡◌, inl, inr, refl, arith, [], ◌∷◌, true, false, Bool-cases, ◌==◌}
use bbolt.Node.{Bytes, less, equal}

pub less_irrefl : (a : Bytes) → less a a ≡ false
less_irrefl [] = refl
less_irrefl (x ∷ a) = ground (arith, less_irrefl a)

pub less_trans : (a b c : Bytes) → less a b ≡ true → less b c ≡ true → less a c ≡ true
less_trans a b [] p q = ground arith
less_trans a [] (z ∷ c) p q = ground arith
less_trans [] (y ∷ b) (z ∷ c) p q = refl
less_trans (x ∷ a) (y ∷ b) (z ∷ c) p q = ground (arith, less_trans a b c)

pub less-equal : (a b : Bytes) → less a b ≡ true → (less b a ≡ false) × (equal a b ≡ false)
less-equal a [] p = ground arith
less-equal [] (y ∷ b) p = (refl, refl)
less-equal (x ∷ a) (y ∷ b) p = ground (arith, less-equal a b)

pub less-total : (a b : Bytes) → less a b ≡ false → equal a b ≡ false → less b a ≡ true
less-total [] [] p q = ground arith
less-total [] (y ∷ b) p q = ground arith
less-total (x ∷ a) [] p q = refl
less-total (x ∷ a) (y ∷ b) p q = ground (arith, less-total a b)

pub equal→eq : (a b : Bytes) → equal a b ≡ true → a ≡ b
equal→eq [] [] p = refl
equal→eq [] (y ∷ b) p = ground arith
equal→eq (x ∷ a) [] p = ground arith
equal→eq (x ∷ a) (y ∷ b) p = elim (Bool-cases (x == y)) [
  | inl e ↦ ground (arith, e, equal→eq a b)
  | inr e ↦ ground (arith, e)
]

pub equal_refl : (a : Bytes) → equal a a ≡ true
equal_refl [] = refl
equal_refl (x ∷ a) = ground (arith, equal_refl a)

pub equal_sym : (a b : Bytes) → equal a b ≡ equal b a
equal_sym a b = elim (Bool-cases (equal a b)) [
  | inl p ↦ rw (equal→eq a b p) refl
  | inr p ↦ elim (Bool-cases (equal b a)) [ inl q ↦ rw (equal→eq b a q) refl | inr q ↦ p ∙ sym q ]
]
