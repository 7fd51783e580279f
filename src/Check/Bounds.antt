-- ===== src/Check/Bounds.antt =====
-- Bounds of the keys of a subtree, and what a test of the check that sends no error says of them.
use bbolt.Prelude.{
  ℕ, ◌≡◌, refl, sym, ◌∙◌, arith, List, [], ◌∷◌, ◌++◌, Bool, true, false, Bool-cases, inl, inr,
  if◌then◌else◌, Option, none, some,
}
use bbolt.Node.{Bytes, Inode, less, equal}
use bbolt.Node.Keys.{less_trans, less-total, equal_sym, equal→eq}
use bbolt.Cursor.Seek.{AllBelow, AllFrom}
use bbolt.Check.{
  CheckError, below_ancestor, below_previous, same_as_previous, not_below_next, after_ancestor,
  after_previous, before_next,
}

-- The bounds of a subtree; nil bounds nothing.
abbrev pub From : Option Bytes → List Inode → Type 0
From none xs = Unit
From (some key) xs = AllFrom key xs

abbrev pub Below : Option Bytes → List Inode → Type 0
Below none xs = Unit
Below (some key) xs = AllBelow key xs

-- A key that is not above another one is below what that is below, and so on.
pub less-from : (a b c : Bytes) → less b a ≡ false → less b c ≡ true → less a c ≡ true
less-from a b c p q = elim (Bool-cases (less a b)) [
  | inl l ↦ less_trans a b c l q
  | inr l ↦ elim (Bool-cases (equal a b)) [
    | inl e ↦ rw (equal→eq a b e) q
    | inr e ↦ absurd (ground (arith, p, less-total a b l e))
  ]
]

less-upto : (c a b : Bytes) → less c a ≡ true → less b a ≡ false → less c b ≡ true
less-upto c a b p q = elim (Bool-cases (less a b)) [
  | inl l ↦ less_trans c a b p l
  | inr l ↦ elim (Bool-cases (equal a b)) [
    | inl e ↦ rw (sym (equal→eq a b e)) p
    | inr e ↦ absurd (ground (arith, q, less-total a b l e))
  ]
]

pub not_less_trans : (c b a : Bytes) → less c b ≡ false → less b a ≡ false → less c a ≡ false
not_less_trans c b a p q = elim (Bool-cases (less c a)) [
  | inl l ↦ absurd (ground (arith, p, less-upto c a b l q))
  | inr l ↦ l
]

pub quiet_if :
    (test : Bool) (e : CheckError) (rest : List CheckError)
    → (if test then e ∷ [] else rest) ≡ []
    → (test ≡ false) × (rest ≡ [])
quiet_if true e rest h = absurd (cc)
quiet_if false e rest h = (refl, h)

pub quiet_unless : (test : Bool) (e : CheckError) → (if test then [] else e ∷ []) ≡ [] → test ≡ true
quiet_unless true e h = refl
quiet_unless false e h = absurd (cc)

pub quiet_append : (xs ys : List CheckError) → xs ++ ys ≡ [] → (xs ≡ []) × (ys ≡ [])
quiet_append [] ys h = (refl, h)
quiet_append (x ∷ xs) ys h = absurd (cc)

-- What a test finds nothing wrong with.
pub quiet_previous :
    (id index : ℕ) (key previous : Bytes)
    → after_previous id index key previous ≡ []
    → less previous key ≡ true
quiet_previous id index key previous h =
    let (l, h') = quiet_if (less key previous) (below_previous id index) _ h in
    let (e, h'') = quiet_if (equal previous key) (same_as_previous id index) [] h' in
    less-total key previous l (equal_sym key previous ∙ e)

pub quiet_next :
    (id index : ℕ) (key : Bytes) (max : Option Bytes) (x : Inode)
    → x.key ≡ key
    → before_next id index key max ≡ []
    → Below max (x ∷ [])
quiet_next id index key none x same h = tt
quiet_next id index key (some max) x same h =
    (rw same (quiet_unless (less key max) (not_below_next id index) h), tt)

pub AllFrom-weaken :
    (a b : Bytes) (xs : List Inode) → less b a ≡ false → AllFrom b xs → AllFrom a xs
AllFrom-weaken a b [] p h = tt
AllFrom-weaken a b (x ∷ xs) p h = (not_less_trans x.key b a h.0 p, AllFrom-weaken a b xs p h.1)

pub AllBelow-weaken :
    (a b : Bytes) (xs : List Inode) → less a b ≡ true → AllBelow a xs → AllBelow b xs
AllBelow-weaken a b [] p h = tt
AllBelow-weaken a b (x ∷ xs) p h = (less_trans x.key a b h.0 p, AllBelow-weaken a b xs p h.1)

pub AllBelow-append :
    (a : Bytes) (xs ys : List Inode) → AllBelow a xs → AllBelow a ys → AllBelow a (xs ++ ys)
AllBelow-append a [] ys h k = k
AllBelow-append a (x ∷ xs) ys h k = (h.0, AllBelow-append a xs ys h.1 k)

pub AllFrom-front : (a : Bytes) (xs ys : List Inode) → AllFrom a (xs ++ ys) → AllFrom a xs
AllFrom-front a [] ys h = tt
AllFrom-front a (x ∷ xs) ys h = (h.0, AllFrom-front a xs ys h.1)

pub Below-append :
    (max : Option Bytes) (xs ys : List Inode) → Below max xs → Below max ys → Below max (xs ++ ys)
Below-append none xs ys h k = tt
Below-append (some a) xs ys h k = AllBelow-append a xs ys h k

pub From-weaken :
    (min : Option Bytes) (id : ℕ) (key : Bytes) (xs : List Inode)
    → after_ancestor id 0 key min ≡ []
    → AllFrom key xs
    → From min xs
From-weaken none id key xs quiet h = tt
From-weaken (some a) id key xs quiet h =
    AllFrom-weaken a key xs (quiet_if (less key a) (below_ancestor id 0) [] quiet).0 h
