-- ===== src/Transaction/Restored.antt =====
-- What rollback restores of an entry to which ids have been appended.
use bbolt.Prelude.{
  ℕ, ◌+◌, ◌≤◌, ◌≡◌, refl, ap, arith, List, [], ◌∷◌, ◌++◌, Bool-cases, inl, inr, Option, some, ltb,
  ◌==◌, if◌then◌else◌, count, length, replicate,
}
use bbolt.Prelude.Map.{Map, insert, delete}
use bbolt.Freelist.Ops.Swap.{weigh}
use bbolt.Freelist.Ops.Rollback.{restored, own}

-- The allocating transactions of an entry are up to `c`.
abbrev pub AllUpTo : ℕ → List ℕ → Type 0
AllUpTo c [] = Unit
AllUpTo c (t ∷ ts) = (t ≤ c) × AllUpTo c ts

pub own_none : (a c : ℕ) (xs ts : List ℕ) → AllUpTo c ts → weigh (own a (c + 1)) xs ts ≡ 0
own_none a c [] ts h = refl
own_none a c (x ∷ xs) [] h = refl
own_none a c (x ∷ xs) (t ∷ ts) h = ground (arith, own_none a c xs ts h.1)

pub AllUpTo-append :
    (c t : ℕ) (ts : List ℕ) (xs : List ℕ)
    → AllUpTo c ts
    → t ≤ c
    → AllUpTo c (ts ++ replicate (length xs) t)
AllUpTo-append c t [] [] h u = tt
AllUpTo-append c t [] (x ∷ xs) h u = (u, AllUpTo-append c t [] xs tt u)
AllUpTo-append c t (s ∷ ts) xs h u = (h.0, AllUpTo-append c t ts xs h.1 u)

pub delete-insert :
    {V : Type 0} → (k : ℕ) (v : V) (m : Map V) → delete k (insert k v m) ≡ delete k m
unfolding delete insert
delete-insert k v [] = ground arith
delete-insert k v ((j, w) ∷ m) = elim (Bool-cases (j == k)) [
  | inl e ↦ rw e (ground (arith, e))
  | inr e ↦ rw (e, e) (ap (◌∷◌ (j, w)) (delete-insert k v m))
]

-- Of an id behind the others the book is what stands last.
pub restored-append :
    (p w t : ℕ) (xs ts ys : List ℕ) (before : Option ℕ)
    → length ts ≡ length xs
    → restored p w (xs ++ ys) (ts ++ replicate (length ys) t) before ≡ (
        if ltb 0 (count p xs)
        then restored p w xs ts before
        else restored p w ys (replicate (length ys) t) before)
restored-append p w t [] [] ys before h = refl
restored-append p w t [] (u ∷ ts) ys before h = absurd (omega arith)
restored-append p w t (x ∷ xs) [] ys before h = absurd (omega arith)
restored-append p w t (x ∷ xs) (u ∷ ts) ys before h =
    ground (arith, restored-append p w t xs ts ys before)

pub restored-replicate :
    (p w t : ℕ) (ys : List ℕ) (before : Option ℕ)
    → restored p w ys (replicate (length ys) t) before ≡ (
        if ltb 0 (count p ys)
        then (if t == 0 then before else if t == w then before else some t)
        else before)
restored-replicate p w t [] before = refl
restored-replicate p w t (y ∷ ys) before = ground (arith, restored-replicate p w t ys before)

pub restored_upto :
    (p c : ℕ) (xs ts : List ℕ) (before : Option ℕ) (u : ℕ)
    → AllUpTo c ts
    → ((v : ℕ) → before ≡ some v → v ≤ c)
    → restored p (c + 1) xs ts before ≡ some u
    → u ≤ c
restored_upto p c [] ts before u h b e = b u e
restored_upto p c (x ∷ xs) [] before u h b e = b u e
restored_upto p c (x ∷ xs) (t ∷ ts) before u h b e =
    ground (arith, b u, e, h.0, restored_upto p c xs ts before u h.1 b)
