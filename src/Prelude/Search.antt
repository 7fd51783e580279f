-- ===== src/Prelude/Search.antt =====
-- The standard library's `sort.Search`.
use Prim.Native.Nat.{ℕ, zero, suc, ◌+◌, ◌-◌, ◌/◌, ◌≤◌, ◌<◌}
use mathlib.Core.Path.{◌≡◌}
use mathlib.Core.Bool.{Bool, true, false}
use mathlib.Core.Logic.{inl, inr}
use native.Mathlib.Omega.{arith}
use bbolt.Prelude.Tests.{ltb, if◌then◌else◌, Bool-cases, ltb→le}

-- for i < j { h := (i + j) / 2; if !f(h) { i = h + 1 } else { j = h } }
search_loop : ℕ → (ℕ → Bool) → ℕ → ℕ → ℕ
search_loop zero f i j = i
search_loop (suc k) f i j =
    let h = (i + j) / 2 in
    let rest = search_loop k f (if f h then i else h + 1) (if f h then h else j) in
    if ltb i j then rest else i

unfoldable pub search_first : ℕ → (ℕ → Bool) → ℕ
unfolding search_loop
search_first n f = search_loop (n + 1) f 0 n

-- The result of a binary search, whatever the test: `f` fails just below it, and holds at it
-- unless it is the end.
pub record Found (n : ℕ) (f : ℕ → Bool) (i : ℕ) : Type 0 where
  pub inside : i ≤ n
  pub below : (m : ℕ) → i ≡ suc m → f m ≡ false
  pub at : i < n → f i ≡ true

search_loop-Found :
    (k n : ℕ) (f : ℕ → Bool) (i j : ℕ)
    → j - i < k
    → i ≤ j
    → j ≤ n
    → ((m : ℕ) → i ≡ suc m → f m ≡ false)
    → (j < n → f j ≡ true)
    → Found n f (search_loop k f i j)
unfolding search_loop
search_loop-Found zero n f i j fuel le jn below at = absurd (omega arith)
search_loop-Found (suc k) n f i j fuel le jn below at =
    let h = (i + j) / 2 in
    elim (Bool-cases (ltb i j)) [
      | inr done ↦
          rw done (record {
            inside = omega arith;
            below = below;
            at = λ q. ground (arith, ltb→le i j, at);
          })
      | inl more ↦ elim (Bool-cases (f h)) [
        | inl up ↦
            rw (more, up)
              (search_loop-Found k n f i h (ground arith) (ground arith) (ground arith) below
                (λ q. up))
        | inr down ↦
            rw (more, down)
              (search_loop-Found k n f (h + 1) j (ground arith) (ground arith) jn
                (λ m e. let e' : m ≡ h = omega arith in rw e' down) at)
      ]
    ]

pub search_first-Found : (n : ℕ) (f : ℕ → Bool) → Found n f (search_first n f)
unfolding search_first
search_first-Found n f =
    search_loop-Found (n + 1) n f 0 n (omega arith) (omega arith) (omega arith)
      (λ m e. absurd (omega arith)) (λ h. absurd (omega arith))

-- The same search, with a note of whether a second test holds at one of the indices it looks at.
noted_loop : ℕ → (ℕ → Bool) → (ℕ → Bool) → ℕ → ℕ → Bool → Bool
noted_loop zero f g i j noted = noted
noted_loop (suc k) f g i j noted =
    let h = (i + j) / 2 in
    let rest =
      noted_loop k f g (if f h then i else h + 1) (if f h then h else j)
        (if g h then true else noted) in
    if ltb i j then rest else noted

unfoldable pub search_noted : ℕ → (ℕ → Bool) → (ℕ → Bool) → Bool
unfolding noted_loop
search_noted n f g = noted_loop (n + 1) f g 0 n false

noted_loop_sound :
    (k n : ℕ) (f g : ℕ → Bool) (i j : ℕ) (noted : Bool)
    → j ≤ n
    → ((noted ≡ true) → (h : ℕ) × (h < n) × (g h ≡ true))
    → noted_loop k f g i j noted ≡ true
    → (h : ℕ) × (h < n) × (g h ≡ true)
unfolding noted_loop
noted_loop_sound zero n f g i j noted le old e = old e
noted_loop_sound (suc k) n f g i j noted le old e = elim (Bool-cases (ltb i j)) [
  | inr done ↦ old (rw done at e)
  | inl more ↦
      let h = (i + j) / 2 in
      let below : h < n = ground (arith, more) in
      let next : ((if g h then true else noted) ≡ true) → (a : ℕ) × (a < n) × (g a ≡ true) = λ q.
        elim (Bool-cases (g h)) [
          | inl here ↦ (h, below, here)
          | inr not_here ↦ old (rw not_here at q)
        ] in
      noted_loop_sound k n f g _ _ _ (ground (arith, more)) next (rw more at e)
]

noted_loop_complete :
    (k n : ℕ) (f g : ℕ → Bool) (i j : ℕ) (noted : Bool)
    → j - i < k
    → i ≤ j
    → (j < n → g j ≡ true → noted ≡ true)
    → (noted ≡ true → noted_loop k f g i j noted ≡ true)
      × (search_loop k f i j < n
          → g (search_loop k f i j) ≡ true
          → noted_loop k f g i j noted ≡ true)
unfolding noted_loop search_loop
noted_loop_complete zero n f g i j noted fuel le at = absurd (omega arith)
noted_loop_complete (suc k) n f g i j noted fuel le at =
    let h = (i + j) / 2 in
    elim (Bool-cases (ltb i j)) [
      | inr done ↦
          let same : i ≡ j = ground (arith, done) in
          rw done (λ q. q, λ q e. at (ground (arith, same)) (rw same at e))
      | inl more ↦ elim (Bool-cases (f h)) [
        | inl up ↦
            let rest =
              noted_loop_complete k n f g i h (if g h then true else noted) (ground (arith, more))
                (ground (arith, more)) (λ q e. ground (arith, e)) in
            rw (more, up) (λ q. rest.0 (ground (arith, q)), rest.1)
        | inr down ↦
            let rest =
              noted_loop_complete k n f g (h + 1) j (if g h then true else noted)
                (ground (arith, more)) (ground (arith, more)) (λ q e. ground (arith, at q e)) in
            rw (more, down) (λ q. rest.0 (ground (arith, q)), rest.1)
      ]
    ]

-- What is noted holds at some index; and if the test holds where the search ends, it is noted.
pub search_noted_sound :
    (n : ℕ) (f g : ℕ → Bool) → search_noted n f g ≡ true → (h : ℕ) × (h < n) × (g h ≡ true)
unfolding search_noted
search_noted_sound n f g = noted_loop_sound (n + 1) n f g 0 n false (omega arith) (λ e. absurd (cc))

pub search_noted_complete :
    (n : ℕ) (f g : ℕ → Bool)
    → search_first n f < n
    → g (search_first n f) ≡ true
    → search_noted n f g ≡ true
unfolding search_noted search_first
search_noted_complete n f g =
    (noted_loop_complete (n + 1) n f g 0 n false (omega arith) (omega arith)
      (λ q. absurd (omega arith))).1
