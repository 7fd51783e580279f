-- ===== src/Page/Checks.antt =====
-- fastCheck accepts exactly the pages that carry the id asked for and one type flag.
use bbolt.Prelude.{
  ℕ, zero, suc, ◌≡◌, ◌⊎◌, ◌↔◌, inl, inr, refl, ok, arith, ◌<◌, Bool, true, false, ◌==◌, ◌&&◌, ◌||◌,
  if◌then◌else◌, Bool-cases,
}
use bbolt.Page.{Page, branch, leaf, meta, freelist, typ, fast_check, bad_flags}

abbrev pub OneFlag : ℕ → Type 0
OneFlag flags = (flags ≡ 1) ⊎ (flags ≡ 2) ⊎ (flags ≡ 4) ⊎ (flags ≡ 16)

one_flag : ℕ → Bool
one_flag flags = flags == 1 || flags == 2 || flags == 4 || flags == 16

-- The array is a table of 17 entries: check each.
flags_agree : ℕ → Bool
unfolding one_flag bad_flags
flags_agree f = if bad_flags f then true else one_flag f

agree_below : ℕ → Bool
unfolding flags_agree
agree_below zero = true
agree_below (suc n) = flags_agree n && agree_below n

agree_below-flags_agree : (n x : ℕ) → agree_below n ≡ true → x < n → flags_agree x ≡ true
unfolding agree_below
agree_below-flags_agree zero x h q = absurd (omega arith)
agree_below-flags_agree (suc n) x h q = elim (Bool-cases (x == n)) [
  | inl e ↦ let e' : x ≡ n = ground arith in ground (arith, e')
  | inr e ↦ agree_below-flags_agree n x (ground arith) (ground arith)
]

table : agree_below 17 ≡ true
unfolding agree_below
table = refl

bad_flags-OneFlag : (flags : ℕ) → bad_flags flags ≡ false → OneFlag flags
bad_flags-OneFlag flags h =
    let small : flags < 17 = unfold bad_flags in ground arith in
    let t = agree_below-flags_agree 17 flags table small in
    unfold flags_agree one_flag in ground (arith, t)

-- fastCheck returns exactly for a page that identifies itself by the id asked for and whose flags
-- are one of the four page types; it panics for every other page.
pub fast_check-ok_iff :
    (p : Page) (id : ℕ) → (fast_check p id ≡ ok tt) ↔ ((p.id ≡ id) × OneFlag p.flags)
unfolding fast_check
fast_check-ok_iff p id =
    (λ h. (ground arith, bad_flags-OneFlag p.flags (ground arith)), λ h. ground arith)

-- The type that typ names for a page that has passed fastCheck is that of its one flag.
pub typ_checked :
    (p : Page) (id : ℕ)
    → fast_check p id ≡ ok tt
    → ((typ p ≡ branch) × (p.flags ≡ 1))
      ⊎ ((typ p ≡ leaf) × (p.flags ≡ 2))
      ⊎ ((typ p ≡ meta) × (p.flags ≡ 4))
      ⊎ ((typ p ≡ freelist) × (p.flags ≡ 16))
unfolding typ
typ_checked p id h = ground (arith, (fast_check-ok_iff p id).0 h)
