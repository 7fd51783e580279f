-- ===== src/Database/MapSize.antt =====
-- mmapSize: the map is at least as large as asked, and never too large.
use bbolt.Prelude.{
  ℕ, zero, suc, ◌+◌, ◌*◌, ◌/◌, ◌^◌, ◌<◌, ◌≤◌, ◌≡◌, refl, arith, Bool-cases, inl, inr, leb, Option,
  none, some,
}
use native.Mathlib.Nat.{div-add-mod', mod-lt, pow-le-pow_right}
use bbolt.Database.{mmap_size, mmap_from, mmap_steps, doubling, round_up, max_mmap_step}

next_multiple : (p n : ℕ) → 0 < p → n ≤ (n / p + 1) * p
next_multiple p n h = let d = div-add-mod' n p in let l = mod-lt n h in omega (arith, d, l)

round_up_le : (n : ℕ) → n ≤ round_up max_mmap_step n
unfolding round_up
round_up_le n = ground arith

mmap_steps-bounds :
    (page_size max_map_size size : ℕ)
    → 0 < page_size
    → size ≤ max_map_size
    → (size ≤ mmap_steps page_size max_map_size size)
      × (mmap_steps page_size max_map_size size ≤ max_map_size)
unfolding mmap_steps
mmap_steps-bounds page_size max_map_size size pos fits =
    let r = round_up_le size in
    let sz = round_up max_mmap_step size in
    let up = next_multiple page_size sz pos in (ground (arith, r, up), ground arith)

two_pow_le : (i j : ℕ) → i ≤ j → 2 ^ i ≤ 2 ^ j
two_pow_le i j h = pow-le-pow_right {n = 2} (omega arith) h

doubling-bounds :
    (k i size sz : ℕ)
    → doubling (suc k) i size ≡ some sz
    → (size ≤ sz) × (2 ^ i ≤ sz) × (sz ≤ 2 ^ (i + k))
unfolding doubling
doubling-bounds zero i size sz h = ground (arith, two_pow_le i (i + 0) (omega arith))
doubling-bounds (suc k) i size sz h = elim (Bool-cases (leb size (2 ^ i))) [
  | inl fits ↦ ground (arith, fits, two_pow_le i (i + suc k) (omega arith))
  | inr more ↦
      let rest = doubling-bounds k (i + 1) size sz (ground (arith, more)) in
      let same : i + 1 + k ≡ i + suc k = omega arith in
      (rest.0, omega (arith, rest, two_pow_le i (i + 1) (omega arith)), rw⁻¹ same rest.2)
]

MapSizeOk : ℕ → ℕ → Option ℕ → Type 0
MapSizeOk max_map_size size r =
    ((size ≤ max_map_size) → (sz : ℕ) × (r ≡ some sz) × (size ≤ sz) × (sz ≤ max_map_size))
    × (max_map_size < size → r ≡ none)

mmap_from-MapSizeOk :
    (page_size max_map_size size : ℕ) (o : Option ℕ)
    → 0 < page_size
    → 2 ^ 30 ≤ max_map_size
    → doubling 16 15 size ≡ o
    → MapSizeOk max_map_size size (mmap_from page_size max_map_size size o)
unfolding MapSizeOk mmap_from
mmap_from-MapSizeOk page_size max_map_size size none pos room e = (
  λ fits.
      let b = mmap_steps-bounds page_size max_map_size size pos fits in
      (mmap_steps page_size max_map_size size, ground (arith, fits), b.0, b.1),
  λ large. ground (arith, large),
)
mmap_from-MapSizeOk page_size max_map_size size (some sz) pos room e =
    let d = doubling-bounds 15 15 size sz e in
    (
      λ fits. (sz, refl, d.0, omega (arith, d, room)),
      λ large. absurd (omega (arith, d, room, large)),
    )

-- mmapSize of a size up to the maximum, for a page size above 0 and a maximum of 1 GB or more, returns
-- a size that is at least the one asked for and at most the maximum; above the maximum it fails.
pub mmap_size-bounds :
    (page_size max_map_size size : ℕ)
    → 0 < page_size
    → 2 ^ 30 ≤ max_map_size
    → ((size ≤ max_map_size)
        → (sz : ℕ) × (mmap_size page_size max_map_size size ≡ some sz)
          × (size ≤ sz)
          × (sz ≤ max_map_size))
      × (max_map_size < size → mmap_size page_size max_map_size size ≡ none)
unfolding mmap_size MapSizeOk
mmap_size-bounds page_size max_map_size size pos room =
    mmap_from-MapSizeOk page_size max_map_size size (doubling 16 15 size) pos room refl
