-- ===== src/Page/Element.antt =====
-- leafPageElement of page.go: one 64-bit word that holds the flag (1 bit), the offset of the data
-- (26 bits), the key's length (13 bits) and the value's length (24 bits).
use Prim.Native.Nat.{bit_or}
use bbolt.Prelude.{ℕ, ◌+◌, ◌*◌, ◌/◌, ◌%◌, ◌^◌, ◌≤◌, ◌<◌, ◌≡◌, arith, Outcome, ok, ◌>>◌, assert, leb}
use bbolt.Page.Bits.{bit_or-shift}

pub record LeafPageElement : Type 0 where
  pub word : ℕ

-- uint32(n.data >> 63); `&` with a mask of k ones is the remainder by 2 ^ k.
unfoldable pub flags : LeafPageElement → ℕ
flags n = n.word / 2 ^ 63 % 2 ^ 32

unfoldable pub pos : LeafPageElement → ℕ
pos n = n.word / 2 ^ 37 % 2 ^ 32 % 2 ^ 26

unfoldable pub ksize : LeafPageElement → ℕ
ksize n = n.word / 2 ^ 24 % 2 ^ 32 % 2 ^ 13

unfoldable pub vsize : LeafPageElement → ℕ
vsize n = n.word % 2 ^ 32 % 2 ^ 24

-- A shift of a uint64 to the left drops the bits above the 64th.
abbrev shl64 : ℕ → ℕ → ℕ
shl64 x k = x * 2 ^ k % 2 ^ 64

unfoldable pub fill : LeafPageElement → ℕ → ℕ → ℕ → ℕ → Outcome LeafPageElement
fill n flags pos ksize vsize = do
  assert (leb pos 0x3FF_FFFF)
  ok (record {
    word = bit_or (bit_or (bit_or (shl64 flags 63) (shl64 pos 37)) (shl64 ksize 24)) vsize;
  })

-- Within the widths of the fields the word is a sum.
fill_sum :
    (flags pos ksize vsize : ℕ)
    → flags < 2
    → pos < 2 ^ 26
    → ksize < 2 ^ 13
    → vsize < 2 ^ 24
    → bit_or (bit_or (bit_or (shl64 flags 63) (shl64 pos 37)) (shl64 ksize 24)) vsize
      ≡ ((flags * 2 ^ 26 + pos) * 2 ^ 13 + ksize) * 2 ^ 24 + vsize
fill_sum flags pos ksize vsize hf hp hk hv =
    let top = bit_or-shift 63 flags (pos * 2 ^ 37) (omega arith) in
    let upper = bit_or-shift 37 (flags * 2 ^ 26 + pos) (ksize * 2 ^ 24) (omega arith) in
    let whole = bit_or-shift 24 ((flags * 2 ^ 26 + pos) * 2 ^ 13 + ksize) vsize hv in
    let f : shl64 flags 63 ≡ flags * 2 ^ 63 = omega arith in
    let p : shl64 pos 37 ≡ pos * 2 ^ 37 = omega arith in
    let k : shl64 ksize 24 ≡ ksize * 2 ^ 24 = omega arith in
    let a : flags * 2 ^ 63 + pos * 2 ^ 37 ≡ (flags * 2 ^ 26 + pos) * 2 ^ 37 = omega arith in
    let b : (flags * 2 ^ 26 + pos) * 2 ^ 37 + ksize * 2 ^ 24
        ≡ ((flags * 2 ^ 26 + pos) * 2 ^ 13 + ksize) * 2 ^ 24 =
      omega arith in
    rw (f, p, k, top, a, upper, b) whole

-- The fields read back from an element are those that fill was given, if each fits its width:
-- a flag of 0 or 1, an offset below 2 ^ 26, a key of at most 8191 bytes (MaxKeySize) and a value
-- of at most 16777215 (MaxValueSize). fill then returns, and the element's former word is lost.
pub fields-fill :
    (n : LeafPageElement) (f p k v : ℕ)
    → f < 2
    → p < 2 ^ 26
    → k ≤ 8191
    → v ≤ 16777215
    → (e : LeafPageElement) × (fill n f p k v ≡ ok e)
      × (flags e ≡ f)
      × (pos e ≡ p)
      × (ksize e ≡ k)
      × (vsize e ≡ v)
unfolding fill flags pos ksize vsize
fields-fill n f p k v hf hp hk hv =
    let s = fill_sum f p k v hf hp (omega arith) (omega arith) in
    (
      record { word = ((f * 2 ^ 26 + p) * 2 ^ 13 + k) * 2 ^ 24 + v },
      rw s (ground arith),
      omega arith,
      omega arith,
      omega arith,
      omega arith,
    )

-- fill checks the offset alone: a key of 8192 bytes or more is accepted, and its length does not
-- read back.
pub fill_long_key :
    (n : LeafPageElement) (f p k v : ℕ)
    → p < 2 ^ 26
    → 8191 < k
    → (e : LeafPageElement) × (fill n f p k v ≡ ok e) × (ksize e < k)
unfolding fill ksize
fill_long_key n f p k v hp hk = (
  record { word = bit_or (bit_or (bit_or (shl64 f 63) (shl64 p 37)) (shl64 k 24)) v },
  ground arith,
  omega arith,
)
