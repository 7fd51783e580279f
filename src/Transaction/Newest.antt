-- ===== src/Transaction/Newest.antt =====
-- The meta page that counts, when the transactions write to the two meta pages in turn.
use bbolt.Prelude.{
  ℕ, ◌+◌, ◌%◌, ◌≡◌, refl, arith, true, false, Bool-cases, inl, inr, ok, ltb, ◌==◌, if◌then◌else◌,
  none,
}
use bbolt.Database.MetaPages.{pick-valid}
use bbolt.Database.{Meta, validate, current_meta, magic_number, version_number}

abbrev pub slot : ℕ → Meta → Meta → Meta
slot t meta0 meta1 = if t % 2 == 0 then meta0 else meta1

module _ (sum64 : Meta → ℕ) where
  -- A meta page is sound, stands in the slot of its transaction, and is the one that counts.
  pub record Newest (meta0 meta1 m : Meta) : Type 0 where
    pub magic : m.magic ≡ magic_number
    pub version : m.version ≡ version_number
    pub checked : m.checksum ≡ sum64 m
    pub in_slot : slot m.txid meta0 meta1 ≡ m
    pub newest : current_meta sum64 meta0 meta1 ≡ ok m

  pub validate-none :
      (m : Meta)
      → m.magic ≡ magic_number
      → m.version ≡ version_number
      → m.checksum ≡ sum64 m
      → validate sum64 m ≡ none
  unfolding validate
  validate-none m magic version checked = ground (arith, magic, version, checked)

  -- The next meta page goes to the other slot, and is the one that counts.
  pub Newest-next :
      (meta0 meta1 m w : Meta)
      → Newest meta0 meta1 m
      → w.txid ≡ m.txid + 1
      → w.magic ≡ magic_number
      → w.version ≡ version_number
      → w.checksum ≡ sum64 w
      → Newest (if w.txid % 2 == 0 then w else meta0) (if w.txid % 2 == 0 then meta1 else w) w
  unfolding current_meta
  Newest-next meta0 meta1 m w s next magic version checked = elim (Bool-cases (w.txid % 2 == 0)) [
    | inl even ↦
        let odd : (m.txid % 2 == 0) ≡ false = ground (arith, even, next) in
        let same : meta1 ≡ m = rw odd at s.in_slot in
        let newer : ltb w.txid meta1.txid ≡ false = rw same (ground (arith, next)) in
        record {
          magic = magic;
          version = version;
          checked = checked;
          in_slot = rw even refl;
          newest =
              rw (even, newer) (pick-valid sum64 w meta1 (validate-none w magic version checked));
        }
    | inr odd ↦
        let even : (m.txid % 2 == 0) ≡ true = ground (arith, odd, next) in
        let same : meta0 ≡ m = rw even at s.in_slot in
        let newer : ltb meta0.txid w.txid ≡ true = rw same (ground (arith, next)) in
        record {
          magic = magic;
          version = version;
          checked = checked;
          in_slot = rw odd refl;
          newest =
              rw (odd, newer) (pick-valid sum64 w meta0 (validate-none w magic version checked));
        }
  ]
