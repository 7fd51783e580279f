-- ===== src/Database/MetaPages.antt =====
-- The two meta pages: which one counts, and that a meta page just written does.
use bbolt.Prelude.{
  ℕ, ◌+◌, ◌%◌, ◌<◌, ◌≤◌, ◌≡◌, ◌≢◌, ◌⊎◌, inl, inr, refl, arith, Bool-cases, Outcome, ok, panic, ltb,
  leb, Option, none, some,
}
use Prim.Native.Nat.{bit_or}
use bbolt.Page.{Page, meta_page_flag}
use bbolt.Database.{
  Meta, MetaError, validate, pick, pick_by, current_meta, write_meta, magic_number, version_number,
}

module _ (sum64 : Meta → ℕ) where
  -- What meta returns for two meta pages.
  pub data Chosen (meta0 meta1 : Meta) (r : Outcome Meta) : Type 0 where
    first :
        r ≡ ok meta0
        → validate sum64 meta0 ≡ none
        → (validate sum64 meta1 ≢ none) ⊎ (meta1.txid ≤ meta0.txid)
        → Chosen meta0 meta1 r
    second :
        r ≡ ok meta1
        → validate sum64 meta1 ≡ none
        → (validate sum64 meta0 ≢ none) ⊎ (meta0.txid < meta1.txid)
        → Chosen meta0 meta1 r
    neither :
        r ≡ panic → validate sum64 meta0 ≢ none → validate sum64 meta1 ≢ none → Chosen meta0 meta1 r

  pub pick-valid : (w m : Meta) → validate sum64 w ≡ none → pick sum64 w m ≡ ok w
  unfolding pick pick_by
  pick-valid w m h = rw h refl

  some-none : (e : MetaError) → some e ≢ none
  some-none e h = cc

  pick-second :
      (meta0 meta1 : Meta) (v0 v1 : Option MetaError)
      → validate sum64 meta0 ≡ v0
      → validate sum64 meta1 ≡ v1
      → meta0.txid < meta1.txid
      → Chosen meta0 meta1 (pick_by sum64 v1 v0 meta1 meta0)
  unfolding pick_by
  pick-second meta0 meta1 v0 none e0 e1 newer = second refl e1 (inr newer)
  pick-second meta0 meta1 none (some e) e0 e1 newer = first refl e0 (inl (rw e1 (some-none e)))
  pick-second meta0 meta1 (some d) (some e) e0 e1 newer =
      neither refl (rw e0 (some-none d)) (rw e1 (some-none e))

  pick-first :
      (meta0 meta1 : Meta) (v0 v1 : Option MetaError)
      → validate sum64 meta0 ≡ v0
      → validate sum64 meta1 ≡ v1
      → meta1.txid ≤ meta0.txid
      → Chosen meta0 meta1 (pick_by sum64 v0 v1 meta0 meta1)
  unfolding pick_by
  pick-first meta0 meta1 none v1 e0 e1 older = first refl e0 (inr older)
  pick-first meta0 meta1 (some d) none e0 e1 older = second refl e1 (inl (rw e0 (some-none d)))
  pick-first meta0 meta1 (some d) (some e) e0 e1 older =
      neither refl (rw e0 (some-none d)) (rw e1 (some-none e))

  -- meta returns a valid meta page whenever one of the two is valid, and of two valid ones the one
  -- with the higher transaction id, the first on a tie; it panics only if both are invalid.
  pub current_meta-Chosen :
      (meta0 meta1 : Meta) → Chosen meta0 meta1 (current_meta sum64 meta0 meta1)
  unfolding current_meta pick
  current_meta-Chosen meta0 meta1 = elim (Bool-cases (ltb meta0.txid meta1.txid)) [
    | inl newer ↦ rw newer (
        pick-second meta0 meta1 (validate sum64 meta0) (validate sum64 meta1) refl refl
          (ground arith))
    | inr older ↦ rw older (
        pick-first meta0 meta1 (validate sum64 meta0) (validate sum64 meta1) refl refl
          (ground arith))
  ]

  -- What write does with a meta page: it panics exactly if the root page is not below the high water mark.
  pub data WrittenTo (m : Meta) (o : Outcome (Page × Meta)) : Type 0 where
    refused : m.pgid ≤ m.root.root → o ≡ panic → WrittenTo m o
    written :
        (q : Page) (w : Meta)
        → m.root.root < m.pgid
        → o ≡ ok (q, w)
        → validate sum64 w ≡ none
        → w ≡ record m { checksum = w.checksum }
        → q.id < 2
        → ((m' : Meta) (p' q' : Page) (w' : Meta)
            → m'.txid ≡ m.txid + 1
            → write_meta sum64 m' p' ≡ ok (q', w')
            → q'.id ≢ q.id)
        → WrittenTo m o

  write_meta-slot :
      (m : Meta) (p q : Page) (w : Meta) → write_meta sum64 m p ≡ ok (q, w) → q.id ≡ m.txid % 2
  unfolding write_meta
  write_meta-slot m p q w h = elim (Bool-cases (leb m.pgid m.root.root)) [
    | inl high ↦ absurd (let e = rw high at h in cc)
    | inr low ↦ let e = rw low at h in ground (arith, e)
  ]

  -- write panics if the root page is not below the high water mark. Otherwise it writes to page 0 or
  -- 1, two successive transactions never to the same page, and what it writes is the meta page but for its
  -- checksum, and valid. The magic number and the version are the right ones, and the hash does not
  -- read the checksum.
  pub write_meta-WrittenTo :
      ((m : Meta) (c : ℕ) → sum64 (record m { checksum = c }) ≡ sum64 m)
      → (m : Meta) (p : Page) → m.magic ≡ magic_number
      → m.version ≡ version_number
      → WrittenTo m (write_meta sum64 m p)
  unfolding write_meta validate
  write_meta-WrittenTo local m p magic version = elim (Bool-cases (leb m.pgid m.root.root)) [
    | inl high ↦ rw high (refused (ground (arith, high)) refl)
    | inr low ↦ rw low (
        written (record p { id = m.txid % 2; flags = bit_or p.flags meta_page_flag })
          (record m { checksum = sum64 m }) (ground (arith, low)) refl
          (ground (arith, local m (sum64 m), magic, version)) refl (omega arith)
          (λ m' p' q' w' next same e. omega (arith, next, write_meta-slot m' p' q' w' same, e)))
  ]
