-- ===== src/Transaction/World.antt =====
-- The versions of the file that its readers see, beside the freelist. A version is known by the id of its
-- transaction; of its pages it has the ids, each with its overflow. `mark` is the high water mark.
use bbolt.Prelude.{
  ℕ, ◌+◌, ◌≤◌, ◌<◌, ◌≡◌, refl, sym, ◌∙◌, arith, List, false, Bool-cases, ◌⊎◌, inl, inr, Outcome,
  Option, none, some, ◌==◌, if◌then◌else◌, count, within,
}
use bbolt.Prelude.Map.{Map, lookup, contains}
use bbolt.Freelist.State.{Freelist, Backend, u64}
use bbolt.Freelist.Laws.{BackendLaws}
use bbolt.Freelist.Ops.Needed.{needed}
use bbolt.Freelist.Ops.Valid.{IsValid, held}
use bbolt.Freelist.FreePages.{KeepsFor}

-- The pages of one version.
abbrev pub Pages : Type 0
Pages = ℕ → Option ℕ

abbrev pub put_page : ℕ → ℕ → Pages → Pages
put_page p o pages q = if p == q then some o else pages q

abbrev pub drop_page : ℕ → Pages → Pages
drop_page p pages q = if p == q then none else pages q

abbrev pub set_version : ℕ → Pages → (ℕ → Pages) → ℕ → Pages
set_version t pages version r = if t == r then pages else version r

-- The transaction that allocated a page, if it is noted, is up to `r`.
abbrev pub By : Option ℕ → ℕ → Type 0
By none r = Unit
By (some t) r = t ≤ r

-- Whose version has to last: the open readers, and the last committed transaction.
abbrev pub Seer : List ℕ → ℕ → ℕ → Type 0
Seer readers committed r = (0 < count r readers) ⊎ (r ≡ committed)

-- A page that a version has is still one of the current pages, or it is pending and kept for the version.
abbrev pub Survives : Freelist → Pages → ℕ → ℕ → ℕ → Type 0
Survives f current r p o =
    ((current p ≡ some o) × By (lookup p f.allocs) r)
    ⊎ ((a : ℕ) → 0 < within a p (o + 1) → 0 < needed a r f.pending)

module _ (b : Backend) (laws : BackendLaws b) where
  pub record Sound (f : Freelist) (readers : List ℕ) (committed writer mark : ℕ)
      (version : ℕ → Pages) (current : Pages) : Type 0 where
    pub valid : IsValid b laws f
    pub positive : 0 < committed
    pub not_ahead : (r : ℕ) → 0 < count r readers → (0 < r) × (r ≤ committed)
    pub booked : (p t : ℕ) → lookup p f.allocs ≡ some t → t ≤ writer
    pub survives :
        (r p o : ℕ) → Seer readers committed r → version r p ≡ some o → Survives f current r p o
    pub in_file : (p o : ℕ) → current p ≡ some o → (2 ≤ p) × (p + o < mark)
    pub in_use : (p o a : ℕ) → current p ≡ some o → 0 < within a p (o + 1) → held b laws f a ≡ 0
    pub apart :
        (p q o o' a : ℕ)
        → current p ≡ some o
        → current q ≡ some o'
        → 0 < within a p (o + 1)
        → 0 < within a q (o' + 1)
        → p ≡ q
    pub below : (a : ℕ) → 0 < held b laws f a → a < mark
    pub small : mark + 1 < u64
    pub high : 2 ≤ mark
    pub absent : (t : ℕ) → writer < t → contains t f.pending ≡ false

  -- Another set of readers, all of them there before or at the committed version.
  pub Sound-readers :
      {f : Freelist} {readers : List ℕ} {committed writer mark : ℕ} {version : ℕ → Pages}
      {current : Pages} (readers' : List ℕ)
      → Sound f readers committed writer mark version current
      → ((r : ℕ) → 0 < count r readers' → Seer readers committed r)
      → Sound f readers' committed writer mark version current
  Sound-readers readers' s known = record {
    valid = s.valid;
    positive = s.positive;
    not_ahead = λ r h. elim (known r h) [
      | inl k ↦ s.not_ahead r k
      | inr e ↦ (omega (arith, e, s.positive), omega (arith, e))
    ];
    booked = s.booked;
    survives = λ r p o h. elim h [
      | inl k ↦ s.survives r p o (known r k)
      | inr e ↦ s.survives r p o (inr e)
    ];
    in_file = s.in_file;
    in_use = s.in_use;
    apart = s.apart;
    below = s.below;
    small = s.small;
    high = s.high;
    absent = s.absent;
  }

  pub By-booked :
      (allocs : Map ℕ) (p w : ℕ)
      → ((t : ℕ) → lookup p allocs ≡ some t → t ≤ w)
      → By (lookup p allocs) w
  By-booked allocs p w h = by_lookup (lookup p allocs) h
    where
      by_lookup : (o : Option ℕ) → ((t : ℕ) → o ≡ some t → t ≤ w) → By o w
      by_lookup none h' = tt
      by_lookup (some t) h' = h' t refl

  -- A write transaction begins: freePages keeps what the readers need.
  pub Sound-begin :
      {f : Freelist} {readers : List ℕ} {committed mark : ℕ} {version : ℕ → Pages} {current : Pages}
      {o : Outcome Freelist} (readers' : List ℕ)
      → Sound f readers committed committed mark version current
      → ((p : ℕ) → version committed p ≡ current p)
      → ((r : ℕ) → count r readers' ≡ count r readers)
      → (k : KeepsFor b laws f (λ r. 0 < count r readers) o)
      → Sound k.g readers' committed committed mark version current
  Sound-begin {f} {committed = c} readers' s idle same k = record {
    valid = k.valid;
    positive = s.positive;
    not_ahead = λ r h. s.not_ahead r (omega (arith, same r));
    booked = λ p t h. ground (arith, s.booked p t (rw k.allocs_same at h));
    survives = λ r p o h v. elim h [
      | inr e ↦
          let here = sym (idle p) ∙ rw e at v in
          inl (here, rw (k.allocs_same, e) (By-booked f.allocs p c (s.booked p)))
      | inl reads ↦ elim (s.survives r p o (inl (omega (arith, same r))) v) [
        | inl stays ↦ inl (stays.0, rw k.allocs_same stays.1)
        | inr needs ↦ inr (λ a h'. omega (arith, k.keeps a r (omega (arith, same r)), needs a h'))
      ]
    ];
    in_file = s.in_file;
    in_use = λ p o a h w. k.held_same a ∙ s.in_use p o a h w;
    apart = s.apart;
    below = λ a h. s.below a (omega (arith, k.held_same a));
    small = s.small;
    high = s.high;
    absent = λ t h. k.absent t (s.absent t h);
  }

  -- The writer may book what it allocates to itself.
  pub Sound-open :
      {f : Freelist} {readers : List ℕ} {committed mark : ℕ} {version : ℕ → Pages} {current : Pages}
      → Sound f readers committed committed mark version current
      → Sound f readers committed (committed + 1) mark version current
  Sound-open s = record {
    valid = s.valid;
    positive = s.positive;
    not_ahead = s.not_ahead;
    booked = λ p t h. omega (arith, s.booked p t h);
    survives = s.survives;
    in_file = s.in_file;
    in_use = s.in_use;
    apart = s.apart;
    below = s.below;
    small = s.small;
    high = s.high;
    absent = λ t h. s.absent t (omega arith);
  }

  -- The current pages become the version of the writer.
  pub Sound-commit :
      {f : Freelist} {readers : List ℕ} {committed mark : ℕ} {version : ℕ → Pages} {current : Pages}
      → Sound f readers committed (committed + 1) mark version current
      → Sound f readers
          (committed + 1)
          (committed + 1)
          mark
          (set_version (committed + 1) current version)
          current
  Sound-commit {f} {readers} {committed = c} {current = current} s = record {
    valid = s.valid;
    positive = omega arith;
    not_ahead = λ r h. (let k = s.not_ahead r h in (k.0, omega (arith, k.1)));
    booked = s.booked;
    survives = λ r p o h v. elim (Bool-cases (c + 1 == r)) [
      | inl e ↦
          let same : c + 1 ≡ r = ground (arith, e) in
          inl (rw e at v, rw (sym same) (By-booked f.allocs p (c + 1) (s.booked p)))
      | inr e ↦ s.survives r p o (older r h e) (rw e at v)
    ];
    in_file = s.in_file;
    in_use = s.in_use;
    apart = s.apart;
    below = s.below;
    small = s.small;
    high = s.high;
    absent = s.absent;
  }
    where
      older : (r : ℕ) → Seer readers (c + 1) r → (c + 1 == r) ≡ false → Seer readers c r
      older r (inl reads) e = inl reads
      older r (inr same) e = absurd (ground (arith, same, e))
