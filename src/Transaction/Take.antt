-- ===== src/Transaction/Take.antt =====
-- A block that the writer takes.
use bbolt.Prelude.{
  ℕ, ◌+◌, ◌-◌, ◌≤◌, ◌<◌, ◌≡◌, sym, ◌∙◌, arith, List, false, Bool-cases, ◌⊎◌, inl, inr, some, ◌==◌,
  within,
}
use bbolt.Prelude.Map.{lookup}
use bbolt.Freelist.State.{Freelist, Backend, u64}
use bbolt.Freelist.Laws.{BackendLaws}
use bbolt.Freelist.Ops.Valid.{IsValid, held}
use bbolt.Transaction.World.{Pages, Sound, put_page}

module _ (b : Backend) (laws : BackendLaws b) where
  -- What a new block is: `n` pages from `p` on, of which none is current or held afterwards.
  pub record NewBlock (f g : Freelist) (writer mark mark' n p : ℕ) (current : Pages) : Type 0 where
    pub valid : IsValid b laws g
    pub two : 2 ≤ p
    pub some_page : 0 < n
    pub pends : g.pending ≡ f.pending
    pub others : (q : ℕ) → (p == q) ≡ false → lookup q g.allocs ≡ lookup q f.allocs
    pub noted_to : (t : ℕ) → lookup p g.allocs ≡ some t → t ≤ writer
    pub fewer : (a : ℕ) → held b laws g a ≤ held b laws f a
    pub not_held : (a : ℕ) → 0 < within a p n → held b laws g a ≡ 0
    pub not_current : (q o a : ℕ) → current q ≡ some o → 0 < within a q (o + 1) → within a p n ≡ 0
    pub raised : mark ≤ mark'
    pub inside : p + n ≤ mark'
    pub small : mark' + 1 < u64

  current-put_page :
      (p q n o : ℕ) (current : Pages)
      → put_page p (n - 1) current q ≡ some o
      → ((p ≡ q) × (o ≡ n - 1)) ⊎ (((p == q) ≡ false) × (current q ≡ some o))
  current-put_page p q n o current h = elim (Bool-cases (p == q)) [
    | inl e ↦ inl (ground (arith, e), ground (arith, rw e at h))
    | inr e ↦ inr (e, rw e at h)
  ]

  to_block :
      (p q n o a : ℕ) → (p ≡ q) × (o ≡ n - 1) → 0 < n → 0 < within a q (o + 1) → 0 < within a p n
  to_block p q n o a e some_page w =
      let size : o + 1 ≡ n = omega (arith, e.1) in rw (sym e.0, size) at w

  pub Sound-take :
      {f g : Freelist} {readers : List ℕ} {committed writer mark mark' n p : ℕ}
      {version : ℕ → Pages} {current : Pages}
      → Sound b laws f readers committed writer mark version current
      → NewBlock f g writer mark mark' n p current
      → Sound b laws g readers committed writer mark' version (put_page p (n - 1) current)
  Sound-take {f} {g} {writer = writer} {n = n} {p = p} {current = current} s new = record {
    valid = new.valid;
    positive = s.positive;
    not_ahead = s.not_ahead;
    booked = λ q t h. elim (Bool-cases (p == q)) [
      | inl e ↦ let same : p ≡ q = ground (arith, e) in new.noted_to t (rw same h)
      | inr e ↦ s.booked q t (sym (new.others q e) ∙ h)
    ];
    survives = λ r q o h v. elim (s.survives r q o h v) [
      | inl stays ↦ let e = other q o stays.0 in inl (rw e stays.0, rw (new.others q e) stays.1)
      | inr needs ↦ inr (λ a h'. rw new.pends (needs a h'))
    ];
    in_file = λ q o h. elim (current-put_page p q n o current h) [
      | inl e ↦ (omega (arith, e.0, new.two), omega (arith, e.0, e.1, new.inside, new.some_page))
      | inr e ↦ (let k = s.in_file q o e.1 in (k.0, omega (arith, k.1, new.raised)))
    ];
    in_use = λ q o a h w. elim (current-put_page p q n o current h) [
      | inl e ↦ new.not_held a (to_block p q n o a e new.some_page w)
      | inr e ↦ omega (arith, new.fewer a, s.in_use q o a e.1 w)
    ];
    apart = λ q q' o o' a h h' w w'. elim (current-put_page p q n o current h) [
      | inl e ↦ elim (current-put_page p q' n o' current h') [
        | inl e' ↦ sym e.0 ∙ e'.0
        | inr e' ↦
            absurd
              (omega (arith, new.not_current q' o' a e'.1 w', to_block p q n o a e new.some_page w))
      ]
      | inr e ↦ elim (current-put_page p q' n o' current h') [
        | inl e' ↦
            absurd
              (omega (arith, new.not_current q o a e.1 w, to_block p q' n o' a e' new.some_page w'))
        | inr e' ↦ s.apart q q' o o' a e.1 e'.1 w w'
      ]
    ];
    below = λ a h. omega (arith, new.raised, new.fewer a, s.below a (omega (arith, new.fewer a)));
    small = new.small;
    high = omega (arith, s.high, new.raised);
    absent = λ t h. rw new.pends (s.absent t h);
  }
    where
      other : (q o : ℕ) → current q ≡ some o → (p == q) ≡ false
      other q o h = elim (Bool-cases (p == q)) [
        | inr e ↦ e
        | inl e ↦ absurd (ground (arith, new.not_current q o q h (ground arith), new.some_page, e))
      ]
