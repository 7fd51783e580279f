-- ===== src/Transaction/Give.antt =====
-- A page that the writer frees.
use bbolt.Prelude.{
  ℕ, ◌+◌, ◌≤◌, ◌<◌, ◌≡◌, refl, sym, ap, ◌∙◌, arith, List, false, Bool-cases, inl, inr, Option, none,
  some, ltb, leb, ◌==◌, if◌then◌else◌, within,
}
use bbolt.Prelude.Map.{Map, lookup, lookup-delete, contains-insert}
use bbolt.Page.{Page, has_flag, freelist_page_flag}
use bbolt.Freelist.State.{Freelist, Backend, u64}
use bbolt.Freelist.Laws.{BackendLaws}
use bbolt.Freelist.Ops.{alloc_txid, drop_alloc, or_new}
use bbolt.Freelist.Ops.Needed.{needed}
use bbolt.Freelist.Ops.Free.{FreedUp, appended, covers, ids, count-ids}
use bbolt.Transaction.Needs.{needed-appended}
use bbolt.Transaction.World.{Pages, Sound, By, Seer, drop_page}

module _ (b : Backend) (laws : BackendLaws b) where
  pub upto_drop :
      (o : Option ℕ) (id q t : ℕ) (allocs : Map ℕ)
      → lookup q (drop_alloc o id allocs) ≡ some t
      → lookup q allocs ≡ some t
  upto_drop none id q t allocs h = h
  upto_drop (some u) id q t allocs h = ground (arith, lookup-delete id q allocs, h)

  pub other_drop :
      (o : Option ℕ) (id q : ℕ) (allocs : Map ℕ)
      → (id == q) ≡ false
      → lookup q (drop_alloc o id allocs) ≡ lookup q allocs
  other_drop none id q allocs h = refl
  other_drop (some u) id q allocs h = ground (arith, lookup-delete id q allocs, h)

  pub alloc_txid-By :
      (o : Option ℕ) (page : Page) (txid r : ℕ)
      → has_flag page.flags freelist_page_flag ≡ false
      → By o r
      → alloc_txid o page txid ≤ r
  unfolding alloc_txid
  alloc_txid-By none page txid r plain h = rw plain (omega arith)
  alloc_txid-By (some t) page txid r plain h = h

  -- The writer frees a current page.
  pub Sound-give :
      {f : Freelist} {readers : List ℕ} {committed mark : ℕ} {version : ℕ → Pages} {current : Pages}
      (page : Page) (two : 2 ≤ page.id) (upto : page.id + page.overflow + 1 < u64)
      (s : Sound b laws f readers committed (committed + 1) mark version current)
      → current page.id ≡ some page.overflow
      → has_flag page.flags freelist_page_flag ≡ false
      → (k : FreedUp b laws f (committed + 1) page s.valid two upto)
      → Sound b laws k.g readers committed (committed + 1) mark version (drop_page page.id current)
  Sound-give {f} {readers} {committed = c} {current = current} page two upto s here plain k =
      record {
        valid = k.valid;
        positive = s.positive;
        not_ahead = s.not_ahead;
        booked = λ q t h.
            s.booked q t
              (upto_drop (lookup page.id f.allocs) page.id q t f.allocs (rw k.booked at h));
        survives = λ r q o h v. elim (s.survives r q o h v) [
          | inr needs ↦ inr (λ a w. omega (arith, more a r, needs a w))
          | inl stays ↦ elim (Bool-cases (page.id == q)) [
            | inr e ↦ inl (
              rw e stays.0,
              rw (k.booked, other_drop (lookup page.id f.allocs) page.id q f.allocs e) stays.1,
            )
            | inl e ↦ inr (λ a w. gained r q o a (before r h) (ground (arith, e)) stays w)
          ]
        ];
        in_file = λ q o h. s.in_file q o (dropped q o h).1;
        in_use = λ q o a h w.
            let e = dropped q o h in
            omega (arith, k.counts a, k.stays a, s.in_use q o a e.1 w, not_covered q o a e w);
        apart = λ q q' o o' a h h' w w'.
            s.apart q q' o o' a (dropped q o h).1 (dropped q' o' h').1 w w';
        below = λ a h.
            ground
              (arith, h, k.counts a, k.stays a, s.below a, s.in_file page.id page.overflow here);
        small = s.small;
        high = s.high;
        absent = λ t h. rw k.pends (
            ground (
              arith,
              contains-insert (c + 1) t
                  (appended (or_new (lookup (c + 1) f.pending))
                    (ids b laws f (c + 1) page s.valid two upto)
                    (alloc_txid (lookup page.id f.allocs) page (c + 1)))
                  f.pending,
              s.absent t h,
            ));
      }
    where
      dropped :
          (q o : ℕ)
          → drop_page page.id current q ≡ some o
          → ((page.id == q) ≡ false) × (current q ≡ some o)
      dropped q o h = elim (Bool-cases (page.id == q)) [
        | inl e ↦ absurd (ground (arith, e, h))
        | inr e ↦ (e, rw e at h)
      ]

      not_covered :
          (q o a : ℕ)
          → ((page.id == q) ≡ false) × (current q ≡ some o)
          → 0 < within a q (o + 1)
          → covers page a ≡ 0
      not_covered q o a e w = elim (Bool-cases (ltb 0 (covers page a))) [
        | inl p ↦ absurd (
            ground (arith, e.0, s.apart page.id q page.overflow o a here e.1 (ground (arith, p)) w))
        | inr p ↦ ground (arith, p)
      ]

      before : (r : ℕ) → Seer readers c r → r ≤ c
      before r (inl reads) = (s.not_ahead r reads).1
      before r (inr e) = omega (arith, e)

      alloc : ℕ
      alloc = alloc_txid (lookup page.id f.allocs) page (c + 1)

      now :
          (a r : ℕ)
          → needed a r k.g.pending
            ≡ needed a r f.pending
              + (if ltb r (c + 1) then (if leb alloc r then covers page a else 0) else 0)
      now a r =
          rw
            (
              k.pends,
              needed-appended a r (c + 1) alloc (ids b laws f (c + 1) page s.valid two upto)
                  f.pending s.valid.paired,
              count-ids b laws f (c + 1) page s.valid two upto a,
            )
            refl

      more : (a r : ℕ) → needed a r f.pending ≤ needed a r k.g.pending
      more a r = omega (arith, now a r)

      gained :
          (r q o a : ℕ)
          → r ≤ c
          → page.id ≡ q
          → (current q ≡ some o) × By (lookup q f.allocs) r
          → 0 < within a q (o + 1)
          → 0 < needed a r k.g.pending
      gained r q o a upto_c e stays w =
          let both : some o ≡ some page.overflow = sym stays.0 ∙ ap current (sym e) ∙ here in
          let size : o ≡ page.overflow = ground (arith, both) in
          let covered : 0 < covers page a = rw (sym e, size) at w in
          let old : alloc ≤ r =
            alloc_txid-By (lookup page.id f.allocs) page (c + 1) r plain (rw (sym e) at stays.1) in
          ground (arith, now a r, old, covered, upto_c)
