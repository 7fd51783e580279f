-- ===== src/Transaction/Undo.antt =====
-- What the rollback of a write transaction that has allocated nothing leads back to: `base` is the freelist
-- as it was behind freePages.
use bbolt.Prelude.{
  ℕ, ◌+◌, ◌≤◌, ◌<◌, ◌≡◌, refl, ap, ◌∙◌, arith, List, Bool, true, false, Bool-cases, inl, inr,
  Option, none, some, ltb, ◌==◌, if◌then◌else◌, count, length, replicate,
}
use bbolt.Prelude.Map.{
  Map, lookup, delete, lookup-delete, lookup-insert, delete_absent, contains→lookup,
}
use bbolt.Page.{Page, has_flag, freelist_page_flag}
use bbolt.Freelist.State.{Freelist, Backend, TxPending, u64}
use bbolt.Freelist.Laws.{BackendLaws}
use bbolt.Freelist.Ops.{alloc_txid, drop_alloc, or_new}
use bbolt.Freelist.Ops.Rollback.{restored, restored_absent, count-lookup, lookup-Paired}
use bbolt.Freelist.Ops.Free.{FreedUp, appended, covers, ids, count-ids}
use bbolt.Transaction.World.{Pages, Sound, By, drop_page, By-booked}
use bbolt.Transaction.Restored.{
  AllUpTo, AllUpTo-append, delete-insert, restored-append, restored-replicate,
}
use bbolt.Transaction.Give.{upto_drop, other_drop, alloc_txid-By}

module _ (b : Backend) (laws : BackendLaws b) where
  -- The writer's own entry.
  abbrev pub own_entry : Freelist → ℕ → TxPending
  own_entry f w = or_new (lookup w f.pending)

  -- What the writer has done to the freelist so far can be undone.
  pub record Undo (base f : Freelist) (committed : ℕ) (start current : Pages) : Type 0 where
    pub subset : (p o : ℕ) → current p ≡ some o → start p ≡ some o
    pub others : delete (committed + 1) f.pending ≡ base.pending
    pub free_same : (a : ℕ) → laws.free f a ≡ laws.free base a
    pub earlier : AllUpTo committed (own_entry f (committed + 1)).alloctx
    pub booked : (p t : ℕ) → lookup p f.allocs ≡ some t → t ≤ committed
    pub back :
        (p o r : ℕ)
        → start p ≡ some o
        → By (lookup p base.allocs) r
        → By
            (restored p
              (committed + 1)
              (own_entry f (committed + 1)).ids
              (own_entry f (committed + 1)).alloctx
              (lookup p f.allocs))
            r

  pub Undo-begin :
      {f : Freelist} {readers : List ℕ} {committed mark : ℕ} {version : ℕ → Pages} {start : Pages}
      → Sound b laws f readers committed committed mark version start
      → Undo f f committed start start
  Undo-begin {f} {committed = c} s =
      let nothing : lookup (c + 1) f.pending ≡ none =
        contains→lookup (c + 1) f.pending (s.absent (c + 1) (omega arith)) in
      record {
        subset = λ p o h. h;
        others = delete_absent (c + 1) f.pending (s.absent (c + 1) (omega arith));
        free_same = λ a. refl;
        earlier = rw nothing tt;
        booked = s.booked;
        back = λ p o r h by. rw nothing by;
      }

  restored_here :
      (o : Option ℕ) (page : Page) (w r : ℕ) (allocs : Map ℕ)
      → lookup page.id allocs ≡ o
      → has_flag page.flags freelist_page_flag ≡ false
      → By o r
      → By
          (if alloc_txid o page w == 0
            then lookup page.id (drop_alloc o page.id allocs)
            else if alloc_txid o page w == w
            then lookup page.id (drop_alloc o page.id allocs)
            else some (alloc_txid o page w))
          r
  unfolding alloc_txid
  restored_here none page w r allocs e plain by = rw (plain, e) tt
  restored_here (some t) page w r allocs e plain by =
      let gone : lookup page.id (delete page.id allocs) ≡ none =
        ground (arith, lookup-delete page.id page.id allocs) in
      rw gone (by_test (t == 0) (t == w))
    where
      by_test :
          (zero_t own_t : Bool) → By (if zero_t then none else if own_t then none else some t) r
      by_test true o = tt
      by_test false true = tt
      by_test false false = by

  -- A page that the writer frees can be taken back.
  pub Undo-give :
      {base f : Freelist} {readers : List ℕ} {committed mark mark' : ℕ} {version : ℕ → Pages}
      {start current : Pages} (page : Page) (two : 2 ≤ page.id)
      (upto : page.id + page.overflow + 1 < u64)
      → Sound b laws base readers committed committed mark version start
      → (s : Sound b laws f readers committed (committed + 1) mark' version current)
      → current page.id ≡ some page.overflow
      → has_flag page.flags freelist_page_flag ≡ false
      → (k : FreedUp b laws f (committed + 1) page s.valid two upto)
      → Undo base f committed start current
      → Undo base k.g committed start (drop_page page.id current)
  Undo-give {base} {f} {committed = c} {start = start} {current = current} page two upto old s here
        plain k u =
      record {
        subset = λ p o h. elim (Bool-cases (page.id == p)) [
          | inl e ↦ absurd (ground (arith, e, h))
          | inr e ↦ u.subset p o (rw e at h)
        ];
        others = rw k.pends (delete-insert (c + 1) _ f.pending ∙ u.others);
        free_same = λ a. k.stays a ∙ u.free_same a;
        earlier =
            rw entry
              (AllUpTo-append c alloc (own_entry f (c + 1)).alloctx block u.earlier alloc_upto);
        booked = λ p t h.
            u.booked p t
              (upto_drop b laws (lookup page.id f.allocs) page.id p t f.allocs (rw k.booked at h));
        back = λ p o r h by. rw entry (
            rw (restored-append p (c + 1) alloc old_ids old_txs block (lookup p k.g.allocs) paired)
              (by_count p o r h (u.back p o r h by)));
      }
    where
      block : List ℕ
      block = ids b laws f (c + 1) page s.valid two upto

      alloc : ℕ
      alloc = alloc_txid (lookup page.id f.allocs) page (c + 1)

      alloc_upto : alloc ≤ c
      alloc_upto =
          alloc_txid-By b laws (lookup page.id f.allocs) page (c + 1) c plain
            (By-booked b laws f.allocs page.id c (u.booked page.id))

      old_ids : List ℕ
      old_ids = (own_entry f (c + 1)).ids

      old_txs : List ℕ
      old_txs = (own_entry f (c + 1)).alloctx

      paired : length old_txs ≡ length old_ids
      paired = lookup-Paired (c + 1) f.pending s.valid.paired

      covered : (p : ℕ) → count p block ≡ covers page p
      covered p = count-ids b laws f (c + 1) page s.valid two upto p

      -- A page of the version that is not the one freed has its book unchanged.
      elsewhere : (p : ℕ) → (page.id == p) ≡ false → lookup p k.g.allocs ≡ lookup p f.allocs
      elsewhere p e = rw k.booked (other_drop b laws (lookup page.id f.allocs) page.id p f.allocs e)

      by_block :
          (p o r : ℕ)
          → start p ≡ some o
          → By (lookup p f.allocs) r
          → By (restored p (c + 1) block (replicate (length block) alloc) (lookup p k.g.allocs)) r
      by_block p o r h by =
          rw (restored-replicate p (c + 1) alloc block (lookup p k.g.allocs))
            (elim (Bool-cases (ltb 0 (count p block))) [
              | inl inside ↦
                  let at : p ≡ page.id =
                    old.apart p page.id o page.overflow p h (u.subset page.id page.overflow here)
                      (ground arith) (ground (arith, inside, covered p)) in
                  rw inside (
                    rw (k.booked, at)
                      (restored_here (lookup page.id f.allocs) page (c + 1) r f.allocs refl plain
                        (rw at at by)))
              | inr outside ↦
                  let other : (page.id == p) ≡ false = elim (Bool-cases (page.id == p)) [
                    | inl e ↦ absurd (ground (arith, e, outside, covered p))
                    | inr e ↦ e
                  ] in
                  rw (outside, elsewhere p other) by
            ])

      by_count :
          (p o r : ℕ)
          → start p ≡ some o
          → By (restored p (c + 1) old_ids old_txs (lookup p f.allocs)) r
          → By
              (if ltb 0 (count p old_ids)
                then restored p (c + 1) old_ids old_txs (lookup p k.g.allocs)
                else restored p
                    (c + 1)
                    block
                    (replicate (length block) alloc)
                    (lookup p k.g.allocs))
              r
      by_count p o r h by = elim (Bool-cases (ltb 0 (count p old_ids))) [
        | inl freed ↦
            let other : (page.id == p) ≡ false = elim (Bool-cases (page.id == p)) [
              | inl e ↦ absurd (
                  ground (
                    arith,
                    e,
                    freed,
                    count-lookup p (c + 1) f.pending,
                    s.in_use page.id page.overflow page.id here (ground arith),
                  ))
              | inr e ↦ e
            ] in
            rw (freed, elsewhere p other) by
        | inr not_yet ↦ rw not_yet (
            by_block p o r h (
              rw
                (restored_absent p (c + 1) old_ids old_txs (lookup p f.allocs)
                  (ground (arith, not_yet)))
                at by))
      ]

      entry : own_entry k.g (c + 1) ≡ appended (own_entry f (c + 1)) block alloc
      entry = rw k.pends (
          ap or_new
            (lookup-insert (c + 1) (c + 1) (appended (own_entry f (c + 1)) block alloc) f.pending)
          ∙ (let same : ((c + 1) == (c + 1)) ≡ true = ground arith in rw same refl))
