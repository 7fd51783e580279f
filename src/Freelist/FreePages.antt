-- ===== src/Freelist/FreePages.antt =====
-- freePages of db.go: at its start a write transaction gives back what no open reader can see. A reader
-- is its transaction id, db.txs[i].meta.txid; sort.Sort of db.txs sorts these ids.
use bbolt.Prelude.{
  false, ℕ, ◌+◌, ◌-◌, ◌<◌, ◌≤◌, ◌≡◌, refl, ◌∙◌, arith, List, [], ◌∷◌, true, Bool-cases, ◌⊎◌, inl,
  inr, Outcome, ok, ◌>>=◌, ◌==◌, ltb, if◌then◌else◌, count, SortedFrom,
}
use bbolt.Prelude.Sort.{sort, sort-SortedFrom, count-sort}
use bbolt.Freelist.State.{TxPending, Freelist, Backend, add64, sub64}
use bbolt.Freelist.Laws.{BackendLaws}
use bbolt.Prelude.Map.{Map, contains}
use bbolt.Freelist.Ops.{release, release_range, kept_above}
use bbolt.Freelist.Ops.Pending.{pending, released-kept}
use bbolt.Freelist.Ops.Needed.{needed, needed-pending}
use bbolt.Freelist.Ops.Valid.{IsValid, held}
use bbolt.Freelist.Ops.Release.{release-Handed, release-needed, release_range-needed}

abbrev pub max_txid : ℕ
max_txid = 18446744073709551615

-- The loop over the sorted transactions, and the last extent behind it.
pub release_extents : Backend → ℕ → List ℕ → Freelist → Outcome Freelist
unfolding release_range
release_extents b minid [] f = release_range b f minid max_txid
release_extents b minid (t ∷ txs) f =
    release_range b f minid (sub64 t 1) >>= λ f'. release_extents b (add64 t 1) txs f'

abbrev pub first_or_max : List ℕ → ℕ
first_or_max [] = max_txid
first_or_max (t ∷ txs) = t

unfoldable pub free_pages : Backend → List ℕ → Freelist → Outcome Freelist
unfolding release release_extents sort
free_pages b txs f =
    let sorted = sort txs in
    let minid = first_or_max sorted in
    (if ltb 0 minid then release b f (minid - 1) else ok f) >>= λ f'.
    release_extents b minid sorted f'

-- The freelist that a call gives, on which a page that a reader needs is pending as it was.
pub record KeepsFor (b : Backend) (laws : BackendLaws b) (f : Freelist) (needs : ℕ → Type 0)
    (o : Outcome Freelist) : Type 0 where
  pub g : Freelist
  pub returned : o ≡ ok g
  pub valid : IsValid b laws g
  pub keeps : (a r : ℕ) → needs r → needed a r g.pending ≡ needed a r f.pending
  pub allocs_same : g.allocs ≡ f.allocs
  pub held_same : (a : ℕ) → held b laws g a ≡ held b laws f a
  pub fewer : (a : ℕ) → pending a g.pending ≤ pending a f.pending
  pub absent : (t : ℕ) → contains t f.pending ≡ false → contains t g.pending ≡ false

-- A reader among those of the list, or before the extents.
abbrev AmongOrBefore : ℕ → List ℕ → ℕ → Type 0
AmongOrBefore minid txs r = (r < minid) ⊎ (0 < count r txs)

from_lowest : (lo r : ℕ) (xs : List ℕ) → SortedFrom lo xs → 0 < count r xs → lo ≤ r
from_lowest lo r [] s h = absurd (omega arith)
from_lowest lo r (x ∷ xs) s h = ground (arith, from_lowest x r xs s.1)

-- A reader lies outside of the extent before the next transaction, and stays so for the rest.
out_of_extent :
    (minid t r : ℕ) (txs : List ℕ)
    → AmongOrBefore minid (t ∷ txs) r
    → SortedFrom t txs
    → 0 < t
    → sub64 t 1 ≡ t - 1
    → (r < minid) ⊎ (sub64 t 1 < r)
out_of_extent minid t r txs (inl before) s pos e = inl before
out_of_extent minid t r txs (inr among) s pos e =
    inr (omega (arith, e, from_lowest t r (t ∷ txs) (omega arith, s) among))

to_rest :
    (minid lo t r : ℕ) (txs : List ℕ)
    → AmongOrBefore minid (t ∷ txs) r
    → minid ≤ lo + 1
    → lo ≤ t
    → add64 t 1 ≡ t + 1
    → AmongOrBefore (add64 t 1) txs r
to_rest minid lo t r txs (inl before) near low e = inl (omega (arith, e))
to_rest minid lo t r txs (inr among) near low e = elim (Bool-cases (t == r)) [
  | inl same ↦ inl (ground (arith, e, same))
  | inr other ↦ inr (ground (arith, other, among))
]

module _ (b : Backend) (laws : BackendLaws b) where
  -- One extent, which may be empty.
  extent-KeepsFor :
      (f : Freelist) (begin end : ℕ)
      → IsValid b laws f
      → KeepsFor b laws f (λ r. (r < begin) ⊎ (end < r)) (release_range b f begin end)
  unfolding release_range
  extent-KeepsFor f begin end v = elim (Bool-cases (ltb end begin)) [
    | inl none ↦ rw none (record {
      g = f;
      returned = refl;
      valid = v;
      keeps = λ a r n. refl;
      allocs_same = refl;
      held_same = λ a. refl;
      fewer = λ a. omega arith;
      absent = λ t c. c;
    })
    | inr some_txid ↦
        let (g, returned, valid, over, keeps) =
          release_range-needed b laws f v begin end (ground arith) in
        record {
          g = g;
          returned = returned;
          valid = valid;
          keeps = keeps;
          allocs_same = over.allocs_same;
          held_same = over.held_same;
          fewer = over.fewer;
          absent = over.absent;
        }
  ]

  release_extents-KeepsFor :
      (f : Freelist) (minid lo : ℕ) (txs : List ℕ)
      → IsValid b laws f
      → SortedFrom lo txs
      → minid ≤ lo + 1
      → ((r : ℕ) → 0 < count r txs → (0 < r) × (r < max_txid))
      → KeepsFor b laws f (AmongOrBefore minid txs) (release_extents b minid txs f)
  unfolding release_extents
  release_extents-KeepsFor f minid lo [] v s near ids =
      let e = extent-KeepsFor f minid max_txid v in
      record {
        g = e.g;
        returned = e.returned;
        valid = e.valid;
        keeps = λ a r n. e.keeps a r (ground (arith, n));
        allocs_same = e.allocs_same;
        held_same = e.held_same;
        fewer = e.fewer;
        absent = e.absent;
      }
  release_extents-KeepsFor f minid lo (t ∷ txs) v s near ids =
      let e = extent-KeepsFor f minid (sub64 t 1) v in
      let (pos, small) = ids t (ground arith) in
      let previous : sub64 t 1 ≡ t - 1 = omega arith in
      let following : add64 t 1 ≡ t + 1 = omega arith in
      let rest =
        release_extents-KeepsFor e.g (add64 t 1) t txs e.valid s.1 (omega arith)
          (λ r c. ids r (ground (arith, c))) in
      record {
        g = rest.g;
        returned = rw e.returned rest.returned;
        valid = rest.valid;
        keeps = λ a r n.
            rest.keeps a r (to_rest minid lo t r txs n near s.0 following)
            ∙ e.keeps a r (out_of_extent minid t r txs n s.1 pos previous);
        allocs_same = rest.allocs_same ∙ e.allocs_same;
        held_same = λ a. rest.held_same a ∙ e.held_same a;
        fewer = λ a. omega (arith, rest.fewer a, e.fewer a);
        absent = λ u c. rest.absent u (e.absent u c);
      }

  pub free_pages-KeepsFor :
      (f : Freelist) (txs : List ℕ)
      → IsValid b laws f
      → ((r : ℕ) → 0 < count r txs → (0 < r) × (r < max_txid))
      → KeepsFor b laws f (λ r. 0 < count r txs) (free_pages b txs f)
  unfolding free_pages
  free_pages-KeepsFor f txs v ids =
      by_sorted (sort txs) (sort-SortedFrom txs) (λ r. count-sort r txs)
    where
      by_sorted :
          (xs : List ℕ)
          → SortedFrom 0 xs
          → ((r : ℕ) → count r xs ≡ count r txs)
          → KeepsFor b laws f
              (λ r. 0 < count r txs)
              ((if ltb 0 (first_or_max xs) then release b f (first_or_max xs - 1) else ok f)
                >>= λ f'. release_extents b (first_or_max xs) xs f')
      by_sorted [] s same =
          let (g, returned, valid, over, keeps) = release-needed b laws f v (max_txid - 1) in
          let rest =
            release_extents-KeepsFor g max_txid max_txid [] valid tt (omega arith)
              (λ r c. absurd (omega arith)) in
          record {
            g = rest.g;
            returned = rw returned rest.returned;
            valid = rest.valid;
            keeps = λ a r n. absurd (omega (arith, same r));
            allocs_same = rest.allocs_same ∙ over.allocs_same;
            held_same = λ a. rest.held_same a ∙ over.held_same a;
            fewer = λ a. omega (arith, rest.fewer a, over.fewer a);
            absent = λ u c. rest.absent u (over.absent u c);
          }
      by_sorted (t ∷ xs) s same =
          let (pos, small) = ids t (ground (arith, same t)) in
          let (g, returned, valid, over, keeps) = release-needed b laws f v (t - 1) in
          let rest =
            release_extents-KeepsFor g t t (t ∷ xs) valid (omega arith, s.1) (omega arith)
              (λ r c. ids r (omega (arith, same r))) in
          let some_before : ltb 0 t ≡ true = ground arith in
          record {
            g = rest.g;
            returned = rw (some_before, returned) rest.returned;
            valid = rest.valid;
            keeps = λ a r n.
                rest.keeps a r (inr (omega (arith, same r)))
                ∙ keeps a r (
                    omega
                      (arith, from_lowest t r (t ∷ xs) (omega arith, s.1) (omega (arith, same r))));
            allocs_same = rest.allocs_same ∙ over.allocs_same;
            held_same = λ a. rest.held_same a ∙ over.held_same a;
            fewer = λ a. omega (arith, rest.fewer a, over.fewer a);
            absent = λ u c. rest.absent u (over.absent u c);
          }

-- On a valid freelist freePages returns a valid one, in which a page that an open reader needs, one that
-- was allocated up to the reader's transaction and freed by a later one, is pending as before and not
-- free. The ids of the readers are neither 0 nor the largest id.
pub free_pages-needed :
    (b : Backend) (laws : BackendLaws b) (f : Freelist) (txs : List ℕ) (a r : ℕ)
    → IsValid b laws f
    → ((r : ℕ) → 0 < count r txs → (0 < r) × (r < max_txid))
    → 0 < count r txs
    → 0 < needed a r f.pending
    → (g : Freelist) × (free_pages b txs f ≡ ok g)
      × IsValid b laws g
      × (needed a r g.pending ≡ needed a r f.pending)
      × (laws.free g a ≡ 0)
free_pages-needed b laws f txs a r v ids reads need =
    let k = free_pages-KeepsFor b laws f txs v ids in
    let same = k.keeps a r reads in
    (
      k.g,
      k.returned,
      k.valid,
      same,
      omega (arith, same, k.valid.once a, needed-pending a r k.g.pending),
    )

-- Whether all entries are of transactions up to a txid.
abbrev pub UpTo : ℕ → Map TxPending → Type 0
UpTo txid [] = Unit
UpTo txid ((tid, txp) ∷ m) = (tid ≤ txid) × UpTo txid m

kept_above-UpTo : (txid : ℕ) (m : Map TxPending) → UpTo txid m → kept_above txid m ≡ []
unfolding kept_above
kept_above-UpTo txid [] u = refl
kept_above-UpTo txid ((tid, txp) ∷ m) u = ground (arith, kept_above-UpTo txid m u.1)

-- If no reader is open, freePages makes every pending page free, whichever transactions had it pending
-- (up to 2 ^ 64 - 2), so that no page stays pending for ever.
pub free_pages-drains :
    (b : Backend) (laws : BackendLaws b) (f : Freelist)
    → IsValid b laws f
    → UpTo (max_txid - 1) f.pending
    → (g : Freelist) × (free_pages b [] f ≡ ok g)
      × IsValid b laws g
      × ((a : ℕ)
          → (pending a g.pending ≡ 0) × (laws.free g a ≡ laws.free f a + pending a f.pending))
unfolding free_pages sort
free_pages-drains b laws f v u =
    let done = release-Handed b laws f v (max_txid - 1) in
    let none_left = kept_above-UpTo (max_txid - 1) f.pending u in
    let rest =
      release_extents-KeepsFor b laws done.g max_txid max_txid [] done.valid tt (omega arith)
        (λ r c. absurd (omega arith)) in
    let gone : (a : ℕ) → pending a done.g.pending ≡ 0 = λ a. rw (done.pends, none_left) refl in
    let gone_before : (a : ℕ) → pending a (kept_above (max_txid - 1) f.pending) ≡ 0 =
      λ a. rw none_left refl in
    (
      rest.g,
      rw done.returned rest.returned,
      rest.valid,
      λ a. (
        omega (arith, gone a, rest.fewer a),
        omega (
          arith,
          gone a,
          rest.fewer a,
          rest.held_same a,
          done.gained a,
          released-kept a (max_txid - 1) f.pending,
          gone_before a,
        ),
      ),
    )
