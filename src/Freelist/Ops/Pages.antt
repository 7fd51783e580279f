-- ===== src/Freelist/Ops/Pages.antt =====
-- The freelist on a page: what write puts there, read finds.
use bbolt.Prelude.{
  ℕ, zero, suc, ◌+◌, ◌≤◌, ◌≡◌, refl, sym, ap, ◌∙◌, arith, List, [], ◌∷◌, ◌++◌, ok, panic,
  out_of_fuel, Outcome, Bool, ◌>>=◌, ◌>>◌, assert, if◌then◌else◌, count, length, ltb, leb, ◌==◌,
  true, false, take, drop, SortedFrom, AscendingFrom-SortedFrom, SortedFrom-raise,
}
use Prim.Native.Nat.{bit_or}
use mathlib.Core.List.{append-nil}
use bbolt.Prelude.Sort.{sort, count-sort, sort-SortedFrom, length-sort}
use bbolt.Page.{Page, freelist_page_flag}
use bbolt.Page.Merge.Union.{mergepgids_fits}
use bbolt.Freelist.State.{Freelist, Backend, all_pending}
use bbolt.Freelist.Laws.{BackendLaws}
use bbolt.Freelist.Ops.{FreelistPage, count_all, copyall, write}
use bbolt.Freelist.Ops.Pending.{count-all_pending, length-all_pending}
use bbolt.Freelist.Ops.Valid.{IsValid, held}

drop_all : (n : ℕ) (xs : List ℕ) → length xs ≤ n → drop n xs ≡ []
drop_all zero [] h = refl
drop_all zero (x ∷ xs) h = absurd (omega arith)
drop_all (suc n) [] h = refl
drop_all (suc n) (x ∷ xs) h = drop_all n xs (omega arith)

-- A list that holds what the freelist holds, in order.
pub record Listing (b : Backend) (laws : BackendLaws b) (f : Freelist) (ids : List ℕ) : Type 0 where
  pub counted : (a : ℕ) → count a ids ≡ held b laws f a
  pub sized : length ids ≡ count_all b f
  pub sorted : SortedFrom 0 ids

-- A page of type freelist with this count and body.
abbrev written : FreelistPage → ℕ → List ℕ → FreelistPage
written p n words = record {
  header = record p.header { flags = bit_or p.header.flags freelist_page_flag; count = n };
  words = words;
}

-- write stays on its page.
pub write-header :
    (b : Backend) (f : Freelist) (p q : FreelistPage)
    → write b f p ≡ ok q
    → (q.header.id ≡ p.header.id) × (q.header.overflow ≡ p.header.overflow)
unfolding write
write-header b f p q h =
    by_tests (count_all b f == 0) (ltb (count_all b f) 0xFFFF)
      (leb (count_all b f) (length p.words)) (leb (count_all b f + 1) (length p.words))
      (copyall b f (take (count_all b f) p.words))
      (copyall b f (take (count_all b f) (drop 1 p.words))) h
  where
    header_of : FreelistPage → Outcome FreelistPage → Page
    header_of a (ok r) = r.header
    header_of a panic = a.header
    header_of a out_of_fuel = a.header

    same :
        (r : FreelistPage)
        → ok r ≡ ok q
        → r.header.id ≡ p.header.id
        → r.header.overflow ≡ p.header.overflow
        → (q.header.id ≡ p.header.id) × (q.header.overflow ≡ p.header.overflow)
    same r e i o =
        (ap (λ x. (header_of r x).id) (sym e) ∙ i, ap (λ x. (header_of r x).overflow) (sym e) ∙ o)

    by_tests :
        (empty short fits fits_long : Bool) (copied copied_long : Outcome (List ℕ))
        → (if empty
            then ok (written p 0 p.words)
            else if short
            then (assert fits
                >> (copied >>= λ ids.
                    ok (written p (count_all b f) (ids ++ drop (count_all b f) p.words))))
            else (assert fits_long
                >> (copied_long >>= λ ids.
                    ok (
                      written p 0xFFFF (count_all b f ∷ ids ++ drop (count_all b f + 1) p.words)))))
          ≡ ok q
        → (q.header.id ≡ p.header.id) × (q.header.overflow ≡ p.header.overflow)
    by_tests true short fits fits_long copied copied_long e = same _ e refl refl
    by_tests false true false fits_long copied copied_long e = absurd cc
    by_tests false true true fits_long panic copied_long e = absurd cc
    by_tests false true true fits_long out_of_fuel copied_long e = absurd cc
    by_tests false true true fits_long (ok ids) copied_long e = same _ e refl refl
    by_tests false false fits false copied copied_long e = absurd cc
    by_tests false false fits true copied panic e = absurd cc
    by_tests false false fits true copied out_of_fuel e = absurd cc
    by_tests false false fits true copied (ok ids) e = same _ e refl refl

module _ (b : Backend) (laws : BackendLaws b) (f : Freelist) (v : IsValid b laws f) where
  -- copyall fills a dst of exactly Count() words with the free and the pending ids, in order.
  pub copyall_lists :
      (dst : List ℕ)
      → length dst ≡ count_all b f
      → (ids : List ℕ) × (copyall b f dst ≡ ok ids) × Listing b laws f ids
  unfolding copyall count_all
  copyall_lists dst h =
      let free_ids = b.get_free_page_ids f in
      let pend = sort (all_pending f.pending) in
      let (counts, asc) = laws.get_free_page_ids_law f v.store in
      let both : length free_ids + length pend ≡ length dst = omega (
        arith,
        h,
        laws.free_count_law f v.store,
        length-sort (all_pending f.pending),
        length-all_pending f.pending,
      ) in
      let (r, e, u) = mergepgids_fits dst free_ids pend (omega arith) in
      let none_left = drop_all (length free_ids + length pend) dst (omega arith) in
      (
        r,
        e ∙ ap (λ t. ok (r ++ t)) none_left ∙ ap ok (append-nil r),
        record {
          counted = λ a. omega (
            arith,
            u.counted a,
            counts a,
            count-sort a (all_pending f.pending),
            count-all_pending a f.pending,
          );
          sized = omega (arith, u.sized, h);
          sorted =
              u.sorted 0
                (SortedFrom-raise 2 0 free_ids (AscendingFrom-SortedFrom 2 free_ids asc)
                  (λ a x. omega arith))
                (sort-SortedFrom (all_pending f.pending));
        },
      )
