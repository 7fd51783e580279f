-- ===== src/Freelist/Ops/Reread.antt =====
-- reload of a freelist page all of whose ids are pending.
use bbolt.Prelude.{
  ℕ, ◌+◌, ◌≤◌, ◌<◌, ◌≡◌, refl, ◌∙◌, arith, List, [], ◌∷◌, true, ok, ◌>>=◌, count, length,
  AscendingFrom, SortedFrom-AscendingFrom, SortedFrom-raise,
}
use bbolt.Prelude.Map.{contains}
use bbolt.Prelude.Sort.{sort, count-sort, sort-SortedFrom, length-sort}
use bbolt.Page.{has_flag, freelist_page_flag}
use bbolt.Freelist.State.{Freelist, PidSet, u64, reindex, add_all, all_pending}
use bbolt.Freelist.Array.{array_backend, array_read_ids, array_get_free_page_ids}
use bbolt.Freelist.Hashmap.{hashmap_backend, hashmap_read_ids, hashmap_get_free_page_ids, init}
use bbolt.Freelist.Hashmap.Allocate.{free_spans}
use bbolt.Freelist.Hashmap.Read.{get_free_page_ids-count}
use bbolt.Freelist.Hashmap.Init.{init-Built}
use bbolt.Freelist.Backends.{hashmap_laws, free_ids}
use bbolt.Freelist.Ops.{FreelistPage, page_ids, reload, read, not_pending}
use bbolt.Freelist.Ops.Pending.{pending, count-all_pending}
use bbolt.Freelist.Ops.Free.{contains-add_all}
use bbolt.Freelist.Ops.Valid.{IsValid}

not_pending-nil :
    (c : PidSet) (ids : List ℕ)
    → ((a : ℕ) → 0 < count a ids → contains a c ≡ true)
    → not_pending c ids ≡ []
unfolding not_pending
not_pending-nil c [] all = refl
not_pending-nil c (id ∷ ids) all =
    let here : contains id c ≡ true = all id (ground arith) in
    rw here (not_pending-nil c ids (λ a h. all a (ground (arith, h))))

all_pending-contains :
    (f : Freelist) (a : ℕ)
    → 0 < pending a f.pending
    → contains a (add_all (all_pending f.pending) []) ≡ true
all_pending-contains f a h =
    ground (arith, contains-add_all a (all_pending f.pending) [], count-all_pending a f.pending, h)

read_some :
    (f : Freelist) (id : ℕ) (ids : List ℕ)
    → AscendingFrom 2 (id ∷ ids)
    → ((a : ℕ) → 0 < count a (id ∷ ids) → a + 1 < u64)
    → (g : Freelist) × (hashmap_read_ids f (id ∷ ids) ≡ ok g)
      × ((a : ℕ) → free_spans g a ≡ count a (id ∷ ids))
      × (g.pending ≡ f.pending)
unfolding hashmap_read_ids reindex
read_some f id ids asc small =
    let (g, e, built) = init-Built f id ids asc small in
    (reindex g (hashmap_get_free_page_ids g), rw e refl, built.counts, built.same.pending)

-- init returns before it resets the maps.
read_none :
    (f : Freelist)
    → (g : Freelist) × (hashmap_read_ids f [] ≡ ok g)
      × ((a : ℕ) → free_spans g a ≡ free_spans f a)
      × (g.pending ≡ f.pending)
unfolding hashmap_read_ids init reindex
read_none f = (reindex f (hashmap_get_free_page_ids f), refl, λ a. refl, refl)

hashmap_reread :
    (f : Freelist) (ids : List ℕ)
    → 0 < length ids
    → AscendingFrom 2 ids
    → ((a : ℕ) → 0 < count a ids → (2 ≤ a) × (a + 1 < u64))
    → ((a : ℕ) → 0 < count a ids → 0 < pending a f.pending)
    → (h : Freelist) × ((hashmap_read_ids f ids >>= λ g.
          hashmap_read_ids g
            (not_pending (add_all (all_pending g.pending) []) (hashmap_get_free_page_ids g)))
        ≡ ok h)
      × ((a : ℕ) → free_spans h a ≡ count a ids)
      × (h.pending ≡ f.pending)
hashmap_reread f [] h asc range all = absurd (omega (arith, h))
hashmap_reread f (id ∷ ids) h asc range all =
    let (g, e, counts, pends) = read_some f id ids asc (λ a h. (range a h).1) in
    let (g2, e2, counts2, pends2) = read_none g in
    let none_left : not_pending (add_all (all_pending g.pending) []) (hashmap_get_free_page_ids g)
        ≡ [] =
      not_pending-nil (add_all (all_pending g.pending) []) (hashmap_get_free_page_ids g) (λ a h.
        all_pending-contains g a
          (rw pends (all a (omega (arith, h, counts a, get_free_page_ids-count g a))))) in
    (g2, rw (e, none_left) e2, λ a. omega (arith, counts2 a, counts a), pends2 ∙ pends)

module _ (f : Freelist) (p : FreelistPage) (id : ℕ) (ids : List ℕ)
    (typed : has_flag p.header.flags freelist_page_flag ≡ true)
    (on_page : page_ids p ≡ ok (id ∷ ids)) (one : (a : ℕ) → count a (id ∷ ids) ≤ 1)
    (range : (a : ℕ) → 0 < count a (id ∷ ids) → (2 ≤ a) × (a + 1 < u64))
    (all : (a : ℕ) → 0 < count a (id ∷ ids) → 0 < pending a f.pending) where
  sorted-ascending : AscendingFrom 2 (sort (id ∷ ids))
  sorted-ascending =
      SortedFrom-AscendingFrom 2 (sort (id ∷ ids))
        (SortedFrom-raise 0 2 (sort (id ∷ ids)) (sort-SortedFrom (id ∷ ids))
          (λ a h. (range a (omega (arith, h, count-sort a (id ∷ ids)))).0))
        (λ a. omega (arith, one a, count-sort a (id ∷ ids)))

  in_cache :
      (a : ℕ) → 0 < count a (id ∷ ids) → contains a (add_all (all_pending f.pending) []) ≡ true
  in_cache a h = all_pending-contains f a (all a h)

  array_reload :
      (g : Freelist) × (reload array_backend f p ≡ ok g)
      × ((a : ℕ) → free_ids g a ≡ 0)
      × (g.pending ≡ f.pending)
  unfolding reload read array_read_ids reindex array_get_free_page_ids
  array_reload =
      let none_left =
        not_pending-nil (add_all (all_pending f.pending) []) (sort (id ∷ ids))
          (λ a h. in_cache a (omega (arith, h, count-sort a (id ∷ ids)))) in
      let g1 = reindex (record f { ids = sort (id ∷ ids) }) (sort (id ∷ ids)) in
      (reindex (record g1 { ids = [] }) [], rw (typed, on_page, none_left) refl, λ a. refl, refl)

  hashmap_reload :
      (h : Freelist) × (reload hashmap_backend f p ≡ ok h)
      × ((a : ℕ) → free_spans h a ≡ count a (id ∷ ids))
      × (h.pending ≡ f.pending)
  unfolding reload read
  hashmap_reload =
      let (h, e, counts, pends) =
        hashmap_reread f (sort (id ∷ ids)) (omega (arith, length-sort (id ∷ ids))) sorted-ascending
          (λ a h. range a (omega (arith, h, count-sort a (id ∷ ids))))
          (λ a h. all a (omega (arith, h, count-sort a (id ∷ ids)))) in
      (h, rw (typed, on_page) e, λ a. omega (arith, counts a, count-sort a (id ∷ ids)), pends)

  -- reload of a page with the freelist flag and at least one id, each listed once, from 2 to 2 ^ 64 - 2
  -- and pending, differs by back end. With the array it returns a freelist on which no id is free. With
  -- the hashmap it returns one on which exactly the ids of the page are free; they are still pending,
  -- so that it is not valid. The pending lists stay.
  pub reload_pending :
      ((g : Freelist) × (reload array_backend f p ≡ ok g)
        × ((a : ℕ) → free_ids g a ≡ 0)
        × (g.pending ≡ f.pending))
      × ((h : Freelist) × (reload hashmap_backend f p ≡ ok h)
          × ((a : ℕ) → free_spans h a ≡ count a (id ∷ ids))
          × (h.pending ≡ f.pending)
          × ¬ IsValid hashmap_backend hashmap_laws h)
  reload_pending =
      let (h, e, counts, pends) = hashmap_reload in
      let here : 0 < count id (id ∷ ids) = ground arith in
      let pended : 0 < pending id h.pending = rw pends (all id here) in
      (array_reload, (h, e, counts, pends, λ v. omega (arith, v.once id, counts id, pended, here)))
