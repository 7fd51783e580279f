-- ===== src/Freelist/Ops/Valid.antt =====
-- The invariant of the freelist, over what a back end promises, and what allocate does to it.
use bbolt.Prelude.{ℕ, zero, suc, ◌+◌, ◌≤◌, ◌<◌, ◌≡◌, arith, ok, within, ltb, if◌then◌else◌, false}
use bbolt.Prelude.Map.{insert, delete, contains, DistinctKeys, contains-delete}
use bbolt.Freelist.State.{Freelist, Backend, PidSet, u64}
use bbolt.Freelist.Array.{delete_range}
use bbolt.Freelist.Laws.{BackendLaws, Allocated, full, taken, FreeRun}
use bbolt.Freelist.Ops.{freed}
use bbolt.Freelist.Ops.Pending.{pending, Paired}

module _ (b : Backend) (laws : BackendLaws b) where
  -- How often an id is held, free or pending.
  abbrev pub held : Freelist → ℕ → ℕ
  held f a = laws.free f a + pending a f.pending

  -- No page is held twice, and the cache knows exactly the pages that are held.
  pub record IsValid (f : Freelist) : Type 0 where
    pub store : laws.Inv f
    pub distinct : DistinctKeys f.pending
    pub paired : Paired f.pending
    pub once : (a : ℕ) → held f a ≤ 1
    pub in_range : (a : ℕ) → 0 < pending a f.pending → (2 ≤ a) × (a + 1 < u64)
    pub cached : (a : ℕ) → contains a f.cache ≡ ltb 0 (held f a)

pub contains-delete_range :
    (a start n : ℕ) (cache : PidSet)
    → contains a (delete_range start n cache)
      ≡ (if ltb 0 (within a start n) then false else contains a cache)
unfolding delete_range
contains-delete_range a start zero cache = ground arith
contains-delete_range a start (suc n) cache = ground (
  arith,
  contains-delete_range a (start + 1) n (delete start cache),
  contains-delete start a cache,
)

module _ (b : Backend) (laws : BackendLaws b) (f g : Freelist) (txid n p : ℕ) (v : IsValid b laws f)
    (inv : laws.Inv g) (counts : (a : ℕ) → laws.free f a ≡ laws.free g a + within a p n)
    (cache : g.cache ≡ delete_range p n f.cache) (same : g.pending ≡ f.pending) where
  taken-IsValid : IsValid b laws g
  taken-IsValid = record {
    store = inv;
    distinct = rw same v.distinct;
    paired = rw same v.paired;
    once = λ a. rw same (omega (arith, counts a, v.once a));
    in_range = λ a. rw same (v.in_range a);
    cached = λ a.
        rw (same, cache)
          (ground (arith, contains-delete_range a p n f.cache, counts a, v.once a, v.cached a));
  }

-- What a call of allocate on a valid freelist does: it gives 0 and leaves the freelist alone when no
-- `n` contiguous pages are free, and otherwise takes such pages out, so that they are held no longer.
pub data AllocateOk (b : Backend) (laws : BackendLaws b) (f : Freelist) (txid n : ℕ) : Type 0 where
  no_room :
      b.allocate f txid n ≡ ok (0, f)
      → ((p : ℕ) → ¬ FreeRun (laws.free f) p n)
      → AllocateOk b laws f txid n
  pages :
      (p : ℕ) (g : Freelist)
      → b.allocate f txid n ≡ ok (p, g)
      → 2 ≤ p
      → IsValid b laws g
      → ((a : ℕ) → laws.free f a ≡ laws.free g a + within a p n)
      → ((a : ℕ) → 0 < within a p n → (laws.free f a ≡ 1) × (freed g a ≡ false))
      → g.pending ≡ f.pending
      → g.allocs ≡ insert p txid f.allocs
      → AllocateOk b laws f txid n

-- allocate, of either back end and for n > 0 pages, keeps a valid freelist valid and never panics. It
-- gives 0 and changes nothing only if no n contiguous pages are free. Otherwise the n pages from
-- its result on were free, are not held afterwards, and are booked to the transaction; all other
-- pages, and the pending ones, are as before.
pub allocate_valid :
    (b : Backend) (laws : BackendLaws b) (f : Freelist) (txid n : ℕ)
    → 0 < n
    → IsValid b laws f
    → AllocateOk b laws f txid n
unfolding freed
allocate_valid b laws f txid n pos v = view (laws.allocate_law f txid n pos v.store)
  where
    view : Allocated laws.Inv laws.free f txid n (b.allocate f txid n) → AllocateOk b laws f txid n
    view (full e none_left) = no_room e none_left
    view (taken p g e two top inv counts allocs cache same) =
        let w = taken-IsValid b laws f g txid n p v inv counts cache same in
        pages p g e two w counts
          (λ a h. (
            ground (arith, counts a, laws.once f v.store a),
            ground (arith, h, counts a, v.once a, w.cached a, same),
          ))
          same allocs
