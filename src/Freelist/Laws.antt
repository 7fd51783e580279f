-- ===== src/Freelist/Laws.antt =====
-- What a back end of the freelist promises: a set of free ids, seen as a function that says how
-- often an id is free, and what each of the five functions does to it.
use bbolt.Prelude.{ℕ, ◌+◌, ◌≤◌, ◌<◌, ◌≡◌, List, Outcome, ok, count, length, within, AscendingFrom}
use bbolt.Prelude.Map.{Map, insert}
use bbolt.Freelist.State.{Freelist, Backend, SameRest, TxPending, PidSet, u64}
use bbolt.Freelist.Array.{delete_range}

-- `n` contiguous ids from `p` on are free.
abbrev pub FreeRun : (ℕ → ℕ) → ℕ → ℕ → Type 0
FreeRun free p n = (a : ℕ) → p ≤ a → a < p + n → 0 < free a

-- What allocate does: nothing, or it takes out a block that is free.
pub data Allocated (inv : Freelist → Type 0) (free : Freelist → ℕ → ℕ) (f : Freelist) (txid n : ℕ)
    (r : Outcome (ℕ × Freelist)) : Type 0 where
  full : r ≡ ok (0, f) → ((p : ℕ) → ¬ FreeRun (free f) p n) → Allocated inv free f txid n r
  taken :
      (p : ℕ) (g : Freelist)
      → r ≡ ok (p, g)
      → 2 ≤ p
      → p + n < u64
      → inv g
      → ((a : ℕ) → free f a ≡ free g a + within a p n)
      → g.allocs ≡ insert p txid f.allocs
      → g.cache ≡ delete_range p n f.cache
      → g.pending ≡ f.pending
      → Allocated inv free f txid n r

-- What mergeSpans and readIDs leave behind.
pub record Stored (inv : Freelist → Type 0) (free : Freelist → ℕ → ℕ) (want : ℕ → ℕ)
    (r : Outcome Freelist) (g : Freelist) : Type 0 where
  pub returned : r ≡ ok g
  pub valid : inv g
  pub counted : (a : ℕ) → free g a ≡ want a

pub record BackendLaws (b : Backend) : Type 1 where
  pub Inv : Freelist → Type 0
  pub free : Freelist → ℕ → ℕ
  -- Only the back end's own fields matter.
  pub stable :
      (f : Freelist) (allocs : Map ℕ) (pending : Map TxPending) (cache : PidSet)
      → Inv f
      → Inv (record f { allocs = allocs; pending = pending; cache = cache })
  pub free_stable :
      (f : Freelist) (allocs : Map ℕ) (pending : Map TxPending) (cache : PidSet) (a : ℕ)
      → free (record f { allocs = allocs; pending = pending; cache = cache }) a ≡ free f a
  pub in_range : (f : Freelist) → Inv f → (a : ℕ) → 0 < free f a → (2 ≤ a) × (a + 1 < u64)
  pub once : (f : Freelist) → Inv f → (a : ℕ) → free f a ≤ 1
  pub allocate_law :
      (f : Freelist) (txid n : ℕ)
      → 0 < n
      → Inv f
      → Allocated Inv free f txid n (b.allocate f txid n)
  pub merge_spans_law :
      (f : Freelist) (ids : List ℕ)
      → Inv f
      → ((a : ℕ) → free f a + count a ids ≤ 1)
      → ((a : ℕ) → 0 < count a ids → (2 ≤ a) × (a + 1 < u64))
      → (g : Freelist) × Stored Inv free (λ a. free f a + count a ids) (b.merge_spans f ids) g
        × SameRest f g
  pub get_free_page_ids_law :
      (f : Freelist)
      → Inv f
      → ((a : ℕ) → count a (b.get_free_page_ids f) ≡ free f a)
        × AscendingFrom 2 (b.get_free_page_ids f)
  pub free_count_law : (f : Freelist) → Inv f → b.free_count f ≡ length (b.get_free_page_ids f)
