-- ===== src/Freelist/Array.antt =====
-- The array back end of freelist.go: the free ids in one sorted slice.
pub mod Scan
use bbolt.Prelude.{
  ℕ, zero, suc, ◌+◌, ◌-◌, List, [], ◌∷◌, ◌++◌, Outcome, ok, panic, ◌>>=◌, Bool, not, ◌||◌, ltb, leb,
  ◌==◌, if◌then◌else◌, length, take, drop,
}
use bbolt.Prelude.Map.{Map, insert, delete}
use bbolt.Prelude.Sort.{sort}
use bbolt.Page.Merge.{merge}
use bbolt.Freelist.State.{Freelist, PidSet, Backend, add64, sub64, reindex}

-- for i := pgid(0); i < pgid(n); i++ { delete(f.cache, start+i) }
unfoldable pub delete_range : ℕ → ℕ → PidSet → PidSet
delete_range start zero cache = cache
delete_range start (suc n) cache = delete_range (start + 1) n (delete start cache)

-- What is done with the block of `n` ids that ends at index `i`: both ways to cut it out of the
-- slice leave the ids before and behind it.
unfoldable pub take_block : Freelist → ℕ → ℕ → ℕ → ℕ → ℕ × Freelist
unfolding delete_range
take_block f txid n i initial = (
  initial,
  record f {
    ids = if i + 1 == n then drop (i + 1) f.ids else take (i + 1 - n) f.ids ++ drop (i + 1) f.ids;
    cache = delete_range initial n f.cache;
    allocs = insert initial txid f.allocs;
  },
)

-- The loop of arrayAllocate over the ids from index `i` on.
pub scan : Freelist → ℕ → ℕ → List ℕ → ℕ → ℕ → ℕ → Outcome (ℕ × Freelist)
scan f txid n [] i initial previd = ok (0, f)
scan f txid n (id ∷ rest) i initial previd =
    let initial' = if previd == 0 || not (sub64 id previd == 1) then id else initial in
    let next = scan f txid n rest (i + 1) initial' id in
    if leb id 1
    then panic
    else if add64 (sub64 id initial') 1 == n
    then ok (take_block f txid n i initial')
    else next

-- The early return on an empty slice is the first clause of `scan`.
unfoldable pub array_allocate : Freelist → ℕ → ℕ → Outcome (ℕ × Freelist)
unfolding scan take_block
array_allocate f txid n = scan f txid n f.ids 0 0 0

unfoldable pub array_free_count : Freelist → ℕ
array_free_count f = length f.ids

unfoldable pub array_merge_spans : Freelist → List ℕ → Outcome Freelist
unfolding merge sort
array_merge_spans f ids = do merged ← merge f.ids (sort ids); ok (record f { ids = merged })

unfoldable pub array_get_free_page_ids : Freelist → List ℕ
array_get_free_page_ids f = f.ids

unfoldable pub array_read_ids : Freelist → List ℕ → Outcome Freelist
unfolding reindex
array_read_ids f ids = ok (reindex (record f { ids = ids }) ids)

abbrev pub array_backend : Backend
array_backend = record {
  allocate = array_allocate;
  free_count = array_free_count;
  merge_spans = array_merge_spans;
  get_free_page_ids = array_get_free_page_ids;
  read_ids = array_read_ids;
}
