-- ===== src/Freelist/Hashmap.antt =====
-- The hashmap back end, freelist_hmap.go: the free ids as maximal spans of contiguous ids, in a map
-- by first id, a map by last id and a map from sizes to sets of first ids.
pub mod Maps
pub mod Spans
pub mod Merge
pub mod Allocate
pub mod Read
pub mod Init
use bbolt.Prelude.{
  ℕ, zero, suc, ◌+◌, ◌-◌, List, [], ◌∷◌, ◌++◌, Outcome, ok, panic, ◌>>=◌, ◌>>◌, assert, Bool, true,
  false, not, ◌&&◌, ltb, leb, ◌==◌, if◌then◌else◌, Option, none, some, range_from,
}
use bbolt.Prelude.Map.{Map, lookup, insert, delete}
use bbolt.Prelude.Sort.{sort}
use bbolt.Freelist.State.{Freelist, PidSet, Backend, add64, sub64, reindex}
use bbolt.Freelist.Array.{delete_range}

total_size : Map ℕ → ℕ
total_size [] = 0
total_size ((start, size) ∷ m) = size + total_size m

unfoldable pub hashmap_free_count : Freelist → ℕ
unfolding total_size
hashmap_free_count f = total_size f.forward_map

-- f.freemaps[size][start] = struct{}{}, making the inner map if it is not there.
unfoldable pub add_start : ℕ → ℕ → Map PidSet → Map PidSet
add_start start size freemaps =
    insert size (insert start tt (elim (lookup size freemaps) [ none ↦ [] | some starts ↦ starts ]))
      freemaps

-- delete(f.freemaps[size], start), and the inner map goes when it is empty.
put_back : ℕ → PidSet → Map PidSet → Map PidSet
put_back size [] freemaps = delete size freemaps
put_back size (s ∷ starts) freemaps = insert size (s ∷ starts) freemaps

unfoldable pub delete_start : ℕ → ℕ → Map PidSet → Map PidSet
unfolding put_back
delete_start start size freemaps = elim (lookup size freemaps) [
  | none ↦ delete size freemaps
  | some starts ↦ put_back size (delete start starts) freemaps
]

unfoldable pub add_span : Freelist → ℕ → ℕ → Freelist
unfolding add_start
add_span f start size = record f {
  backward_map = insert (add64 (sub64 start 1) size) size f.backward_map;
  forward_map = insert start size f.forward_map;
  freemaps = add_start start size f.freemaps;
}

unfoldable pub del_span : Freelist → ℕ → ℕ → Freelist
unfolding delete_start
del_span f start size = record f {
  forward_map = delete start f.forward_map;
  backward_map = delete (add64 start (sub64 size 1)) f.backward_map;
  freemaps = delete_start start size f.freemaps;
}

-- The two `if`s: what is left of the maps, and the span that has grown so far.
merge_prev : Freelist → ℕ → ℕ → Option ℕ → Freelist × ℕ × ℕ
merge_prev f pid prev none = (f, pid, 1)
merge_prev f pid prev (some pre_size) =
    (del_span f (sub64 (add64 prev 1) pre_size) pre_size, sub64 pid pre_size, add64 1 pre_size)

merge_next : Freelist → ℕ → ℕ → Option ℕ → Freelist × ℕ
merge_next f next size none = (f, size)
merge_next f next size (some next_size) = (del_span f next next_size, add64 size next_size)

unfoldable pub merge_with_existing_span : Freelist → ℕ → Freelist
unfolding add_span del_span merge_prev merge_next
merge_with_existing_span f pid =
    let prev = sub64 pid 1 in
    let next = add64 pid 1 in
    let pre_size = lookup prev f.backward_map in
    let next_size = lookup next f.forward_map in
    let (f1, start1, size1) = merge_prev f pid prev pre_size in
    let (f2, size2) = merge_next f1 next size1 next_size in add_span f2 start1 size2

unfoldable pub merge_all : Freelist → List ℕ → Freelist
unfolding merge_with_existing_span
merge_all f [] = f
merge_all f (id ∷ ids) = merge_all (merge_with_existing_span f id) ids

unfoldable pub hashmap_merge_spans : Freelist → List ℕ → Outcome Freelist
unfolding merge_all
hashmap_merge_spans f ids = ok (merge_all f ids)

-- A span in use: it leaves the maps, and its first `n` ids the cache.
take_span : Freelist → ℕ → ℕ → ℕ → ℕ → ℕ × Freelist
unfolding del_span delete_range
take_span f txid n pid size =
    let g = del_span f pid size in
    (pid, record g { allocs = insert pid txid g.allocs; cache = delete_range pid n g.cache })

-- A larger span: what is left of it goes back.
split_span : Freelist → ℕ → ℕ → ℕ → ℕ → ℕ × Freelist
unfolding del_span add_span delete_range
split_span f txid n pid size =
    let g = add_span (del_span f pid size) (add64 pid n) (sub64 size n) in
    (pid, record g { allocs = insert pid txid g.allocs; cache = delete_range pid n g.cache })

-- for size, bm := range f.freemaps: the first id of the first set that is large enough.
larger : ℕ → Map PidSet → Option (ℕ × ℕ)
larger n [] = none
larger n ((size, []) ∷ m) = larger n m
larger n ((size, (pid, u) ∷ starts) ∷ m) = if ltb size n then larger n m else some (pid, size)

exact : Option PidSet → Option ℕ
exact none = none
exact (some []) = none
exact (some ((pid, u) ∷ starts)) = some pid

unfoldable pub hashmap_allocate : Freelist → ℕ → ℕ → Outcome (ℕ × Freelist)
unfolding take_span split_span larger exact
hashmap_allocate f txid n = if n == 0 then ok (0, f) else elim (exact (lookup n f.freemaps)) [
  | some pid ↦ ok (take_span f txid n pid n)
  | none ↦ elim (larger n f.freemaps) [
    | some (pid, size) ↦ ok (split_span f txid n pid size)
    | none ↦ ok (0, f)
  ]
]

span_ids : Map ℕ → List ℕ
span_ids [] = []
span_ids ((start, size) ∷ m) = range_from start size ++ span_ids m

unfoldable pub hashmap_get_free_page_ids : Freelist → List ℕ
unfolding span_ids hashmap_free_count sort
hashmap_get_free_page_ids f =
    if hashmap_free_count f == 0 then [] else sort (span_ids f.forward_map)

-- sort.SliceIsSorted by `<`.
is_sorted : List ℕ → Bool
is_sorted [] = true
is_sorted (x ∷ []) = true
is_sorted (x ∷ y ∷ xs) = not (ltb y x) && is_sorted (y ∷ xs)

-- The loop of init, at the span from `start` that ends with `prev`, and the tail.
init_loop : Freelist → ℕ → ℕ → ℕ → List ℕ → Freelist
init_loop f start size prev [] =
    if not (size == 0) && not (start == 0) then add_span f start size else f
init_loop f start size prev (id ∷ ids) =
    let longer = init_loop f start (size + 1) id ids in
    let fresh = init_loop (add_span f start size) id 1 id ids in
    if id == add64 prev 1 then longer else fresh

unfoldable pub init : Freelist → List ℕ → Outcome Freelist
unfolding init_loop is_sorted add_span
init f [] = ok f
init f (id ∷ ids) = do
  assert (is_sorted (id ∷ ids))
  ok (init_loop (record f { freemaps = []; forward_map = []; backward_map = [] }) id 1 id ids)

unfoldable pub hashmap_read_ids : Freelist → List ℕ → Outcome Freelist
unfolding init reindex hashmap_get_free_page_ids
hashmap_read_ids f ids = do g ← init f ids; ok (reindex g (hashmap_get_free_page_ids g))

abbrev pub hashmap_backend : Backend
hashmap_backend = record {
  allocate = hashmap_allocate;
  free_count = hashmap_free_count;
  merge_spans = hashmap_merge_spans;
  get_free_page_ids = hashmap_get_free_page_ids;
  read_ids = hashmap_read_ids;
}
