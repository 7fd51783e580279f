-- ===== src/Freelist/Ops.antt =====
-- The operations of freelist.go that both back ends share. `b` holds the function fields.
pub mod Pending
pub mod Valid
pub mod Free
pub mod Swap
pub mod Needed
pub mod Release
pub mod Rollback
pub mod Pages
pub mod Reload
pub mod Reread
use Prim.Native.Nat.{bit_or}
use bbolt.Prelude.{
  ℕ, zero, suc, ◌+◌, ◌-◌, ◌*◌, ◌%◌, ◌^◌, List, [], ◌∷◌, ◌++◌, Outcome, ok, panic, out_of_fuel,
  ◌>>=◌, ◌>>◌, assert, Bool, true, false, not, ◌&&◌, ◌||◌, ltb, leb, ◌==◌, if◌then◌else◌, Option,
  none, some, length, take, drop, get_elem?, range_from, replicate, set,
}
use bbolt.Prelude.Map.{Map, lookup, insert, delete, contains}
use bbolt.Prelude.Sort.{sort}
use bbolt.Page.{Page, has_flag, freelist_page_flag, page_header_size}
use bbolt.Page.Merge.{mergepgids}
use bbolt.Freelist.State.{
  Freelist, TxPending, PidSet, Backend, u64, add64, sub64, add_all, all_pending,
}

-- pending_count.
unfoldable pub pending_count : Map TxPending → ℕ
pending_count [] = 0
pending_count ((tid, txp) ∷ m) = length txp.ids + pending_count m

unfoldable pub freed : Freelist → ℕ → Bool
freed f pgid = contains pgid f.cache

abbrev pub new_pending : TxPending
new_pending = record { ids = []; alloctx = []; last_release_begin = 0 }

abbrev pub or_new : Option TxPending → TxPending
or_new none = new_pending
or_new (some txp) = txp

-- The transaction that allocated the page, by the book or by the rule for freelist pages.
unfoldable pub alloc_txid : Option ℕ → Page → ℕ → ℕ
alloc_txid (some allocated) p txid = allocated
alloc_txid none p txid = if has_flag p.flags freelist_page_flag then sub64 txid 1 else 0

abbrev pub drop_alloc : Option ℕ → ℕ → Map ℕ → Map ℕ
drop_alloc none id allocs = allocs
drop_alloc (some allocated) id allocs = delete id allocs

-- The loop of free over the ids of the page.
pub free_ids_loop : List ℕ → ℕ → TxPending → PidSet → Outcome (TxPending × PidSet)
free_ids_loop [] alloc txp cache = ok (txp, cache)
free_ids_loop (id ∷ ids) alloc txp cache =
    let next =
      free_ids_loop ids alloc
        (record txp { ids = txp.ids ++ id ∷ []; alloctx = txp.alloctx ++ alloc ∷ [] })
        (insert id tt cache) in
    if contains id cache then panic else next

-- free. The sum of the last id is a uint64; the loop runs up to it.
unfoldable pub free : Freelist → ℕ → Page → Outcome Freelist
unfolding free_ids_loop alloc_txid
free f txid p = if leb p.id 1 then panic else do
  let allocated = lookup p.id f.allocs
  let ids = range_from p.id (add64 p.id p.overflow + 1 - p.id)
  (txp, cache) ←
      free_ids_loop ids (alloc_txid allocated p txid) (or_new (lookup txid f.pending)) f.cache
  ok (record f {
    allocs = drop_alloc allocated p.id f.allocs;
    pending = insert txid txp f.pending;
    cache = cache;
  })

-- The entries that release moves, and those that it leaves.
unfoldable pub released_upto : ℕ → Map TxPending → List ℕ
released_upto txid [] = []
released_upto txid ((tid, txp) ∷ m) =
    let rest = released_upto txid m in if leb tid txid then txp.ids ++ rest else rest

unfoldable pub kept_above : ℕ → Map TxPending → Map TxPending
kept_above txid [] = []
kept_above txid ((tid, txp) ∷ m) =
    let rest = kept_above txid m in if leb tid txid then rest else (tid, txp) ∷ rest

-- xs[len(xs)-1].
unfoldable pub last_or_zero : List ℕ → ℕ
last_or_zero [] = 0
last_or_zero (x ∷ []) = x
last_or_zero (x ∷ y ∷ xs) = last_or_zero (y ∷ xs)

-- The inner loop of releaseRange at index `i`: an id that goes is replaced by the last one. An
-- alloctx that is shorter than ids panics.
pub release_loop : ℕ → ℕ → ℕ → ℕ → List ℕ → List ℕ → List ℕ → Outcome (List ℕ × List ℕ × List ℕ)
release_loop zero begin end i ids alloctx m = out_of_fuel
release_loop (suc k) begin end i ids alloctx m =
    let keep = release_loop k begin end (i + 1) ids alloctx m in
    let gone : Outcome (List ℕ × List ℕ × List ℕ) = elim (get_elem? ids i) [
      | none ↦ panic
      | some id ↦
          release_loop k begin end i (take (length ids - 1) (set ids i (last_or_zero ids)))
            (take (length alloctx - 1) (set alloctx i (last_or_zero alloctx))) (m ++ id ∷ [])
    ] in
    let body : Outcome (List ℕ × List ℕ × List ℕ) = elim (get_elem? alloctx i) [
      | none ↦ panic
      | some atx ↦ if ltb atx begin || ltb end atx then keep else gone
    ] in
    if ltb i (length ids) then body else ok (ids, alloctx, m)

-- One entry of pending in releaseRange, and the loop over the entries. Go visits each entry once;
-- deleting the visited one is allowed.
unfoldable pub release_entry : ℕ → ℕ → TxPending → Outcome (TxPending × List ℕ)
unfolding release_loop
release_entry begin end txp = do
  (ids, alloctx, m) ← release_loop (length txp.ids + 1) begin end 0 txp.ids txp.alloctx []
  ok (record { ids = ids; alloctx = alloctx; last_release_begin = begin }, m)

-- if len(txp.ids) == 0 { delete(f.pending, tid) }
unfoldable pub keep_entry : ℕ → TxPending → Map TxPending → Map TxPending
keep_entry tid txp m = elim txp.ids [ [] ↦ m | _ ∷ _ ↦ (tid, txp) ∷ m ]

pub release_entries : ℕ → ℕ → Map TxPending → Outcome (Map TxPending × List ℕ)
release_entries begin end [] = ok ([], [])
release_entries begin end ((tid, txp) ∷ m) = do
  (rest, ids) ← release_entries begin end m
  if ltb tid begin || ltb end tid || txp.last_release_begin == begin
      then ok ((tid, txp) ∷ rest, ids)
      else (do
        (txp', gone) ← release_entry begin end txp
        ok (keep_entry tid txp' rest, gone ++ ids))

-- The loop of rollback: the cache, allocs and m.
unfoldable pub rollback_loop :
    ℕ → List ℕ → List ℕ → PidSet → Map ℕ → List ℕ → Outcome (PidSet × Map ℕ × List ℕ)
rollback_loop txid [] alloctx cache allocs m = ok (cache, allocs, m)
rollback_loop txid (pgid ∷ ids) [] cache allocs m = panic
rollback_loop txid (pgid ∷ ids) (tx ∷ alloctx) cache allocs m =
    rollback_loop txid ids alloctx (delete pgid cache)
      (if tx == 0 then allocs else if tx == txid then allocs else insert pgid tx allocs)
      (if tx == 0 then m else if tx == txid then m ++ pgid ∷ [] else m)

-- The ids of a list that are not pending, by the map pcache.
unfoldable pub not_pending : PidSet → List ℕ → List ℕ
not_pending pcache [] = []
not_pending pcache (id ∷ ids) =
    let rest = not_pending pcache ids in if contains id pcache then rest else id ∷ rest

-- A freelist page: its header, and its body as the 64-bit words that the code views it as. A
-- view that is longer than the body is a fault.
pub record FreelistPage : Type 0 where
  pub header : Page
  pub words : List ℕ

-- The ids that a page holds: idx and count of read.
unfoldable pub page_ids : FreelistPage → Outcome (List ℕ)
page_ids p =
    if p.header.count == 0xFFFF
    then elim p.words [
      | [] ↦ panic
      | c ∷ words ↦
          if leb (2 ^ 63) c
          then panic
          else if ltb (length words) c
          then panic
          else ok (take c words)
    ]
    else if ltb (length p.words) p.header.count
    then panic
    else ok (take p.header.count p.words)

module _ (b : Backend) where
  unfoldable pub count_all : Freelist → ℕ
  unfolding pending_count
  count_all f = b.free_count f + pending_count f.pending

  -- size, in bytes.
  unfoldable pub size : Freelist → ℕ
  unfolding count_all
  size f = let n = count_all f in page_header_size + 8 * (if leb 0xFFFF n then n + 1 else n)

  unfoldable pub copyall : Freelist → List ℕ → Outcome (List ℕ)
  unfolding mergepgids
  copyall f dst = mergepgids dst (b.get_free_page_ids f) (sort (all_pending f.pending))

  unfoldable pub release : Freelist → ℕ → Outcome Freelist
  unfolding released_upto kept_above
  release f txid =
      b.merge_spans (record f { pending = kept_above txid f.pending })
        (released_upto txid f.pending)

  unfoldable pub release_range : Freelist → ℕ → ℕ → Outcome Freelist
  unfolding release_entries
  release_range f begin end = if ltb end begin then ok f else do
    (pending, m) ← release_entries begin end f.pending
    b.merge_spans (record f { pending = pending }) m

  undo : Freelist → ℕ → Option TxPending → Outcome Freelist
  unfolding rollback_loop
  undo f txid none = ok f
  undo f txid (some txp) = do
    (cache, allocs, m) ← rollback_loop txid txp.ids txp.alloctx f.cache f.allocs []
    b.merge_spans (record f { cache = cache; allocs = allocs; pending = delete txid f.pending }) m

  unfoldable pub rollback : Freelist → ℕ → Outcome Freelist
  unfolding undo
  rollback f txid = undo f txid (lookup txid f.pending)

  -- read. A page without ids empties the slice, and nothing else.
  unfoldable pub read : Freelist → FreelistPage → Outcome Freelist
  unfolding page_ids
  read f p = do
    assert (has_flag p.header.flags freelist_page_flag)
    ids ← page_ids p
    elim ids [ [] ↦ ok (record f { ids = [] }) | x ∷ xs ↦ b.read_ids f (sort (x ∷ xs)) ]

  -- The body of write: the count, or 0xFFFF and the count as the first word.
  unfoldable pub write : Freelist → FreelistPage → Outcome FreelistPage
  unfolding count_all copyall
  write f p =
      let l = count_all f in
      let flags = bit_or p.header.flags freelist_page_flag in
      if l == 0
      then ok (record p { header = record p.header { flags = flags; count = 0 } })
      else if ltb l 0xFFFF
      then (do
        assert (leb l (length p.words))
        ids ← copyall f (take l p.words)
        ok (record {
          header = record p.header { flags = flags; count = l };
          words = ids ++ drop l p.words;
        }))
      else (do
        assert (leb (l + 1) (length p.words))
        ids ← copyall f (take l (drop 1 p.words))
        ok (record {
          header = record p.header { flags = flags; count = 0xFFFF };
          words = l ∷ ids ++ drop (l + 1) p.words;
        }))

  unfoldable pub no_sync_reload : Freelist → List ℕ → Outcome Freelist
  unfolding not_pending
  no_sync_reload f pgids = b.read_ids f (not_pending (add_all (all_pending f.pending) []) pgids)

  unfoldable pub reload : Freelist → FreelistPage → Outcome Freelist
  unfolding read not_pending
  reload f p = do
    g ← read f p
    b.read_ids g (not_pending (add_all (all_pending g.pending) []) (b.get_free_page_ids g))
