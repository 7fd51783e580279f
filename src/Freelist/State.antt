-- ===== src/Freelist/State.antt =====
-- The structs of freelist.go. Page ids and transaction ids are 64-bit words.
use bbolt.Prelude.{ℕ, ◌+◌, ◌-◌, ◌%◌, ◌^◌, List, [], ◌∷◌, ◌++◌, Outcome, ◌≡◌, refl, ◌∙◌}
use bbolt.Prelude.Map.{Map, insert}

abbrev pub u64 : ℕ
u64 = 2 ^ 64

-- a + b and a - b on uint64.
abbrev pub add64 : ℕ → ℕ → ℕ
add64 a b = (a + b) % u64

abbrev pub sub64 : ℕ → ℕ → ℕ
sub64 a b = (a + u64 - b) % u64

pub record TxPending : Type 0 where
  pub ids : List ℕ
  pub alloctx : List ℕ
  pub last_release_begin : ℕ

-- The values of the maps that stand for sets.
abbrev pub PidSet : Type 0
PidSet = Map (Unit {0})

-- The fields that hold data; those that hold functions are the record `Backend`.
pub record Freelist : Type 0 where
  pub ids : List ℕ
  pub allocs : Map ℕ
  pub pending : Map TxPending
  pub cache : PidSet
  pub freemaps : Map PidSet
  pub forward_map : Map ℕ
  pub backward_map : Map ℕ

-- The five function fields, which newFreelist fills by the freelist type.
pub record Backend : Type 0 where
  pub allocate : Freelist → ℕ → ℕ → Outcome (ℕ × Freelist)
  pub free_count : Freelist → ℕ
  pub merge_spans : Freelist → List ℕ → Outcome Freelist
  pub get_free_page_ids : Freelist → List ℕ
  pub read_ids : Freelist → List ℕ → Outcome Freelist

abbrev pub empty_freelist : Freelist
empty_freelist = record {
  ids = [];
  allocs = [];
  pending = [];
  cache = [];
  freemaps = [];
  forward_map = [];
  backward_map = [];
}

-- for … { f.cache[id] = struct{}{} }
unfoldable pub add_all : List ℕ → PidSet → PidSet
add_all [] cache = cache
add_all (id ∷ ids) cache = add_all ids (insert id tt cache)

-- The ids of all pending entries, in the order of iteration.
unfoldable pub all_pending : Map TxPending → List ℕ
all_pending [] = []
all_pending ((tid, txp) ∷ m) = txp.ids ++ all_pending m

-- reindex, on the ids that getFreePageIDs returns.
unfoldable pub reindex : Freelist → List ℕ → Freelist
unfolding add_all all_pending
reindex f free_ids = record f { cache = add_all (all_pending f.pending) (add_all free_ids []) }

-- Two states that differ in the back end's fields alone.
pub record SameRest (f g : Freelist) : Type 0 where
  pub allocs : g.allocs ≡ f.allocs
  pub pending : g.pending ≡ f.pending
  pub cache : g.cache ≡ f.cache

pub SameRest-refl : (f : Freelist) → SameRest f f
SameRest-refl f = record { allocs = refl; pending = refl; cache = refl }

pub SameRest-trans : {f g h : Freelist} → SameRest f g → SameRest g h → SameRest f h
SameRest-trans p q = record {
  allocs = q.allocs ∙ p.allocs;
  pending = q.pending ∙ p.pending;
  cache = q.cache ∙ p.cache;
}
