-- ===== src/Transaction/Write.antt =====
-- write of tx.go: the dirty pages go to the file in the order of their ids, in chunks of at most
-- maxAllocSize - 1 bytes. `fails` says for which chunks writeAt gives an error. The count of writes, the
-- sync and the page pool are left out.
use bbolt.Prelude.{
  ℕ, zero, suc, ◌+◌, ◌-◌, ◌*◌, ◌/◌, ◌≤◌, ◌<◌, ◌≡◌, List, [], ◌∷◌, ◌++◌, Bool, true, false, Outcome,
  ok, out_of_fuel, ◌>>=◌, Option, none, some, ltb, ◌==◌, if◌then◌else◌, count, within,
}
use bbolt.Prelude.Map.{Map, lookup}
use bbolt.Prelude.Sort.{sort}

-- A call of writeAt: `size` bytes of a page from its byte `from` on, at an offset of the file.
pub record Chunk : Type 0 where
  pub page : ℕ
  pub from : ℕ
  pub size : ℕ
  pub offset : ℕ

-- The overflow of a dirty page.
abbrev pub overflow_of : Option ℕ → ℕ
overflow_of none = 0
overflow_of (some o) = o

abbrev pub keys : Map ℕ → List ℕ
keys [] = []
keys ((k, o) ∷ m) = k ∷ keys m

module _ (fails : Chunk → Bool) (max_alloc_size : ℕ) where
  -- A chunk, and the chunks behind it; whether there was no error.
  before_rest : Chunk → List Chunk × Bool → List Chunk × Bool
  before_rest c (cs, done) = (c ∷ cs, done)

  pub write_chunks : ℕ → ℕ → ℕ → ℕ → ℕ → Outcome (List Chunk × Bool)
  unfolding before_rest
  write_chunks zero page rem offset written = out_of_fuel
  write_chunks (suc k) page rem offset written =
      let size = if ltb (max_alloc_size - 1) rem then max_alloc_size - 1 else rem in
      let rest = write_chunks k page (rem - size) (offset + size) (written + size) in
      let c : Chunk = record { page = page; from = written; size = size; offset = offset } in
      if fails c
      then ok ([], false)
      else if rem - size == 0
      then ok (c ∷ [], true)
      else (rest >>= λ r. ok (before_rest c r))

  pub next_page : List Chunk → Outcome (List Chunk × Bool) → Outcome (List Chunk × Bool)
  next_page cs rest = rest >>= λ r. ok (cs ++ r.0, r.1)

  -- The pages, in the order of sort.Sort.
  pub write_pages : ℕ → Map ℕ → List ℕ → Outcome (List Chunk × Bool)
  unfolding write_chunks next_page
  write_pages page_size m [] = ok ([], true)
  write_pages page_size m (id ∷ ids) =
      let rest = write_pages page_size m ids in
      let rem = (overflow_of (lookup id m) + 1) * page_size in
      write_chunks (rem / (max_alloc_size - 1) + 1) id rem (id * page_size) 0 >>= λ r.
      if r.1 then next_page r.0 rest else ok r

  unfoldable pub write_dirty : ℕ → Map ℕ → Outcome (List Chunk × Bool)
  unfolding write_pages sort
  write_dirty page_size m = write_pages page_size m (sort (keys m))

-- How often a byte of the file is written.
abbrev pub hits : ℕ → List Chunk → ℕ
hits x [] = 0
hits x (c ∷ cs) = within x c.offset c.size + hits x cs

-- Every chunk is a part of a page, and goes where it stands in the file.
abbrev pub Placed : ℕ → ℕ → ℕ → List Chunk → Type 0
Placed page start size [] = Unit
Placed page start size (c ∷ cs) =
    (c.page ≡ page)
    × (c.offset ≡ start + c.from)
    × (c.from + c.size ≤ size)
    × Placed page start size cs

module _ (fails : Chunk → Bool) (max_alloc_size : ℕ) (some_bytes : 1 < max_alloc_size)
    (never : (c : Chunk) → fails c ≡ false) where
  pub record Written (page start size rem offset from : ℕ) (o : Outcome (List Chunk × Bool))
      : Type 0 where
    pub chunks : List Chunk
    pub returned : o ≡ ok (chunks, true)
    pub covered : (x : ℕ) → hits x chunks ≡ within x offset rem
    pub placed : Placed page start size chunks

abbrev pub size_of : ℕ → Map ℕ → ℕ → ℕ
size_of page_size m id = (overflow_of (lookup id m) + 1) * page_size

-- Every chunk is a part of a dirty page, and goes to its place in the file.
abbrev pub OnPages : ℕ → Map ℕ → List Chunk → Type 0
OnPages page_size m [] = Unit
OnPages page_size m (c ∷ cs) =
    (c.offset ≡ c.page * page_size + c.from)
    × (c.from + c.size ≤ size_of page_size m c.page)
    × OnPages page_size m cs

module _ (fails : Chunk → Bool) (max_alloc_size : ℕ) (some_bytes : 1 < max_alloc_size)
    (never : (c : Chunk) → fails c ≡ false) (page_size : ℕ) (m : Map ℕ) where
  record AllWritten (ids : List ℕ) : Type 0 where
    chunks : List Chunk
    returned : write_pages fails max_alloc_size page_size m ids ≡ ok (chunks, true)
    covered :
        (id x : ℕ)
        → 0 < count id ids
        → 0 < within x (id * page_size) (size_of page_size m id)
        → 0 < hits x chunks
    placed : OnPages page_size m chunks
