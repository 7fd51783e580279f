-- ===== src/Database/Tests.antt =====
-- Two meta pages, and the theorems of the database at them. The hash of the tests is a sum.
use bbolt.Prelude.{
  ℕ, List, [], ◌∷◌, Option, ◌+◌, ◌-◌, ◌<◌, ◌≤◌, ◌≡◌, ◌^◌, refl, arith, ok, none, some,
}
use bbolt.Page.{Page}
use bbolt.Database.{Meta, current_meta, write_meta, mmap_size, magic_number, version_number}
use bbolt.Database.Batch.{run, try_solo, done}
use bbolt.Database.MetaPages.{Chosen, current_meta-Chosen, WrittenTo, write_meta-WrittenTo}
use bbolt.Database.MapSize.{mmap_size-bounds}

abbrev sum : Meta → ℕ
sum m = m.magic + m.pgid + m.txid

abbrev meta_6 : Meta
meta_6 = record {
  magic = magic_number;
  version = version_number;
  page_size = 4096;
  flags = 0;
  root = record { root = 3; sequence = 0 };
  flid = 0;
  pgid = 9;
  txid = 6;
  checksum = 0;
}

abbrev torn_7 : Meta
torn_7 = record meta_6 { txid = 7; checksum = 1 }

abbrev empty_page : Page
empty_page = record { id = 0; flags = 0; count = 0; overflow = 0 }

current_meta-Chosen_example : Chosen sum meta_6 torn_7 (current_meta sum meta_6 torn_7)
current_meta-Chosen_example = current_meta-Chosen sum meta_6 torn_7

write_meta-WrittenTo_example : WrittenTo sum meta_6 (write_meta sum meta_6 empty_page)
write_meta-WrittenTo_example = write_meta-WrittenTo sum (λ m c. refl) meta_6 empty_page refl refl

mmap_size-bounds_example :
    ((5000000000 ≤ 2 ^ 48 - 1)
      → (sz : ℕ) × (mmap_size 4096 (2 ^ 48 - 1) 5000000000 ≡ some sz)
        × (5000000000 ≤ sz)
        × (sz ≤ 2 ^ 48 - 1))
    × (2 ^ 48 - 1 < 5000000000 → mmap_size 4096 (2 ^ 48 - 1) 5000000000 ≡ none)
mmap_size-bounds_example = mmap_size-bounds 4096 (2 ^ 48 - 1) 5000000000 (omega arith) (omega arith)

-- The state is what is committed, and what the transaction has. The first and the third caller add to a
-- counter, and the second adds to it and fails.
abbrev three_calls : List (ℕ × (ℕ × ℕ → Option ℕ × (ℕ × ℕ)))
three_calls =
    (1, λ s. (none, (s.0, s.1 + 10)))
    ∷ (2, λ s. (some 7, (s.0, s.1 + 1000)))
    ∷ (3, λ s. (none, (s.0, s.1 + 100)))
    ∷ []

abbrev opened : ℕ × ℕ → Option ℕ × (ℕ × ℕ)
opened s = (none, (s.0, s.0))

abbrev dropped : ℕ × ℕ → ℕ × ℕ
dropped s = (s.0, 0)

abbrev stored : ℕ × ℕ → Option ℕ × (ℕ × ℕ)
stored s = (none, (s.1, 0))

second_is_alone :
    run opened dropped stored 4 three_calls (5, 0)
    ≡ ok ((2, try_solo) ∷ (1, done) ∷ (3, done) ∷ [], (115, 0))
unfolding run
second_is_alone = refl
