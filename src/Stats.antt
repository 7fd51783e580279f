-- ===== src/Stats.antt =====
-- The counters of tx.go, db.go and bucket.go. A counter is an int64 in the code, a time.Duration one too;
-- here it is its 64-bit word, so that a negative count is the word of its two's complement.
use bbolt.Prelude.{ℕ, ◌+◌, ◌-◌, ◌<◌, ◌≡◌, ◌^◌, refl, arith, Option, none, some, ltb, if◌then◌else◌}
use bbolt.Freelist.State.{add64, sub64}
mod Tests

pub record TxStats : Type 0 where
  pub page_count : ℕ
  pub page_alloc : ℕ
  pub cursor_count : ℕ
  pub node_count : ℕ
  pub node_deref : ℕ
  pub rebalance : ℕ
  pub rebalance_time : ℕ
  pub split : ℕ
  pub spill : ℕ
  pub spill_time : ℕ
  pub write : ℕ
  pub write_time : ℕ

-- TxStats.add, by the atomic additions of the Inc methods.
unfoldable pub add : TxStats → TxStats → TxStats
add s other = record {
  page_count = add64 s.page_count other.page_count;
  page_alloc = add64 s.page_alloc other.page_alloc;
  cursor_count = add64 s.cursor_count other.cursor_count;
  node_count = add64 s.node_count other.node_count;
  node_deref = add64 s.node_deref other.node_deref;
  rebalance = add64 s.rebalance other.rebalance;
  rebalance_time = add64 s.rebalance_time other.rebalance_time;
  split = add64 s.split other.split;
  spill = add64 s.spill other.spill;
  spill_time = add64 s.spill_time other.spill_time;
  write = add64 s.write other.write;
  write_time = add64 s.write_time other.write_time;
}

-- TxStats.Sub.
unfoldable pub sub : TxStats → TxStats → TxStats
sub s other = record {
  page_count = sub64 s.page_count other.page_count;
  page_alloc = sub64 s.page_alloc other.page_alloc;
  cursor_count = sub64 s.cursor_count other.cursor_count;
  node_count = sub64 s.node_count other.node_count;
  node_deref = sub64 s.node_deref other.node_deref;
  rebalance = sub64 s.rebalance other.rebalance;
  rebalance_time = sub64 s.rebalance_time other.rebalance_time;
  split = sub64 s.split other.split;
  spill = sub64 s.spill other.spill;
  spill_time = sub64 s.spill_time other.spill_time;
  write = sub64 s.write other.write;
  write_time = sub64 s.write_time other.write_time;
}

-- Stats of the database.
pub record Stats : Type 0 where
  pub tx_stats : TxStats
  pub free_page_n : ℕ
  pub pending_page_n : ℕ
  pub pending_n : ℕ
  pub free_alloc : ℕ
  pub freelist_inuse : ℕ
  pub tx_n : ℕ
  pub open_tx_n : ℕ

-- Stats.Sub; what it does not set is 0 in the result.
unfoldable pub stats_sub : Stats → Option Stats → Stats
unfolding sub
stats_sub s none = s
stats_sub s (some other) = record {
  tx_stats = sub s.tx_stats other.tx_stats;
  free_page_n = s.free_page_n;
  pending_page_n = s.pending_page_n;
  pending_n = 0;
  free_alloc = s.free_alloc;
  freelist_inuse = s.freelist_inuse;
  tx_n = sub64 s.tx_n other.tx_n;
  open_tx_n = 0;
}

pub record BucketStats : Type 0 where
  pub branch_page_n : ℕ
  pub branch_overflow_n : ℕ
  pub leaf_page_n : ℕ
  pub leaf_overflow_n : ℕ
  pub key_n : ℕ
  pub depth : ℕ
  pub branch_alloc : ℕ
  pub branch_inuse : ℕ
  pub leaf_alloc : ℕ
  pub leaf_inuse : ℕ
  pub bucket_n : ℕ
  pub inline_bucket_n : ℕ
  pub inline_bucket_inuse : ℕ

-- BucketStats.Add, whose counts are not negative; the depth is the larger of the two.
unfoldable pub add_bucket_stats : BucketStats → BucketStats → BucketStats
add_bucket_stats s other = record {
  branch_page_n = add64 s.branch_page_n other.branch_page_n;
  branch_overflow_n = add64 s.branch_overflow_n other.branch_overflow_n;
  leaf_page_n = add64 s.leaf_page_n other.leaf_page_n;
  leaf_overflow_n = add64 s.leaf_overflow_n other.leaf_overflow_n;
  key_n = add64 s.key_n other.key_n;
  depth = if ltb s.depth other.depth then other.depth else s.depth;
  branch_alloc = add64 s.branch_alloc other.branch_alloc;
  branch_inuse = add64 s.branch_inuse other.branch_inuse;
  leaf_alloc = add64 s.leaf_alloc other.leaf_alloc;
  leaf_inuse = add64 s.leaf_inuse other.leaf_inuse;
  bucket_n = add64 s.bucket_n other.bucket_n;
  inline_bucket_n = add64 s.inline_bucket_n other.inline_bucket_n;
  inline_bucket_inuse = add64 s.inline_bucket_inuse other.inline_bucket_inuse;
}

sub64-add64 : (a b : ℕ) → a < 2 ^ 64 → b < 2 ^ 64 → sub64 (add64 a b) b ≡ a
sub64-add64 a b p q = omega arith

-- All counters are words.
pub record AreWords (s : TxStats) : Type 0 where
  pub page_count_word : s.page_count < 2 ^ 64
  pub page_alloc_word : s.page_alloc < 2 ^ 64
  pub cursor_count_word : s.cursor_count < 2 ^ 64
  pub node_count_word : s.node_count < 2 ^ 64
  pub node_deref_word : s.node_deref < 2 ^ 64
  pub rebalance_word : s.rebalance < 2 ^ 64
  pub rebalance_time_word : s.rebalance_time < 2 ^ 64
  pub split_word : s.split < 2 ^ 64
  pub spill_word : s.spill < 2 ^ 64
  pub spill_time_word : s.spill_time < 2 ^ 64
  pub write_word : s.write < 2 ^ 64
  pub write_time_word : s.write_time < 2 ^ 64

-- Sub takes back what add has added, also when a counter has wrapped around.
pub sub-add : (s other : TxStats) → AreWords s → AreWords other → sub (add s other) other ≡ s
unfolding sub add
sub-add s other p q =
    rw
      (
        sub64-add64 s.page_count other.page_count p.page_count_word q.page_count_word,
        sub64-add64 s.page_alloc other.page_alloc p.page_alloc_word q.page_alloc_word,
        sub64-add64 s.cursor_count other.cursor_count p.cursor_count_word q.cursor_count_word,
        sub64-add64 s.node_count other.node_count p.node_count_word q.node_count_word,
        sub64-add64 s.node_deref other.node_deref p.node_deref_word q.node_deref_word,
        sub64-add64 s.rebalance other.rebalance p.rebalance_word q.rebalance_word,
        sub64-add64 s.rebalance_time other.rebalance_time p.rebalance_time_word
            q.rebalance_time_word,
        sub64-add64 s.split other.split p.split_word q.split_word,
        sub64-add64 s.spill other.spill p.spill_word q.spill_word,
        sub64-add64 s.spill_time other.spill_time p.spill_time_word q.spill_time_word,
        sub64-add64 s.write other.write p.write_word q.write_word,
        sub64-add64 s.write_time other.write_time p.write_time_word q.write_time_word,
      )
      refl
