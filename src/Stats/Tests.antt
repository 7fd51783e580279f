-- ===== src/Stats/Tests.antt =====
-- Counters at the edge of their words.
use bbolt.Prelude.{ℕ, ◌<◌, ◌^◌}
use bbolt.Stats.{TxStats, AreWords}

abbrev counters : ℕ → TxStats
counters n = record {
  page_count = n;
  page_alloc = n;
  cursor_count = n;
  node_count = n;
  node_deref = n;
  rebalance = n;
  rebalance_time = n;
  split = n;
  spill = n;
  spill_time = n;
  write = n;
  write_time = n;
}

counters-AreWords : (n : ℕ) → n < 2 ^ 64 → AreWords (counters n)
counters-AreWords n p = record {
  page_count_word = p;
  page_alloc_word = p;
  cursor_count_word = p;
  node_count_word = p;
  node_deref_word = p;
  rebalance_word = p;
  rebalance_time_word = p;
  split_word = p;
  spill_word = p;
  spill_time_word = p;
  write_word = p;
  write_time_word = p;
}
