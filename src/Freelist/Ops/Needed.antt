-- ===== src/Freelist/Ops/Needed.antt =====
-- The pending pages that a reader of an older state of the file still needs.
use bbolt.Prelude.{
  ℕ, ◌+◌, ◌≤◌, ◌≡◌, refl, arith, List, [], ◌∷◌, ◌&&◌, ◌==◌, leb, ltb, if◌then◌else◌, count,
}
use bbolt.Prelude.Map.{Map}
use bbolt.Freelist.State.{TxPending}
use bbolt.Freelist.Ops.{keep_entry, kept_above}
use bbolt.Freelist.Ops.Pending.{pending}
use bbolt.Freelist.Ops.Swap.{weigh}

-- Whether `x` is the page and a reader at `r` sees what transaction `t` has allocated.
abbrev pub seen_by : ℕ → ℕ → ℕ → ℕ → ℕ
seen_by a r x t = if x == a && leb t r then 1 else 0

-- How often the page `a` is pending that a reader at `r` needs: allocated up to `r`, and freed later.
abbrev pub needed : ℕ → ℕ → Map TxPending → ℕ
needed a r [] = 0
needed a r ((tid, txp) ∷ m) =
    (if ltb r tid then weigh (seen_by a r) txp.ids txp.alloctx else 0) + needed a r m

weigh_le : (a r : ℕ) (xs ts : List ℕ) → weigh (seen_by a r) xs ts ≤ count a xs
weigh_le a r [] ts = omega arith
weigh_le a r (x ∷ xs) [] = omega arith
weigh_le a r (x ∷ xs) (t ∷ ts) = ground (arith, weigh_le a r xs ts)

pub needed-pending : (a r : ℕ) (m : Map TxPending) → needed a r m ≤ pending a m
needed-pending a r [] = omega arith
needed-pending a r ((tid, txp) ∷ m) =
    ground (arith, needed-pending a r m, weigh_le a r txp.ids txp.alloctx)

pub needed-keep_entry :
    (a r tid : ℕ) (txp : TxPending) (m : Map TxPending)
    → needed a r (keep_entry tid txp m)
      ≡ (if ltb r tid then weigh (seen_by a r) txp.ids txp.alloctx else 0) + needed a r m
unfolding keep_entry
needed-keep_entry a r tid txp m = ground arith

pub needed-kept_above :
    (a r txid : ℕ) (m : Map TxPending) → txid ≤ r → needed a r (kept_above txid m) ≡ needed a r m
unfolding kept_above
needed-kept_above a r txid [] h = refl
needed-kept_above a r txid ((tid, txp) ∷ m) h = ground (arith, needed-kept_above a r txid m h)
