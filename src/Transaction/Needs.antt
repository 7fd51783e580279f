-- ===== src/Transaction/Needs.antt =====
-- What free adds to the pages that readers need.
use bbolt.Prelude.{
  ℕ, ◌+◌, ◌≡◌, refl, arith, List, [], ◌∷◌, ◌++◌, ltb, leb, ◌==◌, if◌then◌else◌, count, length,
  replicate, Bool-cases, inl, inr,
}
use bbolt.Prelude.Map.{Map, lookup, insert}
use bbolt.Freelist.State.{TxPending}
use bbolt.Freelist.Ops.{or_new}
use bbolt.Freelist.Ops.Pending.{Paired}
use bbolt.Freelist.Ops.Swap.{weigh}
use bbolt.Freelist.Ops.Rollback.{lookup-Paired}
use bbolt.Freelist.Ops.Free.{appended}
use bbolt.Freelist.Ops.Needed.{needed, seen_by}

-- What an entry adds.
abbrev pub entry_needed : ℕ → ℕ → ℕ → TxPending → ℕ
entry_needed a r tid txp = if ltb r tid then weigh (seen_by a r) txp.ids txp.alloctx else 0

needed-insert :
    (a r tid : ℕ) (txp : TxPending) (m : Map TxPending)
    → needed a r (insert tid txp m) + entry_needed a r tid (or_new (lookup tid m))
      ≡ needed a r m + entry_needed a r tid txp
unfolding insert lookup
needed-insert a r tid txp [] = ground arith
needed-insert a r tid txp ((k, v) ∷ m) = elim (Bool-cases (k == tid)) [
  | inl e ↦ let same : k ≡ tid = ground (arith, e) in rw (e, same) (omega arith)
  | inr e ↦ rw e (omega (arith, needed-insert a r tid txp m))
]

weigh-append_replicate :
    (a r t : ℕ) (xs ts ys : List ℕ)
    → length ts ≡ length xs
    → weigh (seen_by a r) (xs ++ ys) (ts ++ replicate (length ys) t)
      ≡ weigh (seen_by a r) xs ts + (if leb t r then count a ys else 0)
weigh-append_replicate a r t [] [] [] h = ground arith
weigh-append_replicate a r t [] [] (y ∷ ys) h =
    ground (arith, weigh-append_replicate a r t [] [] ys refl)
weigh-append_replicate a r t [] (u ∷ ts) ys h = absurd (omega arith)
weigh-append_replicate a r t (x ∷ xs) [] ys h = absurd (omega arith)
weigh-append_replicate a r t (x ∷ xs) (u ∷ ts) ys h =
    omega (arith, weigh-append_replicate a r t xs ts ys (omega arith))

-- The ids that a transaction frees, allocated at `t`, are needed by the readers from `t` on that are
-- before the transaction; and no page is needed less.
pub needed-appended :
    (a r tid t : ℕ) (ids : List ℕ) (m : Map TxPending)
    → Paired m
    → needed a r (insert tid (appended (or_new (lookup tid m)) ids t) m)
      ≡ needed a r m + (if ltb r tid then (if leb t r then count a ids else 0) else 0)
needed-appended a r tid t ids m p =
    let old = or_new (lookup tid m) in
    ground (
      arith,
      needed-insert a r tid (appended old ids t) m,
      weigh-append_replicate a r t old.ids old.alloctx ids (lookup-Paired tid m p),
    )
