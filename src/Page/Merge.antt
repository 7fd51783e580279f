-- ===== src/Page/Merge.antt =====
-- pgids.merge and mergepgids of page.go.
use bbolt.Prelude.{
  ℕ, zero, suc, ◌+◌, ◌≤◌, ◌<◌, ◌≡◌, refl, arith, List, [], ◌∷◌, ◌++◌, Outcome, ok, panic,
  out_of_fuel, ◌>>=◌, ltb, leb, if◌then◌else◌, length, take, drop, get_elem?, Option, none, some,
  Bool, true, false, not, replicate,
}
pub mod Union
use bbolt.Prelude.Search.{search_first}

-- lead[i] > follow[0], for an index in range.
abbrev pub ahead : List ℕ → ℕ → ℕ → Bool
ahead lead head i = elim (get_elem? lead i) [ none ↦ true | some x ↦ ltb head x ]

-- for len(lead) > 0 { … }, and the append of what is left in follow. follow[0] panics on an empty
-- follow.
pub merge_loop : ℕ → List ℕ → List ℕ → List ℕ → Outcome (List ℕ)
merge_loop zero merged lead follow = out_of_fuel
merge_loop (suc k) merged [] follow = ok (merged ++ follow)
merge_loop (suc k) merged (x ∷ lead) [] = panic
merge_loop (suc k) merged (x ∷ lead) (y ∷ follow) =
    let n = search_first (length (x ∷ lead)) (ahead (x ∷ lead) y) in
    let merged' = merged ++ take n (x ∷ lead) in
    let rest = merge_loop k merged' (y ∷ follow) (drop n (x ∷ lead)) in
    if leb (length (x ∷ lead)) n then ok (merged' ++ y ∷ follow) else rest

-- The part of dst that mergepgids writes; each round of the loop takes an element of lead.
merge_both : List ℕ → List ℕ → Outcome (List ℕ)
unfolding merge_loop
merge_both [] b = ok b
merge_both (x ∷ a) [] = ok (x ∷ a)
merge_both (x ∷ a) (y ∷ b) =
    let fuel = length (x ∷ a) + length (y ∷ b) + 1 in
    if ltb y x then merge_loop fuel [] (y ∷ b) (x ∷ a) else merge_loop fuel [] (x ∷ a) (y ∷ b)

-- dst is written from its start, and keeps what lies behind.
unfoldable pub mergepgids : List ℕ → List ℕ → List ℕ → Outcome (List ℕ)
unfolding merge_both
mergepgids dst a b =
    if ltb (length dst) (length a + length b)
    then panic
    else do merged ← merge_both a b; ok (merged ++ drop (length a + length b) dst)

unfoldable pub merge : List ℕ → List ℕ → Outcome (List ℕ)
unfolding mergepgids
merge [] b = ok b
merge (x ∷ a) [] = ok (x ∷ a)
merge (x ∷ a) (y ∷ b) = mergepgids (replicate (length (x ∷ a) + length (y ∷ b)) 0) (x ∷ a) (y ∷ b)
