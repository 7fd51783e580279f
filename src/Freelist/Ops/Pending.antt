-- ===== src/Freelist/Ops/Pending.antt =====
-- How often an id is pending, and what the operations on the pending lists do to that number.
use bbolt.Prelude.{
  ℕ, ◌+◌, ◌≡◌, refl, arith, [], ◌∷◌, count, count-append, length, ◌==◌, none, false, Bool-cases,
  inl, inr, length-append,
}
use bbolt.Prelude.Map.{Map, lookup, insert, delete, contains, DistinctKeys, contains→lookup}
use bbolt.Freelist.State.{TxPending, all_pending}
use bbolt.Freelist.Ops.{or_new, released_upto, kept_above, pending_count}

abbrev pub pending : ℕ → Map TxPending → ℕ
pending a [] = 0
pending a ((tid, txp) ∷ m) = count a txp.ids + pending a m

pub count-all_pending : (a : ℕ) (m : Map TxPending) → count a (all_pending m) ≡ pending a m
unfolding all_pending
count-all_pending a [] = refl
count-all_pending a ((tid, txp) ∷ m) =
    omega (arith, count-append a txp.ids (all_pending m), count-all_pending a m)

pub length-all_pending : (m : Map TxPending) → length (all_pending m) ≡ pending_count m
unfolding all_pending pending_count
length-all_pending [] = refl
length-all_pending ((tid, txp) ∷ m) =
    omega (arith, length-append txp.ids (all_pending m), length-all_pending m)

-- A new value for a key trades its ids for the old ones.
pub pending-insert :
    (a tid : ℕ) (txp : TxPending) (m : Map TxPending)
    → pending a (insert tid txp m) + count a (or_new (lookup tid m)).ids
      ≡ pending a m + count a txp.ids
unfolding insert lookup
pending-insert a tid txp [] = omega arith
pending-insert a tid txp ((k, v) ∷ m) = elim (Bool-cases (k == tid)) [
  | inl e ↦ rw e (omega arith)
  | inr e ↦ rw e (omega (arith, pending-insert a tid txp m))
]

pending-delete_absent :
    (a tid : ℕ) (m : Map TxPending) → lookup tid m ≡ none → pending a (delete tid m) ≡ pending a m
unfolding delete lookup
pending-delete_absent a tid [] h = refl
pending-delete_absent a tid ((k, v) ∷ m) h = elim (Bool-cases (k == tid)) [
  | inl e ↦ ground arith
  | inr e ↦
      let h' : lookup tid m ≡ none = ground arith in
      rw e (omega (arith, pending-delete_absent a tid m h'))
]

pub pending-delete :
    (a tid : ℕ) (m : Map TxPending)
    → DistinctKeys m
    → pending a (delete tid m) + count a (or_new (lookup tid m)).ids ≡ pending a m
unfolding delete lookup
pending-delete a tid [] d = omega arith
pending-delete a tid ((k, v) ∷ m) d = elim (Bool-cases (k == tid)) [
  | inl e ↦
      let e' : k ≡ tid = ground arith in
      let gone : lookup tid m ≡ none = contains→lookup tid m (rw e' at d.0) in
      rw e (omega (arith, pending-delete_absent a tid m gone))
  | inr e ↦ rw e (omega (arith, pending-delete a tid m d.1))
]

-- release parts the pending ids.
pub released-kept :
    (a txid : ℕ) (m : Map TxPending)
    → count a (released_upto txid m) + pending a (kept_above txid m) ≡ pending a m
unfolding released_upto kept_above
released-kept a txid [] = refl
released-kept a txid ((tid, txp) ∷ m) =
    ground (arith, count-append a txp.ids (released_upto txid m), released-kept a txid m)

pub contains-kept_above :
    (k txid : ℕ) (m : Map TxPending) → contains k m ≡ false → contains k (kept_above txid m) ≡ false
unfolding kept_above contains lookup
contains-kept_above k txid [] h = refl
contains-kept_above k txid ((tid, txp) ∷ m) h = ground (arith, contains-kept_above k txid m)

pub kept_above-DistinctKeys :
    (txid : ℕ) (m : Map TxPending) → DistinctKeys m → DistinctKeys (kept_above txid m)
unfolding kept_above
kept_above-DistinctKeys txid [] d = tt
kept_above-DistinctKeys txid ((tid, txp) ∷ m) d =
    ground (arith, kept_above-DistinctKeys txid m d.1, contains-kept_above tid txid m d.0)

-- Every entry has as many allocating transactions as ids.
abbrev pub Paired : Map TxPending → Type 0
Paired [] = Unit
Paired ((tid, txp) ∷ m) = (length txp.alloctx ≡ length txp.ids) × Paired m
