-- ===== src/Database/Batch.antt =====
-- run of a batch, db.go: the calls run in one Update; one that fails leaves the batch, to be run alone, and
-- the others are tried again. A call is a function on the state of the database, where safelyCall has
-- made an error of a panic. `begin`, `rollback` and `commit` stand for the calls of Begin, Rollback and
-- Commit in Update: each takes a state to the state that it leaves, with or without an error.
use bbolt.Prelude.{
  ℕ, zero, suc, ◌+◌, ◌<◌, ◌≡◌, ◌⊎◌, List, [], ◌∷◌, Outcome, ok, out_of_fuel, ◌>>=◌, Option, none,
  some, length, count,
}

-- What a caller gets.
pub data Reply (E : Type 0) : Type 0 where
  try_solo : Reply E
  done : Reply E
  failed : E → Reply E

module _ {S E : Type 0} (begin : S → Option E × S) (rollback : S → S)
    (commit : S → Option E × S) where
  -- A call with the number of its caller.
  abbrev pub Call : Type 0
  Call = ℕ × (S → Option E × S)

  -- The function of Update: the index of the call that fails, if one does, and the state.
  pub run_calls : ℕ → List Call → S → Option ℕ × S
  run_calls i [] s = (none, s)
  run_calls i ((caller, fn) ∷ calls) s =
      let (err, s') = fn s in elim err [ some e ↦ (some i, s') | none ↦ run_calls (i + 1) calls s' ]

  -- b.calls[failIdx], b.calls = b.calls[len(b.calls)-1], b.calls[:len(b.calls)-1]
  pub last_call : Call → List Call → Call
  last_call c [] = c
  last_call c (d ∷ calls) = last_call d calls

  pub but_last_call : Call → List Call → List Call
  but_last_call c [] = []
  but_last_call c (d ∷ calls) = c ∷ but_last_call d calls

  pub swap_out : ℕ → List Call → List Call
  unfolding last_call but_last_call
  swap_out i [] = []
  swap_out zero (c ∷ []) = []
  swap_out zero (c ∷ d ∷ calls) = last_call d calls ∷ but_last_call d calls
  swap_out (suc i) (c ∷ calls) = c ∷ swap_out i calls

  pub caller_at : ℕ → List Call → ℕ
  caller_at i [] = 0
  caller_at zero (c ∷ calls) = c.0
  caller_at (suc i) (c ∷ calls) = caller_at i calls

  -- for _, c := range b.calls { c.err <- err }
  pub answer : Reply E → List Call → List (ℕ × Reply E)
  answer r [] = []
  answer r (c ∷ calls) = (c.0, r) ∷ answer r calls

  -- Commit has ended.
  pub ended : List Call → Option E × S → Outcome (List (ℕ × Reply E) × S)
  unfolding answer
  ended calls (some e, s) = ok (answer (failed e) calls, s)
  ended calls (none, s) = ok (answer done calls, s)

  abbrev pub callers : List Call → List ℕ
  callers [] = []
  callers (c ∷ calls) = c.0 ∷ callers calls

  abbrev pub answered : List (ℕ × Reply E) → List ℕ
  answered [] = []
  answered (r ∷ replies) = r.0 ∷ answered replies

  -- The callers that are told that their call is done, and those that are to run theirs alone.
  abbrev pub succeeded : List (ℕ × Reply E) → List ℕ
  succeeded [] = []
  succeeded ((caller, done) ∷ replies) = caller ∷ succeeded replies
  succeeded ((caller, try_solo) ∷ replies) = succeeded replies
  succeeded ((caller, failed e) ∷ replies) = succeeded replies

  abbrev pub sent_away : List (ℕ × Reply E) → List ℕ
  sent_away [] = []
  sent_away ((caller, try_solo) ∷ replies) = caller ∷ sent_away replies
  sent_away ((caller, done) ∷ replies) = sent_away replies
  sent_away ((caller, failed e) ∷ replies) = sent_away replies

  abbrev pub In : Call → List Call → Type 0
  In c [] = ⊥
  In c (d ∷ calls) = (c ≡ d) ⊎ In c calls

  -- All calls run, each from the state that the one before it leaves, and none gives an error.
  abbrev pub Runs : List Call → S → S → Type 0
  Runs [] s t = t ≡ s
  Runs ((caller, fn) ∷ calls) s t = (s' : S) × (fn s ≡ (none, s')) × Runs calls s' t

  -- The calls run up to the one of this caller, which is the first that gives an error.
  abbrev pub FailsAt : ℕ → List Call → S → S → Type 0
  FailsAt who [] s t = ⊥
  FailsAt who ((caller, fn) ∷ calls) s t =
      ((e : E) × (fn s ≡ (some e, t)) × (caller ≡ who))
      ⊎ ((s' : S) × (fn s ≡ (none, s')) × FailsAt who calls s' t)

  -- run_calls, by what happens.
  data Tried (j : ℕ) (calls : List Call) (s : S) (r : Option ℕ × S) : Type 0 where
    all : (t : S) → r ≡ (none, t) → Runs calls s t → Tried j calls s r
    stopped :
        (i : ℕ) (t : S)
        → r ≡ (some (j + i), t)
        → i < length calls
        → FailsAt (caller_at i calls) calls s t
        → Tried j calls s r

  -- The function of Update has run; `retry` is what follows an error of a call.
  pub attempt :
      (ℕ → S → Outcome (List (ℕ × Reply E) × S))
      → List Call
      → Option ℕ × S
      → Outcome (List (ℕ × Reply E) × S)
  unfolding ended caller_at
  attempt retry calls (some i, s) =
      retry i (rollback s) >>= λ r. ok ((caller_at i calls, try_solo) ∷ r.0, r.1)
  attempt retry calls (none, s) = ended calls (commit s)

  -- Update, by what Begin gives.
  pub update :
      (ℕ → S → Outcome (List (ℕ × Reply E) × S))
      → List Call
      → Option E × S
      → Outcome (List (ℕ × Reply E) × S)
  unfolding attempt run_calls answer
  update retry calls (some e, s) = ok (answer (failed e) calls, s)
  update retry calls (none, s) = attempt retry calls (run_calls 0 calls s)

  unfoldable pub run : ℕ → List Call → S → Outcome (List (ℕ × Reply E) × S)
  unfolding update swap_out
  run zero calls s = out_of_fuel
  run (suc k) [] s = ok ([], s)
  run (suc k) (c ∷ calls) s =
      update (λ i s'. run k (swap_out i (c ∷ calls)) s') (c ∷ calls) (begin s)

  module _ (batch : List Call) where
    abbrev pub Part : List Call → Type 0
    Part calls = (c : Call) → In c calls → In c batch

    -- The attempts that end with an error of a call of these callers, one after the other. Each begins,
    -- runs calls of the batch up to the first one that fails, and is rolled back.
    abbrev pub RolledBack : List ℕ → S → S → Type 0
    RolledBack [] s t = t ≡ s
    RolledBack (who ∷ others) s t =
        (calls : List Call) × (s' : S) × (u : S) × Part calls
        × (begin s ≡ (none, s'))
        × FailsAt who calls s' u
        × RolledBack others (rollback u) t

    -- How the last attempt ends.
    pub data Ended (s s' : S) (replies : List (ℕ × Reply E)) : Type 0 where
      no_calls : s' ≡ s → succeeded replies ≡ [] → Ended s s' replies
      not_begun : (e : E) → begin s ≡ (some e, s') → succeeded replies ≡ [] → Ended s s' replies
      not_committed :
          (calls : List Call) (t u : S) (e : E)
          → Part calls
          → begin s ≡ (none, t)
          → Runs calls t u
          → commit u ≡ (some e, s')
          → succeeded replies ≡ []
          → Ended s s' replies
      committed :
          (calls : List Call) (t u : S)
          → Part calls
          → begin s ≡ (none, t)
          → Runs calls t u
          → commit u ≡ (none, s')
          → succeeded replies ≡ callers calls
          → Ended s s' replies

    pub record Ran (calls : List Call) (s : S) (o : Outcome (List (ℕ × Reply E) × S)) : Type 0 where
      pub replies : List (ℕ × Reply E)
      pub middle : S
      pub after : S
      pub returned : o ≡ ok (replies, after)
      pub once : (a : ℕ) → count a (answered replies) ≡ count a (callers calls)
      pub undone : RolledBack (sent_away replies) s middle
      pub finish : Ended middle after replies
