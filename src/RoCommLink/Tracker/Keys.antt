-- ===== src/RoCommLink/Tracker/Keys.antt =====
-- The map's keys are distinct, each is its transaction's sequence number, and no transaction is
-- sent again more than three times.
use knowledge_acquisition.Prelude.{
  ℕ, ◌≤◌, ◌≡◌, arith, none, some, List, [], ◌∷◌, All, remove, Fresh, Distinct, Distinct-remove,
  Fresh-of_lookup, Option-cases, inl, inr,
}
use knowledge_acquisition.RoCommLink.Packet.{Packet, CommandResult}
use knowledge_acquisition.RoCommLink.Tracker.{
  Transaction, Tracker, track, resolve, check_loop, check_timeouts, max_retries,
}

abbrev pub EntryIsValid : ℕ × Transaction → Type 0
EntryIsValid (k, t) = (t.seq ≡ k) × (t.retries ≤ max_retries)

pub record IsValid (c : Tracker) : Type 0 where
  pub keys : Distinct c.transactions
  pub entries : All EntryIsValid c.transactions

All-remove :
    (k : ℕ) (m : List (ℕ × Transaction)) → All EntryIsValid m → All EntryIsValid (remove k m)
All-remove k [] h = tt
All-remove k ((j, t) ∷ m) h = ground (arith, All-remove k m h.1)

-- `track` keeps the map valid.
track-IsValid :
    (seq : ℕ) (pkt : Packet) (now : ℕ) (c d : Tracker)
    → IsValid c
    → track seq pkt now c ≡ some d
    → IsValid d
unfolding track
track-IsValid seq pkt now c d v e = ground (arith, Fresh-of_lookup seq c.transactions)

resolve-IsValid :
    (seq : ℕ) (r : CommandResult) (c : Tracker) → IsValid c → IsValid (resolve seq r c)
unfolding resolve
resolve-IsValid seq r c v =
    ground
      (arith, Distinct-remove seq c.transactions v.keys, All-remove seq c.transactions v.entries)

Fresh-check_loop :
    (k now : ℕ) (m : List (ℕ × Transaction)) → Fresh k m → Fresh k (check_loop now m).kept
unfolding check_loop
Fresh-check_loop k now [] f = tt
Fresh-check_loop k now ((j, t) ∷ m) f = ground (arith, Fresh-check_loop k now m f.1)

pub Distinct-check_loop :
    (now : ℕ) (m : List (ℕ × Transaction)) → Distinct m → Distinct (check_loop now m).kept
unfolding check_loop
Distinct-check_loop now [] d = tt
Distinct-check_loop now ((j, t) ∷ m) d =
    ground (arith, Fresh-check_loop j now m d.0, Distinct-check_loop now m d.1)

All-check_loop :
    (now : ℕ) (m : List (ℕ × Transaction))
    → All EntryIsValid m
    → All EntryIsValid (check_loop now m).kept
unfolding check_loop
All-check_loop now [] h = tt
All-check_loop now ((j, t) ∷ m) h = ground (arith, All-check_loop now m h.1)

check_timeouts-IsValid : (now : ℕ) (c : Tracker) → IsValid c → IsValid (check_timeouts now c).0
unfolding check_timeouts
check_timeouts-IsValid now c v = record {
  keys = Distinct-check_loop now c.transactions v.keys;
  entries = All-check_loop now c.transactions v.entries;
}

-- The calls of the tracker; a `track` that throws changes nothing.
pub data Call : Type 0 where
  tracks : ℕ → Packet → ℕ → Call
  resolves : ℕ → CommandResult → Call
  checks : ℕ → Call

unfoldable pub step : Call → Tracker → Tracker
step (tracks seq pkt now) c = elim (track seq pkt now c) [ none ↦ c | some d ↦ d ]
step (resolves seq r) c = resolve seq r c
step (checks now) c = (check_timeouts now c).0

-- Every call of the tracker keeps its invariant: distinct keys, each the sequence number of its
-- transaction, and at most three retries.
pub step-IsValid : (call : Call) (c : Tracker) → IsValid c → IsValid (step call c)
unfolding step
step-IsValid (tracks seq pkt now) c v = elim (Option-cases (track seq pkt now c)) [
  | inl e ↦ rw (e, step) v
  | inr (d, e) ↦ rw (e, step) (track-IsValid seq pkt now c d v e)
]
step-IsValid (resolves seq r) c v = resolve-IsValid seq r c v
step-IsValid (checks now) c v = check_timeouts-IsValid now c v

pub run : List Call → Tracker → Tracker
run [] c = c
run (call ∷ calls) c = run calls (step call c)

-- A tracker keeps its invariant through any sequence of calls: distinct keys, each the sequence number
-- of its transaction, and at most three retries.
pub run-IsValid : (calls : List Call) (c : Tracker) → IsValid c → IsValid (run calls c)
unfolding run
run-IsValid [] c v = v
run-IsValid (call ∷ calls) c v = run-IsValid calls (step call c) (step-IsValid call c v)
