-- ===== src/RoCommLink/Tracker/Settle.antt =====
-- Each promise is set once.
use knowledge_acquisition.Prelude.{
  ℕ, ◌+◌, ◌≡◌, refl, arith, none, some, List, [], ◌∷◌, ◌==◌, if◌then◌else◌, lookup, remove,
  Option-cases, inl, inr,
}
use knowledge_acquisition.RoCommLink.Packet.{CommandResult, failed}
use knowledge_acquisition.RoCommLink.Tracker.{
  Transaction, Tracker, track, resolve, check_loop, check_timeouts, settle_failed,
}
use knowledge_acquisition.RoCommLink.Tracker.Keys.{Call, tracks, resolves, checks, step}

-- How often a key stands in a list.
module _ {ℓ} {V : Type ℓ} where
  unfoldable pub count_key : ℕ → List (ℕ × V) → ℕ
  count_key k [] = 0
  count_key k ((j, v) ∷ m) = (if j == k then 1 else 0) + count_key k m

  count_key-remove :
      (k j : ℕ) (m : List (ℕ × V)) {v : V}
      → lookup j m ≡ some v
      → count_key k (remove j m) + (if j == k then 1 else 0) ≡ count_key k m
  unfolding count_key
  count_key-remove k j [] e = ground arith
  count_key-remove k j ((i, w) ∷ m) {v} e = ground (arith, count_key-remove k j m {v = v})

-- The promises made for `k`: those set, and the one that waits.
abbrev pub promises : ℕ → Tracker → ℕ
promises k c = count_key k c.transactions + count_key k c.settled

unfoldable pub count : ℕ → List ℕ → ℕ
count k [] = 0
count k (j ∷ js) = (if j == k then 1 else 0) + count k js

pub count_key-settle_failed :
    (k : ℕ) (ks : List ℕ) (s : List (ℕ × CommandResult))
    → count_key k (settle_failed ks s) ≡ count k ks + count_key k s
unfolding count_key count
count_key-settle_failed k [] s = omega arith
count_key-settle_failed k (j ∷ ks) s =
    ground (arith, count_key-settle_failed k ks ((j, failed) ∷ s))

count_key-check_loop :
    (k now : ℕ) (m : List (ℕ × Transaction))
    → count_key k (check_loop now m).kept + count k (check_loop now m).given_up ≡ count_key k m
unfolding count_key count check_loop
count_key-check_loop k now [] = refl
count_key-check_loop k now ((j, t) ∷ m) = ground (arith, count_key-check_loop k now m)

-- The promises that a call makes for `k`: one, if it is a `track` of `k` that does not throw.
pub made : ℕ → Call → Tracker → ℕ
made k (tracks seq pkt now) c =
    if seq == k then elim (lookup seq c.transactions) [ none ↦ 1 | some t ↦ 0 ] else 0
made k (resolves seq r) c = 0
made k (checks now) c = 0

-- No call loses a promise or sets one twice: for each sequence number, the promises set and the
-- one that waits grow by the call's own new promise, and by nothing else.
pub promises-step :
    (k : ℕ) (call : Call) (c : Tracker) → promises k (step call c) ≡ promises k c + made k call c
unfolding step made count_key track resolve check_timeouts
promises-step k (tracks seq pkt now) c = ground arith
promises-step k (resolves seq r) c = elim (Option-cases (lookup seq c.transactions)) [
  | inl e ↦ rw (e, resolve) (omega arith)
  | inr (t, e) ↦ rw (e, resolve) (omega (arith, count_key-remove k seq c.transactions e))
]
promises-step k (checks now) c = omega (
  arith,
  count_key-settle_failed k (check_loop now c.transactions).given_up c.settled,
  count_key-check_loop k now c.transactions,
)
