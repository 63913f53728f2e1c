-- ===== src/RoCommLink/Tracker/Expiry.antt =====
-- A command that is never acknowledged is sent again three times and then given up.
use knowledge_acquisition.Prelude.{
  ℕ, ◌+◌, ◌≤◌, ◌<◌, ◌≡◌, refl, arith, Option, none, some, List, [], ◌∷◌, ltb, if◌then◌else◌, ◌∙◌,
  ◌⊎◌, length, lookup, Fresh, Distinct, inl, inr,
}
use knowledge_acquisition.RoCommLink.Packet.{CommandResult, failed}
use knowledge_acquisition.RoCommLink.Tracker.{
  Transaction, Tracker, check_loop, check_timeouts, settle_failed, expired, max_retries,
  timeout_duration,
}
use knowledge_acquisition.RoCommLink.Tracker.Keys.{IsValid, step, checks, step-IsValid}

-- What a check does to one transaction.
abbrev pub checked : ℕ → Transaction → Option Transaction
checked now t =
    if expired now t
    then if ltb t.retries max_retries
      then some (record t { retries = t.retries + 1; last_sent = now })
      else none
    else some t

abbrev pub checked? : ℕ → Option Transaction → Option Transaction
checked? now none = none
checked? now (some t) = checked now t

lookup-kept-Fresh :
    (k now : ℕ) (m : List (ℕ × Transaction)) → Fresh k m → lookup k (check_loop now m).kept ≡ none
unfolding check_loop
lookup-kept-Fresh k now [] f = refl
lookup-kept-Fresh k now ((j, t) ∷ m) f = ground (arith, lookup-kept-Fresh k now m f.1)

lookup-kept :
    (k now : ℕ) (m : List (ℕ × Transaction))
    → Distinct m
    → lookup k (check_loop now m).kept ≡ checked? now (lookup k m)
unfolding check_loop
lookup-kept k now [] d = refl
lookup-kept k now ((j, t) ∷ m) d =
    ground (arith, lookup-kept k now m d.1, lookup-kept-Fresh k now m)

-- `check_timeouts` treats every transaction by itself.
pub lookup-check_timeouts :
    (k now : ℕ) (c : Tracker)
    → IsValid c
    → lookup k (check_timeouts now c).0.transactions ≡ checked? now (lookup k c.transactions)
unfolding check_timeouts
lookup-check_timeouts k now c v = lookup-kept k now c.transactions v.keys

pub run_checks : List ℕ → Tracker → Tracker
run_checks [] c = c
run_checks (now ∷ nows) c = run_checks nows (check_timeouts now c).0

-- Each time is more than 500 ms after the one before.
abbrev pub Spaced : ℕ → List ℕ → Type 0
Spaced from [] = Unit {0}
Spaced from (now ∷ nows) = (from + timeout_duration < now) × Spaced now nows

-- The promise of `k` was set to FAILED.
abbrev pub HasFailed : ℕ → List (ℕ × CommandResult) → Type 0
HasFailed k [] = ⊥
HasFailed k ((j, r) ∷ s) = ((j ≡ k) × (r ≡ failed)) ⊎ HasFailed k s

abbrev Listed : ℕ → List ℕ → Type 0
Listed k [] = ⊥
Listed k (j ∷ js) = (j ≡ k) ⊎ Listed k js

HasFailed-settle_kept :
    (k : ℕ) (ks : List ℕ) (s : List (ℕ × CommandResult))
    → HasFailed k s
    → HasFailed k (settle_failed ks s)
HasFailed-settle_kept k [] s h = h
HasFailed-settle_kept k (j ∷ ks) s h = HasFailed-settle_kept k ks ((j, failed) ∷ s) (inr h)

HasFailed-settle :
    (k : ℕ) (ks : List ℕ) (s : List (ℕ × CommandResult))
    → Listed k ks
    → HasFailed k (settle_failed ks s)
HasFailed-settle k [] s h = absurd h
HasFailed-settle k (j ∷ ks) s (inl e) = HasFailed-settle_kept k ks ((j, failed) ∷ s) (inl (e, refl))
HasFailed-settle k (j ∷ ks) s (inr h) = HasFailed-settle k ks ((j, failed) ∷ s) h

Listed-given_up :
    (k now : ℕ) (m : List (ℕ × Transaction)) (t : Transaction)
    → lookup k m ≡ some t
    → checked now t ≡ none
    → Listed k (check_loop now m).given_up
unfolding check_loop
Listed-given_up k now [] t e x = cc
Listed-given_up k now ((j, u) ∷ m) t e x = ground (arith, Listed-given_up k now m t)

pub HasFailed-check :
    (k now : ℕ) (c : Tracker) (t : Transaction)
    → lookup k c.transactions ≡ some t
    → checked now t ≡ none
    → HasFailed k (check_timeouts now c).0.settled
unfolding check_timeouts
HasFailed-check k now c t e x =
    HasFailed-settle k (check_loop now c.transactions).given_up c.settled
      (Listed-given_up k now c.transactions t e x)

pub checked_again :
    (now : ℕ) (t : Transaction)
    → t.last_sent + timeout_duration < now
    → t.retries < max_retries
    → checked now t ≡ some (record t { retries = t.retries + 1; last_sent = now })
checked_again now t e r = ground arith

pub checked_out :
    (now : ℕ) (t : Transaction)
    → t.last_sent + timeout_duration < now
    → max_retries ≤ t.retries
    → checked now t ≡ none
checked_out now t e r = ground arith

-- A command that is not acknowledged ends: on a valid tracker, after as many checks as the
-- transaction has retries left and one more, each more than 500 ms after the one before (the first
-- after the last sending), the transaction is gone and its promise was set to FAILED.
pub run_checks_fail :
    (nows : List ℕ) (k : ℕ) (c : Tracker) (t : Transaction)
    → IsValid c
    → lookup k c.transactions ≡ some t
    → t.retries ≤ max_retries
    → Spaced t.last_sent nows
    → t.retries + length nows ≡ max_retries + 1
    → (lookup k (run_checks nows c).transactions ≡ none) × HasFailed k (run_checks nows c).settled
unfolding run_checks
run_checks_fail [] k c t v e r s n = absurd (omega arith)
run_checks_fail (now ∷ []) k c t v e r s n =
    let out = checked_out now t s.0 (omega arith) in
    (lookup-check_timeouts k now c v ∙ rw e out, HasFailed-check k now c t e out)
run_checks_fail (now ∷ next ∷ nows) k c t v e r s n =
    let again = checked_again now t s.0 (omega arith) in
    run_checks_fail (next ∷ nows) k (check_timeouts now c).0
      (record t { retries = t.retries + 1; last_sent = now })
      (unfold step in step-IsValid (checks now) c v) (lookup-check_timeouts k now c v ∙ rw e again)
      (omega arith) s.1 (omega arith)
