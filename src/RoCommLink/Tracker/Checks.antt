-- ===== src/RoCommLink/Tracker/Checks.antt =====
-- What a check of the timeouts does to one transaction, with its promise and its packet.
use knowledge_acquisition.Prelude.{
  ℕ, ◌+◌, ◌≤◌, ◌<◌, ◌≡◌, refl, arith, none, some, List, [], ◌∷◌, ltb, ◌∙◌, ◌⊎◌, lookup, Fresh,
  Distinct, Bool-cases, inl, inr,
}
use knowledge_acquisition.RoCommLink.Packet.{Packet}
use knowledge_acquisition.RoCommLink.Tracker.{
  Transaction, Tracker, check_loop, check_timeouts, max_retries, timeout_duration,
}
use knowledge_acquisition.RoCommLink.Tracker.Keys.{IsValid}
use knowledge_acquisition.RoCommLink.Tracker.Settle.{count_key, count, count_key-settle_failed}
use knowledge_acquisition.RoCommLink.Tracker.Expiry.{
  checked, HasFailed, lookup-check_timeouts, HasFailed-check, checked_again, checked_out,
}

-- The packet was handed to the retry callback.
abbrev pub IsResent : Packet → List Packet → Type 0
IsResent packet [] = ⊥
IsResent packet (p ∷ packets) = (p ≡ packet) ⊎ IsResent packet packets

checked_kept :
    (now : ℕ) (t : Transaction) → now ≤ t.last_sent + timeout_duration → checked now t ≡ some t
checked_kept now t e = ground arith

given_up-Fresh :
    (k now : ℕ) (m : List (ℕ × Transaction)) → Fresh k m → count k (check_loop now m).given_up ≡ 0
unfolding check_loop count
given_up-Fresh k now [] f = refl
given_up-Fresh k now ((j, t) ∷ m) f = ground (arith, given_up-Fresh k now m f.1)

given_up-kept :
    (k now : ℕ) (m : List (ℕ × Transaction)) (t u : Transaction)
    → Distinct m
    → lookup k m ≡ some t
    → checked now t ≡ some u
    → count k (check_loop now m).given_up ≡ 0
unfolding check_loop count
given_up-kept k now [] t u d e x = refl
given_up-kept k now ((j, v) ∷ m) t u d e x =
    ground (arith, given_up-kept k now m t u d.1, given_up-Fresh k now m)

given_up-out :
    (k now : ℕ) (m : List (ℕ × Transaction)) (t : Transaction)
    → Distinct m
    → lookup k m ≡ some t
    → checked now t ≡ none
    → count k (check_loop now m).given_up ≡ 1
unfolding check_loop count
given_up-out k now [] t d e x = absurd cc
given_up-out k now ((j, v) ∷ m) t d e x =
    ground (arith, given_up-out k now m t d.1, given_up-Fresh k now m)

IsResent-check_loop :
    (k now : ℕ) (m : List (ℕ × Transaction)) (t : Transaction)
    → lookup k m ≡ some t
    → t.last_sent + timeout_duration < now
    → t.retries < max_retries
    → IsResent t.packet (check_loop now m).resent
unfolding check_loop
IsResent-check_loop k now [] t e l r = absurd cc
IsResent-check_loop k now ((j, v) ∷ m) t e l r = ground (arith, IsResent-check_loop k now m t)

-- How often the promise of `k` was set.
abbrev pub times_set : ℕ → Tracker → ℕ
times_set k c = count_key k c.settled

times_set-kept :
    (k now : ℕ) (c : Tracker) (t u : Transaction)
    → IsValid c
    → lookup k c.transactions ≡ some t
    → checked now t ≡ some u
    → times_set k (check_timeouts now c).0 ≡ times_set k c
unfolding check_timeouts
times_set-kept k now c t u v e x =
    let a = count_key-settle_failed k (check_loop now c.transactions).given_up c.settled in
    let b = given_up-kept k now c.transactions t u v.keys e x in omega arith

times_set-out :
    (k now : ℕ) (c : Tracker) (t : Transaction)
    → IsValid c
    → lookup k c.transactions ≡ some t
    → checked now t ≡ none
    → times_set k (check_timeouts now c).0 ≡ times_set k c + 1
unfolding check_timeouts
times_set-out k now c t v e x =
    let a = count_key-settle_failed k (check_loop now c.transactions).given_up c.settled in
    let b = given_up-out k now c.transactions t v.keys e x in omega arith

-- On a valid tracker one of three things happens to a transaction. Sent no more than 500 ms ago, it
-- stays as it is, and its promise is not set. Sent longer ago, and again less than three times, it is
-- marked as sent now with one retry more, its packet is handed to the retry callback, and its promise
-- is not set. Sent longer ago, and again three times at least, it leaves the map, and its promise is
-- set once, to FAILED.
pub check_timeouts_lem :
    (k now : ℕ) (c : Tracker) (t : Transaction)
    → IsValid c
    → lookup k c.transactions ≡ some t
    → let (d, resent) = check_timeouts now c in
      ((now ≤ t.last_sent + 500_000_000)
        × (lookup k d.transactions ≡ some t)
        × (times_set k d ≡ times_set k c))
      ⊎ (((t.last_sent + 500_000_000 < now)
            × (t.retries < 3)
            × (lookup k d.transactions
                ≡ some (record t { retries = t.retries + 1; last_sent = now }))
            × IsResent t.packet resent
            × (times_set k d ≡ times_set k c))
          ⊎ ((t.last_sent + 500_000_000 < now)
              × (3 ≤ t.retries)
              × (lookup k d.transactions ≡ none)
              × HasFailed k d.settled
              × (times_set k d ≡ times_set k c + 1)))
check_timeouts_lem k now c t v e =
    let l = lookup-check_timeouts k now c v in
    elim (Bool-cases (ltb (t.last_sent + timeout_duration) now)) [
      | inr f ↦
          let early : now ≤ t.last_sent + timeout_duration = ground arith in
          let x = checked_kept now t early in
          inl (omega arith, l ∙ rw e x, times_set-kept k now c t t v e x)
      | inl f ↦
          let late : t.last_sent + timeout_duration < now = ground arith in
          elim (Bool-cases (ltb t.retries max_retries)) [
            | inl g ↦
                let left : t.retries < max_retries = ground arith in
                let x = checked_again now t late left in
                inr (
                  inl (
                    omega arith,
                    omega arith,
                    l ∙ rw e x,
                    (unfold check_timeouts in
                        IsResent-check_loop k now c.transactions t e late left),
                    times_set-kept k now c t (record t { retries = t.retries + 1; last_sent = now })
                        v e x,
                  ))
            | inr g ↦
                let out : max_retries ≤ t.retries = ground arith in
                let x = checked_out now t late out in
                inr (
                  inr (
                    omega arith,
                    omega arith,
                    l ∙ rw e x,
                    HasFailed-check k now c t e x,
                    times_set-out k now c t v e x,
                  ))
          ]
    ]
