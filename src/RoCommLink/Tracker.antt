-- ===== src/RoCommLink/Tracker.antt =====
-- include/core/service/command_tracker.h: the commands that wait for an acknowledgement. A
-- transaction's promise is set when the transaction leaves the map, so the map holds the promises
-- that are not set yet, and `settled` lists the others with their values, the latest first. A list
-- stands for the unordered map; its order is the order of iteration. Time is in nanoseconds.
pub mod Keys
pub mod Settle
pub mod Expiry
pub mod Checks
use knowledge_acquisition.Prelude.{
  ℕ, ◌+◌, ◌*◌, Bool, Option, none, some, List, [], ◌∷◌, ◌++◌, ltb, if◌then◌else◌, lookup, remove,
}
use knowledge_acquisition.RoCommLink.Packet.{Packet, CommandResult, failed}

pub record Transaction : Type 0 where
  pub seq : ℕ
  pub packet : Packet
  pub last_sent : ℕ
  pub retries : ℕ

pub record Tracker : Type 0 where
  pub transactions : List (ℕ × Transaction)
  pub settled : List (ℕ × CommandResult)

abbrev pub new_tracker : Tracker
new_tracker = record { transactions = []; settled = [] }

abbrev pub timeout_duration : ℕ
timeout_duration = 500 * 1_000_000

abbrev pub max_retries : ℕ
max_retries = 3

-- `emplace` leaves an entry that is there; its future was handed out before, so that
-- `get_future` throws: `none`.
unfoldable pub track : ℕ → Packet → ℕ → Tracker → Option Tracker
track seq pkt now c = elim (lookup seq c.transactions) [
  | none ↦ some (record c {
    transactions =
        (seq, record { seq = seq; packet = pkt; last_sent = now; retries = 0 }) ∷ c.transactions;
  })
  | some t ↦ none
]

unfoldable pub resolve : ℕ → CommandResult → Tracker → Tracker
resolve seq result c = elim (lookup seq c.transactions) [
  | none ↦ c
  | some t ↦ record {
    transactions = remove seq c.transactions;
    settled = (seq, result) ∷ c.settled;
  }
]

-- What the loop of `check_timeouts` leaves and does: the map, the packets handed to the retry
-- callback, and the promises set to FAILED.
pub record Checked : Type 0 where
  pub kept : List (ℕ × Transaction)
  pub resent : List Packet
  pub given_up : List ℕ

abbrev pub expired : ℕ → Transaction → Bool
expired now t = ltb (t.last_sent + timeout_duration) now

pub check_loop : ℕ → List (ℕ × Transaction) → Checked
check_loop now [] = record { kept = []; resent = []; given_up = [] }
check_loop now ((k, t) ∷ ts) =
    let rest = check_loop now ts in
    if expired now t
    then if ltb t.retries max_retries
      then record rest {
        kept = (k, record t { retries = t.retries + 1; last_sent = now }) ∷ rest.kept;
        resent = t.packet ∷ rest.resent;
      }
      else record rest { given_up = k ∷ rest.given_up }
    else record rest { kept = (k, t) ∷ rest.kept }

abbrev pub settle_failed : List ℕ → List (ℕ × CommandResult) → List (ℕ × CommandResult)
settle_failed [] s = s
settle_failed (k ∷ ks) s = settle_failed ks ((k, failed) ∷ s)

unfoldable pub check_timeouts : ℕ → Tracker → Tracker × List Packet
unfolding check_loop
check_timeouts now c =
    let r = check_loop now c.transactions in
    (record { transactions = r.kept; settled = settle_failed r.given_up c.settled }, r.resent)
