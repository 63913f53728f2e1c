-- ===== src/RoCommLink/Tests.antt =====
-- The theorems about RoCommLink at concrete packets, and runs of its functions.
use knowledge_acquisition.Prelude.{
  ℕ, ◌+◌, ◌≡◌, ◌≢◌, ◌≤◌, ◌<◌, ◌⊎◌, refl, arith, true, none, some, List, [], ◌∷◌, ◌++◌, inl, All,
  lookup, insert,
}
use knowledge_acquisition.RoCommLink.Packet.{Packet, default_header, accepted}
use knowledge_acquisition.RoCommLink.Serializer.{
  serialize, wire_body, wire_header, calculate_checksum, high_byte, low_byte, pack_struct,
}
use knowledge_acquisition.RoCommLink.Parser.{
  Parser, ParseResult, new_parser, feed, wait_start_of_transmission, wait_payload_skip,
}
use knowledge_acquisition.RoCommLink.Parser.RoundTrip.{stream, delivered, received, feed-stream}
use knowledge_acquisition.RoCommLink.Parser.Sound.{DeliversFrom, feed-new_parser}
use knowledge_acquisition.RoCommLink.Parser.Reject.{with_payload, feed-changed_byte}
use knowledge_acquisition.RoCommLink.Parser.Limits.{long_payload-ne-delivered, feed_skip}
use knowledge_acquisition.RoCommLink.Tracker.{Tracker, Transaction, resolve, check_timeouts}
use knowledge_acquisition.RoCommLink.Tracker.Keys.{
  IsValid, tracks, resolves, checks, step, run, run-IsValid,
}
use knowledge_acquisition.RoCommLink.Tracker.Settle.{promises, made, promises-step}
use knowledge_acquisition.RoCommLink.Tracker.Expiry.{run_checks, HasFailed, run_checks_fail}
use knowledge_acquisition.RoCommLink.Tracker.Checks.{IsResent, times_set, check_timeouts_lem}
use knowledge_acquisition.RoCommLink.Router.{
  compound_key, compound_key-injective, build, determine_routing_target,
  determine_routing_target-route, Rules,
}
use knowledge_acquisition.RoCommLink.Dispatcher.{
  called, subscribe_all, dispatch, dispatch-subscribe_all,
}
use knowledge_acquisition.RoCommLink.Link.{Link, process_raw_bytes}
use knowledge_acquisition.RoCommLink.Link.Stream.{complete_all, process_raw_bytes-stream}
use knowledge_acquisition.RoCommLink.Link.Command.{command_acknowledged}

-- A command for system 2, component 1.
abbrev command : Packet
command = record {
  header = record default_header { system_id = 2; component_id = 1; msg_id = 1; sequence = 7 };
  payload = 10 ∷ 20 ∷ [];
  checksum = 0;
}

abbrev status : Packet
status = pack_struct 5 0x0203 (1 ∷ 2 ∷ 3 ∷ [])

abbrev two_frames : List (List ℕ × Packet)
two_frames = (0 ∷ 0xFF ∷ [], command) ∷ ([], command) ∷ []

serialize-command :
    serialize command ≡ 0x5A ∷ 1 ∷ 2 ∷ 1 ∷ 0 ∷ 1 ∷ 0 ∷ 7 ∷ 0 ∷ 2 ∷ 10 ∷ 20 ∷ 0 ∷ 134 ∷ []
unfolding serialize wire_body wire_header calculate_checksum
serialize-command = refl

feed-stream_example :
    (q : Parser) × (feed new_parser (stream two_frames)
      ≡ some (delivered command ∷ delivered command ∷ [], q))
    × (q.state ≡ wait_start_of_transmission)
    × (q.early_filter_cb ≡ none)
feed-stream_example = feed-stream two_frames new_parser refl refl (omega arith)

abbrev command_bytes : List ℕ
command_bytes = 0x5A ∷ 1 ∷ 2 ∷ 1 ∷ 0 ∷ 1 ∷ 0 ∷ 7 ∷ 0 ∷ 2 ∷ 10 ∷ 20 ∷ 0 ∷ 134 ∷ []

feed-new_parser_example :
    (rs : List ParseResult) × (q : Parser) × (feed new_parser command_bytes ≡ some (rs, q))
    × All (DeliversFrom command_bytes) rs
feed-new_parser_example = feed-new_parser command_bytes (omega arith)

feed-changed_byte_example :
    let sent = calculate_checksum (wire_body (with_payload command (10 ∷ 20 ∷ []))) in
    (q : Parser) × (feed new_parser
        (wire_body (with_payload command (10 ∷ 21 ∷ [])) ++ (high_byte sent ∷ low_byte sent ∷ []))
      ≡ some ([], q))
    × (q.state ≡ wait_start_of_transmission)
feed-changed_byte_example =
    feed-changed_byte new_parser command (10 ∷ []) [] 20 21 refl refl (inl refl) (omega arith)
      (omega arith) (omega arith) (omega arith) (omega arith)

abbrev zeros : ℕ → List ℕ
zeros ℕ.zero = []
zeros (ℕ.suc n) = 0 ∷ zeros n

long_payload-ne-delivered_example :
    (rs : List ParseResult) × (q : Parser) × (feed new_parser command_bytes ≡ some (rs, q))
    × All (λ r. r ≢ delivered (with_payload command (zeros 256))) rs
long_payload-ne-delivered_example =
    long_payload-ne-delivered (with_payload command (zeros 256)) command_bytes (omega arith)
      (omega arith)

abbrev skipping : Parser
skipping = record new_parser {
  state = wait_payload_skip;
  current_packet = record command { header = record command.header { payload_len = 300 } };
}

feed_skip_example :
    (q : Parser) × (feed skipping (1 ∷ 2 ∷ []) ≡ some ([], q)) × (q.state ≡ wait_payload_skip)
feed_skip_example = feed_skip (1 ∷ 2 ∷ []) skipping refl (omega arith)

abbrev waiting : Transaction
waiting = record { seq = 7; packet = command; last_sent = 0; retries = 2 }

abbrev one_waits : Tracker
one_waits = record { transactions = (7, waiting) ∷ []; settled = [] }

one_waits-IsValid : IsValid one_waits
one_waits-IsValid = record { keys = (tt, tt); entries = ((refl, omega arith), tt) }

run-IsValid_example : IsValid (run (tracks 8 command 5 ∷ checks 600_000_000 ∷ []) one_waits)
run-IsValid_example =
    run-IsValid (tracks 8 command 5 ∷ checks 600_000_000 ∷ []) one_waits one_waits-IsValid

promises-step_example :
    promises 7 (step (resolves 7 accepted) one_waits)
    ≡ promises 7 one_waits + made 7 (resolves 7 accepted) one_waits
promises-step_example = promises-step 7 (resolves 7 accepted) one_waits

check_timeouts_lem_example :
    ((1_200_000_000 ≤ waiting.last_sent + 500_000_000)
      × (lookup 7 (check_timeouts 1_200_000_000 one_waits).0.transactions ≡ some waiting)
      × (times_set 7 (check_timeouts 1_200_000_000 one_waits).0 ≡ times_set 7 one_waits))
    ⊎ (((waiting.last_sent + 500_000_000 < 1_200_000_000)
          × (waiting.retries < 3)
          × (lookup 7 (check_timeouts 1_200_000_000 one_waits).0.transactions
              ≡ some (record waiting { retries = waiting.retries + 1; last_sent = 1_200_000_000 }))
          × IsResent command (check_timeouts 1_200_000_000 one_waits).1
          × (times_set 7 (check_timeouts 1_200_000_000 one_waits).0 ≡ times_set 7 one_waits))
        ⊎ ((waiting.last_sent + 500_000_000 < 1_200_000_000)
            × (3 ≤ waiting.retries)
            × (lookup 7 (check_timeouts 1_200_000_000 one_waits).0.transactions ≡ none)
            × HasFailed 7 (check_timeouts 1_200_000_000 one_waits).0.settled
            × (times_set 7 (check_timeouts 1_200_000_000 one_waits).0 ≡ times_set 7 one_waits + 1)))
check_timeouts_lem_example =
    check_timeouts_lem 7 1_200_000_000 one_waits waiting one_waits-IsValid refl

run_checks_fail_example :
    (lookup 7 (run_checks (600_000_000 ∷ 1_200_000_000 ∷ []) one_waits).transactions ≡ none)
    × HasFailed 7 (run_checks (600_000_000 ∷ 1_200_000_000 ∷ []) one_waits).settled
run_checks_fail_example =
    run_checks_fail (600_000_000 ∷ 1_200_000_000 ∷ []) 7 one_waits waiting one_waits-IsValid refl
      (omega arith) (omega arith) (omega arith)

abbrev rules : Rules
rules = (2, 1, 4) ∷ (2, 0, 3) ∷ []

determine_routing_target-route_example : determine_routing_target (build rules) 2 9 ≡ 3
determine_routing_target-route_example =
    determine_routing_target-route rules 2 9 (omega arith) (omega arith)

compound_key-injective_example : (2 ≡ 2 + 0) × (1 ≡ 1 + 0)
unfolding compound_key
compound_key-injective_example =
    compound_key-injective 2 1 (2 + 0) (1 + 0) (omega arith) (omega arith) refl

dispatch-subscribe_all_example :
    dispatch {C = ℕ}
      (subscribe_all ((1, some 30) ∷ (2, some 31) ∷ (1, none) ∷ (1, some 32) ∷ []) [])
      command
    ≡ (30 ∷ 32 ∷ [], true)
dispatch-subscribe_all_example =
    dispatch-subscribe_all ((1, some 30) ∷ (2, some 31) ∷ (1, none) ∷ (1, some 32) ∷ []) command

-- One transport, on the default interface, and one callback for commands.
abbrev node : Link ℕ
node = record {
  transports = (0, true) ∷ [];
  routing_table = [];
  registry = (1, some 30 ∷ []) ∷ [];
  tracker = one_waits;
  parsers = [];
  listening = 0 ∷ [];
  is_running = true;
  sent = [];
  calls = [];
}

process_raw_bytes-stream_example :
    let l' = complete_all (λ i bytes. true) two_frames node in
    (q : Parser) × (process_raw_bytes (λ i bytes. true) (stream two_frames) 0 node
      ≡ some (record l' { parsers = insert 0 q l'.parsers }))
    × (q.state ≡ wait_start_of_transmission)
    × (q.early_filter_cb ≡ none)
process_raw_bytes-stream_example =
    process_raw_bytes-stream (λ i bytes. true) (0 ∷ 0xFF ∷ [], command) (([], command) ∷ []) 0 node
      refl refl (omega arith)

command_acknowledged_example :
    (b' : Link ℕ) × (ack : List ℕ) × (a' : Link ℕ) × (process_raw_bytes
        (λ i bytes. true)
        (serialize command)
        0
        node
      ≡ some b')
    × (b'.calls ≡ (30, received command) ∷ [])
    × (b'.sent ≡ (0, ack) ∷ [])
    × (process_raw_bytes (λ i bytes. true) ack 0 node ≡ some a')
    × (a'.tracker ≡ resolve 7 accepted one_waits)
unfolding dispatch called determine_routing_target compound_key
command_acknowledged_example =
    command_acknowledged (λ i bytes. true) command 0 0 node node refl refl refl refl (inl refl)
      (omega arith) (omega arith) refl refl
