-- ===== src/RoCommLink/Link.antt =====
-- include/core/service/rocommlink.h and src/core/service/rocommlink.cpp: the service that joins
-- transports, parsers, routing, dispatcher and tracker. A method takes the service's state and
-- returns the new one. What leaves the process is kept in two logs, oldest entry first: the bytes
-- handed to a transport's `send`, and the packets handed to a callback. A null transport pointer is
-- `false`; dereferencing it is a fault, `none`.
pub mod Stream
pub mod Command
use knowledge_acquisition.Prelude.{
  ℕ, ◌+◌, ◌*◌, Bool, true, false, Option, none, some, List, [], ◌∷◌, ◌++◌, map, ◌==◌, if◌then◌else◌,
  lookup, insert,
}
use knowledge_acquisition.RoCommLink.Packet.{
  Packet, CommandAckPayload, CommandResult, accepted, denied, failed, result_byte, result_of,
  default_header,
}
use knowledge_acquisition.RoCommLink.Serializer.{serialize, ack_bytes}
use knowledge_acquisition.RoCommLink.Parser
use knowledge_acquisition.RoCommLink.Parser.{Parser, ParseResult, new_parser, parse_byte}
use knowledge_acquisition.RoCommLink.Tracker.{Tracker, track, resolve, check_timeouts, new_tracker}
use knowledge_acquisition.RoCommLink.Router.{
  RoutingTable, add_routing_rule, determine_routing_target,
}
use knowledge_acquisition.RoCommLink.Dispatcher.{Registry, dispatch, subscribe}

pub record Link (C : Type 0) : Type 0 where
  pub transports : List (ℕ × Bool)
  pub routing_table : RoutingTable
  pub registry : Registry C
  pub tracker : Tracker
  pub parsers : List (ℕ × Parser)
  pub listening : List ℕ
  pub is_running : Bool
  pub sent : List (ℕ × List ℕ)
  pub calls : List (C × Packet)

abbrev pub msg_id_command_ack : ℕ
msg_id_command_ack = 0x00FF

abbrev pub msg_id_user_command : ℕ
msg_id_user_command = 0x0001

-- The first five bytes of the payload, copied into a CommandAckPayload on a little-endian host; a
-- shorter payload fails the size test.
abbrev pub read_ack : List ℕ → Option CommandAckPayload
read_ack [] = none
read_ack (a ∷ []) = none
read_ack (a ∷ b ∷ []) = none
read_ack (a ∷ b ∷ c ∷ []) = none
read_ack (a ∷ b ∷ c ∷ d ∷ []) = none
read_ack (a ∷ b ∷ c ∷ d ∷ r ∷ more) =
    some (record { command_msg_id = a + b * 256; target_sequence = c + d * 256; result = r })

-- The acknowledgement of a command.
unfoldable pub ack_packet : Packet → CommandResult → Packet
ack_packet packet res_val = record {
  header = record default_header {
    magic = 0x5A;
    system_id = packet.header.system_id;
    component_id = packet.header.component_id;
    msg_id = msg_id_command_ack;
    sequence = packet.header.sequence;
    payload_len = 5;
  };
  payload = ack_bytes (record {
    command_msg_id = packet.header.msg_id;
    target_sequence = packet.header.sequence;
    result = result_byte res_val;
  });
  checksum = 0;
}

abbrev pub parser_of : Option Parser → Parser
parser_of none = new_parser
parser_of (some p) = p

module _ {C : Type 0} where
  unfoldable pub add_transport : ℕ → Bool → Link C → Link C
  add_transport interface_id transport l = record l {
    transports = insert interface_id transport l.transports;
  }

  -- `connects i` is what the `connect` of transport `i` returns.
  unfoldable pub start : (ℕ → Bool) → ℕ → Link C → Link C × Bool
  start connects interface_id l = elim (lookup interface_id l.transports) [
    | none ↦ (l, false)
    | some false ↦ (l, false)
    | some true ↦
        if connects interface_id
        then (record l { listening = interface_id ∷ l.listening; is_running = true }, true)
        else (record l { listening = interface_id ∷ l.listening }, false)
  ]

  unfoldable pub stop : Link C → Link C
  stop l = record l { is_running = false; transports = [] }

  abbrev pub emit : ℕ → List ℕ → Link C → Link C
  emit interface_id bytes l = record l { sent = l.sent ++ ((interface_id, bytes) ∷ []) }

  -- `dispatch` with its calls written to the log.
  abbrev pub dispatched : Packet → Link C → Link C
  dispatched packet l = record l {
    calls = l.calls ++ map (λ c. (c, packet)) (dispatch l.registry packet).0;
  }

  unfoldable pub on_command_ack : Packet → Link C → Link C
  on_command_ack packet l = elim (read_ack packet.payload) [
    | none ↦ l
    | some a ↦ record l { tracker = resolve a.target_sequence (result_of a.result) l.tracker }
  ]

  -- `bytes` is the whole buffer that is being processed.
  unfoldable pub on_forward_byte : List ℕ → Packet → Link C → Option (Link C)
  on_forward_byte bytes packet l =
      let target =
        determine_routing_target l.routing_table packet.header.system_id
          packet.header.component_id in
      elim (lookup target l.transports) [
        | none ↦ some l
        | some false ↦ none
        | some true ↦ some (emit target bytes l)
      ]

  abbrev pub store : ℕ → Option (Parser × Link C) → Option (Link C)
  store connection_id none = none
  store connection_id (some (p, l)) = some (record l { parsers = insert connection_id p l.parsers })

-- `accepts i bytes` is what the `send` of transport `i` returns: a socket, which is no code of this
-- program.
module _ {C : Type 0} (accepts : ℕ → List ℕ → Bool) where
  unfoldable pub send_packet : Packet → Link C → Link C × Bool
  send_packet packet l =
      let target =
        determine_routing_target l.routing_table packet.header.system_id
          packet.header.component_id in
      elim (lookup target l.transports) [
        | none ↦ (l, false)
        | some false ↦ (l, false)
        | some true ↦ (emit target (serialize packet) l, accepts target (serialize packet))
      ]

  unfoldable pub on_user_command : Packet → Link C → Link C
  on_user_command packet l =
      let res_val = if (dispatch l.registry packet).1 then accepted else denied in
      (send_packet (ack_packet packet res_val) (dispatched packet l)).0

  unfoldable pub on_complete : Packet → Link C → Link C
  on_complete packet l =
      if packet.header.msg_id == msg_id_command_ack
      then on_command_ack packet l
      else if packet.header.msg_id == msg_id_user_command
      then on_user_command packet l
      else dispatched packet l

  -- `result.packet.value()` throws where there is no packet; the parser always gives one here.
  unfoldable pub on_result : List ℕ → ParseResult → Link C → Option (Link C)
  on_result bytes r l = elim r.status [
    | Parser.processing ↦ some l
    | Parser.complete ↦ elim r.packet [ none ↦ some l | some packet ↦ some (on_complete packet l) ]
    | Parser.stream_forward_byte ↦ elim r.packet [
      | none ↦ none
      | some packet ↦ on_forward_byte bytes packet l
    ]
  ]

  -- The loop over the bytes, with the parser of the connection.
  unfoldable pub byte_loop : List ℕ → List ℕ → Parser → Link C → Option (Parser × Link C)
  byte_loop bytes [] p l = some (p, l)
  byte_loop bytes (b ∷ rest) p l = elim (parse_byte p b) [
    | none ↦ none
    | some (r, q) ↦ elim (on_result bytes r l) [ none ↦ none | some l' ↦ byte_loop bytes rest q l' ]
  ]

  unfoldable pub process_raw_bytes : List ℕ → ℕ → Link C → Option (Link C)
  process_raw_bytes [] connection_id l = some l
  process_raw_bytes (b ∷ bytes) connection_id l =
      store connection_id
        (byte_loop (b ∷ bytes) (b ∷ bytes) (parser_of (lookup connection_id l.parsers)) l)

  -- The call up to its wait for the future, which changes no state; `none` is the exception of
  -- `track`.
  unfoldable pub send_command_blocking : ℕ → Packet → Link C → Option (Link C)
  send_command_blocking now cmd_pkt l = elim (track cmd_pkt.header.sequence cmd_pkt now l.tracker) [
    | none ↦ none
    | some t ↦
        let (l', ok) = send_packet cmd_pkt (record l { tracker = t }) in
        some (
          if ok
          then l'
          else record l' { tracker = resolve cmd_pkt.header.sequence failed l'.tracker })
  ]

  pub send_all : List Packet → Link C → Link C
  send_all [] l = l
  send_all (k ∷ ks) l = send_all ks (send_packet k l).0

  -- One round of the timeout thread.
  unfoldable pub timeout_round : ℕ → Link C → Link C
  unfolding send_all
  timeout_round now l =
      let (t, resent) = check_timeouts now l.tracker in send_all resent (record l { tracker = t })
