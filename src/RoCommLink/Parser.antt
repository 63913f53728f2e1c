-- ===== src/RoCommLink/Parser.antt =====
-- include/core/protocol/rocommlink_parser.h and src/core/protocol/rocommlink_parser.cpp: the state
-- machine that assembles packets from single bytes.
pub mod Header
pub mod Body
pub mod Shape
pub mod Step
pub mod Sound
pub mod Reject
pub mod Limits
pub mod RoundTrip
use knowledge_acquisition.Prelude.{
  ℕ, zero, suc, ◌+◌, ◌*◌, ◌%◌, bit_or, Bool, true, false, ◌||◌, Option, none, some, List, [], ◌∷◌,
  ◌++◌, length, set, ltb, leb, ◌==◌, if◌then◌else◌,
}
use knowledge_acquisition.RoCommLink.Packet.{Packet, PacketHeader, default_packet, default_header}
use knowledge_acquisition.RoCommLink.Serializer.{calculate_checksum}

pub data ParseStatus : Type 0 where
  processing complete stream_forward_byte : ParseStatus

pub record ParseResult : Type 0 where
  pub status : ParseStatus
  pub packet : Option Packet

pub data State : Type 0 where
  wait_start_of_transmission wait_system_identifier : State
  wait_message_identifier_high_byte wait_message_identifier_low_byte : State
  wait_payload_length wait_payload_data wait_payload_skip : State
  forward_active wait_checksum_verification : State

-- The registered callback receives the packet and the state by reference: it returns what it left
-- in them, with its answer.
abbrev pub EarlyFilterCallback : Type 0
EarlyFilterCallback = Packet → State → Bool × Packet × State

pub record Parser : Type 0 where
  pub state : State
  pub current_packet : Packet
  pub payload_length : ℕ
  pub bytes_read : ℕ
  pub raw_frame_buffer : List ℕ
  pub early_filter_cb : Option EarlyFilterCallback

-- A parser as it is constructed.
abbrev pub new_parser : Parser
new_parser = record {
  state = wait_start_of_transmission;
  current_packet = default_packet;
  payload_length = 0;
  bytes_read = 0;
  raw_frame_buffer = [];
  early_filter_cb = none;
}

unfoldable pub register_early_filter : EarlyFilterCallback → Parser → Parser
register_early_filter callback p = record p { early_filter_cb = some callback }

apply_filter : Option EarlyFilterCallback → Parser → Bool × Parser
apply_filter none p = (false, p)
apply_filter (some callback) p =
    let (applied, packet, state) = callback p.current_packet p.state in
    (applied, record p { current_packet = packet; state = state })

unfoldable pub execute_early_filter : Parser → Bool × Parser
unfolding apply_filter
execute_early_filter p = apply_filter p.early_filter_cb p

-- `vector::resize`: new elements are zero.
abbrev pub resize : ℕ → List ℕ → List ℕ
resize zero xs = []
resize (suc n) [] = 0 ∷ resize n []
resize (suc n) (x ∷ xs) = x ∷ resize n xs

-- What a call of `parse_byte` gives: `none` is a write outside of the payload, whose behaviour
-- C++ leaves undefined.
abbrev pub Outcome : Type 0
Outcome = Option (ParseResult × Parser)

abbrev pub continue_with : Parser → Outcome
continue_with p = some (record { status = processing; packet = none }, p)

-- `std::move(_current_packet)` leaves the vector empty and the plain fields as they are.
abbrev pub moved_from : Packet → Packet
moved_from k = record k { payload = [] }

abbrev pub set_header : Parser → PacketHeader → Parser
set_header p h = record p { current_packet = record p.current_packet { header = h } }

abbrev pub buffered : ℕ → Parser → Parser
buffered byte p = record p { raw_frame_buffer = p.raw_frame_buffer ++ (byte ∷ []) }

on_start : Parser → ℕ → Outcome
on_start p byte =
    if byte == 0x5A || byte == 0xAA
    then continue_with (record p {
      current_packet = record default_packet { header = record default_header { magic = byte } };
      raw_frame_buffer = byte ∷ [];
      state = wait_system_identifier;
      bytes_read = 0;
    })
    else continue_with p

on_system_identifier : Parser → ℕ → Outcome
on_system_identifier p byte =
    let h = p.current_packet.header in
    if p.bytes_read == 0
    then continue_with (record (set_header p (record h { version = byte })) { bytes_read = 1 })
    else continue_with (record (set_header p (record h { system_id = byte })) {
      state = wait_message_identifier_high_byte;
    })

on_message_identifier_high : Parser → ℕ → Outcome
on_message_identifier_high p byte =
    continue_with (record (set_header p (record p.current_packet.header { component_id = byte })) {
      state = wait_message_identifier_low_byte;
    })

on_message_identifier_low : Parser → ℕ → Outcome
on_message_identifier_low p byte =
    let h = p.current_packet.header in
    if p.bytes_read == 1
    then continue_with (record (set_header p (record h { msg_id = byte * 256 })) { bytes_read = 2 })
    else continue_with (record (set_header p (record h { msg_id = bit_or h.msg_id byte })) {
      state = wait_payload_length;
      bytes_read = 0;
    })

-- The header is complete: `p` has the whole `payload_len`.
abbrev pub after_filter : Bool × Parser → Parser
after_filter (true, p) = p
after_filter (false, p) = record p {
  current_packet = record p.current_packet {
    payload = resize p.payload_length p.current_packet.payload;
  };
  state = wait_payload_data;
}

on_header_end : Parser → Outcome
on_header_end p =
    if ltb 0 p.payload_length
    then continue_with (after_filter (execute_early_filter p))
    else continue_with (record p { state = wait_checksum_verification })

on_payload_length : Parser → ℕ → Outcome
unfolding on_header_end
on_payload_length p byte =
    let h = p.current_packet.header in
    if p.bytes_read == 0
    then continue_with
        (record (set_header p (record h { sequence = byte * 256 })) { bytes_read = 1 })
    else if p.bytes_read == 1
    then continue_with
        (record (set_header p (record h { sequence = bit_or h.sequence byte })) { bytes_read = 2 })
    else if p.bytes_read == 2
    then continue_with
        (record (set_header p (record h { payload_len = byte * 256 })) { bytes_read = 3 })
    else on_header_end
        (record (set_header p (record h { payload_len = bit_or h.payload_len byte })) {
          payload_length = bit_or h.payload_len byte % 256;
          bytes_read = 0;
        })

-- `_bytes_read` is a uint8_t.
abbrev pub count_payload : ℕ → Parser → Parser
count_payload limit p =
    let read = (p.bytes_read + 1) % 256 in
    if leb limit read
    then record p { bytes_read = 0; state = wait_checksum_verification }
    else record p { bytes_read = read }

on_payload_data : Parser → ℕ → Outcome
on_payload_data p byte =
    let k = p.current_packet in
    if ltb p.bytes_read (length k.payload)
    then continue_with (
        count_payload p.payload_length
          (record p { current_packet = record k { payload = set k.payload p.bytes_read byte } }))
    else none

on_payload_skip : Parser → ℕ → Outcome
on_payload_skip p byte = continue_with (count_payload p.current_packet.header.payload_len p)

on_checksum : Parser → ℕ → Outcome
on_checksum p byte =
    let k = p.current_packet in
    if p.bytes_read == 0
    then continue_with
        (execute_early_filter
          (record p { current_packet = record k { checksum = byte * 256 }; bytes_read = 1 })).1
    else let full = record k { checksum = bit_or k.checksum byte } in
      if calculate_checksum p.raw_frame_buffer == full.checksum
      then some (
        record { status = complete; packet = some full },
        record p { current_packet = moved_from full; state = wait_start_of_transmission },
      )
      else continue_with (record p { current_packet = full; state = wait_start_of_transmission })

on_forward : Parser → ℕ → Outcome
on_forward p byte = some (
  record { status = stream_forward_byte; packet = some p.current_packet },
  record p { current_packet = moved_from p.current_packet; state = wait_start_of_transmission },
)

-- The cases of the switch, each with the `push_back` into the raw frame that it begins with.
on_state : State → Parser → ℕ → Outcome
unfolding on_start on_system_identifier on_message_identifier_high on_message_identifier_low
    on_payload_length on_payload_data on_payload_skip on_checksum on_forward
on_state wait_start_of_transmission p byte = on_start p byte
on_state wait_system_identifier p byte = on_system_identifier (buffered byte p) byte
on_state wait_message_identifier_high_byte p byte =
    on_message_identifier_high (buffered byte p) byte
on_state wait_message_identifier_low_byte p byte = on_message_identifier_low (buffered byte p) byte
on_state wait_payload_length p byte = on_payload_length (buffered byte p) byte
on_state wait_payload_data p byte = on_payload_data (buffered byte p) byte
on_state wait_payload_skip p byte = on_payload_skip (buffered byte p) byte
on_state wait_checksum_verification p byte = on_checksum p byte
on_state forward_active p byte = on_forward p byte

unfoldable pub parse_byte : Parser → ℕ → Outcome
unfolding on_state
parse_byte p byte = on_state p.state p byte

abbrev pub reported : ParseResult → List ParseResult → List ParseResult
reported r rs = elim r.status [ processing ↦ rs | _ ↦ r ∷ rs ]

-- `parse_byte` on a sequence of bytes: the results other than `processing`, in order.
unfoldable pub feed : Parser → List ℕ → Option (List ParseResult × Parser)
feed p [] = some ([], p)
feed p (b ∷ bs) = elim (parse_byte p b) [
  | none ↦ none
  | some (r, q) ↦ elim (feed q bs) [ none ↦ none | some (rs, q') ↦ some (reported r rs, q') ]
]
