-- ===== src/RoCommLink/Packet.antt =====
-- include/core/protocol/packet.h: the packet types. Every field is a number in the range of its
-- C++ type; `IsPacket` states the ranges.
use knowledge_acquisition.Prelude.{ℕ, List, [], IsByte, IsU16, All, ◌==◌, if◌then◌else◌}

-- An `enum class : uint8_t` also holds the bytes that no enumerator names.
pub data CommandResult : Type 0 where
  accepted temporarily_rejected denied failed : CommandResult
  unnamed : ℕ → CommandResult

-- The two directions of `static_cast`.
abbrev pub result_byte : CommandResult → ℕ
result_byte accepted = 0
result_byte temporarily_rejected = 1
result_byte denied = 2
result_byte failed = 3
result_byte (unnamed b) = b

abbrev pub result_of : ℕ → CommandResult
result_of b =
    if b == 0
    then accepted
    else if b == 1
    then temporarily_rejected
    else if b == 2
    then denied
    else if b == 3
    then failed
    else unnamed b

pub record PacketHeader : Type 0 where
  pub magic : ℕ
  pub version : ℕ
  pub system_id : ℕ
  pub component_id : ℕ
  pub msg_id : ℕ
  pub sequence : ℕ
  pub payload_len : ℕ

pub record Packet : Type 0 where
  pub header : PacketHeader
  pub payload : List ℕ
  pub checksum : ℕ

-- The default member initialisers.
abbrev pub default_header : PacketHeader
default_header = record {
  magic = 0x5A;
  version = 1;
  system_id = 0;
  component_id = 0;
  msg_id = 0;
  sequence = 0;
  payload_len = 0;
}

abbrev pub default_packet : Packet
default_packet = record { header = default_header; payload = []; checksum = 0 }

pub record CommandAckPayload : Type 0 where
  pub command_msg_id : ℕ
  pub target_sequence : ℕ
  pub result : ℕ

-- The ranges of uint8_t and uint16_t.
pub record IsHeader (h : PacketHeader) : Type 0 where
  pub magic : IsByte h.magic
  pub version : IsByte h.version
  pub system_id : IsByte h.system_id
  pub component_id : IsByte h.component_id
  pub msg_id : IsU16 h.msg_id
  pub sequence : IsU16 h.sequence

pub record IsPacket (p : Packet) : Type 0 where
  pub header : IsHeader p.header
  pub payload : All IsByte p.payload
