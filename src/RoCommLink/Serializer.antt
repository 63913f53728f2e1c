-- ===== src/RoCommLink/Serializer.antt =====
-- src/core/protocol/packet_serializer.cpp with include/core/common/byte_utilities.h: a packet as
-- the bytes of a frame, and the running checksum.
pub mod Checksum
use knowledge_acquisition.Prelude.{ℕ, ◌+◌, ◌/◌, ◌%◌, ◌^◌, List, [], ◌∷◌, ◌++◌, length}
use knowledge_acquisition.RoCommLink.Packet.{
  Packet, PacketHeader, CommandAckPayload, default_packet, default_header,
}

-- The loop of `calculate_checksum`; `sum` is a uint16_t.
pub checksum_loop : ℕ → List ℕ → ℕ
checksum_loop sum [] = sum
checksum_loop sum (d ∷ data') = checksum_loop ((sum + d) % 2 ^ 16) data'

unfoldable pub calculate_checksum : List ℕ → ℕ
unfolding checksum_loop
calculate_checksum bytes = checksum_loop 0 bytes

-- `(x >> 8) & 0xFF` and `x & 0xFF`.
abbrev pub high_byte : ℕ → ℕ
high_byte x = x / 256 % 256

abbrev pub low_byte : ℕ → ℕ
low_byte x = x % 256

-- The ten bytes before the payload; `n` is the payload's size as a uint16_t.
unfoldable pub wire_header : PacketHeader → ℕ → List ℕ
wire_header h n =
    h.magic
    ∷ h.version
    ∷ h.system_id
    ∷ h.component_id
    ∷ high_byte h.msg_id
    ∷ low_byte h.msg_id
    ∷ high_byte h.sequence
    ∷ low_byte h.sequence
    ∷ high_byte n
    ∷ low_byte n
    ∷ []

-- The frame before its checksum.
unfoldable pub wire_body : Packet → List ℕ
wire_body p = wire_header p.header (length p.payload % 2 ^ 16) ++ p.payload

unfoldable pub serialize : Packet → List ℕ
serialize p =
    let computed_checksum = calculate_checksum (wire_body p) in
    wire_body p ++ (high_byte computed_checksum ∷ low_byte computed_checksum ∷ [])

-- `pack_struct`: `bytes` is the object representation that `memcpy` copies out of the struct.
unfoldable pub pack_struct : ℕ → ℕ → List ℕ → Packet
pack_struct system_id msg_id bytes = record {
  header = record default_header {
    magic = 0xAA;
    version = 1;
    system_id = system_id;
    component_id = 0;
    msg_id = msg_id;
    sequence = 0;
    payload_len = length bytes % 2 ^ 16;
  };
  payload = bytes;
  checksum = 0;
}

-- The packed struct CommandAckPayload in memory, on a little-endian host.
unfoldable pub ack_bytes : CommandAckPayload → List ℕ
ack_bytes a =
    low_byte a.command_msg_id
    ∷ high_byte a.command_msg_id
    ∷ low_byte a.target_sequence
    ∷ high_byte a.target_sequence
    ∷ a.result
    ∷ []
