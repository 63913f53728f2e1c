-- ===== src/RoCommLink/Parser/Header.antt =====
-- A parser without a filter reads the ten header bytes of a frame.
use knowledge_acquisition.Prelude.{
  ℕ, ◌*◌, ◌%◌, ◌≡◌, refl, arith, Option, none, List, [], ◌∷◌, ◌++◌, bit_or, bit_or_bytes, ltb,
  if◌then◌else◌, Bool-cases, false, ◌⊎◌, inl, inr, IsU16,
}
use knowledge_acquisition.RoCommLink.Packet.{PacketHeader, default_packet, default_header, IsHeader}
use knowledge_acquisition.RoCommLink.Serializer.{wire_header, high_byte, low_byte}
use knowledge_acquisition.RoCommLink.Parser.{
  Parser, ParseResult, wait_start_of_transmission, wait_system_identifier, wait_payload_length,
  wait_payload_data, wait_checksum_verification, parse_byte, feed, continue_with, resize,
  execute_early_filter,
}

-- The bytes that open a frame.
abbrev pub IsMagic : ℕ → Type 0
IsMagic m = (m ≡ 0x5A) ⊎ (m ≡ 0xAA)

-- A byte that completes nothing, and then the others.
pub feed_via :
    (p q : Parser) (b : ℕ) (bs : List ℕ) {r : Option (List ParseResult × Parser)}
    → parse_byte p b ≡ continue_with q
    → feed q bs ≡ r
    → feed p (b ∷ bs) ≡ r
unfolding feed
feed_via p q b bs e f = ground (arith, e, f)

abbrev started : Parser → ℕ → Parser
started p m = record p {
  current_packet = record default_packet { header = record default_header { magic = m } };
  raw_frame_buffer = m ∷ [];
  state = wait_system_identifier;
  bytes_read = 0;
}

start_step :
    (p : Parser) (m : ℕ)
    → p.state ≡ wait_start_of_transmission
    → IsMagic m
    → parse_byte p m ≡ continue_with (started p m)
unfolding parse_byte
start_step p m e h = ground arith

-- The parser behind the header.
abbrev pub header_read : Parser → PacketHeader → ℕ → Parser
header_read p h n = record p {
  current_packet = record {
    header = record h { payload_len = n };
    payload = resize (n % 256) [];
    checksum = 0;
  };
  raw_frame_buffer = wire_header h n;
  state = if ltb 0 (n % 256) then wait_payload_data else wait_checksum_verification;
  payload_length = n % 256;
  bytes_read = 0;
}

pub join_bytes : (w : ℕ) → IsU16 w → bit_or (high_byte w * 256) (low_byte w) ≡ w
join_bytes w h = omega (arith, bit_or_bytes (high_byte w) (low_byte w) (omega arith))

-- The parser before the last byte of the header.
abbrev nine_read : Parser → PacketHeader → ℕ → Parser
nine_read p h n = record p {
  current_packet = record {
    header = record h {
      msg_id = bit_or (high_byte h.msg_id * 256) (low_byte h.msg_id);
      sequence = bit_or (high_byte h.sequence * 256) (low_byte h.sequence);
      payload_len = high_byte n * 256;
    };
    payload = [];
    checksum = 0;
  };
  raw_frame_buffer =
      h.magic
      ∷ h.version
      ∷ h.system_id
      ∷ h.component_id
      ∷ high_byte h.msg_id
      ∷ low_byte h.msg_id
      ∷ high_byte h.sequence
      ∷ low_byte h.sequence
      ∷ high_byte n
      ∷ [];
  state = wait_payload_length;
  bytes_read = 3;
}

not_pos : (k : ℕ) → ltb 0 k ≡ false → k ≡ 0
not_pos k h = ground arith

last_step :
    (p : Parser) (h : PacketHeader) (n : ℕ)
    → p.early_filter_cb ≡ none
    → IsHeader h
    → IsU16 n
    → parse_byte (nine_read p h n) (low_byte n) ≡ continue_with (header_read p h n)
unfolding wire_header parse_byte execute_early_filter
last_step p h n f v hn =
    rw (join_bytes h.msg_id v.msg_id, join_bytes h.sequence v.sequence, join_bytes n hn, f)
      (elim (Bool-cases (ltb 0 (n % 256))) [ inl t ↦ rw t refl | inr t ↦ rw (not_pos _ t) refl ])

-- The whole header, whatever follows it.
pub feed-wire_header :
    (p : Parser) (h : PacketHeader) (n : ℕ) (rest : List ℕ)
    → p.state ≡ wait_start_of_transmission
    → p.early_filter_cb ≡ none
    → IsMagic h.magic
    → IsHeader h
    → IsU16 n
    → feed p (wire_header h n ++ rest) ≡ feed (header_read p h n) rest
unfolding wire_header parse_byte
feed-wire_header p h n rest e f m v hn = feed_via p _ _ _ (start_step p h.magic e m) (
    feed_via _ _ _ _ refl (
      feed_via _ _ _ _ refl (
        feed_via _ _ _ _ refl (
          feed_via _ _ _ _ refl (
            feed_via _ _ _ _ refl (
              feed_via _ _ _ _ refl (
                feed_via _ _ _ _ refl (
                  feed_via _ (nine_read p h n) _ _ refl
                    (feed_via _ _ _ _ (last_step p h n f v hn) refl)))))))))
