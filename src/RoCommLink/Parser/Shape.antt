-- ===== src/RoCommLink/Parser/Shape.antt =====
-- The invariant of a parser without a filter: in each state, how the raw frame buffer, the counter
-- and the packet in the making belong together.
use knowledge_acquisition.Prelude.{
  ℕ, zero, suc, ◌%◌, ◌<◌, ◌≡◌, none, some, List, [], ◌∷◌, ◌++◌, ◌==◌, if◌then◌else◌, ◌⊎◌, IsU16,
  length,
}
use knowledge_acquisition.RoCommLink.Packet.{Packet, PacketHeader}
use knowledge_acquisition.RoCommLink.Serializer.{
  wire_header, calculate_checksum, high_byte, low_byte,
}
use knowledge_acquisition.RoCommLink.Parser
use knowledge_acquisition.RoCommLink.Parser.{Parser, State, ParseResult, Outcome}
use knowledge_acquisition.RoCommLink.Parser.Header.{IsMagic}

abbrev pub take : ℕ → List ℕ → List ℕ
take zero xs = []
take (suc n) [] = []
take (suc n) (x ∷ xs) = x ∷ take n xs

abbrev pub head3 : PacketHeader → List ℕ → List ℕ
head3 h tail = h.magic ∷ h.version ∷ h.system_id ∷ tail

abbrev pub head6 : PacketHeader → List ℕ → List ℕ
head6 h tail = head3 h (h.component_id ∷ high_byte h.msg_id ∷ low_byte h.msg_id ∷ tail)

abbrev pub head8 : PacketHeader → List ℕ → List ℕ
head8 h tail = head6 h (high_byte h.sequence ∷ low_byte h.sequence ∷ tail)

-- A number whose low byte is still to come.
abbrev pub IsHigh : ℕ → Type 0
IsHigh w = IsU16 w × (w % 256 ≡ 0)

-- The raw frame `raw` and the counter `n` behind the bytes that the state has seen.
abbrev pub Shape : State → ℕ → List ℕ → ℕ → Packet → Type 0
Shape State.wait_start_of_transmission n raw l k = Unit {0}
Shape State.wait_system_identifier n raw l k =
    ((n ≡ 0) × (raw ≡ k.header.magic ∷ []))
    ⊎ ((n ≡ 1) × (raw ≡ k.header.magic ∷ k.header.version ∷ []))
Shape State.wait_message_identifier_high_byte n raw l k = (n ≡ 1) × (raw ≡ head3 k.header [])
Shape State.wait_message_identifier_low_byte n raw l k =
    ((n ≡ 1) × (raw ≡ head3 k.header (k.header.component_id ∷ [])))
    ⊎ ((n ≡ 2)
        × IsHigh k.header.msg_id
        × (raw ≡ head3 k.header (k.header.component_id ∷ high_byte k.header.msg_id ∷ [])))
Shape State.wait_payload_length n raw l k =
    ((n ≡ 0) × (raw ≡ head6 k.header []))
    ⊎ ((n ≡ 1)
        × IsHigh k.header.sequence
        × (raw ≡ head6 k.header (high_byte k.header.sequence ∷ [])))
    ⊎ ((n ≡ 2) × (raw ≡ head8 k.header []))
    ⊎ ((n ≡ 3)
        × IsHigh k.header.payload_len
        × (raw ≡ head8 k.header (high_byte k.header.payload_len ∷ [])))
Shape State.wait_payload_data n raw l k =
    (n < l)
    × (l ≡ k.header.payload_len % 256)
    × (length k.payload ≡ l)
    × (raw ≡ wire_header k.header k.header.payload_len ++ take n k.payload)
Shape State.wait_payload_skip n raw l k = ⊥
Shape State.forward_active n raw l k = ⊥
Shape State.wait_checksum_verification n raw l k =
    ((n ≡ 0) ⊎ ((n ≡ 1) × IsHigh k.checksum))
    × (length k.payload ≡ k.header.payload_len % 256)
    × (raw ≡ wire_header k.header k.header.payload_len ++ k.payload)

-- The bytes of the frame in the making.
abbrev pub pending_in : State → ℕ → List ℕ → Packet → List ℕ
pending_in State.wait_start_of_transmission n raw k = []
pending_in State.wait_checksum_verification n raw k =
    if n == 0 then raw else raw ++ (high_byte k.checksum ∷ [])
pending_in _ n raw k = raw

abbrev pub pending : Parser → List ℕ
pending p = pending_in p.state p.bytes_read p.raw_frame_buffer p.current_packet

-- `payload` is empty as long as the header is read.
abbrev pub EmptyIn : State → Packet → Type 0
EmptyIn State.wait_start_of_transmission k = Unit {0}
EmptyIn State.wait_payload_data k = Unit {0}
EmptyIn State.wait_checksum_verification k = Unit {0}
EmptyIn _ k = k.payload ≡ []

-- Magic byte and ranges of what the header holds so far.
abbrev pub MagicIn : State → Packet → Type 0
MagicIn State.wait_start_of_transmission k = Unit {0}
MagicIn _ k = IsMagic k.header.magic

abbrev pub Inv : Parser → Type 0
Inv p =
    (p.early_filter_cb ≡ none)
    × Shape p.state p.bytes_read p.raw_frame_buffer p.payload_length p.current_packet
    × EmptyIn p.state p.current_packet
    × MagicIn p.state p.current_packet

-- A frame as it stands on the wire, with its own length and checksum.
abbrev pub frame : Packet → List ℕ
frame k =
    (wire_header k.header k.header.payload_len ++ k.payload)
    ++ (high_byte k.checksum ∷ low_byte k.checksum ∷ [])

-- What a delivered packet has: its frame is `bytes`.
abbrev pub Frames : Packet → List ℕ → Type 0
Frames k bytes =
    (bytes ≡ frame k)
    × IsMagic k.header.magic
    × (length k.payload ≡ k.header.payload_len % 256)
    × (k.checksum ≡ calculate_checksum (wire_header k.header k.header.payload_len ++ k.payload))

abbrev pub Sound : ParseResult → List ℕ → Type 0
Sound r bytes = elim r.status [
  | Parser.processing ↦ Unit {0}
  | Parser.complete ↦ (k : Packet) × (r.packet ≡ some k) × Frames k bytes
  | Parser.stream_forward_byte ↦ ⊥
]

-- The frame grows by the byte, or starts anew behind it.
abbrev pub Grows : Parser → ℕ → Parser → Type 0
Grows p b q = (pending q ≡ pending p ++ (b ∷ [])) ⊎ (pending q ≡ [])

abbrev pub Ensures : Outcome → (ParseResult → Parser → Type 0) → Type 0
Ensures none P = ⊥
Ensures (some (r, q)) P = P r q

abbrev pub Steps : Parser → ℕ → Outcome → Type 0
Steps p b o = Ensures o (λ r q. Inv q × Grows p b q × Sound r (pending p ++ (b ∷ [])))
