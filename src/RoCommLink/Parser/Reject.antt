-- ===== src/RoCommLink/Parser/Reject.antt =====
-- Frames that a parser without a filter turns down: a wrong checksum, a changed byte, a payload
-- that is too long; and the state that skips a payload.
use knowledge_acquisition.Prelude.{
  ℕ, ◌%◌, ◌^◌, ◌<◌, ◌≡◌, ◌≢◌, refl, sym, ◌∙◌, arith, none, some, List, [], ◌∷◌, ◌++◌, append_assoc,
  false, ◌==◌, IsU16, IsByte, length, length-append,
}
use knowledge_acquisition.RoCommLink.Packet.{Packet, IsPacket}
use knowledge_acquisition.RoCommLink.Serializer.{
  wire_header, wire_body, calculate_checksum, high_byte, low_byte,
}
use knowledge_acquisition.RoCommLink.Serializer.Checksum.{
  calculate_checksum-lt, calculate_checksum-change,
}
use knowledge_acquisition.RoCommLink.Parser.{Parser, State, parse_byte, feed, continue_with}
use knowledge_acquisition.RoCommLink.Parser.Header.{IsMagic, feed_via, join_bytes}
use knowledge_acquisition.RoCommLink.Parser.Body.{feed-wire_body}
use knowledge_acquisition.RoCommLink.Parser.RoundTrip.{checksum_half, checksum_first}

-- The parser behind a frame with the checksum `w` that is not the body's.
abbrev turned_down : Parser → Packet → ℕ → Parser
turned_down p k w = record (checksum_half p k w) {
  current_packet = record k {
    header = record k.header { payload_len = length k.payload };
    checksum = w;
  };
  state = State.wait_start_of_transmission;
}

checksum_mismatch :
    (p : Parser) (k : Packet) (w : ℕ)
    → IsU16 w
    → (calculate_checksum (wire_body k) == w) ≡ false
    → parse_byte (checksum_half p k w) (low_byte w) ≡ continue_with (turned_down p k w)
unfolding parse_byte
checksum_mismatch p k w h e = rw (join_bytes w h, e) refl

ne→== : (a b : ℕ) → a ≢ b → (a == b) ≡ false
ne→== a b h = ground arith

module _ (p : Parser) (k : Packet) (w : ℕ) (rest : List ℕ)
    (e : p.state ≡ State.wait_start_of_transmission) (f : p.early_filter_cb ≡ none)
    (m : IsMagic k.header.magic) (v : IsPacket k) (short : length k.payload < 256) where
  feed-mismatch :
      IsU16 w
      → calculate_checksum (wire_body k) ≢ w
      → feed p (wire_body k ++ (high_byte w ∷ low_byte w ∷ rest)) ≡ feed (turned_down p k w) rest
  feed-mismatch h ne =
      feed-wire_body p k (high_byte w ∷ low_byte w ∷ rest) e f m v short
      ∙ feed_via _ (checksum_half p k w) _ (low_byte w ∷ rest) (checksum_first p k w f)
          (feed_via _ (turned_down p k w) _ rest (checksum_mismatch p k w h (ne→== _ w ne)) refl)

-- `k` with the payload `bs` in place of its own.
abbrev pub with_payload : Packet → List ℕ → Packet
with_payload k bs = record k { payload = bs }

length_middle : (xs ys : List ℕ) (b c : ℕ) → length (xs ++ (b ∷ ys)) ≡ length (xs ++ (c ∷ ys))
length_middle xs ys b c = omega (arith, length-append xs (b ∷ ys), length-append xs (c ∷ ys))

-- The bodies differ in one byte.
wire_body-change :
    (k : Packet) (xs ys : List ℕ) (b c : ℕ)
    → IsByte b
    → IsByte c
    → b ≢ c
    → calculate_checksum (wire_body (with_payload k (xs ++ (c ∷ ys))))
      ≢ calculate_checksum (wire_body (with_payload k (xs ++ (b ∷ ys))))
unfolding wire_body
wire_body-change k xs ys b c hb hc ne =
    let n = length (xs ++ (b ∷ ys)) % 2 ^ 16 in
    rw
      (
        length_middle xs ys c b,
        ← append_assoc (wire_header k.header n) xs (c ∷ ys),
        ← append_assoc (wire_header k.header n) xs (b ∷ ys),
      )
      (calculate_checksum-change (wire_header k.header n ++ xs) ys c b hc hb (λ e. ne (sym e)))

-- A frame in which one byte of the payload has changed on its way is dropped: a parser that waits
-- for a frame, and has no filter, delivers nothing for it and waits again. `k` is the packet that
-- was serialized, with one of the two magic bytes, fields in range and less than 256 payload bytes,
-- and `c` what arrives in place of `b`.
pub feed-changed_byte :
    (p : Parser) (k : Packet) (xs ys : List ℕ) (b c : ℕ)
    → p.state ≡ State.wait_start_of_transmission
    → p.early_filter_cb ≡ none
    → IsMagic k.header.magic
    → IsPacket (with_payload k (xs ++ (c ∷ ys)))
    → length (xs ++ (c ∷ ys)) < 256
    → IsByte b
    → IsByte c
    → b ≢ c
    → let sent = calculate_checksum (wire_body (with_payload k (xs ++ (b ∷ ys)))) in
      (q : Parser) × (feed p
          (wire_body (with_payload k (xs ++ (c ∷ ys))) ++ (high_byte sent ∷ low_byte sent ∷ []))
        ≡ some ([], q))
      × (q.state ≡ State.wait_start_of_transmission)
unfolding feed
feed-changed_byte p k xs ys b c e f m v short hb hc ne =
    let k' = with_payload k (xs ++ (c ∷ ys)) in
    let w = calculate_checksum (wire_body (with_payload k (xs ++ (b ∷ ys)))) in
    (
      turned_down p k' w,
      feed-mismatch p k' w [] e f m v short (calculate_checksum-lt _)
          (wire_body-change k xs ys b c hb hc ne),
      refl,
    )
