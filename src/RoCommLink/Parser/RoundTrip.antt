-- ===== src/RoCommLink/Parser/RoundTrip.antt =====
-- The parser reads back the frames that the serializer writes, one after the other.
use knowledge_acquisition.Prelude.{
  ℕ, ◌*◌, ◌<◌, ◌≡◌, refl, ◌∙◌, arith, Option, none, some, List, [], ◌∷◌, ◌++◌, append_assoc,
  ==_refl, length, All,
}
use knowledge_acquisition.RoCommLink.Packet.{Packet, IsPacket}
use knowledge_acquisition.RoCommLink.Serializer.{
  wire_body, serialize, calculate_checksum, high_byte, low_byte,
}
use knowledge_acquisition.RoCommLink.Serializer.Checksum.{calculate_checksum-lt}
use knowledge_acquisition.RoCommLink.Parser.{
  Parser, ParseResult, wait_start_of_transmission, complete, parse_byte, feed, continue_with,
  execute_early_filter, moved_from,
}
use knowledge_acquisition.RoCommLink.Parser.Header.{IsMagic, feed_via, join_bytes}
use knowledge_acquisition.RoCommLink.Parser.Body.{body_read, feed-wire_body}

-- The packet as its receiver gets it: with the length and the checksum of the frame.
abbrev pub received : Packet → Packet
received k = record k {
  header = record k.header { payload_len = length k.payload };
  checksum = calculate_checksum (wire_body k);
}

-- The parser behind a whole frame.
abbrev pub frame_read : Parser → Packet → Parser
frame_read p k = record (body_read p k) {
  current_packet = moved_from (received k);
  state = wait_start_of_transmission;
  bytes_read = 1;
}

-- The parser between the two bytes of the checksum `w`.
abbrev pub checksum_half : Parser → Packet → ℕ → Parser
checksum_half p k w = record (body_read p k) {
  current_packet = record k {
    header = record k.header { payload_len = length k.payload };
    checksum = high_byte w * 256;
  };
  bytes_read = 1;
}

pub checksum_first :
    (p : Parser) (k : Packet) (w : ℕ)
    → p.early_filter_cb ≡ none
    → parse_byte (body_read p k) (high_byte w) ≡ continue_with (checksum_half p k w)
unfolding parse_byte execute_early_filter
checksum_first p k w f = rw f refl

checksum_last :
    (p : Parser) (k : Packet) (w : ℕ)
    → w ≡ calculate_checksum (wire_body k)
    → parse_byte (checksum_half p k w) (low_byte w)
      ≡ some (record { status = complete; packet = some (received k) }, frame_read p k)
unfolding parse_byte
checksum_last p k w e =
    rw
      (
        join_bytes w (rw e (calculate_checksum-lt (wire_body k))),
        e,
        ==_refl (calculate_checksum (wire_body k)),
      )
      refl

abbrev pub delivered : Packet → ParseResult
delivered k = record { status = complete; packet = some (received k) }

abbrev pub then_report :
    ParseResult → Option (List ParseResult × Parser) → Option (List ParseResult × Parser)
then_report r o = elim o [ none ↦ none | some (rs, q) ↦ some (r ∷ rs, q) ]

feed_checksum :
    (p : Parser) (k : Packet) (rest : List ℕ)
    → p.early_filter_cb ≡ none
    → feed (body_read p k) (
        high_byte (calculate_checksum (wire_body k))
        ∷ low_byte (calculate_checksum (wire_body k))
        ∷ rest)
      ≡ then_report (delivered k) (feed (frame_read p k) rest)
unfolding feed
feed_checksum p k rest f =
    let w = calculate_checksum (wire_body k) in
    feed_via _ (checksum_half p k w) _ (low_byte w ∷ rest) (checksum_first p k w f)
      (rw (checksum_last p k w refl, feed) refl)

module _ (p : Parser) (k : Packet) (rest : List ℕ) (e : p.state ≡ wait_start_of_transmission)
    (f : p.early_filter_cb ≡ none) (m : IsMagic k.header.magic) (v : IsPacket k)
    (short : length k.payload < 256) where
  -- A parser that waits for a frame, and has no filter, reads a serialized packet with a payload
  -- of less than 256 bytes: it delivers this packet, once, and goes on behind it as a parser that
  -- waits for the next.
  pub feed-serialize :
      feed p (serialize k ++ rest) ≡ then_report (delivered k) (feed (frame_read p k) rest)
  unfolding serialize
  feed-serialize =
      rw
        (append_assoc (wire_body k)
          (high_byte (calculate_checksum (wire_body k))
            ∷ low_byte (calculate_checksum (wire_body k))
            ∷ [])
          rest)
        (feed-wire_body p k _ e f m v short ∙ feed_checksum p k rest f)

-- A byte between frames is passed over.
noise_step :
    (p : Parser) (b : ℕ)
    → p.state ≡ wait_start_of_transmission
    → ¬ IsMagic b
    → parse_byte p b ≡ continue_with p
unfolding parse_byte
noise_step p b e h = ground arith

feed_noise :
    (noise : List ℕ) (p : Parser) (rest : List ℕ)
    → p.state ≡ wait_start_of_transmission
    → All (λ b. ¬ IsMagic b) noise
    → feed p (noise ++ rest) ≡ feed p rest
feed_noise [] p rest e h = refl
feed_noise (b ∷ noise) p rest e h =
    feed_via p p b (noise ++ rest) (noise_step p b e h.0) (feed_noise noise p rest e h.1)

-- What a transport delivers: packets, each behind bytes that open no frame.
unfoldable pub stream : List (List ℕ × Packet) → List ℕ
stream [] = []
stream ((noise, k) ∷ ks) = noise ++ (serialize k ++ stream ks)

abbrev pub IsSendable : List ℕ × Packet → Type 0
IsSendable (noise, k) =
    All (λ b. ¬ IsMagic b) noise × IsMagic k.header.magic × IsPacket k × (length k.payload < 256)

abbrev pub deliveries : List (List ℕ × Packet) → List ParseResult
deliveries [] = []
deliveries ((noise, k) ∷ ks) = delivered k ∷ deliveries ks

-- A parser that waits for a frame, and has no filter, delivers exactly the packets of a stream of
-- serialized packets with bytes between them that open no frame, in order, and waits again, still
-- without a filter. Each
-- packet opens with one of the two magic bytes, has fields in range, and less than 256 payload bytes.
pub feed-stream :
    (ks : List (List ℕ × Packet)) (p : Parser)
    → p.state ≡ wait_start_of_transmission
    → p.early_filter_cb ≡ none
    → All IsSendable ks
    → (q : Parser) × (feed p (stream ks) ≡ some (deliveries ks, q))
      × (q.state ≡ wait_start_of_transmission)
      × (q.early_filter_cb ≡ none)
unfolding stream feed
feed-stream [] p e f h = (p, refl, e, f)
feed-stream ((noise, k) ∷ ks) p e f ((n, m, v, short), hs) =
    let (q, r, s, t) = feed-stream ks (frame_read p k) refl f hs in
    (q, feed_noise noise p _ e n ∙ feed-serialize p k _ e f m v short ∙ rw r refl, s, t)
