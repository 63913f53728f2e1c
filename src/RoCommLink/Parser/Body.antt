-- ===== src/RoCommLink/Parser/Body.antt =====
-- A parser without a filter reads the payload behind the header.
use knowledge_acquisition.Prelude.{
  ℕ, zero, suc, ◌+◌, ◌%◌, ◌^◌, ◌<◌, ◌≡◌, refl, ap, ◌∙◌, arith, none, List, [], ◌∷◌, ◌++◌,
  append-nil, append_assoc, lt→ltb, length, length-append, set,
}
use knowledge_acquisition.RoCommLink.Packet.{Packet, PacketHeader, IsPacket}
use knowledge_acquisition.RoCommLink.Serializer.{wire_header, wire_body}
use knowledge_acquisition.RoCommLink.Parser.{
  Parser, wait_start_of_transmission, wait_payload_data, wait_checksum_verification, parse_byte,
  feed, continue_with, resize,
}
use knowledge_acquisition.RoCommLink.Parser.Header.{
  IsMagic, feed_via, header_read, feed-wire_header,
}

set_middle :
    (xs ys : List ℕ) (y v : ℕ) → set (xs ++ (y ∷ ys)) (length xs) v ≡ (xs ++ (v ∷ [])) ++ ys
set_middle [] ys y v = refl
set_middle (x ∷ xs) ys y v = ap (◌∷◌ x) (set_middle xs ys y v)

-- The payload behind the bytes `done`: `todo` is what the vector holds in place of `rest`.
abbrev payload_read : Parser → List ℕ → List ℕ → List ℕ → Parser
payload_read p raw done todo = record p {
  current_packet = record p.current_packet { payload = done ++ todo };
  raw_frame_buffer = raw;
  bytes_read = length done;
  state = wait_payload_data;
}

abbrev payload_done : Parser → List ℕ → List ℕ → Parser
payload_done p raw payload = record p {
  current_packet = record p.current_packet { payload = payload };
  raw_frame_buffer = raw;
  bytes_read = 0;
  state = wait_checksum_verification;
}

payload_step :
    (p : Parser) (raw done todo : List ℕ) (t b : ℕ)
    → p.payload_length < 256
    → length done + 1 < p.payload_length
    → parse_byte (payload_read p raw done (t ∷ todo)) b
      ≡ continue_with (payload_read p (raw ++ (b ∷ [])) (done ++ (b ∷ [])) todo)
unfolding parse_byte
payload_step p raw done todo t b h k =
    ground
      (arith, set_middle done todo t b, length-append done (t ∷ todo), length-append done (b ∷ []))

payload_last :
    (p : Parser) (raw done : List ℕ) (t b : ℕ)
    → p.payload_length < 256
    → length done + 1 ≡ p.payload_length
    → parse_byte (payload_read p raw done (t ∷ [])) b
      ≡ continue_with (payload_done p (raw ++ (b ∷ [])) (done ++ (b ∷ [])))
unfolding parse_byte
payload_last p raw done t b h k = ground (
  arith,
  set_middle done [] t b,
  append-nil (done ++ (b ∷ [])),
  length-append done (t ∷ []),
  length-append done (b ∷ []),
)

-- A payload of at least one byte, into a vector of its size.
feed_payload :
    (bs todo done raw : List ℕ) (p : Parser) (rest : List ℕ)
    → p.payload_length < 256
    → length todo ≡ length bs
    → 0 < length bs
    → length done + length bs ≡ p.payload_length
    → feed (payload_read p raw done todo) (bs ++ rest)
      ≡ feed (payload_done p (raw ++ bs) (done ++ bs)) rest
feed_payload [] todo done raw p rest h e k l = absurd (omega arith)
feed_payload (b ∷ bs) [] done raw p rest h e k l = absurd (omega arith)
feed_payload (b ∷ []) (t ∷ []) done raw p rest h e k l =
    feed_via _ _ _ _ (payload_last p raw done t b h (omega arith)) refl
feed_payload (b ∷ []) (t ∷ t' ∷ ts) done raw p rest h e k l = absurd (omega arith)
feed_payload (b ∷ c ∷ bs) (t ∷ ts) done raw p rest h e k l =
    feed_via _ _ _ _ (payload_step p raw done ts t b h (omega arith)) (
      feed_payload (c ∷ bs) ts (done ++ (b ∷ [])) (raw ++ (b ∷ [])) p rest h (omega arith)
        (omega arith) (omega (arith, length-append done (b ∷ [])))
      ∙ rw (append_assoc raw (b ∷ []) (c ∷ bs), append_assoc done (b ∷ []) (c ∷ bs)))

length-resize : (n : ℕ) (xs : List ℕ) → length (resize n xs) ≡ n
length-resize zero xs = refl
length-resize (suc n) [] = omega (arith, length-resize n [])
length-resize (suc n) (x ∷ xs) = omega (arith, length-resize n xs)

-- The parser behind the body of a frame.
abbrev pub body_read : Parser → Packet → Parser
body_read p k = record p {
  current_packet = record k {
    header = record k.header { payload_len = length k.payload };
    checksum = 0;
  };
  raw_frame_buffer = wire_body k;
  state = wait_checksum_verification;
  payload_length = length k.payload;
  bytes_read = 0;
}

-- The parser behind a header and the payload that it announces.
abbrev payload_end : Parser → PacketHeader → List ℕ → Parser
payload_end p h bs = record p {
  current_packet = record {
    header = record h { payload_len = length bs };
    payload = bs;
    checksum = 0;
  };
  raw_frame_buffer = wire_header h (length bs) ++ bs;
  state = wait_checksum_verification;
  payload_length = length bs;
  bytes_read = 0;
}

feed-header_read :
    (p : Parser) (h : PacketHeader) (bs rest : List ℕ)
    → length bs < 256
    → feed (header_read p h (length bs)) (bs ++ rest) ≡ feed (payload_end p h bs) rest
feed-header_read p h [] rest short = rw append-nil refl
feed-header_read p h (b ∷ bs) rest short =
    let small : suc (length bs) % 256 ≡ suc (length bs) = omega arith in
    let size : ℕ = suc (length bs) in
    rw (small, lt→ltb 0 (suc (length bs)) (omega arith))
      (feed_payload (b ∷ bs) (resize size []) [] (wire_header h size)
        (record p {
          current_packet = record {
            header = record h { payload_len = size };
            payload = [];
            checksum = 0;
          };
          payload_length = size;
        })
        rest short (length-resize size []) (omega arith) (omega arith))

module _ (p : Parser) (k : Packet) (rest : List ℕ) (e : p.state ≡ wait_start_of_transmission)
    (f : p.early_filter_cb ≡ none) (m : IsMagic k.header.magic) (v : IsPacket k)
    (short : length k.payload < 256) where
  pub feed-wire_body : feed p (wire_body k ++ rest) ≡ feed (body_read p k) rest
  unfolding wire_body
  feed-wire_body =
      let small : length k.payload % 2 ^ 16 ≡ length k.payload = omega arith in
      rw (small, append_assoc (wire_header k.header (length k.payload)) k.payload rest)
        (feed-wire_header p k.header (length k.payload) (k.payload ++ rest) e f m v.header
            (omega arith)
          ∙ feed-header_read p k.header k.payload rest short)
