-- ===== src/RoCommLink/Link/Stream.antt =====
-- The bytes of a connection, as packets: the loop over bytes is the parser's `feed` followed by the
-- handlers.
use knowledge_acquisition.Prelude.{
  ℕ, Bool, ◌≡◌, refl, ap, sym, arith, ◌∙◌, Option, none, some, List, [], ◌∷◌, ◌++◌, insert, lookup,
  All, Option-cases, inl, inr, length, length-append, ◌<◌,
}
use knowledge_acquisition.RoCommLink.Packet.{Packet}
use knowledge_acquisition.RoCommLink.Parser
use knowledge_acquisition.RoCommLink.Parser.{
  Parser, ParseResult, ParseStatus, wait_start_of_transmission, parse_byte, feed, reported,
}
use knowledge_acquisition.RoCommLink.Parser.RoundTrip.{
  stream, IsSendable, deliveries, received, feed-stream,
}
use knowledge_acquisition.RoCommLink.Serializer.{serialize, wire_body, wire_header}
use knowledge_acquisition.RoCommLink.Link.{
  Link, on_result, on_complete, byte_loop, process_raw_bytes, parser_of, store,
}

feed_inv :
    (p q : Parser) (b : ℕ) (bs : List ℕ) (rs : List ParseResult)
    → feed p (b ∷ bs) ≡ some (rs, q)
    → (r : ParseResult) × (p' : Parser) × (rs' : List ParseResult) × (parse_byte p b ≡ some (r, p'))
      × (feed p' bs ≡ some (rs', q))
      × (rs ≡ reported r rs')
unfolding feed
feed_inv p q b bs rs e = elim (Option-cases (parse_byte p b)) [
  | inl n ↦ cc (rw (n, feed) at e)
  | inr ((r, p'), n) ↦
      let e' = rw (n, feed) at e in
      elim (Option-cases (feed p' bs)) [
        | inl m ↦ cc (rw m at e')
        | inr ((rs', q'), m) ↦
            let e'' = rw m at e' in (r, p', rs', n, ground (arith, m, e''), ground (arith, e''))
      ]
]

stream_nonempty : (k : List ℕ × Packet) (ks : List (List ℕ × Packet)) → 0 < length (stream (k ∷ ks))
unfolding stream serialize wire_body wire_header
stream_nonempty (noise, k) ks = omega (arith, length-append noise (serialize k ++ stream ks))

module _ {C : Type 0} (accepts : ℕ → List ℕ → Bool) where
  -- The handlers, on a sequence of results.
  pub handle_all : List ℕ → List ParseResult → Link C → Option (Link C)
  handle_all bytes [] l = some l
  handle_all bytes (r ∷ rs) l = elim (on_result accepts bytes r l) [
    | none ↦ none
    | some l' ↦ handle_all bytes rs l'
  ]

  abbrev with_parser : Parser → Option (Link C) → Option (Parser × Link C)
  with_parser p none = none
  with_parser p (some l) = some (p, l)

  abbrev and_then : List ℕ → List ParseResult → Option (Link C) → Option (Link C)
  and_then bytes rs none = none
  and_then bytes rs (some l) = handle_all bytes rs l

  handle_reported :
      (bytes : List ℕ) (st : ParseStatus) (k : Option Packet) (rs : List ParseResult) (l : Link C)
      → handle_all bytes (reported (record { status = st; packet = k }) rs) l
        ≡ and_then bytes rs (on_result accepts bytes (record { status = st; packet = k }) l)
  unfolding on_result handle_all
  handle_reported bytes Parser.processing k rs l = refl
  handle_reported bytes Parser.complete none rs l = refl
  handle_reported bytes Parser.complete (some k) rs l = refl
  handle_reported bytes Parser.stream_forward_byte none rs l = refl
  handle_reported bytes Parser.stream_forward_byte (some k) rs l = ground arith

  -- One byte of the loop.
  loop_step :
      (bytes bs : List ℕ) (r : ParseResult) (rs : List ParseResult) (p q : Parser)
      (o : Option (Link C))
      → ((l : Link C) → byte_loop accepts bytes bs p l ≡ with_parser q (handle_all bytes rs l))
      → elim o as (λ _. Option (Parser × Link C)) [
        | none ↦ none
        | some l ↦ byte_loop accepts bytes bs p l
      ]
        ≡ with_parser q (and_then bytes rs o)
  loop_step bytes bs r rs p q none h = refl
  loop_step bytes bs r rs p q (some l) h = h l

  -- If the parser reads `bs` with no fault, the loop runs the handlers on its results.
  pub byte_loop-feed :
      (bytes bs : List ℕ) (p q : Parser) (rs : List ParseResult) (l : Link C)
      → feed p bs ≡ some (rs, q)
      → byte_loop accepts bytes bs p l ≡ with_parser q (handle_all bytes rs l)
  unfolding byte_loop feed handle_all
  byte_loop-feed bytes [] p q rs l e = ground (arith, e)
  byte_loop-feed bytes (b ∷ bs) p q rs l e =
      let (r, p', rs', n, m, x) = feed_inv p q b bs rs e in
      rw (n, byte_loop)
        (loop_step bytes bs r rs' p' q (on_result accepts bytes r l)
            (λ l'. byte_loop-feed bytes bs p' q rs' l' m)
          ∙ rw x (ap (with_parser q) (sym (handle_reported bytes r.status r.packet rs' l))))

  -- The handler of completed packets, on the packets of a stream.
  unfoldable pub complete_all : List (List ℕ × Packet) → Link C → Link C
  complete_all [] l = l
  complete_all ((noise, k) ∷ ks) l = complete_all ks (on_complete accepts (received k) l)

  handle_deliveries :
      (bytes : List ℕ) (ks : List (List ℕ × Packet)) (l : Link C)
      → handle_all bytes (deliveries ks) l ≡ some (complete_all ks l)
  unfolding handle_all on_result complete_all
  handle_deliveries bytes [] l = refl
  handle_deliveries bytes ((noise, k) ∷ ks) l =
      handle_deliveries bytes ks (on_complete accepts (received k) l)

  process_nonempty :
      (bytes : List ℕ) (id : ℕ) (l : Link C)
      → 0 < length bytes
      → process_raw_bytes accepts bytes id l
        ≡ store id (byte_loop accepts bytes bytes (parser_of (lookup id l.parsers)) l)
  unfolding process_raw_bytes
  process_nonempty [] id l h = absurd (omega arith)
  process_nonempty (b ∷ bytes) id l h = refl

  -- A buffer of serialized packets, with bytes between them that open no frame, is handled as the
  -- packets one after the other, each with its wire length and checksum, and the connection's
  -- parser then waits for the next frame. The parser of the connection (a new one, if the connection
  -- has none) waits for a frame and has no filter before. Each packet opens with one of the two magic
  -- bytes, has fields in range, and less than 256 payload bytes.
  pub process_raw_bytes-stream :
      (k : List ℕ × Packet) (ks : List (List ℕ × Packet)) (id : ℕ) (l : Link C)
      → (parser_of (lookup id l.parsers)).state ≡ wait_start_of_transmission
      → (parser_of (lookup id l.parsers)).early_filter_cb ≡ none
      → All IsSendable (k ∷ ks)
      → let l' = complete_all (k ∷ ks) l in
        (q : Parser) × (process_raw_bytes accepts (stream (k ∷ ks)) id l
          ≡ some (record l' { parsers = insert id q l'.parsers }))
        × (q.state ≡ wait_start_of_transmission)
        × (q.early_filter_cb ≡ none)
  process_raw_bytes-stream k ks id l e f h =
      let p = parser_of (lookup id l.parsers) in
      let bytes = stream (k ∷ ks) in
      let (q, r, s, t) = feed-stream (k ∷ ks) p e f h in
      (
        q,
        process_nonempty bytes id l (stream_nonempty k ks)
            ∙ ap (store id) (byte_loop-feed bytes bytes p q (deliveries (k ∷ ks)) l r)
            ∙ ap (λ o. store id (with_parser q o)) (handle_deliveries bytes (k ∷ ks) l),
        s,
        t,
      )
