-- ===== src/RoCommLink/Parser/Sound.antt =====
-- What a parser without a filter does on any bytes at all.
use knowledge_acquisition.Prelude.{
  ℕ, ◌%◌, ◌≡◌, refl, Option, none, some, List, [], ◌∷◌, ◌++◌, append_assoc, append-nil, inl, inr,
  IsByte, length, All,
}
use knowledge_acquisition.RoCommLink.Packet.{Packet}
use knowledge_acquisition.RoCommLink.Serializer.{wire_header, calculate_checksum}
use knowledge_acquisition.RoCommLink.Parser
use knowledge_acquisition.RoCommLink.Parser.{
  Parser, ParseResult, ParseStatus, Outcome, new_parser, parse_byte, feed, reported,
}
use knowledge_acquisition.RoCommLink.Parser.Header.{IsMagic}
use knowledge_acquisition.RoCommLink.Parser.Shape.{pending, Inv, frame, Sound, Grows, Ensures}
use knowledge_acquisition.RoCommLink.Parser.Step.{parse_byte-Steps}

-- The result delivers a packet whose frame stands in the input.
abbrev pub DeliversFrom : List ℕ → ParseResult → Type 0
DeliversFrom input r =
    (k : Packet) × (r ≡ record { status = Parser.complete; packet = some k })
    × (pre : List ℕ) × (post : List ℕ) × (input ≡ pre ++ (frame k ++ post))
    × IsMagic k.header.magic
    × (length k.payload ≡ k.header.payload_len % 256)
    × (k.checksum ≡ calculate_checksum (wire_header k.header k.header.payload_len ++ k.payload))

abbrev FeedsTo : List ℕ → Option (List ParseResult × Parser) → Type 0
FeedsTo input o =
    (rs : List ParseResult) × (q : Parser) × (o ≡ some (rs, q))
    × All (DeliversFrom input) rs
    × Inv q

Ensures-some :
    {P : ParseResult → Parser → Type 0} (o : Outcome)
    → Ensures o P
    → (r : ParseResult) × (q : Parser) × (o ≡ some (r, q)) × P r q
Ensures-some none h = absurd h
Ensures-some (some (r, q)) h = (r, q, refl, h)

-- Where the input read so far ends in the frame in the making.
abbrev Behind : List ℕ → Parser → Type 0
Behind seen p = (pre : List ℕ) × (seen ≡ pre ++ pending p)

Behind-Grows :
    (seen : List ℕ) (p q : Parser) (b : ℕ)
    → Behind seen p
    → Grows p b q
    → Behind (seen ++ (b ∷ [])) q
Behind-Grows seen p q b (pre, e) (inl g) = (pre, rw (e, g) (append_assoc pre (pending p) (b ∷ [])))
Behind-Grows seen p q b (pre, e) (inr g) = (seen ++ (b ∷ []), rw (g, append-nil) refl)

module _ (seen bs : List ℕ) (p : Parser) (b : ℕ) (behind : Behind seen p) where
  -- The input behind the bytes that are still to come.
  input_split :
      (bytes : List ℕ)
      → pending p ++ (b ∷ []) ≡ bytes
      → seen ++ (b ∷ bs) ≡ behind.0 ++ (bytes ++ bs)
  input_split bytes e =
      rw
        (
          behind.1,
          ← e,
          append_assoc behind.0 (pending p) (b ∷ bs),
          append_assoc (pending p) (b ∷ []) bs,
        )
        refl

  report-Sound :
      (st : ParseStatus) (o : Option Packet) (rs : List ParseResult)
      → Sound (record { status = st; packet = o }) (pending p ++ (b ∷ []))
      → All (DeliversFrom (seen ++ (b ∷ bs))) rs
      → All (DeliversFrom (seen ++ (b ∷ bs))) (reported (record { status = st; packet = o }) rs)
  report-Sound Parser.processing o rs s h = h
  report-Sound Parser.complete o rs (k, e, (f, m, l, c)) h =
      ((k, rw e refl, behind.0, bs, input_split (frame k) f, m, l, c), h)
  report-Sound Parser.stream_forward_byte o rs s h = absurd s

feed_step :
    (p q : Parser) (b : ℕ) (bs : List ℕ) (r : ParseResult) (rs : List ParseResult) (q' : Parser)
    → parse_byte p b ≡ some (r, q)
    → feed q bs ≡ some (rs, q')
    → feed p (b ∷ bs) ≡ some (reported r rs, q')
unfolding feed
feed_step p q b bs r rs q' e f = rw (e, feed) (rw f refl)

feed_sound :
    (bs seen : List ℕ) (p : Parser)
    → All IsByte bs
    → Inv p
    → Behind seen p
    → FeedsTo (seen ++ bs) (feed p bs)
unfolding feed
feed_sound [] seen p hb v w = ([], p, refl, tt, v)
feed_sound (b ∷ bs) seen p (hb, hbs) v w =
    let (r, q, e, (vq, g, s)) = Ensures-some (parse_byte p b) (parse_byte-Steps p b hb v) in
    let (rs, q', f, h, v') =
      feed_sound bs (seen ++ (b ∷ [])) q hbs vq (Behind-Grows seen p q b w g) in
    (
      reported r rs,
      q',
      feed_step p q b bs r rs q' e f,
      report-Sound seen bs p b w r.status r.packet rs s (rw (append_assoc seen (b ∷ []) bs) at h),
      v',
    )

-- A new parser without a filter reads any sequence of bytes: it never writes outside of its
-- payload buffer, it forwards nothing, and each packet that it delivers has a frame that stands in
-- the input, with the packet's own checksum in its last bytes; this checksum is the one computed
-- from the frame, and the payload has as many bytes as the low byte of the frame's length says.
pub feed-new_parser :
    (bs : List ℕ)
    → All IsByte bs
    → (rs : List ParseResult) × (q : Parser) × (feed new_parser bs ≡ some (rs, q))
      × All (DeliversFrom bs) rs
feed-new_parser bs hb =
    let (rs, q, e, h, v) = feed_sound bs [] new_parser hb (refl, tt, tt, tt) ([], refl) in
    (rs, q, e, h)
