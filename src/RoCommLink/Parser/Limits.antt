-- ===== src/RoCommLink/Parser/Limits.antt =====
-- What the eight-bit counters of the parser cannot do.
use knowledge_acquisition.Prelude.{
  ℕ, ◌+◌, ◌%◌, ◌≤◌, ◌≡◌, ◌≢◌, refl, ap, arith, none, some, List, [], ◌∷◌, ◌++◌, IsByte, length, All,
}
use knowledge_acquisition.RoCommLink.Packet.{Packet}
use knowledge_acquisition.RoCommLink.Parser.{
  Parser, State, ParseResult, new_parser, parse_byte, feed, continue_with,
}
use knowledge_acquisition.RoCommLink.Parser.Header.{feed_via}
use knowledge_acquisition.RoCommLink.Parser.RoundTrip.{delivered}
use knowledge_acquisition.RoCommLink.Parser.Sound.{DeliversFrom, feed-new_parser}

abbrev packet_of : ParseResult → ℕ → ℕ
packet_of r d = elim r.packet [ none ↦ d | some k ↦ length k.payload ]

short_delivery :
    (input : List ℕ) (k : Packet) (r : ParseResult)
    → 256 ≤ length k.payload
    → DeliversFrom input r
    → r ≢ delivered k
short_delivery input k r long (j, e, pre, post, i, m, l, c) same = omega (
  arith,
  ap (λ (x : ParseResult). packet_of x 0) e,
  ap (λ (x : ParseResult). packet_of x 0) same,
  l,
)

All-map :
    {P Q : ParseResult → Type 0} (rs : List ParseResult)
    → ((r : ParseResult) → P r → Q r)
    → All P rs
    → All Q rs
All-map [] f h = tt
All-map (r ∷ rs) f h = (f r h.0, All-map rs f h.1)

-- A packet with 256 payload bytes or more, though its length fits the frame's two length bytes, is
-- never delivered: whatever bytes a new parser without a filter reads, no result is this packet as
-- its receiver should get it.
pub long_payload-ne-delivered :
    (k : Packet) (bs : List ℕ)
    → 256 ≤ length k.payload
    → All IsByte bs
    → (rs : List ParseResult) × (q : Parser) × (feed new_parser bs ≡ some (rs, q))
      × All (λ r. r ≢ delivered k) rs
long_payload-ne-delivered k bs long hb =
    let (rs, q, e, h) = feed-new_parser bs hb in
    (rs, q, e, All-map rs (λ r. short_delivery bs k r long) h)

abbrev skipped : Parser → ℕ → Parser
skipped p b = record p {
  raw_frame_buffer = p.raw_frame_buffer ++ (b ∷ []);
  bytes_read = (p.bytes_read + 1) % 256;
}

skip_step :
    (p : Parser) (b : ℕ)
    → p.state ≡ State.wait_payload_skip
    → 256 ≤ p.current_packet.header.payload_len
    → parse_byte p b ≡ continue_with (skipped p b)
unfolding parse_byte
skip_step p b e h = ground arith

-- A parser that skips a payload of 256 bytes or more skips for ever: it delivers nothing and stays
-- in this state, whatever follows.
pub feed_skip :
    (bs : List ℕ) (p : Parser)
    → p.state ≡ State.wait_payload_skip
    → 256 ≤ p.current_packet.header.payload_len
    → (q : Parser) × (feed p bs ≡ some ([], q)) × (q.state ≡ State.wait_payload_skip)
unfolding feed
feed_skip [] p e h = (p, refl, e)
feed_skip (b ∷ bs) p e h =
    let (q, f, s) = feed_skip bs (skipped p b) e h in
    (q, feed_via p (skipped p b) b bs (skip_step p b e h) f, s)
