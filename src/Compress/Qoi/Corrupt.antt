-- ===== src/Compress/Qoi/Corrupt.antt =====
-- The decoder on arbitrary bytes before the end marker.
use knowledge_acquisition.Prelude.{
  ℕ, zero, suc, ◌+◌, ◌-◌, ◌*◌, ◌/◌, ◌%◌, ◌<◌, ◌≤◌, ◌≡◌, refl, ◌∙◌, arith, ◌&&◌, some, List, [], ◌∷◌,
  ◌++◌, length, length-append, length-replicate, length-set, get_elem?, replicate, set, All, IsByte,
  ltb, leb, ◌==◌, Bool-cases, inl, inr, if◌then◌else◌,
}
use knowledge_acquisition.Compress.Qoi.{
  QoiPixel, default_pixel, empty_history, end_marker, hash, History, Round, take_rgb, take_rgba,
  take_luma, mask_2, op_rgb, op_rgba, op_index, op_diff, op_luma, decode_round, decode, drop,
  decompress,
}

-- How many bytes a round reads after its first.
abbrev needs : ℕ → ℕ
needs b1 =
    if b1 == 0xFE then 3 else if b1 == 0xFF then 4 else if leb 0x80 b1 && ltb b1 0xC0 then 1 else 0

-- Wherever a round begins, its bytes are there.
abbrev IsClosed : List ℕ → Type 0
IsClosed [] = Unit {0}
IsClosed (b ∷ bytes) = (b < 256) × (needs b ≤ length bytes) × IsClosed bytes

marker-IsClosed : IsClosed end_marker
marker-IsClosed = (
  omega arith,
  omega arith,
  (
    omega arith,
    omega arith,
    (
      omega arith,
      omega arith,
      (
        omega arith,
        omega arith,
        (
          omega arith,
          omega arith,
          (omega arith, omega arith, (omega arith, omega arith, (omega arith, omega arith, tt))),
        ),
      ),
    ),
  ),
)

needs-le : (b : ℕ) → needs b ≤ 4
needs-le b = ground arith

IsClosed-marker : (bytes : List ℕ) → All IsByte bytes → IsClosed (bytes ++ end_marker)
IsClosed-marker [] a = marker-IsClosed
IsClosed-marker (b ∷ bytes) (p, a) =
    let l = length-append bytes end_marker in
    let n = needs-le b in (p, omega arith, IsClosed-marker bytes a)

-- What a round takes and draws.
record Draws (bytes : List ℕ) (o : Round) : Type 0 where
  closed : IsClosed o.rest
  shorter : length o.rest ≤ length bytes
  some_drawn : 1 ≤ o.count
  few_drawn : o.count ≤ 62

take_rgb-Draws :
    (px : QoiPixel) (bytes : List ℕ)
    → 3 ≤ length bytes
    → IsClosed bytes
    → (o : Round) × (take_rgb px bytes ≡ some o) × Draws bytes o
take_rgb-Draws px [] l c = absurd (omega arith)
take_rgb-Draws px (r ∷ []) l c = absurd (omega arith)
take_rgb-Draws px (r ∷ g ∷ []) l c = absurd (omega arith)
take_rgb-Draws px (r ∷ g ∷ b ∷ rest) l (x, y, (z, w, (u, v, c))) = (
  _,
  refl,
  record { closed = c; shorter = omega arith; some_drawn = omega arith; few_drawn = omega arith },
)

take_rgba-Draws :
    (px : QoiPixel) (bytes : List ℕ)
    → 4 ≤ length bytes
    → IsClosed bytes
    → (o : Round) × (take_rgba px bytes ≡ some o) × Draws bytes o
take_rgba-Draws px [] l c = absurd (omega arith)
take_rgba-Draws px (r ∷ []) l c = absurd (omega arith)
take_rgba-Draws px (r ∷ g ∷ []) l c = absurd (omega arith)
take_rgba-Draws px (r ∷ g ∷ b ∷ []) l c = absurd (omega arith)
take_rgba-Draws px (r ∷ g ∷ b ∷ a ∷ rest) l (x, y, (z, w, (u, v, (s, t, c)))) = (
  _,
  refl,
  record { closed = c; shorter = omega arith; some_drawn = omega arith; few_drawn = omega arith },
)

take_luma-Draws :
    (px : QoiPixel) (b1 : ℕ) (bytes : List ℕ)
    → 1 ≤ length bytes
    → IsClosed bytes
    → (o : Round) × (take_luma px b1 bytes ≡ some o) × Draws bytes o
take_luma-Draws px b1 [] l c = absurd (omega arith)
take_luma-Draws px b1 (b ∷ rest) l (x, y, c) = (
  _,
  refl,
  record { closed = c; shorter = omega arith; some_drawn = omega arith; few_drawn = omega arith },
)

-- A round that takes one byte.
one_byte :
    (bytes : List ℕ) (o : Round)
    → o.rest ≡ bytes
    → 1 ≤ o.count
    → o.count ≤ 62
    → IsClosed bytes
    → Draws bytes o
one_byte bytes o e l m c = record {
  closed = rw e c;
  shorter = rw e (omega arith);
  some_drawn = l;
  few_drawn = m;
}

slot_there : (h : History) (k : ℕ) → k < length h → (q : QoiPixel) × (get_elem? h k ≡ some q)
slot_there [] k l = absurd (omega arith)
slot_there (q ∷ h) zero l = (q, refl)
slot_there (q ∷ h) (suc k) l = slot_there h k (omega arith)

decode_round-Draws :
    (b1 : ℕ) (bytes : List ℕ) (px : QoiPixel) (h : History)
    → length h ≡ 64
    → IsClosed (b1 ∷ bytes)
    → (o : Round) × (decode_round b1 bytes px h ≡ some o) × Draws bytes o
unfolding decode_round
decode_round-Draws b1 bytes px h s (p, n, c) = elim (Bool-cases (b1 == op_rgb)) [
  | inl t ↦
      let (o, e, d) = take_rgb-Draws px bytes (ground arith) c in (o, rw (t, decode_round) e, d)
  | inr t ↦ elim (Bool-cases (b1 == op_rgba)) [
    | inl u ↦
        let (o, e, d) = take_rgba-Draws px bytes (ground arith) c in
        (o, rw (t, u, decode_round) e, d)
    | inr u ↦ elim (Bool-cases (mask_2 b1 == op_index)) [
      | inl v ↦
          let (q, e) = slot_there h b1 (ground arith) in
          (
            record { pixel = q; count = 1; rest = bytes },
            rw (t, u, v, e, decode_round) refl,
            one_byte bytes _ refl (omega arith) (omega arith) c,
          )
      | inr v ↦ elim (Bool-cases (mask_2 b1 == op_diff)) [
        | inl w ↦ (
          record {
            pixel = record px {
              r = (px.r + b1 / 16 % 4 + 256 - 2) % 256;
              g = (px.g + b1 / 4 % 4 + 256 - 2) % 256;
              b = (px.b + b1 % 4 + 256 - 2) % 256;
            };
            count = 1;
            rest = bytes;
          },
          rw (t, u, v, w, decode_round) refl,
          one_byte bytes _ refl (omega arith) (omega arith) c,
        )
        | inr w ↦ elim (Bool-cases (mask_2 b1 == op_luma)) [
          | inl x ↦
              let (o, e, d) = take_luma-Draws px b1 bytes (ground arith) c in
              (o, rw (t, u, v, w, x, decode_round) e, d)
          | inr x ↦ (
            record { pixel = px; count = b1 % 64 + 1; rest = bytes },
            rw (t, u, v, w, x, decode_round) refl,
            one_byte bytes _ refl (omega arith) (ground arith) c,
          )
        ]
      ]
    ]
  ]
]

-- What is drawn at most when `left` pixels are to be drawn.
abbrev most : ℕ → ℕ
most left = if left == 0 then 0 else left + 61

most-after :
    (left count : ℕ) → 1 ≤ count → count ≤ 62 → count + most (suc left - count) ≤ most (suc left)
most-after left count l m =
    let whole : most (suc left) ≡ suc left + 61 = ground arith in
    rw whole (elim (Bool-cases (suc left - count == 0)) [
      | inl t ↦ rw t (omega arith)
      | inr t ↦ rw t (ground arith)
    ])

-- The loop ends, and only the last run goes beyond the picture.
decode-Draws :
    (fuel left : ℕ) (bytes : List ℕ) (px : QoiPixel) (h : History)
    → length h ≡ 64
    → length bytes ≤ fuel
    → IsClosed bytes
    → (ps : List QoiPixel) × (decode fuel left bytes px h ≡ some ps) × (length ps ≤ most left)
unfolding decode
decode-Draws fuel zero bytes px h s l c = ([], refl, omega arith)
decode-Draws fuel (suc left) [] px h s l c = ([], refl, omega arith)
decode-Draws zero (suc left) (b1 ∷ bytes) px h s l c = absurd (omega arith)
decode-Draws (suc fuel) (suc left) (b1 ∷ bytes) px h s l c =
    let (o, e, d) = decode_round-Draws b1 bytes px h s c in
    let h' = set h (hash o.pixel) o.pixel in
    let s' = length-set h (hash o.pixel) o.pixel ∙ s in
    let shorter = d.shorter in
    drawn o d e (decode-Draws fuel (suc left - o.count) o.rest o.pixel h' s' (omega arith) d.closed)
  where
    drawn :
        (o : Round)
        → Draws bytes o
        → decode_round b1 bytes px h ≡ some o
        → (ps : List QoiPixel) × (decode fuel
              (suc left - o.count)
              o.rest
              o.pixel
              (set h (hash o.pixel) o.pixel)
            ≡ some ps)
          × (length ps ≤ most (suc left - o.count))
        → (ps : List QoiPixel) × (decode (suc fuel) (suc left) (b1 ∷ bytes) px h ≡ some ps)
          × (length ps ≤ most (suc left))
    drawn o d e (ps, r, m) =
        let a = length-append (replicate o.count o.pixel) ps in
        let b = length-replicate o.count o.pixel in
        let k = most-after left o.count d.some_drawn d.few_drawn in
        (replicate o.count o.pixel ++ ps, rw (e, r, decode) refl, omega arith)

drop-header : (header bytes : List ℕ) → drop (length header) (header ++ bytes) ≡ bytes
drop-header [] bytes = refl
drop-header (b ∷ header) bytes = drop-header header bytes

-- Whatever bytes stand between a header of 14 bytes and the end marker, the decoder reads nothing
-- outside of the array and ends, and it draws at most 61 pixels more than the picture has.
pub decompress_corrupt :
    (w h : ℕ) (header bytes : List ℕ)
    → length header ≡ 14
    → All IsByte bytes
    → (ps : List QoiPixel) × (decompress w h (header ++ (bytes ++ end_marker)) ≡ some ps)
      × (length ps ≤ w * h + 61)
unfolding decompress
decompress_corrupt w h header bytes e a =
    let d = rw e at (drop-header header (bytes ++ end_marker)) in
    let (ps, r, m) =
      decode-Draws (length (bytes ++ end_marker)) (w * h) (bytes ++ end_marker) default_pixel
        empty_history refl (omega arith) (IsClosed-marker bytes a) in
    (ps, rw (d, decompress) r, ground arith)
