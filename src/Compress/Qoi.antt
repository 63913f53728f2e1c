-- ===== src/Compress/Qoi.antt =====
-- QOI.cpp (`compressToQoiRuntime`) and DecompessQOI.cpp (`decompressQoiToDisplay`). A byte is a
-- number below 256; an int8_t is its bit pattern, so that a range test is a test of the pattern
-- moved to zero. The decoder gives the pixels that it draws.
pub mod Fields
pub mod Chunk
pub mod Loop
pub mod RoundTrip
pub mod Buffer
pub mod Fuel
pub mod Corrupt
use knowledge_acquisition.Prelude.{
  ℕ, zero, suc, ◌+◌, ◌-◌, ◌*◌, ◌/◌, ◌%◌, ◌^◌, bit_or, Bool, true, false, ◌&&◌, Option, none, some,
  List, [], ◌∷◌, ◌++◌, length, get_elem?, set, replicate, ltb, leb, ◌==◌, if◌then◌else◌,
}

pub record QoiPixel : Type 0 where
  pub r : ℕ
  pub g : ℕ
  pub b : ℕ
  pub a : ℕ

abbrev pub default_pixel : QoiPixel
default_pixel = record { r = 0; g = 0; b = 0; a = 255 }

abbrev pub hash : QoiPixel → ℕ
hash p = (p.r * 3 + p.g * 5 + p.b * 7 + p.a * 11) % 64

abbrev pub same : QoiPixel → QoiPixel → Bool
same p q = (p.r == q.r) && ((p.g == q.g) && ((p.b == q.b) && (p.a == q.a)))

abbrev pub op_index : ℕ
op_index = 0x00

abbrev pub op_diff : ℕ
op_diff = 0x40

abbrev pub op_luma : ℕ
op_luma = 0x80

abbrev pub op_run : ℕ
op_run = 0xC0

abbrev pub op_rgb : ℕ
op_rgb = 0xFE

abbrev pub op_rgba : ℕ
op_rgba = 0xFF

-- `int8_t x = a - b`.
abbrev pub delta : ℕ → ℕ → ℕ
delta a b = (a + 256 - b) % 256

-- `-low <= x && x <= width - low - 1` of an int8_t `x`.
abbrev pub in_range : ℕ → ℕ → ℕ → Bool
in_range low width x = ltb ((x + low) % 256) width

-- The tags of a pixel that differs from the one before it and is not in the history.
unfoldable pub emit_color : QoiPixel → QoiPixel → List ℕ
emit_color prev curr =
    let dr = delta curr.r prev.r in
    let dg = delta curr.g prev.g in
    let db = delta curr.b prev.b in
    let dr_dg = delta dr dg in
    let db_dg = delta db dg in
    if curr.a == prev.a
    then if in_range 2 4 dr && (in_range 2 4 dg && in_range 2 4 db)
      then bit_or (bit_or (bit_or op_diff ((dr + 2) % 256 * 16)) ((dg + 2) % 256 * 4))
          ((db + 2) % 256)
        ∷ []
      else if in_range 32 64 dg && (in_range 8 16 dr_dg && in_range 8 16 db_dg)
      then bit_or op_luma ((dg + 32) % 256)
        ∷ bit_or ((dr_dg + 8) % 256 * 16) ((db_dg + 8) % 256)
        ∷ []
      else op_rgb ∷ curr.r ∷ curr.g ∷ curr.b ∷ []
    else op_rgba ∷ curr.r ∷ curr.g ∷ curr.b ∷ curr.a ∷ []

abbrev pub History : Type 0
History = List QoiPixel

abbrev pub empty_history : History
empty_history = replicate 64 default_pixel

-- `colorHistory[i] == p`; the index is a hash, below 64.
abbrev pub slot_holds : History → ℕ → QoiPixel → Bool
slot_holds h i p = elim (get_elem? h i) [ none ↦ false | some q ↦ same q p ]

abbrev pub flush : ℕ → List ℕ
flush run = if ltb 0 run then bit_or op_run (run - 1) ∷ [] else []

-- The loop over the pixels, with the history, the previous pixel and the run length.
unfoldable pub encode : List QoiPixel → History → QoiPixel → ℕ → List ℕ
encode [] h prev run = flush run
encode (curr ∷ ps) h prev run =
    let hit = encode ps h curr 0 in
    let miss = encode ps (set h (hash curr) curr) curr 0 in
    let long = encode ps h curr 0 in
    let more = encode ps h curr (run + 1) in
    if same curr prev
    then if run + 1 == 62 then bit_or op_run 61 ∷ long else more
    else flush run
      ++ (if slot_holds h (hash curr) curr
          then bit_or op_index (hash curr) ∷ hit
          else emit_color prev curr ++ miss)

-- `(x >> 24) & 0xFF` and so on.
abbrev pub big_endian : ℕ → List ℕ
big_endian x = x / 2 ^ 24 % 256 ∷ x / 2 ^ 16 % 256 ∷ x / 2 ^ 8 % 256 ∷ x % 256 ∷ []

abbrev pub qoi_header : ℕ → ℕ → ℕ → List ℕ
qoi_header w h channels =
    (b'q' ∷ b'o' ∷ b'i' ∷ b'f' ∷ [])
    ++ (big_endian w ++ (big_endian h ++ (channels % 256 ∷ 0 ∷ [])))

abbrev pub end_marker : List ℕ
end_marker = 0 ∷ 0 ∷ 0 ∷ 0 ∷ 0 ∷ 0 ∷ 0 ∷ 1 ∷ []

-- The pixels that the loop reads; `a` is the alpha of the register, which a read without an alpha
-- channel leaves. `none` is a read outside of the buffer.
unfoldable pub read_pixels : ℕ → ℕ → List ℕ → ℕ → ℕ → Option (List QoiPixel)
read_pixels zero channels raw offset a = some []
read_pixels (suc n) channels raw offset a = elim (get_elem? raw offset) [
  | none ↦ none
  | some r ↦ elim (get_elem? raw (offset + 1)) [
    | none ↦ none
    | some g ↦ elim (get_elem? raw (offset + 2)) [
      | none ↦ none
      | some b ↦ elim (if channels == 4 then get_elem? raw (offset + 3) else some a) [
        | none ↦ none
        | some a' ↦ elim (read_pixels n channels raw (offset + channels) a') [
          | none ↦ none
          | some ps ↦ some (record { r = r; g = g; b = b; a = a' } ∷ ps)
        ]
      ]
    ]
  ]
]

unfoldable pub compress_pixels : List QoiPixel → ℕ → ℕ → ℕ → List ℕ
compress_pixels ps w h channels =
    qoi_header w h channels ++ (encode ps empty_history default_pixel 0 ++ end_marker)

unfoldable pub compress : List ℕ → ℕ → ℕ → ℕ → Option (List ℕ)
unfolding read_pixels
compress raw w h channels = elim (read_pixels (w * h) channels raw 0 255) [
  | none ↦ none
  | some ps ↦ some (compress_pixels ps w h channels)
]

-- One round of the decoder: the pixel, how often it is drawn, and the bytes that are left.
pub record Round : Type 0 where
  pub pixel : QoiPixel
  pub count : ℕ
  pub rest : List ℕ

abbrev pub take_rgb : QoiPixel → List ℕ → Option Round
take_rgb px [] = none
take_rgb px (r ∷ []) = none
take_rgb px (r ∷ g ∷ []) = none
take_rgb px (r ∷ g ∷ b ∷ rest) =
    some (record { pixel = record px { r = r; g = g; b = b }; count = 1; rest = rest })

abbrev pub take_rgba : QoiPixel → List ℕ → Option Round
take_rgba px [] = none
take_rgba px (r ∷ []) = none
take_rgba px (r ∷ g ∷ []) = none
take_rgba px (r ∷ g ∷ b ∷ []) = none
take_rgba px (r ∷ g ∷ b ∷ a ∷ rest) =
    some (record { pixel = record { r = r; g = g; b = b; a = a }; count = 1; rest = rest })

abbrev pub take_luma : QoiPixel → ℕ → List ℕ → Option Round
take_luma px b1 [] = none
take_luma px b1 (b2 ∷ rest) =
    let dg = (b1 % 64 + 256 - 32) % 256 in
    some (record {
      pixel = record px {
        r = (px.r + (dg + 256 - 8) + b2 / 16 % 16) % 256;
        g = (px.g + dg) % 256;
        b = (px.b + (dg + 256 - 8) + b2 % 16) % 256;
      };
      count = 1;
      rest = rest;
    })

-- `b1 & QOI_MASK_2`.
abbrev pub mask_2 : ℕ → ℕ
mask_2 b1 = b1 / 64 * 64

unfoldable pub decode_round : ℕ → List ℕ → QoiPixel → History → Option Round
decode_round b1 rest px h =
    if b1 == op_rgb
    then take_rgb px rest
    else if b1 == op_rgba
    then take_rgba px rest
    else if mask_2 b1 == op_index
    then elim (get_elem? h b1) [
      | none ↦ none
      | some q ↦ some (record { pixel = q; count = 1; rest = rest })
    ]
    else if mask_2 b1 == op_diff
    then some (record {
      pixel = record px {
        r = (px.r + b1 / 16 % 4 + 256 - 2) % 256;
        g = (px.g + b1 / 4 % 4 + 256 - 2) % 256;
        b = (px.b + b1 % 4 + 256 - 2) % 256;
      };
      count = 1;
      rest = rest;
    })
    else if mask_2 b1 == op_luma
    then take_luma px b1 rest
    else some (record { pixel = px; count = b1 % 64 + 1; rest = rest })

-- The loop. `left` is how many pixels are to be drawn; every round takes a byte at least, so the
-- number of bytes is enough fuel.
unfoldable pub decode : ℕ → ℕ → List ℕ → QoiPixel → History → Option (List QoiPixel)
decode fuel zero bytes px h = some []
decode fuel (suc left) [] px h = some []
decode zero (suc left) (b1 ∷ bytes) px h = none
decode (suc fuel) (suc left) (b1 ∷ bytes) px h = elim (decode_round b1 bytes px h) [
  | none ↦ none
  | some o ↦ elim (decode fuel (suc left - o.count) o.rest o.pixel (set h (hash o.pixel) o.pixel)) [
    | none ↦ none
    | some ps ↦ some (replicate o.count o.pixel ++ ps)
  ]
]

abbrev pub drop : ℕ → List ℕ → List ℕ
drop zero xs = xs
drop (suc n) [] = []
drop (suc n) (x ∷ xs) = drop n xs

unfoldable pub decompress : ℕ → ℕ → List ℕ → Option (List QoiPixel)
decompress w h bytes =
    decode (length (drop 14 bytes)) (w * h) (drop 14 bytes) default_pixel empty_history
