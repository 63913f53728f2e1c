-- ===== src/Compress/Tests.antt =====
-- The theorems about the compressors at a small picture, and runs of the encoder.
use knowledge_acquisition.Prelude.{
  ℕ, ◌*◌, ◌≡◌, ◌≤◌, ◌+◌, refl, arith, some, List, [], ◌∷◌, ◌++◌, replicate, length, All, IsByte,
}
use knowledge_acquisition.Compress.Qoi.{
  QoiPixel, default_pixel, empty_history, encode, emit_color, decode, compress, decompress,
  decode_round, end_marker,
}
use knowledge_acquisition.Compress.Qoi.Chunk.{IsPixel}
use knowledge_acquisition.Compress.Qoi.Corrupt.{decompress_corrupt}
use knowledge_acquisition.Compress.Qoi.Buffer.{rgba_bytes, decompress-compress}

abbrev grey : ℕ → ℕ → QoiPixel
grey v a = record { r = v; g = v; b = v; a = a }

-- Black twice, a small step, a far colour, and an old colour again.
abbrev picture : List QoiPixel
picture = default_pixel ∷ default_pixel ∷ grey 1 255 ∷ grey 100 255 ∷ grey 1 255 ∷ grey 7 9 ∷ []

grey-IsPixel : (v a : ℕ) → IsByte v → IsByte a → IsPixel (grey v a)
grey-IsPixel v a hv ha = record { r = hv; g = hv; b = hv; a = ha }

picture-IsPixel : All IsPixel picture
picture-IsPixel = (
  grey-IsPixel 0 255 (omega arith) (omega arith),
  (
    grey-IsPixel 0 255 (omega arith) (omega arith),
    (
      grey-IsPixel 1 255 (omega arith) (omega arith),
      (
        grey-IsPixel 100 255 (omega arith) (omega arith),
        (
          grey-IsPixel 1 255 (omega arith) (omega arith),
          (grey-IsPixel 7 9 (omega arith) (omega arith), tt),
        ),
      ),
    ),
  ),
)

encode-picture :
    encode picture empty_history default_pixel 0
    ≡ 0xC1 ∷ 0x7F ∷ 0xFE ∷ 100 ∷ 100 ∷ 100 ∷ 4 ∷ 0xFF ∷ 7 ∷ 7 ∷ 7 ∷ 9 ∷ []
unfolding encode emit_color
encode-picture = refl

decompress-compress_example :
    (out : List ℕ) × (compress (rgba_bytes picture) 3 2 4 ≡ some out)
    × (decompress 3 2 out ≡ some picture)
    × (length out ≤ 22 + 5 * length picture)
decompress-compress_example = decompress-compress picture 3 2 refl picture-IsPixel

-- A run of 62 pixels in a picture of one.
abbrev header : List ℕ
header = 0 ∷ 0 ∷ 0 ∷ 0 ∷ 0 ∷ 0 ∷ 0 ∷ 0 ∷ 0 ∷ 0 ∷ 0 ∷ 0 ∷ 0 ∷ 0 ∷ []

decompress-long_run :
    decompress 1 1 (header ++ ((0xFD ∷ []) ++ end_marker)) ≡ some (replicate 62 default_pixel)
unfolding decompress decode decode_round
decompress-long_run = refl

decompress_corrupt_example :
    (ps : List QoiPixel) × (decompress 1 1 (header ++ ((0xFD ∷ []) ++ end_marker)) ≡ some ps)
    × (length ps ≤ 1 * 1 + 61)
decompress_corrupt_example = decompress_corrupt 1 1 header (0xFD ∷ []) refl (omega arith, tt)
