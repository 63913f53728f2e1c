-- ===== src/Compress/Rle/Tests.antt =====
-- Pictures of four pixels with two channels, and of 257 equal pixels with one channel.
use knowledge_acquisition.Prelude.{
  ℕ, ◌+◌, ◌*◌, ◌≤◌, ◌≡◌, refl, arith, none, some, List, [], ◌∷◌, length, replicate, All, IsByte,
}
use knowledge_acquisition.Compress.Rle.{
  compress_rle, packets, run_length, colors_match, channels_at,
}
use knowledge_acquisition.Compress.Rle.Expand.{expand, expand-compress_rle}

abbrev four : List ℕ
four = 1 ∷ 2 ∷ 1 ∷ 2 ∷ 1 ∷ 3 ∷ 1 ∷ 2 ∷ []

compress_rle-four : compress_rle (some four) 2 2 2 ≡ some (2 ∷ 1 ∷ 2 ∷ 1 ∷ 1 ∷ 3 ∷ 1 ∷ 1 ∷ 2 ∷ [])
unfolding compress_rle packets run_length colors_match channels_at
compress_rle-four = refl

compress_rle-short : compress_rle (some (1 ∷ 2 ∷ 1 ∷ [])) 2 1 2 ≡ none
unfolding compress_rle packets run_length colors_match channels_at
compress_rle-short = refl

compress_rle-long_run : compress_rle (some (replicate 257 9)) 257 1 1 ≡ some (255 ∷ 9 ∷ 2 ∷ 9 ∷ [])
unfolding compress_rle packets run_length colors_match channels_at
compress_rle-long_run = refl

four-IsByte : All IsByte four
four-IsByte = (
  omega arith,
  (
    omega arith,
    (omega arith, (omega arith, (omega arith, (omega arith, (omega arith, (omega arith, tt)))))),
  ),
)

expand-compress_rle_example :
    (payload : List ℕ) × (compress_rle (some four) 2 2 2 ≡ some payload)
    × All IsByte payload
    × (expand (2 * 2) 2 payload ≡ four)
    × (length payload ≤ 2 * 2 + length four)
expand-compress_rle_example = expand-compress_rle four 2 2 2 four-IsByte refl
