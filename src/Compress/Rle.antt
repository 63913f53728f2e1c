-- ===== src/Compress/Rle.antt =====
-- RLE.cpp, `compressStbImageRuntime`, on the bytes of the picture. `none` is a read outside of the
-- buffer, or a loop that is not over when its fuel is.
pub mod Runs
pub mod Expand
mod Tests
use knowledge_acquisition.Prelude.{
  ℕ, zero, suc, ◌+◌, ◌*◌, ◌%◌, Bool, true, false, ◌&&◌, Option, none, some, List, [], ◌∷◌, ◌++◌,
  get_elem?, ltb, ◌==◌, if◌then◌else◌,
}

-- `rawPixels[k]`.
abbrev pub byte_at : List ℕ → ℕ → Option ℕ
byte_at raw k = get_elem? raw k

abbrev pub push_front : ℕ → Option (List ℕ) → Option (List ℕ)
push_front byte none = none
push_front byte (some bytes) = some (byte ∷ bytes)

-- The channels of one pixel, from offset `k` on.
unfoldable pub channels_at : List ℕ → ℕ → ℕ → Option (List ℕ)
channels_at raw k zero = some []
channels_at raw k (suc n) = elim (byte_at raw k) [
  | none ↦ none
  | some byte ↦ push_front byte (channels_at raw (suc k) n)
]

-- `colorsMatch`, with `n` channels left.
unfoldable pub colors_match : List ℕ → ℕ → ℕ → ℕ → Option Bool
colors_match raw a b zero = some true
colors_match raw a b (suc n) = elim (byte_at raw a) [
  | none ↦ none
  | some x ↦ elim (byte_at raw b) [
    | none ↦ none
    | some y ↦ elim (x == y) [ true ↦ colors_match raw (suc a) (suc b) n | false ↦ some false ]
  ]
]

-- `runLength`, a uint8_t, after the inner loop.
unfoldable pub run_length : ℕ → List ℕ → ℕ → ℕ → ℕ → ℕ → Option ℕ
run_length zero raw channels total i run = none
run_length (suc fuel) raw channels total i run =
    let rest = run_length fuel raw channels total i ((run + 1) % 256) in
    if ltb (i + run) total && ltb run 255
    then elim (colors_match raw (i * channels) ((i + run) * channels) channels) [
      | none ↦ none
      | some same ↦ if same then rest else some run
    ]
    else some run

-- One packet for each round of the outer loop.
abbrev pub push_packet : Option ℕ → Option (List ℕ) → Option (List ℕ) → Option (List ℕ)
push_packet none pixel rest = none
push_packet (some run) none rest = none
push_packet (some run) (some pixel) none = none
push_packet (some run) (some pixel) (some rest) = some (run ∷ (pixel ++ rest))

unfoldable pub packets : ℕ → List ℕ → ℕ → ℕ → ℕ → Option (List ℕ)
packets zero raw channels total i = none
packets (suc fuel) raw channels total i =
    let run = run_length (suc total) raw channels total i 1 in
    let rest : Option (List ℕ) = elim run [
      | none ↦ none
      | some n ↦ packets fuel raw channels total (i + n)
    ] in
    if ltb i total then push_packet run (channels_at raw (i * channels) channels) rest else some []

-- `asset.packedPayload`; `none` for the buffer is a null pointer.
unfoldable pub compress_rle : Option (List ℕ) → ℕ → ℕ → ℕ → Option (List ℕ)
compress_rle none w h channels = some []
compress_rle (some raw) w h channels =
    if w * h == 0 then some [] else packets (suc (w * h)) raw channels (w * h) 0
