-- ===== src/Compress/Huffman.antt =====
-- Huffman_String.cpp, `CompileTimeHuffman` and `decompressEmbeddedData`: codes of a flat tree, the bits
-- they are packed into, and the walk that reads them. Characters are numbers below 256. `none` is
-- undefined behaviour, which a constant expression may not have: an index out of bounds, a shift by
-- 32 or more.
pub mod Paths
pub mod Writing
pub mod Coding
pub mod RoundTrip
pub mod Build
pub mod Search
pub mod Merge
pub mod Codes
pub mod Forest
pub mod Joined
pub mod Counts
pub mod Flattened
pub mod Leading
pub mod Book
pub mod Files
mod Tests
use knowledge_acquisition.Prelude.{
  ℕ, zero, suc, ◌+◌, ◌-◌, ◌*◌, ◌/◌, ◌%◌, ◌^◌, ℤ, pos, negsuc, bit_or, Bool, true, false, Option,
  none, some, List, [], ◌∷◌, length, get_elem?, set, replicate, ltb, leb, ◌==◌, if◌then◌else◌,
}

pub record FlatNode : Type 0 where
  pub left : ℤ
  pub right : ℤ

-- What a link of a node means: a character, negated, or the index of a node.
pub data Child : Type 0 where
  leaf : (ch : ℕ) → Child
  inner : (node : ℕ) → Child

abbrev pub child : ℤ → Child
child (pos zero) = leaf 0
child (pos (suc n)) = inner (suc n)
child (negsuc n) = leaf (suc n % 256)

abbrev pub side : Bool → FlatNode → ℤ
side bit node = if bit then node.right else node.left

pub record BitPath : Type 0 where
  pub bits : ℕ
  pub len : ℕ

abbrev pub not_found : BitPath
not_found = record { bits = 0; len = 0 }

abbrev pub bit_value : Bool → ℕ
bit_value bit = if bit then 1 else 0

-- `(current_bits << 1) | bit` in 32 bits.
abbrev pub shift_in : ℕ → Bool → ℕ
shift_in bits bit = bit_or (bits * 2 % 2 ^ 32) (bit_value bit)

-- One side of a node, when `deeper` is what the call on an inner child answers.
abbrev pub look : Bool → FlatNode → ℕ → ℕ → ℕ → (ℕ → ℕ → ℕ → Option BitPath) → Option BitPath
look bit node target bits depth deeper = elim (child (side bit node)) [
  | leaf ch ↦
      if ch == target
      then some (record { bits = shift_in bits bit; len = depth + 1 })
      else some not_found
  | inner next ↦ deeper next (shift_in bits bit) (depth + 1)
]

-- `fuel` bounds the depth of the calls.
unfoldable pub find_path : ℕ → List FlatNode → ℕ → ℕ → ℕ → ℕ → Option BitPath
find_path zero tree target node_idx bits depth = none
find_path (suc fuel) tree target node_idx bits depth =
    let deeper = find_path fuel tree target in
    elim (get_elem? tree node_idx) [
      | none ↦ none
      | some node ↦ elim (look false node target bits depth deeper) [
        | none ↦ none
        | some path ↦ if ltb 0 path.len then some path else look true node target bits depth deeper
      ]
    ]

-- `current_byte_idx` and `current_bit_shift` with the array.
pub record Writer : Type 0 where
  pub bytes : List ℕ
  pub byte_idx : ℕ
  pub bit_shift : ℕ

abbrev pub advance : Writer → Writer
advance w =
    if w.bit_shift + 1 == 8
    then record w { bit_shift = 0; byte_idx = w.byte_idx + 1 }
    else record w { bit_shift = w.bit_shift + 1 }

unfoldable pub push_bit : Bool → Writer → Option Writer
push_bit false w = some (advance w)
push_bit true w = elim (get_elem? w.bytes w.byte_idx) [
  | none ↦ none
  | some byte ↦
      some (
        advance (record w { bytes = set w.bytes w.byte_idx (bit_or byte (2 ^ (7 - w.bit_shift))) }))
]

-- The rounds that are left for a path; the next bit is the one of weight `2 ^ k`.
unfoldable pub push_path : ℕ → ℕ → Writer → Option Writer
push_path zero bits w = some w
push_path (suc k) bits w =
    if leb 32 k
    then none
    else elim (push_bit (bits / 2 ^ k % 2 == 1) w) [ none ↦ none | some w' ↦ push_path k bits w' ]

abbrev pub max_nodes : ℕ
max_nodes = 128

unfoldable pub pack : List FlatNode → List ℕ → Writer → Option Writer
pack tree [] w = some w
pack tree (ch ∷ input) w = elim (find_path max_nodes tree ch 0 0 0) [
  | none ↦ none
  | some path ↦ elim (push_path path.len path.bits w) [ none ↦ none | some w' ↦ pack tree input w' ]
]

abbrev pub new_writer : ℕ → Writer
new_writer capacity = record { bytes = replicate capacity 0; byte_idx = 0; bit_shift = 0 }

abbrev pub compressed_size : Writer → ℕ
compressed_size w = w.byte_idx + (if ltb 0 w.bit_shift then 1 else 0)

pub record BitReader : Type 0 where
  pub byte_idx : ℕ
  pub bit_idx : ℕ

unfoldable pub read_bit : List ℕ → BitReader → Option (Bool × BitReader)
read_bit bytes reader = elim (get_elem? bytes reader.byte_idx) [
  | none ↦ none
  | some byte ↦ some (
    byte / 2 ^ (7 - reader.bit_idx) % 2 == 1,
    if reader.bit_idx + 1 == 8
        then record { byte_idx = reader.byte_idx + 1; bit_idx = 0 }
        else record reader { bit_idx = reader.bit_idx + 1 },
  )
]

-- `count` characters are left to read, and every round takes a bit; `fuel` bounds the rounds.
unfoldable pub decode : ℕ → List FlatNode → List ℕ → ℕ → ℕ → BitReader → Option (List ℕ)
decode fuel tree bytes zero node_idx reader = some []
decode zero tree bytes (suc count) node_idx reader = none
decode (suc fuel) tree bytes (suc count) node_idx reader = elim (read_bit bytes reader) [
  | none ↦ none
  | some (bit, reader') ↦ elim (get_elem? tree node_idx) [
    | none ↦ none
    | some node ↦ elim (child (side bit node)) [
      | leaf ch ↦ elim (decode fuel tree bytes count 0 reader') [
        | none ↦ none
        | some rest ↦ some (ch ∷ rest)
      ]
      | inner next ↦ decode fuel tree bytes (suc count) next reader'
    ]
  ]
]

-- There are no more bits than eight for each byte of the array.
unfoldable pub decompress : List FlatNode → List ℕ → ℕ → Option (List ℕ)
decompress tree bytes original_length =
    decode (length bytes * 8) tree bytes original_length 0 (record { byte_idx = 0; bit_idx = 0 })
