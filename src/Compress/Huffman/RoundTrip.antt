-- ===== src/Compress/Huffman/RoundTrip.antt =====
-- What was packed is read back.
use mathlib.Core.Option.{some-injective}
use native.Mathlib.Nat.{zero-div}
use knowledge_acquisition.Prelude.{
  ℕ, zero, suc, ◌+◌, ◌-◌, ◌*◌, ◌/◌, ◌%◌, ◌^◌, ◌<◌, ◌≤◌, ◌≡◌, inl, inr, refl, ap, ◌∙◌, arith, Bool,
  false, Option, none, some, List, [], ◌∷◌, ◌++◌, length, length-append, length-replicate,
  get_elem?, replicate, All, IsByte, ◌==◌, Bool-cases, Option-cases, if◌then◌else◌,
}
use knowledge_acquisition.Compress.Huffman.{
  FlatNode, leaf, inner, child, side, Writer, new_writer, compressed_size, pack, BitReader,
  read_bit, decode, decompress,
}
use knowledge_acquisition.Compress.Huffman.Paths.{walk, Child-cases}
use knowledge_acquisition.Compress.Huffman.Writing.{bit_at, byte_bit, nth, nth_append, Wrote}
use knowledge_acquisition.Compress.Huffman.Coding.{Coded, Spells, pack-Spells}

abbrev reader_at : ℕ → BitReader
reader_at k = record { byte_idx = k / 8; bit_idx = k % 8 }

-- The bits stand in the array from position `k` on.
abbrev Stands : List ℕ → ℕ → List Bool → Type 0
Stands bytes k bits = (j : ℕ) → j < length bits → bit_at bytes (j + k) ≡ nth bits j

get_elem?-within :
    {A : Type 0} (xs : List A) (i : ℕ) → i < length xs → (x : A) × (get_elem? xs i ≡ some x)
get_elem?-within [] i l = absurd (omega arith)
get_elem?-within (x ∷ xs) zero l = (x, refl)
get_elem?-within (x ∷ xs) (suc i) l = get_elem?-within xs i (omega arith)

reader_at-suc :
    (k : ℕ)
    → (if k % 8 + 1 == 8
        then record { byte_idx = k / 8 + 1; bit_idx = 0 }
        else record (reader_at k) { bit_idx = k % 8 + 1 })
      ≡ reader_at (suc k)
reader_at-suc k = elim (Bool-cases (k % 8 + 1 == 8)) [
  | inl t ↦
      let a : suc k / 8 ≡ k / 8 + 1 = ground arith in
      let b : suc k % 8 ≡ 0 = ground arith in rw (t, a, b) refl
  | inr t ↦
      let a : suc k / 8 ≡ k / 8 = ground arith in
      let b : suc k % 8 ≡ k % 8 + 1 = ground arith in rw (t, a, b) refl
]

read_bit_at :
    (bytes : List ℕ) (k : ℕ)
    → k < length bytes * 8
    → read_bit bytes (reader_at k) ≡ some (bit_at bytes k, reader_at (suc k))
unfolding read_bit
read_bit_at bytes k l =
    let (byte, e) = get_elem?-within bytes (k / 8) (omega arith) in
    rw (e, read_bit, bit_at) (rw (reader_at-suc k) refl)

-- One character.
module _ (tree : List FlatNode) (bytes : List ℕ) (count ch : ℕ) where
  abbrev followed : ℕ → ℕ → Option (List ℕ)
  followed fuel k = elim (decode fuel tree bytes count 0 (reader_at k)) [
    | none ↦ none
    | some rest ↦ some (ch ∷ rest)
  ]

  -- One round.
  module _ (node_idx k : ℕ) (bit : Bool) (node : FlatNode) where
    decode_leaf :
        (fuel : ℕ)
        → k < length bytes * 8
        → bit_at bytes k ≡ bit
        → get_elem? tree node_idx ≡ some node
        → child (side bit node) ≡ leaf ch
        → decode (suc fuel) tree bytes (suc count) node_idx (reader_at k) ≡ followed fuel (suc k)
    unfolding decode
    decode_leaf fuel l b g q =
        let r = read_bit_at bytes k l ∙ ap (λ (x : Bool). some (x, reader_at (suc k))) b in
        rw (r, g, q, decode) refl

    decode_inner :
        (fuel next : ℕ)
        → k < length bytes * 8
        → bit_at bytes k ≡ bit
        → get_elem? tree node_idx ≡ some node
        → child (side bit node) ≡ inner next
        → decode (suc fuel) tree bytes (suc count) node_idx (reader_at k)
          ≡ decode fuel tree bytes (suc count) next (reader_at (suc k))
    unfolding decode
    decode_inner fuel next l b g q =
        let r = read_bit_at bytes k l ∙ ap (λ (x : Bool). some (x, reader_at (suc k))) b in
        rw (r, g, q, decode) refl

  walk_leaf :
      (code : List Bool) (node_idx : ℕ) (bit : Bool) (node : FlatNode) (c : ℕ)
      → walk tree node_idx (bit ∷ code) ≡ some ch
      → get_elem? tree node_idx ≡ some node
      → child (side bit node) ≡ leaf c
      → (length code ≡ 0) × (c ≡ ch)
  unfolding walk
  walk_leaf [] node_idx bit node c e g q = (refl, some-injective c ch (rw (g, q, walk) at e))
  walk_leaf (b ∷ code) node_idx bit node c e g q = let x = rw (g, q, walk) at e in cc

  decode-walk :
      (code : List Bool) (fuel node_idx k : ℕ)
      → walk tree node_idx code ≡ some ch
      → Stands bytes k code
      → k + length code ≤ length bytes * 8
      → decode (length code + fuel) tree bytes (suc count) node_idx (reader_at k)
        ≡ followed fuel (k + length code)
  unfolding walk
  decode-walk [] fuel node_idx k e s l = cc
  decode-walk (bit ∷ code) fuel node_idx k e s l =
      let z : 0 + k ≡ k = omega arith in
      let b : bit_at bytes k ≡ bit = rw z at (s 0 (omega arith)) in
      let plus : suc (length code) + fuel ≡ suc (length code + fuel) = omega arith in
      let shift : k + suc (length code) ≡ suc k + length code = omega arith in
      elim (Option-cases (get_elem? tree node_idx)) [
        | inl n ↦ let x = rw (n, walk) at e in cc
        | inr (node, n) ↦ elim (Child-cases (child (side bit node))) [
          | inl (c, q) ↦
              let (empty, same) = walk_leaf code node_idx bit node c e n q in
              let q' : child (side bit node) ≡ leaf ch = q ∙ ap leaf same in
              let f : length code + fuel ≡ fuel = omega arith in
              let h : suc k + length code ≡ suc k = omega arith in
              rw (plus, shift, f, h) (decode_leaf node_idx k bit node fuel (omega arith) b n q')
          | inr (next, q) ↦
              let later : (j : ℕ) → suc j + k ≡ j + suc k = λ j. omega arith in
              rw (plus, shift)
                (decode_inner node_idx k bit node (length code + fuel) next (omega arith) b n q
                  ∙ decode-walk code fuel next (suc k) (rw (n, q, walk) at e)
                      (λ j m. rw (later j) at (s (suc j) (omega arith))) (omega arith))
        ]
      ]

nth_left : (xs ys : List Bool) (j : ℕ) → j < length xs → nth (xs ++ ys) j ≡ nth xs j
nth_left [] ys j l = absurd (omega arith)
nth_left (x ∷ xs) ys zero l = refl
nth_left (x ∷ xs) ys (suc j) l = nth_left xs ys j (omega arith)

Stands-left :
    (bytes : List ℕ) (k : ℕ) (xs ys : List Bool) → Stands bytes k (xs ++ ys) → Stands bytes k xs
Stands-left bytes k xs ys s j l = s j (omega (arith, length-append xs ys)) ∙ nth_left xs ys j l

Stands-right :
    (bytes : List ℕ) (k : ℕ) (xs ys : List Bool)
    → Stands bytes k (xs ++ ys)
    → Stands bytes (k + length xs) ys
Stands-right bytes k xs ys s j l =
    let z : j + (k + length xs) ≡ j + length xs + k = omega arith in
    rw z (s (j + length xs) (omega (arith, length-append xs ys)) ∙ nth_append xs ys j)

pub decode_done :
    (fuel : ℕ) (tree : List FlatNode) (bytes : List ℕ) (reader : BitReader)
    → decode fuel tree bytes zero 0 reader ≡ some []
unfolding decode
decode_done zero tree bytes reader = refl
decode_done (suc fuel) tree bytes reader = refl

decode-Spells :
    (tree : List FlatNode) (bytes : List ℕ) (input : List ℕ) (bits : List Bool) (fuel k : ℕ)
    → Spells tree input bits
    → Stands bytes k bits
    → k + length bits ≤ length bytes * 8
    → decode (length bits + fuel) tree bytes (length input) 0 (reader_at k) ≡ some input
unfolding decode
decode-Spells tree bytes [] bits fuel k p s l =
    decode_done (length bits + fuel) tree bytes (reader_at k)
decode-Spells tree bytes (ch ∷ input) bits fuel k (code, rest, e, comes, p) s l =
    let s' = rw e at s in
    let n = ap length e ∙ length-append code rest in
    let f : length bits + fuel ≡ length code + (length rest + fuel) = omega arith in
    let w =
      decode-walk tree bytes (length input) ch code (length rest + fuel) 0 k comes
        (Stands-left bytes k code rest s') (omega arith) in
    let r =
      decode-Spells tree bytes input rest fuel (k + length code) p
        (Stands-right bytes k code rest s') (omega arith) in
    rw f (w ∙ rw (r, followed) refl)

zeros-IsByte : (n : ℕ) → All IsByte (replicate n 0)
zeros-IsByte zero = tt
zeros-IsByte (suc n) = (omega arith, zeros-IsByte n)

zero_bit : (i : ℕ) → byte_bit 0 i ≡ false
zero_bit i = let z : 0 / 2 ^ (7 - i) ≡ 0 = zero-div (2 ^ (7 - i)) in rw z refl

bit_at-zeros :
    (n i k : ℕ)
    → elim (get_elem? {A = ℕ} (replicate n 0) i) [ none ↦ false | some byte ↦ byte_bit byte k ]
      ≡ false
bit_at-zeros zero i k = refl
bit_at-zeros (suc n) zero k = zero_bit k
bit_at-zeros (suc n) (suc i) k = bit_at-zeros n i k

new_writer-Wrote : (capacity : ℕ) → Wrote (new_writer capacity) []
new_writer-Wrote capacity = record {
  shift = omega arith;
  here = refl;
  within = zeros-IsByte capacity;
  bits = λ k. bit_at-zeros capacity (k / 8) (k % 8);
}

-- The characters that were packed are read back.
pub decompress-pack :
    (tree : List FlatNode) (input : List ℕ) (capacity : ℕ) (w : Writer)
    → All (Coded tree) input
    → pack tree input (new_writer capacity) ≡ some w
    → compressed_size w ≤ capacity
    → decompress tree w.bytes (length input) ≡ some input
unfolding decompress
decompress-pack tree input capacity w a e c =
    let (bits, spells, wrote, same) =
      pack-Spells tree input (new_writer capacity) w [] a (new_writer-Wrote capacity) e in
    let size : length w.bytes ≡ capacity = same ∙ length-replicate capacity 0 in
    let h = wrote.here in
    let s = wrote.shift in
    let room : length bits ≤ length w.bytes * 8 = ground arith in
    let f : length bits + (length w.bytes * 8 - length bits) ≡ length w.bytes * 8 = omega arith in
    rw (← f) (
      decode-Spells tree w.bytes input bits (length w.bytes * 8 - length bits) 0 spells
        (λ j l. let z : j + 0 ≡ j = omega arith in rw z (wrote.bits j)) (omega arith))
