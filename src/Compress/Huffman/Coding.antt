-- ===== src/Compress/Huffman/Coding.antt =====
-- The codes of the characters, one after the other, in the array.
use mathlib.Core.Option.{some-injective}
use native.Mathlib.Nat.{mul-add-div_right, pow-suc, pow-le-pow_right}
use knowledge_acquisition.Prelude.{
  ℕ, zero, suc, ◌+◌, ◌-◌, ◌*◌, ◌/◌, ◌%◌, ◌^◌, ◌<◌, ◌≤◌, ◌≡◌, inl, inr, refl, sym, ap, ◌∙◌, arith,
  bit_or-fields, Bool, true, false, some, List, [], ◌∷◌, ◌++◌, append_assoc, append-nil, length,
  All, leb, ◌==◌, Bool-cases, Option-cases,
}
use knowledge_acquisition.Compress.Huffman.{
  FlatNode, bit_value, shift_in, Writer, push_bit, push_path, BitPath, find_path, max_nodes, pack,
}
use knowledge_acquisition.Compress.Huffman.Paths.{shift_all, walk, find_path-Leads}
use knowledge_acquisition.Compress.Huffman.Writing.{Wrote, push_bit-Wrote}

abbrev number : List Bool → ℕ
number [] = 0
number (bit ∷ bits) = bit_value bit * 2 ^ length bits + number bits

bit_value-lt : (bit : Bool) → bit_value bit < 2
bit_value-lt bit = ground arith

pow_positive : (n : ℕ) → 0 < 2 ^ n
pow_positive zero = omega arith
pow_positive (suc n) = omega (arith, pow-suc 2 n, pow_positive n)

number-lt : (bits : List Bool) → number bits < 2 ^ length bits
number-lt [] = omega arith
number-lt (true ∷ bits) = omega (arith, pow-suc 2 (length bits), number-lt bits)
number-lt (false ∷ bits) = omega (arith, pow-suc 2 (length bits), number-lt bits)

shift_in_lem :
    (bits : ℕ) (bit : Bool) → bits * 2 < 2 ^ 32 → shift_in bits bit ≡ bits * 2 + bit_value bit
shift_in_lem bits bit l =
    let m : bits * 2 % 2 ^ 32 ≡ bits * 2 = omega arith in
    rw m (bit_or-fields 1 bits (bit_value bit) (bit_value-lt bit))

regroup : (v b p m : ℕ) → (v * 2 + b) * p + m ≡ v * (2 * p) + (b * p + m)
regroup v b p m = grind arith

-- Without a wrap-around the bits are the digits of a number.
shift_all_lem :
    (bits : List Bool) (v a n : ℕ)
    → v < 2 ^ a
    → a + length bits + n ≡ 32
    → shift_all v bits ≡ v * 2 ^ length bits + number bits
shift_all_lem [] v a n l e = omega arith
shift_all_lem (bit ∷ bits) v a n l e =
    let more : suc a + length bits + n ≡ 32 = omega arith in
    let two : zero < 2 = omega arith in
    let few : suc a ≤ 32 = omega arith in
    let p : 2 ^ suc a ≤ 2 ^ 32 = pow-le-pow_right two few in
    let s = shift_in_lem v bit (omega (arith, pow-suc 2 a, p)) in
    let r =
      shift_all_lem bits (v * 2 + bit_value bit) (suc a) n
        (omega (arith, pow-suc 2 a, bit_value-lt bit)) more in
    let q : 2 ^ length (bit ∷ bits) ≡ 2 * 2 ^ length bits =
      omega (arith, pow-suc 2 (length bits)) in
    rw (s, q) (r ∙ regroup v (bit_value bit) (2 ^ length bits) (number bits))

digit : (q b p m : ℕ) → m < p → (q * (2 * p) + (b * p + m)) / p ≡ q * 2 + b
digit q b p m l =
    let positive : 0 < p = omega arith in
    let z : m / p ≡ 0 = grind arith in
    rw (← regroup q b p m, mul-add-div_right positive (q * 2 + b) m, z) (omega arith)

top_bit :
    (q p m : ℕ) (bit : Bool) → m < p → ((q * (2 * p) + (bit_value bit * p + m)) / p % 2 == 1) ≡ bit
top_bit q p m true l = rw (digit q 1 p m l) (ground arith)
top_bit q p m false l = rw (digit q 0 p m l) (ground arith)

push_path-short : (k bits : ℕ) (w w' : Writer) → push_path k bits w ≡ some w' → k ≤ 32
unfolding push_path
push_path-short zero bits w w' e = omega arith
push_path-short (suc k) bits w w' e = elim (Bool-cases (leb 32 k)) [
  | inl t ↦ let c = rw (t, push_path) at e in cc
  | inr f ↦ ground arith
]

push_path-Wrote :
    (code : List Bool) (q bits : ℕ) (w w' : Writer) (out : List Bool)
    → bits ≡ q * 2 ^ length code + number code
    → Wrote w out
    → push_path (length code) bits w ≡ some w'
    → Wrote w' (out ++ code) × (length w'.bytes ≡ length w.bytes)
unfolding push_path
push_path-Wrote [] q bits w w' out b v e =
    let p = some-injective w w' e in rw (append-nil out, ← p) (v, refl)
push_path-Wrote (bit ∷ code) q bits w w' out b v e =
    let p : 2 ^ length (bit ∷ code) ≡ 2 * 2 ^ length code =
      omega (arith, pow-suc 2 (length code)) in
    let b' = rw p at b in
    let t = top_bit q (2 ^ length code) (number code) bit (number-lt code) in
    let top : (bits / 2 ^ length code % 2 == 1) ≡ bit = rw b' t in
    let more = b' ∙ sym (regroup q (bit_value bit) (2 ^ length code) (number code)) in
    elim (Bool-cases (leb 32 (length code))) [
      | inl l ↦ let c = rw (l, push_path) at e in cc
      | inr l ↦ elim (Option-cases (push_bit bit w)) [
        | inl n ↦ let c = rw (l, top, n, push_path) at e in cc
        | inr (u, n) ↦
            let s = push_bit-Wrote w u out bit v n in
            let r =
              push_path-Wrote code (q * 2 + bit_value bit) bits u w' (out ++ (bit ∷ [])) more s.0
                (rw (l, top, n, push_path) at e) in
            (rw (append_assoc out (bit ∷ []) code) at r.0, r.1 ∙ s.1)
      ]
    ]

-- Every character has a code.
pub record Coded (tree : List FlatNode) (ch : ℕ) : Type 0 where
  pub path : BitPath
  pub answers : find_path max_nodes tree ch 0 0 0 ≡ some path
  pub real : 0 < path.len

-- The bits are codes of the characters, in their order.
abbrev pub Spells : List FlatNode → List ℕ → List Bool → Type 0
Spells tree [] bits = bits ≡ []
Spells tree (ch ∷ input) bits =
    (code : List Bool) × (rest : List Bool) × (bits ≡ code ++ rest)
    × (walk tree 0 code ≡ some ch)
    × Spells tree input rest

code-Wrote :
    (tree : List FlatNode) (ch : ℕ) (path : BitPath) (w w' : Writer) (out : List Bool)
    → find_path max_nodes tree ch 0 0 0 ≡ some path
    → 0 < path.len
    → Wrote w out
    → push_path path.len path.bits w ≡ some w'
    → (code : List Bool) × (walk tree 0 code ≡ some ch)
      × Wrote w' (out ++ code)
      × (length w'.bytes ≡ length w.bytes)
code-Wrote tree ch path w w' out f l v e =
    let r = find_path-Leads tree ch max_nodes 0 0 0 path f l in
    let short = push_path-short path.len path.bits w w' e in
    let n : path.len ≡ length r.code = omega (arith, r.long) in
    let s = shift_all_lem r.code 0 0 (32 - length r.code) (omega arith) (omega arith) in
    let b : path.bits ≡ 0 * 2 ^ length r.code + number r.code = r.value ∙ s in
    let q : push_path (length r.code) path.bits w ≡ some w' = rw (← n) e in
    let (wrote, same) = push_path-Wrote r.code 0 path.bits w w' out b v q in
    (r.code, r.comes, wrote, same)

pub pack-Spells :
    (tree : List FlatNode) (input : List ℕ) (w w' : Writer) (out : List Bool)
    → All (Coded tree) input
    → Wrote w out
    → pack tree input w ≡ some w'
    → (bits : List Bool) × Spells tree input bits
      × Wrote w' (out ++ bits)
      × (length w'.bytes ≡ length w.bytes)
unfolding pack
pack-Spells tree [] w w' out a v e =
    let p = some-injective w w' e in
    ([], refl, rw (append-nil out, ← p) v, ap (λ (u : Writer). length u.bytes) (sym p))
pack-Spells tree (ch ∷ input) w w' out (c, a) v e =
    elim (Option-cases (push_path c.path.len c.path.bits w)) [
      | inl n ↦ let x = rw (c.answers, n, pack) at e in cc
      | inr (u, n) ↦
          let (code, comes, wrote, same) = code-Wrote tree ch c.path w u out c.answers c.real v n in
          let (bits, spells, all, size) =
            pack-Spells tree input u w' (out ++ code) a wrote (rw (c.answers, n, pack) at e) in
          (
            code ++ bits,
            (code, bits, refl, comes, spells),
            rw (append_assoc out code bits) at all,
            size ∙ same,
          )
    ]
