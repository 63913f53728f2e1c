-- ===== src/Compress/Huffman/Writing.antt =====
-- The bits of a byte array, as the writer leaves them and the reader takes them.
use mathlib.Core.Option.{some-injective}
use knowledge_acquisition.Prelude.{
  ℕ, zero, suc, ◌+◌, ◌-◌, ◌*◌, ◌/◌, ◌%◌, ◌^◌, ◌<◌, ◌≤◌, ◌≡◌, inl, inr, refl, sym, ap, ◌∙◌, arith,
  bit_or, Bool, true, false, none, some, List, [], ◌∷◌, ◌++◌, length, length-set, length-append,
  get_elem?, set, All, IsByte, ltb→lt, ltb, ◌==◌, ◌&&◌, Bool-cases, Option-cases, if◌then◌else◌,
}
use knowledge_acquisition.Compress.Huffman.{Writer, advance, push_bit}

-- A bit of a byte, counted from the highest.
abbrev pub byte_bit : ℕ → ℕ → Bool
byte_bit byte i = byte / 2 ^ (7 - i) % 2 == 1

abbrev pub bit_at : List ℕ → ℕ → Bool
bit_at bytes k = elim (get_elem? bytes (k / 8)) [ none ↦ false | some byte ↦ byte_bit byte (k % 8) ]

-- All numbers below a bound, tested one after the other.
abbrev holds_below : ℕ → (ℕ → Bool) → Bool
holds_below zero test = true
holds_below (suc n) test = test n && holds_below n test

holds_below_lem : (n i : ℕ) (test : ℕ → Bool) → holds_below n test ≡ true → i < n → test i ≡ true
holds_below_lem zero i test e l = absurd (omega arith)
holds_below_lem (suc n) i test e l = ground (arith, holds_below_lem n i test)

abbrev same : Bool → Bool → Bool
same true b = b
same false b = if b then false else true

same_lem : (a b : Bool) → same a b ≡ true → a ≡ b
same_lem a b e = ground arith

-- Setting one bit of a byte, tested on all bytes.
abbrev set_bit_test : ℕ → ℕ → ℕ → Bool
set_bit_test byte i j =
    same (byte_bit (bit_or byte (2 ^ (7 - i))) j) (if i == j then true else byte_bit byte j)

set_bit_all :
    holds_below 256 (λ byte. holds_below 8 (λ i. holds_below 8 (λ j. set_bit_test byte i j))) ≡ true
set_bit_all = refl

set_bit_byte :
    holds_below 256 (λ byte. holds_below 8 (λ i. ltb (bit_or byte (2 ^ (7 - i))) 256)) ≡ true
set_bit_byte = refl

set_bit :
    (byte i j : ℕ)
    → byte < 256
    → i < 8
    → j < 8
    → byte_bit (bit_or byte (2 ^ (7 - i))) j ≡ (if i == j then true else byte_bit byte j)
set_bit byte i j l m n =
    let e =
      holds_below_lem 256 byte
        (λ byte. holds_below 8 (λ i. holds_below 8 (λ j. set_bit_test byte i j))) set_bit_all l in
    let f = holds_below_lem 8 i (λ i. holds_below 8 (λ j. set_bit_test byte i j)) e m in
    same_lem _ _ (holds_below_lem 8 j (λ j. set_bit_test byte i j) f n)

set_bit-IsByte : (byte i : ℕ) → byte < 256 → i < 8 → IsByte (bit_or byte (2 ^ (7 - i)))
set_bit-IsByte byte i l m =
    let e =
      holds_below_lem 256 byte (λ byte. holds_below 8 (λ i. ltb (bit_or byte (2 ^ (7 - i))) 256))
        set_bit_byte l in
    ltb→lt _ 256 (holds_below_lem 8 i (λ i. ltb (bit_or byte (2 ^ (7 - i))) 256) e m)

-- Past the end there is nothing but zeros.
abbrev pub nth : List Bool → ℕ → Bool
nth [] k = false
nth (bit ∷ bits) zero = bit
nth (bit ∷ bits) (suc k) = nth bits k

nth_past : (bits : List Bool) (k : ℕ) → length bits ≤ k → nth bits k ≡ false
nth_past [] k l = refl
nth_past (bit ∷ bits) zero l = absurd (omega arith)
nth_past (bit ∷ bits) (suc k) l = nth_past bits k (omega arith)

nth_snoc :
    (bits : List Bool) (bit : Bool) (k : ℕ)
    → nth (bits ++ (bit ∷ [])) k ≡ (if k == length bits then bit else nth bits k)
nth_snoc [] bit zero = refl
nth_snoc [] bit (suc k) = ground arith
nth_snoc (b ∷ bits) bit zero = ground arith
nth_snoc (b ∷ bits) bit (suc k) = ground (arith, nth_snoc bits bit k)

pub nth_append : (xs ys : List Bool) (k : ℕ) → nth (xs ++ ys) (k + length xs) ≡ nth ys k
nth_append [] ys k = let z : k + 0 ≡ k = omega arith in rw z refl
nth_append (x ∷ xs) ys k =
    let z : k + suc (length xs) ≡ suc (k + length xs) = omega arith in rw z (nth_append xs ys k)

-- The writer holds exactly these bits.
pub record Wrote (w : Writer) (out : List Bool) : Type 0 where
  pub shift : w.bit_shift < 8
  pub here : w.byte_idx * 8 + w.bit_shift ≡ length out
  pub within : All IsByte w.bytes
  pub bits : (k : ℕ) → bit_at w.bytes k ≡ nth out k

All-set : (bytes : List ℕ) (i v : ℕ) → All IsByte bytes → IsByte v → All IsByte (set bytes i v)
All-set [] i v a b = tt
All-set (x ∷ bytes) zero v a b = (b, a.1)
All-set (x ∷ bytes) (suc i) v a b = (a.0, All-set bytes i v a.1 b)

All-at : (bytes : List ℕ) (i v : ℕ) → All IsByte bytes → get_elem? bytes i ≡ some v → IsByte v
All-at [] i v a e = cc
All-at (x ∷ bytes) zero v a e = ground (arith, e, a.0)
All-at (x ∷ bytes) (suc i) v a e = All-at bytes i v a.1 e

set_read :
    (bytes : List ℕ) (i j v old : ℕ)
    → get_elem? bytes i ≡ some old
    → get_elem? (set bytes i v) j ≡ (if i == j then some v else get_elem? bytes j)
set_read [] i j v old e = cc
set_read (x ∷ bytes) zero zero v old e = refl
set_read (x ∷ bytes) zero (suc j) v old e = ground arith
set_read (x ∷ bytes) (suc i) zero v old e = ground arith
set_read (x ∷ bytes) (suc i) (suc j) v old e = ground (arith, set_read bytes i j v old e)

-- One bit is set.
bit_at-set :
    (bytes : List ℕ) (idx i byte k : ℕ)
    → All IsByte bytes
    → i < 8
    → get_elem? bytes idx ≡ some byte
    → bit_at (set bytes idx (bit_or byte (2 ^ (7 - i)))) k
      ≡ (if k == idx * 8 + i then true else bit_at bytes k)
bit_at-set bytes idx i byte k a l e =
    let r = set_read bytes idx (k / 8) (bit_or byte (2 ^ (7 - i))) byte e in
    let s = set_bit byte i (k % 8) (All-at bytes idx byte a e) l (omega arith) in
    elim (Bool-cases (idx == k / 8)) [
      | inl t ↦
          let same : idx ≡ k / 8 = ground arith in
          let e' : get_elem? bytes (k / 8) ≡ some byte = rw (← same) e in
          let here : (k == idx * 8 + i) ≡ (i == k % 8) = ground arith in
          rw (r, t, e', here, bit_at) s
      | inr f ↦
          let other : (k == idx * 8 + i) ≡ false = ground arith in rw (r, f, other, bit_at) refl
    ]

bytes-advance : (w : Writer) → (advance w).bytes ≡ w.bytes
bytes-advance w = ground arith

advance-Wrote :
    (w : Writer) (out : List Bool) (bit : Bool) (bytes : List ℕ)
    → Wrote w out
    → All IsByte bytes
    → ((k : ℕ) → bit_at bytes k ≡ (if k == length out then bit else nth out k))
    → Wrote (advance (record w { bytes = bytes })) (out ++ (bit ∷ []))
advance-Wrote w out bit bytes v a h =
    let w' = record w { bytes = bytes } in
    let l = length-append out (bit ∷ []) in
    let b = bytes-advance w' in
    record {
      shift = let h = v.here in let s = v.shift in ground arith;
      here = let h = v.here in let s = v.shift in ground arith;
      within = rw b a;
      bits = λ k. rw b (h k ∙ sym (nth_snoc out bit k));
    }

pub push_bit-Wrote :
    (w w' : Writer) (out : List Bool) (bit : Bool)
    → Wrote w out
    → push_bit bit w ≡ some w'
    → Wrote w' (out ++ (bit ∷ [])) × (length w'.bytes ≡ length w.bytes)
unfolding push_bit
push_bit-Wrote w w' out false v e =
    let p = some-injective (advance w) w' e in
    rw (← p) (
      advance-Wrote w out false w.bytes v v.within
          (λ k. let b = v.bits k in let n = nth_past out k in ground arith),
      ap length (bytes-advance w),
    )
push_bit-Wrote w w' out true v e = elim (Option-cases (get_elem? w.bytes w.byte_idx)) [
  | inl n ↦ let k = rw (n, push_bit) at e in cc
  | inr (byte, n) ↦
      let p = some-injective _ w' (rw (n, push_bit) at e) in
      let new = bit_or byte (2 ^ (7 - w.bit_shift)) in
      let bytes = set w.bytes w.byte_idx new in
      rw (← p) (
        advance-Wrote w out true bytes v
            (All-set w.bytes w.byte_idx new v.within
              (set_bit-IsByte byte w.bit_shift (All-at w.bytes w.byte_idx byte v.within n) v.shift))
            (λ k.
              let s = bit_at-set w.bytes w.byte_idx w.bit_shift byte k v.within v.shift n in
              s ∙ rw (v.here, v.bits k) refl),
        ap length (bytes-advance (record w { bytes = bytes })) ∙ length-set w.bytes w.byte_idx new,
      )
]
