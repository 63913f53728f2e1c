-- ===== src/Compress/Huffman/Counts.antt =====
-- The leaves of a text.
use knowledge_acquisition.Prelude.{
  ℕ, zero, suc, ◌+◌, ◌-◌, ◌<◌, ◌≤◌, ◌≡◌, refl, sym, ◌∙◌, arith, true, some, List, [], ◌∷◌, length,
  length-set, length-replicate, get_elem?, set, replicate, All, ltb, ◌==◌, Bool-cases, inl, inr,
  if◌then◌else◌,
}
use mathlib.Core.Option.{some-injective}
use knowledge_acquisition.Compress.Huffman.Build.{
  TempNode, at_least_zero, count_chars, new_leaf, leaves,
}
use knowledge_acquisition.Compress.Huffman.Search.{IsActive}
use knowledge_acquisition.Compress.Huffman.Merge.{leaves_of}
use knowledge_acquisition.Compress.Huffman.Forest.{is_leaf, IsForest}

abbrev count_at : List ℕ → ℕ → ℕ
count_at freq_map ch = at_least_zero (get_elem? freq_map ch)

length-count_chars :
    (input freq_map : List ℕ) → length (count_chars input freq_map) ≡ length freq_map
unfolding count_chars
length-count_chars [] freq_map = refl
length-count_chars (ch ∷ input) freq_map =
    let next = set freq_map ch (at_least_zero (get_elem? freq_map ch) + 1) in
    length-count_chars input next
    ∙ length-set freq_map ch (at_least_zero (get_elem? freq_map ch) + 1)

-- One character more.
count_at-set :
    (freq_map : List ℕ) (ch c : ℕ)
    → ch < length freq_map
    → count_at (set freq_map ch (count_at freq_map ch + 1)) c
      ≡ (if ch == c then count_at freq_map c + 1 else count_at freq_map c)
count_at-set [] ch c l = absurd (omega arith)
count_at-set (x ∷ freq_map) zero zero l = refl
count_at-set (x ∷ freq_map) zero (suc c) l = ground arith
count_at-set (x ∷ freq_map) (suc ch) zero l = ground arith
count_at-set (x ∷ freq_map) (suc ch) (suc c) l = ground (arith, count_at-set freq_map ch c)

-- What a text may be made of.
abbrev pub IsText : List ℕ → Type 0
IsText input = All (λ ch. (0 < ch) × (ch < 256)) input

module _ (size : ℕ) (enough : 256 ≤ size) where
  count_chars-le :
      (input freq_map : List ℕ) (c : ℕ)
      → length freq_map ≡ size
      → IsText input
      → count_at freq_map c ≤ count_at (count_chars input freq_map) c
  unfolding count_chars
  count_chars-le [] freq_map c n a = omega arith
  count_chars-le (ch ∷ input) freq_map c n (l, a) =
      let s = count_at-set freq_map ch c (omega (arith, l.1)) in
      let m = length-set freq_map ch (count_at freq_map ch + 1) in
      let r = count_chars-le input (set freq_map ch (count_at freq_map ch + 1)) c (m ∙ n) a in
      ground arith

  count_chars-counts :
      (input freq_map : List ℕ)
      → length freq_map ≡ size
      → IsText input
      → All (λ ch. 0 < count_at (count_chars input freq_map) ch) input
  unfolding count_chars
  count_chars-counts [] freq_map n a = tt
  count_chars-counts (ch ∷ input) freq_map n (l, a) =
      let s = count_at-set freq_map ch ch (omega (arith, l.1)) in
      let m = length-set freq_map ch (count_at freq_map ch + 1) in
      let next = set freq_map ch (count_at freq_map ch + 1) in
      let r = count_chars-le input next ch (m ∙ n) a in
      (ground arith, count_chars-counts input next (m ∙ n) a)

  count_chars-zero :
      (input freq_map : List ℕ)
      → length freq_map ≡ size
      → IsText input
      → count_at (count_chars input freq_map) 0 ≡ count_at freq_map 0
  unfolding count_chars
  count_chars-zero [] freq_map n a = refl
  count_chars-zero (ch ∷ input) freq_map n (l, a) =
      let s = count_at-set freq_map ch 0 (omega (arith, l.1)) in
      let p = l.0 in
      let m = length-set freq_map ch (count_at freq_map ch + 1) in
      let r = count_chars-zero input (set freq_map ch (count_at freq_map ch + 1)) (m ∙ n) a in
      ground arith

-- A leaf stands for a count.
leaves-at :
    (freq_map : List ℕ) (s i : ℕ) (node : TempNode)
    → get_elem? (leaves s freq_map) i ≡ some node
    → (ch : ℕ) × (0 < count_at freq_map ch) × (node ≡ new_leaf (ch + s) (count_at freq_map ch))
unfolding leaves
leaves-at [] s i node e = cc
leaves-at (freq ∷ freq_map) s i node e = elim (Bool-cases (ltb 0 freq)) [
  | inl t ↦
      first freq freq_map s i node (ground arith) (rw (t, leaves) at e)
        (λ k q. leaves-at freq_map (suc s) k node q)
  | inr t ↦ later freq freq_map s node (leaves-at freq_map (suc s) i node (rw (t, leaves) at e))
]
  where
    later :
        (freq : ℕ) (freq_map : List ℕ) (s : ℕ) (node : TempNode)
        → (ch : ℕ) × (0 < count_at freq_map ch)
          × (node ≡ new_leaf (ch + suc s) (count_at freq_map ch))
        → (ch : ℕ) × (0 < count_at (freq ∷ freq_map) ch)
          × (node ≡ new_leaf (ch + s) (count_at (freq ∷ freq_map) ch))
    later freq freq_map s node (ch, p, q) =
        let z : suc ch + s ≡ ch + suc s = omega arith in (suc ch, p, rw z q)

    first :
        (freq : ℕ) (freq_map : List ℕ) (s i : ℕ) (node : TempNode)
        → 0 < freq
        → get_elem? (new_leaf s freq ∷ leaves (suc s) freq_map) i ≡ some node
        → ((k : ℕ)
            → get_elem? (leaves (suc s) freq_map) k ≡ some node
            → (ch : ℕ) × (0 < count_at freq_map ch)
              × (node ≡ new_leaf (ch + suc s) (count_at freq_map ch)))
        → (ch : ℕ) × (0 < count_at (freq ∷ freq_map) ch)
          × (node ≡ new_leaf (ch + s) (count_at (freq ∷ freq_map) ch))
    first freq freq_map s zero node p e h =
        let z : 0 + s ≡ s = omega arith in
        (0, p, rw z (sym (some-injective (new_leaf s freq) node e)))
    first freq freq_map s (suc i) node p e h = later freq freq_map s node (h i e)

-- A count has a leaf.
leaf_of :
    (freq_map : List ℕ) (s ch : ℕ)
    → 0 < count_at freq_map ch
    → (i : ℕ) × (get_elem? (leaves s freq_map) i ≡ some (new_leaf (ch + s) (count_at freq_map ch)))
unfolding leaves
leaf_of [] s ch p = absurd (omega arith)
leaf_of (freq ∷ freq_map) s zero p =
    let t : ltb 0 freq ≡ true = ground arith in
    let z : 0 + s ≡ s = omega arith in (0, rw (t, z, leaves) refl)
leaf_of (freq ∷ freq_map) s (suc ch) p =
    let (i, e) = leaf_of freq_map (suc s) ch p in
    let z : suc ch + s ≡ ch + suc s = omega arith in
    elim (Bool-cases (ltb 0 freq)) [
      | inl t ↦ (suc i, rw (t, z, leaves) e)
      | inr t ↦ (i, rw (t, z, leaves) e)
    ]

count_at-lt : (freq_map : List ℕ) (ch : ℕ) → 0 < count_at freq_map ch → ch < length freq_map
count_at-lt [] ch p = absurd (omega arith)
count_at-lt (x ∷ freq_map) zero p = omega arith
count_at-lt (x ∷ freq_map) (suc ch) p = omega (arith, count_at-lt freq_map ch p)

count_at-zeros : (n ch : ℕ) → count_at (replicate n 0) ch ≡ 0
count_at-zeros zero ch = refl
count_at-zeros (suc n) zero = refl
count_at-zeros (suc n) (suc ch) = count_at-zeros n ch

leaves-all :
    (freq_map : List ℕ) (i : ℕ) (node : TempNode)
    → get_elem? (leaves 0 freq_map) i ≡ some node
    → (ch : ℕ) × (0 < count_at freq_map ch) × (node ≡ new_leaf ch (count_at freq_map ch))
leaves-all freq_map i node e =
    let (ch, p, q) = leaves-at freq_map 0 i node e in
    let z : ch + 0 ≡ ch = omega arith in (ch, p, rw z at q)

pub leaves_of-IsForest : (input : List ℕ) → IsText input → IsForest (leaves_of input)
leaves_of-IsForest input a =
    let m = count_chars input (replicate 256 0) in
    let zero_at : count_at m 0 ≡ 0 =
      count_chars-zero 256 (omega arith) input (replicate 256 0) (length-replicate {A = ℕ} 256 0) a
      ∙ count_at-zeros 256 0 in
    let size = length-count_chars input (replicate 256 0) ∙ length-replicate {A = ℕ} 256 0 in
    record {
      shaped = λ i node e.
          let (ch, p, q) = leaves-all m i node e in
          rw q (is_leaf (positive m ch zero_at p) (let l = count_at-lt m ch p in omega arith));
      parents = λ i node e t. let (ch, p, q) = leaves-all m i node e in let x = rw q at t in cc;
    }
  where
    positive : (m : List ℕ) (ch : ℕ) → count_at m 0 ≡ 0 → 0 < count_at m ch → 0 < ch
    positive m zero z p = absurd (omega arith)
    positive m (suc ch) z p = omega arith

-- Where the leaf of a character is.
abbrev pub HasLeaf : List TempNode → ℕ → Type 0
HasLeaf nodes ch = (i : ℕ) × (node : TempNode) × (get_elem? nodes i ≡ some node) × (node.ch ≡ ch)

pub leaves_of-HasLeaf : (input : List ℕ) → IsText input → All (HasLeaf (leaves_of input)) input
leaves_of-HasLeaf input a = go input (
    count_chars-counts 256 (omega arith) input (replicate 256 0) (length-replicate {A = ℕ} 256 0) a)
  where
    go :
        (chars : List ℕ)
        → All (λ ch. 0 < count_at (count_chars input (replicate 256 0)) ch) chars
        → All (HasLeaf (leaves_of input)) chars
    go [] h = tt
    go (ch ∷ chars) (p, h) =
        let m = count_chars input (replicate 256 0) in
        let (i, e) = leaf_of m 0 ch p in
        let z : ch + 0 ≡ ch = omega arith in
        ((i, new_leaf (ch + 0) (count_at m ch), e, z), go chars h)

get_elem?-within :
    (xs : List TempNode) (i : ℕ) → i < length xs → (x : TempNode) × (get_elem? xs i ≡ some x)
get_elem?-within [] i l = absurd (omega arith)
get_elem?-within (x ∷ xs) zero l = (x, refl)
get_elem?-within (x ∷ xs) (suc i) l = get_elem?-within xs i (omega arith)

pub leaves_of-last :
    (input : List ℕ)
    → 0 < length (leaves_of input)
    → IsActive (leaves_of input) (length (leaves_of input) - 1)
leaves_of-last input l =
    let (node, e) =
      get_elem?-within (leaves_of input) (length (leaves_of input) - 1) (omega arith) in
    let (ch, p, q) =
      leaves-all (count_chars input (replicate 256 0)) (length (leaves_of input) - 1) node e in
    (node, e, rw q refl)
