-- ===== src/Compress/Huffman/Paths.antt =====
-- The path that `find_path` answers leads to its character.
use mathlib.Core.Option.{some-injective}
use knowledge_acquisition.Prelude.{
  ℕ, zero, suc, ◌+◌, ◌<◌, ◌≡◌, refl, arith, Bool, true, false, Option, none, some, List, [], ◌∷◌,
  length, get_elem?, ltb, ◌==◌, Bool-cases, ◌⊎◌, inl, inr, Option-cases, if◌then◌else◌,
}
use knowledge_acquisition.Compress.Huffman.{
  FlatNode, Child, leaf, inner, child, side, BitPath, not_found, shift_in, look, find_path,
}

-- The character that bits lead to from a node, when the last of them comes to it.
unfoldable pub walk : List FlatNode → ℕ → List Bool → Option ℕ
walk tree node_idx [] = none
walk tree node_idx (bit ∷ bits) = elim (get_elem? tree node_idx) [
  | none ↦ none
  | some node ↦ elim (child (side bit node)) [
    | leaf ch ↦ elim bits [ [] ↦ some ch | next ∷ more ↦ none ]
    | inner next ↦ walk tree next bits
  ]
]

abbrev pub shift_all : ℕ → List Bool → ℕ
shift_all bits [] = bits
shift_all bits (bit ∷ more) = shift_all (shift_in bits bit) more

-- The path continues the one that `bits` and `depth` stand for.
pub record Leads (tree : List FlatNode) (target node_idx bits depth : ℕ) (path : BitPath)
    : Type 0 where
  pub code : List Bool
  pub comes : walk tree node_idx code ≡ some target
  pub long : path.len ≡ depth + length code
  pub value : path.bits ≡ shift_all bits code

pub Child-cases : (c : Child) → ((ch : ℕ) × (c ≡ leaf ch)) ⊎ ((next : ℕ) × (c ≡ inner next))
Child-cases (leaf ch) = inl (ch, refl)
Child-cases (inner next) = inr (next, refl)

module _ (tree : List FlatNode) (target : ℕ) where
  leaf-Leads :
      (bit : Bool) (node : FlatNode) (node_idx bits depth ch : ℕ) (path : BitPath)
      → get_elem? tree node_idx ≡ some node
      → child (side bit node) ≡ leaf ch
      → (if ch == target
          then some (record { bits = shift_in bits bit; len = depth + 1 })
          else some not_found)
        ≡ some path
      → 0 < path.len
      → Leads tree target node_idx bits depth path
  unfolding walk
  leaf-Leads bit node node_idx bits depth ch path g q e l = elim (Bool-cases (ch == target)) [
    | inl t ↦
        let p = some-injective _ path (rw t at e) in
        let same : ch ≡ target = ground arith in
        rw (← p) (record {
          code = bit ∷ [];
          comes = rw (g, q, same, walk) refl;
          long = refl;
          value = refl;
        })
    | inr f ↦
        let p = some-injective _ path (rw f at e) in
        let n : 0 < 0 = rw (← p) at l in absurd (omega arith)
  ]

  look-Leads :
      (bit : Bool) (node : FlatNode) (node_idx bits depth : ℕ) (path : BitPath)
      (deeper : ℕ → ℕ → ℕ → Option BitPath)
      → ((next b d : ℕ) → deeper next b d ≡ some path → Leads tree target next b d path)
      → get_elem? tree node_idx ≡ some node
      → look bit node target bits depth deeper ≡ some path
      → 0 < path.len
      → Leads tree target node_idx bits depth path
  unfolding walk
  look-Leads bit node node_idx bits depth path deeper h g e l =
      elim (Child-cases (child (side bit node))) [
        | inl (ch, q) ↦ leaf-Leads bit node node_idx bits depth ch path g q (rw (q, look) at e) l
        | inr (next, q) ↦
            let r = h next (shift_in bits bit) (depth + 1) (rw (q, look) at e) in
            record {
              code = bit ∷ r.code;
              comes = rw (g, q, walk) r.comes;
              long = omega (arith, r.long);
              value = r.value;
            }
      ]

  pub find_path-Leads :
      (fuel node_idx bits depth : ℕ) (path : BitPath)
      → find_path fuel tree target node_idx bits depth ≡ some path
      → 0 < path.len
      → Leads tree target node_idx bits depth path
  unfolding find_path
  find_path-Leads zero node_idx bits depth path e l = cc
  find_path-Leads (suc fuel) node_idx bits depth path e l =
      let deeper = find_path fuel tree target in
      let h = λ (next b d : ℕ) (q : deeper next b d ≡ some path).
        find_path-Leads fuel next b d path q l in
      elim (Option-cases (get_elem? tree node_idx)) [
        | inl n ↦ let k = rw (n, find_path) at e in cc
        | inr (node, n) ↦ elim (Option-cases (look false node target bits depth deeper)) [
          | inl f ↦ let k = rw (n, f, find_path) at e in cc
          | inr (first, f) ↦ elim (Bool-cases (ltb 0 first.len)) [
            | inl t ↦
                let k = some-injective first path (rw (n, f, t, find_path) at e) in
                look-Leads false node node_idx bits depth path deeper h n (rw k at f) l
            | inr t ↦
                look-Leads true node node_idx bits depth path deeper h n
                  (rw (n, f, t, find_path) at e) l
          ]
        ]
      ]
