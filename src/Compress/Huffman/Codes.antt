-- ===== src/Compress/Huffman/Codes.antt =====
-- `find_path` finds every character that the tree leads to.
use mathlib.Core.Option.{some-injective}
use knowledge_acquisition.Prelude.{
  ℕ, zero, suc, ◌+◌, ◌<◌, ◌≤◌, ◌≡◌, refl, arith, Bool, true, false, Option, none, some, List, [],
  ◌∷◌, get_elem?, ltb, ◌==◌, ==_refl, Bool-cases, inl, inr,
}
use knowledge_acquisition.Compress.Huffman.{
  FlatNode, inner, child, side, BitPath, not_found, shift_in, look, find_path,
}
use knowledge_acquisition.Compress.Huffman.Paths.{walk, Child-cases}

-- The links lead to later nodes, of which there are `n`.
pub record IsOrdered (tree : List FlatNode) (n : ℕ) : Type 0 where
  pub node_at : ℕ → FlatNode
  pub there : (j : ℕ) → j < n → get_elem? tree j ≡ some (node_at j)
  pub later :
      (j : ℕ)
      → j < n
      → (bit : Bool) (k : ℕ) → child (side bit (node_at j)) ≡ inner k
      → (j < k) × (k < n)

module _ (tree : List FlatNode) (n target : ℕ) (o : IsOrdered tree n) where
  -- An answer, which is a path if there is a way to the character.
  abbrev Answers : Option BitPath → (List Bool → Type 0) → Type 0
  Answers answer Way =
      (path : BitPath) × (answer ≡ some path) × ((code : List Bool) → Way code → 0 < path.len)

  look-Answers :
      (bit : Bool) (j bits depth : ℕ) (deeper : ℕ → ℕ → ℕ → Option BitPath)
      → j < n
      → ((k b d : ℕ)
          → (j < k)
          → (k < n)
          → Answers (deeper k b d) (λ code. walk tree k code ≡ some target))
      → Answers
          (look bit (o.node_at j) target bits depth deeper)
          (λ code. walk tree j (bit ∷ code) ≡ some target)
  unfolding walk
  look-Answers bit j bits depth deeper l h = elim (Child-cases (child (side bit (o.node_at j)))) [
    | inl (ch, q) ↦ elim (Bool-cases (ch == target)) [
      | inl t ↦ (
        record { bits = shift_in bits bit; len = depth + 1 },
        rw (q, t, look) refl,
        λ code w. omega arith,
      )
      | inr f ↦ (
        not_found,
        rw (q, f, look) refl,
        λ code w. absurd (other code ch f (rw (o.there j l, q, walk) at w)),
      )
    ]
    | inr (k, q) ↦
        let (up, down) = o.later j l bit k q in
        let (path, e, g) = h k (shift_in bits bit) (depth + 1) up down in
        (path, rw (q, look) e, λ code w. g code (rw (o.there j l, q, walk) at w))
  ]
    where
      other :
          (code : List Bool) (ch : ℕ)
          → (ch == target) ≡ false
          → elim code [ [] ↦ some ch | next ∷ more ↦ none ] ≡ some target
          → ⊥
      other [] ch f w =
          let same = some-injective ch target w in
          let x : (target == target) ≡ false = rw same at f in ground (arith, ==_refl target)
      other (b ∷ code) ch f w = cc

  pub find_path-Answers :
      (fuel j bits depth : ℕ)
      → j < n
      → n ≤ j + fuel
      → Answers (find_path fuel tree target j bits depth) (λ code. walk tree j code ≡ some target)
  unfolding find_path walk
  find_path-Answers zero j bits depth l m = absurd (omega arith)
  find_path-Answers (suc fuel) j bits depth l m =
      let deeper = find_path fuel tree target in
      let h = λ (k b d : ℕ) (u : j < k) (v : k < n). find_path-Answers fuel k b d v (omega arith) in
      let (first, e, f) = look-Answers false j bits depth deeper l h in
      let (second, s, g) = look-Answers true j bits depth deeper l h in
      elim (Bool-cases (ltb 0 first.len)) [
        | inl t ↦ (first, rw (o.there j l, e, t, find_path) refl, λ code w. ground arith)
        | inr t ↦
            (second, rw (o.there j l, e, t, find_path) s, λ code w. way code first second t f g w)
      ]
    where
      way :
          (code : List Bool) (first second : BitPath)
          → ltb 0 first.len ≡ false
          → ((code : List Bool) → walk tree j (false ∷ code) ≡ some target → 0 < first.len)
          → ((code : List Bool) → walk tree j (true ∷ code) ≡ some target → 0 < second.len)
          → walk tree j code ≡ some target
          → 0 < second.len
      way [] first second t f g w = cc
      way (false ∷ code) first second t f g w = let x = f code w in ground arith
      way (true ∷ code) first second t f g w = g code w
