-- ===== src/Compress/Huffman/Leading.antt =====
-- From the root of the flat tree there is a way to every leaf of the nodes.
use mathlib.Core.Option.{some-injective}
use knowledge_acquisition.Prelude.{
  ℤ, ℕ, zero, suc, ◌+◌, ◌<◌, ◌≤◌, ◌≡◌, ◌≢◌, refl, sym, ap, ◌∙◌, arith, Bool, true, false, none,
  some, List, [], ◌∷◌, length, get_elem?, total, ◌==◌, Bool-cases, inl, inr,
}
use knowledge_acquisition.Compress.Huffman.{FlatNode, inner, child, side}
use knowledge_acquisition.Compress.Huffman.Build.{TempNode, zero_node, deactivate}
use knowledge_acquisition.Compress.Huffman.Paths.{walk}
use knowledge_acquisition.Compress.Huffman.Codes.{IsOrdered}
use knowledge_acquisition.Compress.Huffman.Search.{active_count, IsActive}
use knowledge_acquisition.Compress.Huffman.Merge.{deactivate_lem, IsActive-deactivate}
use knowledge_acquisition.Compress.Huffman.Forest.{IsForest, IsChild, get_elem?-lt}
use knowledge_acquisition.Compress.Huffman.Flattened.{Linked, Entry, queue_lt}

-- Two nodes cannot both be active.
one_active :
    (nodes : List TempNode) (i j : ℕ)
    → total active_count nodes ≤ 1
    → IsActive nodes i
    → IsActive nodes j
    → i ≡ j
one_active nodes i j l x y = elim (Bool-cases (i == j)) [
  | inl t ↦ ground arith
  | inr f ↦
      let n : i ≢ j = λ (q : i ≡ j). ground arith in
      let a = (deactivate_lem nodes i x).0 in
      let b = (deactivate_lem (deactivate i nodes) j (IsActive-deactivate nodes i j n x y)).0 in
      absurd (omega arith)
]

inner_injective : (a b : ℕ) → inner a ≡ inner b → a ≡ b
inner_injective a b e = cc

module _ (nodes : List TempNode) (v : IsForest nodes) (few : total active_count nodes ≤ 1)
    (root : ℕ) (top : IsActive nodes root) (queue : List ℕ) (tree : List FlatNode)
    (first : get_elem? queue 0 ≡ some root)
    (entries : (j : ℕ) → j < length queue → Entry nodes queue tree j) where
  -- A link of a queued node, and the side it stands on.
  record Above (i : ℕ) (k : ℕ) : Type 0 where
    bit : Bool
    node : FlatNode
    at_k : get_elem? tree k ≡ some node
    linked : Linked nodes queue k (side bit node) i

  Above-child : (i p k : ℕ) → IsChild nodes i p → get_elem? queue k ≡ some p → Above i k
  Above-child i p k (parent, e, l, z, h) q =
      let en = entries k (queue_lt queue k p q) in
      let own = some-injective p en.idx (sym q ∙ en.queued) in
      let same = some-injective parent en.node (sym e ∙ rw (← own) at en.at_idx) in
      let left = ap (λ (x : TempNode). x.left_child) same ∙ en.left_is in
      let right = ap (λ (x : TempNode). x.right_child) same ∙ en.right_is in
      elim h [
        | inl a ↦
            let q : en.left_idx ≡ i = some-injective en.left_idx i (sym left ∙ a) in
            record { bit = false; node = en.flat; at_k = en.at_j; linked = rw q at en.left_linked }
        | inr b ↦
            let q : en.right_idx ≡ i = some-injective en.right_idx i (sym right ∙ b) in
            record { bit = true; node = en.flat; at_k = en.at_j; linked = rw q at en.right_linked }
      ]

  -- From a node of the queue on, every way can be begun at the root.
  abbrev InTree : ℕ → Type 0
  InTree i =
      (k : ℕ) × (get_elem? queue k ≡ some i)
      × ((code : List Bool) (target : ℕ)
          → walk tree k code ≡ some target
          → (whole : List Bool) × (walk tree 0 whole ≡ some target))

  inactive :
      (i : ℕ) (node : TempNode)
      → get_elem? nodes i ≡ some node
      → i ≢ root
      → (p : ℕ) × IsChild nodes i p
  inactive i node e n = elim (Bool-cases node.is_active) [
    | inl t ↦ absurd (n (one_active nodes i root few (node, e, t) top))
    | inr t ↦ v.parents i node e t
  ]

  inner_below :
      (i k : ℕ) (node : TempNode) (a : Above i k)
      → get_elem? nodes i ≡ some node
      → node.ch ≡ 0
      → ((code : List Bool) (target : ℕ)
          → walk tree k code ≡ some target
          → (whole : List Bool) × (walk tree 0 whole ≡ some target))
      → InTree i
  unfolding walk
  inner_below i k node a e z up =
      let (own, g, h) = a.linked in
      let same = ap (λ (x : TempNode). x.ch) (some-injective own node (sym g ∙ e)) in
      elim h [
        | inl (p, q) ↦ absurd (omega arith)
        | inr (y, k', q, m, there) ↦
            (k', there, λ code target w. up (a.bit ∷ code) target (rw (a.at_k, q, walk) w))
      ]

  inner-InTree :
      (d i : ℕ) (node : TempNode)
      → length nodes ≤ i + d
      → get_elem? nodes i ≡ some node
      → node.ch ≡ 0
      → InTree i
  unfolding walk
  inner-InTree zero i node l e z = let m = get_elem?-lt nodes i node e in absurd (omega arith)
  inner-InTree (suc d) i node l e z = elim (Bool-cases (i == root)) [
    | inl t ↦ let own : i ≡ root = ground arith in (0, rw own first, λ code target w. (code, w))
    | inr f ↦
        let n : i ≢ root = λ (q : i ≡ root). ground arith in
        let (p, c) = inactive i node e n in
        let (parent, pe, pl, pz, ph) = c in
        let (k, q, up) = inner-InTree d p parent (omega arith) pe pz in
        let a = Above-child i p k c q in inner_below i k node a e z up
  ]

  -- There is a way to the character of every leaf.
  pub leaf_led :
      (i : ℕ) (node : TempNode)
      → get_elem? nodes i ≡ some node
      → 0 < node.ch
      → i ≢ root
      → (whole : List Bool) × (walk tree 0 whole ≡ some node.ch)
  unfolding walk
  leaf_led i node e p n =
      let (parent_idx, c) = inactive i node e n in
      let (parent, pe, pl, pz, ph) = c in
      let (k, q, up) = inner-InTree (length nodes) parent_idx parent (omega arith) pe pz in
      let a = Above-child i parent_idx k c q in
      let (own, g, h) = a.linked in
      let same = ap (λ (x : TempNode). x.ch) (some-injective own node (sym g ∙ e)) in
      elim h [
        | inl (y, t) ↦ up (a.bit ∷ []) node.ch (rw (a.at_k, t, same, walk) refl)
        | inr (y, k', t, m, there) ↦ absurd (omega arith)
      ]

  abbrev entry_node : ℕ → FlatNode
  entry_node j = elim (get_elem? tree j) [ none ↦ zero_node | some node ↦ node ]

  pub tree-IsOrdered : IsOrdered tree (length queue)
  tree-IsOrdered = record {
    node_at = entry_node;
    there = λ j l. let en = entries j l in rw (en.at_j, entry_node) refl;
    later = λ j l bit k e.
        let en = entries j l in
        let own : entry_node j ≡ en.flat = rw (en.at_j, entry_node) refl in
        side_later j bit k en (rw own at e);
  }
    where
      linked_later :
          (j c k : ℕ) (l : ℤ)
          → Linked nodes queue j l c
          → child l ≡ inner k
          → (j < k) × (k < length queue)
      linked_later j c k l (node, e, inl (p, q)) t = cc
      linked_later j c k l (node, e, inr (z, k', q, m, g)) t =
          let same = inner_injective k' k (sym q ∙ t) in
          let b = queue_lt queue k' c g in (omega arith, omega arith)

      side_later :
          (j : ℕ) (bit : Bool) (k : ℕ) (en : Entry nodes queue tree j)
          → child (side bit en.flat) ≡ inner k
          → (j < k) × (k < length queue)
      side_later j false k en t = linked_later j en.left_idx k en.flat.left en.left_linked t
      side_later j true k en t = linked_later j en.right_idx k en.flat.right en.right_linked t
