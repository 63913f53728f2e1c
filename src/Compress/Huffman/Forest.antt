-- ===== src/Compress/Huffman/Forest.antt =====
-- The nodes are trees, whose roots are the active nodes.
use mathlib.Core.Option.{some-injective}
use knowledge_acquisition.Prelude.{
  ℕ, zero, suc, ◌<◌, ◌≡◌, ◌≢◌, refl, sym, ap, ◌∙◌, arith, true, false, some, List, [], ◌∷◌, ◌++◌,
  length, length-set, length-append, get_elem?, get_elem?-set_other, get_elem?-set_here, set, ◌==◌,
  Bool-cases, Option-cases, inl, inr, ◌⊎◌, if◌then◌else◌,
}
use knowledge_acquisition.Compress.Huffman.Build.{TempNode, deactivate, new_parent, join}
use knowledge_acquisition.Compress.Huffman.Search.{IsActive}

get_elem?-snoc :
    (xs : List TempNode) (x : TempNode) (k : ℕ)
    → get_elem? (xs ++ (x ∷ [])) k ≡ (if k == length xs then some x else get_elem? xs k)
get_elem?-snoc [] x zero = refl
get_elem?-snoc [] x (suc k) = ground arith
get_elem?-snoc (y ∷ xs) x zero = ground arith
get_elem?-snoc (y ∷ xs) x (suc k) = ground (arith, get_elem?-snoc xs x k)

pub get_elem?-lt :
    (xs : List TempNode) (k : ℕ) (x : TempNode) → get_elem? xs k ≡ some x → k < length xs
get_elem?-lt [] k x e = cc
get_elem?-lt (y ∷ xs) zero x e = omega arith
get_elem?-lt (y ∷ xs) (suc k) x e = omega (arith, get_elem?-lt xs k x e)

-- A leaf has a character other than 0, and the children of another node stand before it.
pub data Shape (i : ℕ) (node : TempNode) : Type 0 where
  is_leaf : 0 < node.ch → node.ch < 256 → Shape i node
  is_inner :
      (a b : ℕ)
      → node.ch ≡ 0
      → node.left_child ≡ some a
      → node.right_child ≡ some b
      → a < i
      → b < i
      → Shape i node

-- A node and what does not change about it.
abbrev pub Stays : TempNode → TempNode → Type 0
Stays node node' =
    (node'.ch ≡ node.ch)
    × (node'.left_child ≡ node.left_child)
    × (node'.right_child ≡ node.right_child)

Shape-Stays : (i : ℕ) (node node' : TempNode) → Stays node node' → Shape i node → Shape i node'
Shape-Stays i node node' (c, l, r) (is_leaf p q) = is_leaf (rw c p) (rw c q)
Shape-Stays i node node' (c, l, r) (is_inner a b p x y m n) =
    is_inner a b (c ∙ p) (l ∙ x) (r ∙ y) m n

-- Node `i` is a child of node `p`.
abbrev pub IsChild : List TempNode → ℕ → ℕ → Type 0
IsChild nodes i p =
    (parent : TempNode) × (get_elem? nodes p ≡ some parent)
    × (i < p)
    × (parent.ch ≡ 0)
    × ((parent.left_child ≡ some i) ⊎ (parent.right_child ≡ some i))

pub record IsForest (nodes : List TempNode) : Type 0 where
  pub shaped : (i : ℕ) (node : TempNode) → get_elem? nodes i ≡ some node → Shape i node
  pub parents :
      (i : ℕ) (node : TempNode)
      → get_elem? nodes i ≡ some node
      → node.is_active ≡ false
      → (p : ℕ) × IsChild nodes i p

-- What `deactivate` leaves at an index.
abbrev Comes : List TempNode → ℕ → ℕ → TempNode → Type 0
Comes nodes i k node' =
    (node : TempNode) × (get_elem? nodes k ≡ some node)
    × Stays node node'
    × ((node'.is_active ≡ node.is_active) ⊎ (k ≡ i))

get_elem?-deactivate :
    (nodes : List TempNode) (i k : ℕ) (node : TempNode)
    → get_elem? nodes k ≡ some node
    → (node' : TempNode) × (get_elem? (deactivate i nodes) k ≡ some node') × Stays node node'
get_elem?-deactivate nodes i k node e = elim (Option-cases (get_elem? nodes i)) [
  | inl n ↦ (node, rw (n, deactivate) e, (refl, refl, refl))
  | inr (old, n) ↦ elim (Bool-cases (i == k)) [
    | inl t ↦
        let same : i ≡ k = ground arith in
        let q : get_elem? nodes k ≡ some old = rw (← same) n in
        let own = some-injective old node (sym q ∙ e) in
        (
          record old { is_active = false },
          rw (n, deactivate)
              (rw (← same) (get_elem?-set_here nodes i old (record old { is_active = false }) n)),
          (
            ap (λ (x : TempNode). x.ch) own,
            ap (λ (x : TempNode). x.left_child) own,
            ap (λ (x : TempNode). x.right_child) own,
          ),
        )
    | inr f ↦
        let other : i ≢ k = λ (q : i ≡ k). ground arith in
        (
          node,
          rw (n, deactivate)
              (get_elem?-set_other nodes i k (record old { is_active = false }) other ∙ e),
          (refl, refl, refl),
        )
  ]
]

deactivate-Comes :
    (nodes : List TempNode) (i k : ℕ) (node' : TempNode)
    → get_elem? (deactivate i nodes) k ≡ some node'
    → Comes nodes i k node'
deactivate-Comes nodes i k node' e = elim (Option-cases (get_elem? nodes i)) [
  | inl n ↦ (node', rw (n, deactivate) at e, (refl, refl, refl), inl refl)
  | inr (old, n) ↦ elim (Bool-cases (i == k)) [
    | inl t ↦
        let same : i ≡ k = ground arith in
        let q : get_elem? nodes k ≡ some old = rw (← same) n in
        let h = get_elem?-set_here nodes i old (record old { is_active = false }) n in
        let h' : get_elem? (set nodes i (record old { is_active = false })) k
            ≡ some (record old { is_active = false }) =
          rw (← same) h in
        let own =
          some-injective (record old { is_active = false }) node'
            (sym h' ∙ (rw (n, deactivate) at e)) in
        (
          old,
          q,
          (
            ap (λ (x : TempNode). x.ch) (sym own),
            ap (λ (x : TempNode). x.left_child) (sym own),
            ap (λ (x : TempNode). x.right_child) (sym own),
          ),
          inr (sym same),
        )
    | inr f ↦
        let other : i ≢ k = λ (q : i ≡ k). ground arith in
        let o = get_elem?-set_other nodes i k (record old { is_active = false }) other in
        (node', sym o ∙ (rw (n, deactivate) at e), (refl, refl, refl), inl refl)
  ]
]

length-deactivate : (nodes : List TempNode) (i : ℕ) → length (deactivate i nodes) ≡ length nodes
length-deactivate nodes i = elim (Option-cases (get_elem? nodes i)) [
  | inl n ↦ rw (n, deactivate) refl
  | inr (old, n) ↦ rw (n, deactivate) (length-set nodes i (record old { is_active = false }))
]

pub Stays-trans : (a b c : TempNode) → Stays a b → Stays b c → Stays a c
Stays-trans a b c (x, y, z) (u, v, w) = (u ∙ x, v ∙ y, w ∙ z)

module _ (nodes : List TempNode) (i j : ℕ) where
  pub last_at-join : get_elem? (join nodes i j) (length nodes) ≡ some (new_parent nodes i j)
  unfolding join
  last_at-join =
      let l = length-deactivate (deactivate i nodes) j ∙ length-deactivate nodes i in
      let e =
        get_elem?-snoc (deactivate j (deactivate i nodes)) (new_parent nodes i j) (length nodes) in
      let t : (length nodes == length (deactivate j (deactivate i nodes))) ≡ true = ground arith in
      rw t at e

  pub get_elem?-join :
      (k : ℕ) (node : TempNode)
      → get_elem? nodes k ≡ some node
      → (node' : TempNode) × (get_elem? (join nodes i j) k ≡ some node') × Stays node node'
  unfolding join
  get_elem?-join k node e =
      let l = length-deactivate (deactivate i nodes) j ∙ length-deactivate nodes i in
      let k-lt = get_elem?-lt nodes k node e in
      let (a, f, x) = get_elem?-deactivate nodes i k node e in
      let (b, g, y) = get_elem?-deactivate (deactivate i nodes) j k a f in
      let t : (k == length (deactivate j (deactivate i nodes))) ≡ false = ground arith in
      let s = get_elem?-snoc (deactivate j (deactivate i nodes)) (new_parent nodes i j) k in
      (b, (rw t at s) ∙ g, Stays-trans node a b x y)

  -- Where a node of the joined list comes from.
  join-Comes :
      (k : ℕ) (node' : TempNode)
      → get_elem? (join nodes i j) k ≡ some node'
      → ((k ≡ length nodes) × (node' ≡ new_parent nodes i j))
        ⊎ ((node : TempNode) × (get_elem? nodes k ≡ some node)
            × Stays node node'
            × ((node'.is_active ≡ node.is_active) ⊎ ((k ≡ i) ⊎ (k ≡ j))))
  unfolding join
  join-Comes k node' e =
      let l = length-deactivate (deactivate i nodes) j ∙ length-deactivate nodes i in
      let s = get_elem?-snoc (deactivate j (deactivate i nodes)) (new_parent nodes i j) k in
      elim (Bool-cases (k == length (deactivate j (deactivate i nodes)))) [
        | inl t ↦
            let own = some-injective (new_parent nodes i j) node' (sym (rw t at s) ∙ e) in
            inl (ground arith, sym own)
        | inr t ↦
            let (a, f, x, p) =
              deactivate-Comes (deactivate i nodes) j k node' (sym (rw t at s) ∙ e) in
            let (b, g, y, q) = deactivate-Comes nodes i k a f in
            inr (b, g, Stays-trans b a node' y x, which k a b node' p q)
      ]
    where
      which :
          (k : ℕ) (a b node' : TempNode)
          → (node'.is_active ≡ a.is_active) ⊎ (k ≡ j)
          → (a.is_active ≡ b.is_active) ⊎ (k ≡ i)
          → (node'.is_active ≡ b.is_active) ⊎ ((k ≡ i) ⊎ (k ≡ j))
      which k a b node' (inl p) (inl q) = inl (p ∙ q)
      which k a b node' (inl p) (inr q) = inr (inl q)
      which k a b node' (inr p) q = inr (inr p)

  pub length-join : length (join nodes i j) ≡ suc (length nodes)
  unfolding join
  length-join =
      let l = length-deactivate (deactivate i nodes) j ∙ length-deactivate nodes i in
      let a = length-append (deactivate j (deactivate i nodes)) (new_parent nodes i j ∷ []) in
      omega arith

  IsChild-join : (k p : ℕ) → IsChild nodes k p → IsChild (join nodes i j) k p
  IsChild-join k p (parent, e, l, c, h) =
      let (parent', f, (x, y, z)) = get_elem?-join p parent e in
      (parent', f, l, x ∙ c, elim h [ inl a ↦ inl (y ∙ a) | inr b ↦ inr (z ∙ b) ])

  pub join-IsForest :
      IsActive nodes i → IsActive nodes j → IsForest nodes → IsForest (join nodes i j)
  join-IsForest (ni, ei, ti) (nj, ej, tj) v =
      let li = get_elem?-lt nodes i ni ei in
      let lj = get_elem?-lt nodes j nj ej in
      record {
        shaped = λ k node' e. elim (join-Comes k node' e) [
          | inl (q, own) ↦ rw (q, own) (is_inner i j refl refl refl li lj)
          | inr (node, f, s, h) ↦ Shape-Stays k node node' s (v.shaped k node f)
        ];
        parents = λ k node' e t. elim (join-Comes k node' e) [
          | inl (q, own) ↦ let x = rw own at t in cc
          | inr (node, f, s, h) ↦ elim h [
            | inl same ↦ let (p, c) = v.parents k node f (sym same ∙ t) in (p, IsChild-join k p c)
            | inr (inl a) ↦ (
              length nodes,
              (new_parent nodes i j, last_at-join, rw a li, refl, inl (ap some (sym a))),
            )
            | inr (inr b) ↦ (
              length nodes,
              (new_parent nodes i j, last_at-join, rw b lj, refl, inr (ap some (sym b))),
            )
          ]
        ];
      }
