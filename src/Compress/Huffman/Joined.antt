-- ===== src/Compress/Huffman/Joined.antt =====
-- What the loop of joins makes of the leaves.
use mathlib.Core.Option.{some-injective}
use knowledge_acquisition.Prelude.{
  total, ℕ, zero, suc, ◌-◌, ◌<◌, ◌≤◌, ◌≡◌, refl, sym, ap, ◌∙◌, arith, Option, none, some, List,
  length, get_elem?, ltb, Bool-cases, inl, inr,
}
use knowledge_acquisition.Compress.Huffman.Build.{
  TempNode, new_parent, node_capacity, join, merge, least,
}
use knowledge_acquisition.Compress.Huffman.Search.{active_count, IsActive, Found, least-pair}
use knowledge_acquisition.Compress.Huffman.Forest.{
  Stays, Stays-trans, IsForest, get_elem?-lt, last_at-join, get_elem?-join, join-IsForest,
  length-join,
}

-- The nodes stay, and a last node that was joined is no leaf.
pub record Grows (nodes joined : List TempNode) : Type 0 where
  pub forest : IsForest joined
  pub keeps :
      (k : ℕ) (node : TempNode)
      → get_elem? nodes k ≡ some node
      → (node' : TempNode) × (get_elem? joined k ≡ some node') × Stays node node'
  pub last : IsActive joined (length joined - 1)
  pub single : total active_count joined ≤ 1
  pub top :
      (node : TempNode)
      → length nodes < length joined
      → get_elem? joined (length joined - 1) ≡ some node
      → node.ch ≡ 0

Grows-self :
    (nodes : List TempNode)
    → IsForest nodes
    → IsActive nodes (length nodes - 1)
    → total active_count nodes ≤ 1
    → Grows nodes nodes
Grows-self nodes v a l = record {
  forest = v;
  keeps = λ k node e. (node, e, (refl, refl, refl));
  last = a;
  single = l;
  top = λ node l e. absurd (omega arith);
}

Grows-join :
    (nodes joined : List TempNode) (i j : ℕ) → Grows (join nodes i j) joined → Grows nodes joined
Grows-join nodes joined i j g =
    let n = length-join nodes i j in
    record {
      forest = g.forest;
      keeps = λ k node e.
          let (a, f, x) = get_elem?-join nodes i j k node e in
          let (b, h, y) = g.keeps k a f in (b, h, Stays-trans node a b x y);
      last = g.last;
      single = g.single;
      top = λ node l e.
          let (p, f, (c, x, y)) =
            g.keeps (length nodes) (new_parent nodes i j) (last_at-join nodes i j) in
          let m = get_elem?-lt joined (length nodes) p f in
          elim (Bool-cases (ltb (length (join nodes i j)) (length joined))) [
            | inl t ↦ g.top node (ground arith) e
            | inr t ↦
                let at : length joined - 1 ≡ length nodes = ground arith in
                let e' : get_elem? joined (length nodes) ≡ some node = rw at at e in
                ap (λ (n : TempNode). n.ch) (some-injective node p (sym e' ∙ f)) ∙ c
          ];
    }

IsActive-parent :
    (nodes : List TempNode) (i j : ℕ) → IsActive (join nodes i j) (length (join nodes i j) - 1)
IsActive-parent nodes i j =
    let z : length (join nodes i j) - 1 ≡ length nodes = omega (arith, length-join nodes i j) in
    (new_parent nodes i j, rw z (last_at-join nodes i j), refl)

merge_step :
    (fuel : ℕ) (nodes joined : List TempNode) (first second : Option ℕ)
    → ((a b : ℕ)
        → merge fuel (join nodes a b) ≡ some joined
        → IsForest (join nodes a b)
        → Grows (join nodes a b) joined)
    → (least nodes 0 nodes none none).0 ≡ first
    → (least nodes 0 nodes none none).1 ≡ second
    → Found nodes (length nodes) (total active_count nodes) first second
    → IsForest nodes
    → IsActive nodes (length nodes - 1)
    → merge (suc fuel) nodes ≡ some joined
    → Grows nodes joined
unfolding merge
merge_step fuel nodes joined none (some j) ih p q f v a e = absurd f
merge_step fuel nodes joined none none ih p q f v a e =
    let own = some-injective nodes joined (rw (q, merge) at e) in
    rw (← own) (Grows-self nodes v a (omega (arith, f)))
merge_step fuel nodes joined (some i) none ih p q (f, x, l) v a e =
    let own = some-injective nodes joined (rw (q, merge) at e) in
    rw (← own) (Grows-self nodes v a (omega (arith, f)))
merge_step fuel nodes joined (some i) (some j) ih p q (m, x, y, n, r, s) v a e =
    elim (Bool-cases (ltb (length nodes) node_capacity)) [
      | inr t ↦ let z = rw (q, p, t, merge) at e in cc
      | inl t ↦
          Grows-join nodes joined i j
            (ih i j (rw (q, p, t, merge) at e) (join-IsForest nodes i j x y v))
    ]

pub merge-Grows :
    (fuel : ℕ) (nodes joined : List TempNode)
    → IsForest nodes
    → IsActive nodes (length nodes - 1)
    → merge fuel nodes ≡ some joined
    → Grows nodes joined
unfolding merge
merge-Grows zero nodes joined v a e = cc
merge-Grows (suc fuel) nodes joined v a e =
    merge_step fuel nodes joined (least nodes 0 nodes none none).0 (least nodes 0 nodes none none).1
      (λ i j q w. merge-Grows fuel (join nodes i j) joined w (IsActive-parent nodes i j) q) refl
      refl (least-pair nodes) v a e

longer_step :
    (fuel : ℕ) (nodes joined : List TempNode) (first second : Option ℕ)
    → (least nodes 0 nodes none none).0 ≡ first
    → (least nodes 0 nodes none none).1 ≡ second
    → Found nodes (length nodes) (total active_count nodes) first second
    → IsForest nodes
    → 1 < total active_count nodes
    → merge (suc fuel) nodes ≡ some joined
    → length nodes < length joined
unfolding merge
longer_step fuel nodes joined none none p q f v a e = absurd (omega (arith, f))
longer_step fuel nodes joined none (some j) p q f v a e = absurd f
longer_step fuel nodes joined (some i) none p q (f, x, l) v a e = absurd (omega (arith, f))
longer_step fuel nodes joined (some i) (some j) p q (m, x, y, n, r, s) v a e =
    elim (Bool-cases (ltb (length nodes) node_capacity)) [
      | inr t ↦ let z = rw (q, p, t, merge) at e in cc
      | inl t ↦
          let g =
            merge-Grows fuel (join nodes i j) joined (join-IsForest nodes i j x y v)
              (IsActive-parent nodes i j) (rw (q, p, t, merge) at e) in
          let (node, f, z) =
            g.keeps (length nodes) (new_parent nodes i j) (last_at-join nodes i j) in
          get_elem?-lt joined (length nodes) node f
    ]

-- Two trees are joined.
pub length-merge :
    (fuel : ℕ) (nodes joined : List TempNode)
    → IsForest nodes
    → 1 < total active_count nodes
    → merge fuel nodes ≡ some joined
    → length nodes < length joined
unfolding merge
length-merge zero nodes joined v a e = cc
length-merge (suc fuel) nodes joined v a e =
    longer_step fuel nodes joined (least nodes 0 nodes none none).0
      (least nodes 0 nodes none none).1 refl refl (least-pair nodes) v a e
