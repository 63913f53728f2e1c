-- ===== src/Compress/Huffman/Book.antt =====
-- The tree that the constructor builds has a code for every character of the text.
use mathlib.Core.Option.{some-injective}
use knowledge_acquisition.Prelude.{
  ℕ, zero, suc, ◌-◌, ◌<◌, ◌≤◌, ◌≡◌, ◌≢◌, refl, sym, ap, ◌∙◌, arith, Bool, some, List, [], ◌∷◌,
  length, length-replicate, get_elem?, replicate, total, All, Option-cases, inl, inr,
}
use knowledge_acquisition.Compress.Huffman.{FlatNode, max_nodes}
use knowledge_acquisition.Compress.Huffman.Paths.{walk}
use knowledge_acquisition.Compress.Huffman.Coding.{Coded}
use knowledge_acquisition.Compress.Huffman.Build.{
  TempNode, zero_node, node_capacity, Flat, merge, flatten, build_tree, count_chars,
}
use knowledge_acquisition.Compress.Huffman.Codes.{IsOrdered, find_path-Answers}
use knowledge_acquisition.Compress.Huffman.Search.{active_count, IsActive}
use knowledge_acquisition.Compress.Huffman.Merge.{leaves_of, leaves-active}
use knowledge_acquisition.Compress.Huffman.Forest.{IsForest}
use knowledge_acquisition.Compress.Huffman.Joined.{merge-Grows, length-merge}
use knowledge_acquisition.Compress.Huffman.Counts.{
  IsText, HasLeaf, leaves_of-IsForest, leaves_of-HasLeaf, leaves_of-last,
}
use knowledge_acquisition.Compress.Huffman.Flattened.{Entry, Flattens, flatten-Flattens, queue_lt}
use knowledge_acquisition.Compress.Huffman.Leading.{leaf_led, tree-IsOrdered}

abbrev begin : List TempNode → Flat
begin joined = record {
  queue = (length joined - 1) ∷ [];
  flat_idx = 0;
  tree = replicate max_nodes zero_node;
  tree_size = 0;
}

node_lt :
    (tree : List FlatNode) (j : ℕ) (node : FlatNode)
    → get_elem? tree j ≡ some node
    → j < length tree
node_lt [] j node e = cc
node_lt (x ∷ tree) zero node e = omega arith
node_lt (x ∷ tree) (suc j) node e = omega (arith, node_lt tree j node e)

begin-Flattens :
    (joined : List TempNode) (v : IsForest joined) (node : TempNode)
    → get_elem? joined (length joined - 1) ≡ some node
    → node.ch ≡ 0
    → Flattens joined v (length joined - 1) 0 (begin joined)
begin-Flattens joined v node e z = record {
  is_queue = record {
    index = omega arith;
    room = omega arith;
    first = refl;
    queued = λ k i q. only k i q;
  };
  size = length-replicate max_nodes zero_node;
  count = refl;
  entries = λ j l. absurd (omega arith);
}
  where
    only :
        (k i : ℕ)
        → get_elem? ((length joined - 1) ∷ []) k ≡ some i
        → (node : TempNode) × (get_elem? joined i ≡ some node) × (node.ch ≡ 0)
    only zero i q = rw (← some-injective (length joined - 1) i q) (node, e, z)
    only (suc k) i q = cc

module _ (tree : List FlatNode) (queue : List ℕ) (ordered : IsOrdered tree (length queue))
    (some_queued : 0 < length queue) (small : length queue ≤ max_nodes) where
  led-Coded : (ch : ℕ) → (whole : List Bool) × (walk tree 0 whole ≡ some ch) → Coded tree ch
  led-Coded ch (whole, w) =
      let (path, e, h) =
        find_path-Answers tree (length queue) ch ordered max_nodes 0 0 0 some_queued
          (omega arith) in
      record { path = path; answers = e; real = h whole w }

leaf-Coded :
    (joined : List TempNode) (g : IsForest joined) (few : total active_count joined ≤ 1)
    (top : IsActive joined (length joined - 1)) (root : TempNode) (flat : Flat) (end ch i : ℕ)
    (node : TempNode)
    → get_elem? joined (length joined - 1) ≡ some root
    → root.ch ≡ 0
    → Flattens joined g (length joined - 1) end flat
    → length flat.queue ≤ end
    → get_elem? joined i ≡ some node
    → node.ch ≡ ch
    → 0 < ch
    → Coded flat.tree ch
leaf-Coded joined g few top root flat end ch i node re rz f l e q p =
    let first = f.is_queue.first in
    let entries : (j : ℕ) → j < length flat.queue → Entry joined flat.queue flat.tree j =
      λ j m. f.entries j (omega arith) in
    let apart : i ≢ length joined - 1 = λ (own : i ≡ length joined - 1).
      (let e' : get_elem? joined (length joined - 1) ≡ some node = rw own at e in
        let same = ap (λ (x : TempNode). x.ch) (some-injective node root (sym e' ∙ re)) in
        absurd (omega arith)) in
    let led =
      leaf_led joined g few (length joined - 1) top flat.queue flat.tree first entries i node e
        (omega arith) apart in
    let ordered =
      tree-IsOrdered joined g few (length joined - 1) top flat.queue flat.tree first entries in
    let some_queued = queue_lt flat.queue 0 (length joined - 1) first in
    let last = entries (length flat.queue - 1) (omega arith) in
    let bound = node_lt flat.tree (length flat.queue - 1) last.flat last.at_j in
    let size = f.size in
    led-Coded flat.tree flat.queue ordered some_queued (omega arith) ch (rw q at led)

All-Coded :
    (tree : List FlatNode) (chars : List ℕ) (nodes : List TempNode)
    → ((ch i : ℕ) (node : TempNode)
        → get_elem? nodes i ≡ some node
        → node.ch ≡ ch
        → 0 < ch
        → Coded tree ch)
    → IsText chars
    → All (HasLeaf nodes) chars
    → All (Coded tree) chars
All-Coded tree [] nodes h a b = tt
All-Coded tree (ch ∷ chars) nodes h (l, a) ((i, node, e, q), b) =
    (h ch i node e q l.0, All-Coded tree chars nodes h a b)

pub build_tree-Coded :
    (input : List ℕ) (tree : List FlatNode)
    → IsText input
    → 1 < length (leaves_of input)
    → build_tree input ≡ some tree
    → All (Coded tree) input
unfolding build_tree
build_tree-Coded input tree a l e =
    let nodes = leaves_of input in
    let forest = leaves_of-IsForest input a in
    elim (Option-cases (merge (length nodes) nodes)) [
      | inl n ↦ let x = rw (n, build_tree) at e in cc
      | inr (joined, n) ↦ elim (Option-cases (flatten node_capacity joined 0 (begin joined))) [
        | inl m ↦ let x = rw (n, m, build_tree) at e in cc
        | inr (flat, m) ↦
            let own = some-injective flat.tree tree (rw (n, m, build_tree) at e) in
            let g =
              merge-Grows (length nodes) nodes joined forest (leaves_of-last input (omega arith))
                n in
            let active = (leaves-active 0 (count_chars input (replicate 256 0))).0 in
            let long = length-merge (length nodes) nodes joined forest (omega arith) n in
            let (root, re, rt) = g.last in
            let rz = g.top root long re in
            let (end, f, c) =
              flatten-Flattens joined g.forest (length joined - 1) node_capacity 0 (begin joined)
                flat (begin-Flattens joined g.forest root re rz) (omega arith) m in
            rw (← own) (
              All-Coded flat.tree input nodes
                (λ ch i node b q p.
                  let (node', k, s) = g.keeps i node b in
                  leaf-Coded joined g.forest g.single g.last root flat end ch i node' re rz f c k
                    (s.0 ∙ q) p)
                a (leaves_of-HasLeaf input a))
      ]
    ]
