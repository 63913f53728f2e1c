-- ===== src/Compress/Huffman/Merge.antt =====
-- The loop that joins the nodes of the tree.
use knowledge_acquisition.Prelude.{
  ℕ, zero, suc, ◌+◌, ◌-◌, ◌*◌, ◌<◌, ◌≤◌, ◌≡◌, ◌≢◌, inl, inr, refl, ◌∙◌, arith, true, false, Option,
  none, some, List, [], ◌∷◌, length, length-set, length-append, get_elem?, get_elem?-set_other, set,
  total, total-append, total-set, replicate, All, IsByte, ltb, Bool-cases,
}
use knowledge_acquisition.Compress.Huffman.Build.{
  TempNode, count_chars, leaves, freq_at, least, deactivate, new_parent, node_capacity, join, merge,
}
use knowledge_acquisition.Compress.Huffman.Search.{
  active_count, active_freq, IsActive, Found, least-pair,
}

-- One node is switched off.
pub deactivate_lem :
    (nodes : List TempNode) (i : ℕ)
    → IsActive nodes i
    → (total active_count (deactivate i nodes) + 1 ≡ total active_count nodes)
      × (total active_freq (deactivate i nodes) + freq_at nodes i ≡ total active_freq nodes)
      × (length (deactivate i nodes) ≡ length nodes)
deactivate_lem nodes i (node, e, t) =
    let off = record node { is_active = false } in
    let a = total-set active_count nodes i node off e in
    let b = total-set active_freq nodes i node off e in
    let one : active_count node ≡ 1 = rw t refl in
    let own : active_freq node ≡ node.freq = rw t refl in
    rw (e, deactivate, freq_at) (omega arith, omega arith, length-set nodes i off)

pub IsActive-deactivate :
    (nodes : List TempNode) (i j : ℕ)
    → i ≢ j
    → IsActive nodes i
    → IsActive nodes j
    → IsActive (deactivate i nodes) j
IsActive-deactivate nodes i j n (node, e, t) (other, f, u) =
    rw (e, deactivate)
      (other, get_elem?-set_other nodes i j (record node { is_active = false }) n ∙ f, u)

freq_at-deactivate :
    (nodes : List TempNode) (i j : ℕ)
    → i ≢ j
    → IsActive nodes i
    → freq_at (deactivate i nodes) j ≡ freq_at nodes j
freq_at-deactivate nodes i j n (node, e, t) =
    rw (e, deactivate)
      (rw (get_elem?-set_other nodes i j (record node { is_active = false }) n, freq_at) refl)

-- One active node is lost, and no frequency.
join_lem :
    (nodes : List TempNode) (i j : ℕ)
    → i ≢ j
    → IsActive nodes i
    → IsActive nodes j
    → (total active_count (join nodes i j) + 1 ≡ total active_count nodes)
      × (total active_freq (join nodes i j) ≡ total active_freq nodes)
      × (length (join nodes i j) ≡ suc (length nodes))
unfolding join
join_lem nodes i j n x y =
    let one = deactivate i nodes in
    let two = deactivate j one in
    let parent = new_parent nodes i j in
    let (a, b, c) = deactivate_lem nodes i x in
    let (d, e, f) = deactivate_lem one j (IsActive-deactivate nodes i j n x y) in
    let g = freq_at-deactivate nodes i j n x in
    let h = total-append active_count two (parent ∷ []) in
    let k = total-append active_freq two (parent ∷ []) in
    let l = length-append two (parent ∷ []) in (omega arith, omega arith, omega arith)

-- What the loop leaves of `n` more active nodes than one.
abbrev pub Merged : ℕ → ℕ → List TempNode → Type 0
Merged n fuel nodes =
    (joined : List TempNode) × (merge fuel nodes ≡ some joined)
    × (length joined ≡ length nodes + n)
    × (total active_count joined ≡ 1)
    × (total active_freq joined ≡ total active_freq nodes)

Merged-suc :
    (n fuel : ℕ) (nodes : List TempNode) (first second : Option ℕ)
    → total active_count nodes ≡ suc n
    → length nodes + n ≤ node_capacity
    → ((a b : ℕ)
        → total active_count (join nodes a b) + 1 ≡ suc n
        → length (join nodes a b) ≡ suc (length nodes)
        → 0 < n
        → Merged (n - 1) fuel (join nodes a b))
    → (least nodes 0 nodes none none).0 ≡ first
    → (least nodes 0 nodes none none).1 ≡ second
    → Found nodes (length nodes) (total active_count nodes) first second
    → Merged n (suc fuel) nodes
unfolding merge
Merged-suc n fuel nodes none none a c ih p q f = absurd (omega arith)
Merged-suc n fuel nodes none (some j) a c ih p q f = absurd f
Merged-suc n fuel nodes (some i) none a c ih p q (e, x, m) =
    (nodes, rw (q, merge) refl, omega arith, e, refl)
Merged-suc n fuel nodes (some i) (some j) a c ih p q (e, x, y, m, r, s) =
    let (d, f, g) = join_lem nodes i j m x y in
    let room : ltb (length nodes) node_capacity ≡ true = ground arith in
    let (joined, done, size, one, kept) = ih i j (omega arith) g (omega arith) in
    (joined, rw (q, p, room, merge) done, omega arith, one, kept ∙ f)

pub merge-Merged :
    (n fuel : ℕ) (nodes : List TempNode)
    → total active_count nodes ≡ suc n
    → length nodes + n ≤ node_capacity
    → n < fuel
    → Merged n fuel nodes
merge-Merged n zero nodes a c l = absurd (omega arith)
merge-Merged n (suc fuel) nodes a c l =
    Merged-suc n fuel nodes (least nodes 0 nodes none none).0 (least nodes 0 nodes none none).1 a c
      (λ i j d g k.
        merge-Merged (n - 1) fuel (join nodes i j) (omega arith) (omega arith) (omega arith))
      refl refl (least-pair nodes)

-- The leaves of a frequency map.
pub leaves-active :
    (ch : ℕ) (freq_map : List ℕ)
    → (total active_count (leaves ch freq_map) ≡ length (leaves ch freq_map))
      × (total active_freq (leaves ch freq_map) ≡ total (λ freq. freq) freq_map)
unfolding leaves
leaves-active ch [] = (refl, refl)
leaves-active ch (freq ∷ freq_map) =
    let (a, b) = leaves-active (suc ch) freq_map in
    elim (Bool-cases (ltb 0 freq)) [
      | inl t ↦ rw (t, leaves) (omega arith, omega arith)
      | inr t ↦ let z : freq ≡ 0 = ground arith in rw (t, leaves) (omega arith, omega arith)
    ]

get_elem?-inside : (xs : List ℕ) (i : ℕ) → i < length xs → (x : ℕ) × (get_elem? xs i ≡ some x)
get_elem?-inside [] i l = absurd (omega arith)
get_elem?-inside (x ∷ xs) zero l = (x, refl)
get_elem?-inside (x ∷ xs) (suc i) l = get_elem?-inside xs i (omega arith)

total-count_chars :
    (input freq_map : List ℕ)
    → All (λ ch. ch < length freq_map) input
    → total (λ freq. freq) (count_chars input freq_map)
      ≡ total (λ freq. freq) freq_map + length input
unfolding count_chars
total-count_chars [] freq_map a = omega arith
total-count_chars (ch ∷ input) freq_map (l, a) =
    let (old, e) = get_elem?-inside freq_map ch l in
    let t = total-set (λ (freq : ℕ). freq) freq_map ch old (old + 1) e in
    let size = length-set freq_map ch (old + 1) in
    let r = total-count_chars input (set freq_map ch (old + 1)) (rw size a) in
    rw (e, count_chars) (omega arith)

total-zeros : (n : ℕ) → total (λ freq. freq) (replicate n 0) ≡ 0
total-zeros zero = refl
total-zeros (suc n) = omega (arith, total-zeros n)

length-leaves_some : (nodes : List TempNode) → 0 < total active_freq nodes → 0 < length nodes
length-leaves_some [] l = absurd (omega arith)
length-leaves_some (node ∷ nodes) l = omega arith

abbrev pub leaves_of : List ℕ → List TempNode
leaves_of input = leaves 0 (count_chars input (replicate 256 0))

-- For a text of bytes, not empty and with at most 128 different characters, the joins end within the
-- capacity of the nodes: of n leaves they make 2n - 1 nodes, one of them is active, and its frequency is
-- the length of the text.
pub merge-leaves :
    (ch : ℕ) (input : List ℕ)
    → All IsByte (ch ∷ input)
    → length (leaves_of (ch ∷ input)) ≤ 128
    → (joined : List TempNode) × (merge (length (leaves_of (ch ∷ input))) (leaves_of (ch ∷ input))
        ≡ some joined)
      × (length joined + 1 ≡ 2 * length (leaves_of (ch ∷ input)))
      × (total active_count joined ≡ 1)
      × (total active_freq joined ≡ length (ch ∷ input))
merge-leaves ch input a l =
    let nodes = leaves_of (ch ∷ input) in
    let (x, y) = leaves-active 0 (count_chars (ch ∷ input) (replicate 256 0)) in
    let t = total-count_chars (ch ∷ input) (replicate 256 0) a in
    let w : total active_freq nodes ≡ length (ch ∷ input) = omega (arith, total-zeros 256) in
    let some_left = length-leaves_some nodes (omega arith) in
    let (joined, done, size, one, kept) =
      merge-Merged (length nodes - 1) (length nodes) nodes (omega arith) (omega arith)
        (omega arith) in
    (joined, done, omega arith, one, kept ∙ w)
