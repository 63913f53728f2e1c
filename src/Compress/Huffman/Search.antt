-- ===== src/Compress/Huffman/Search.antt =====
-- The search for the two least nodes finds two active ones, if there are two.
use knowledge_acquisition.Prelude.{
  ℕ, suc, ◌+◌, ◌<◌, ◌≤◌, ◌≡◌, ◌≢◌, inl, inr, refl, ap, arith, true, ◌&&◌, Option, none, some, List,
  [], ◌∷◌, length, get_elem?, total, ltb, Bool-cases, if◌then◌else◌,
}
use knowledge_acquisition.Compress.Huffman.Build.{TempNode, freq_at, is_less, least}

abbrev pub active_count : TempNode → ℕ
active_count node = if node.is_active then 1 else 0

abbrev pub active_freq : TempNode → ℕ
active_freq node = if node.is_active then node.freq else 0

abbrev pub IsActive : List TempNode → ℕ → Type 0
IsActive nodes i = (node : TempNode) × (get_elem? nodes i ≡ some node) × (node.is_active ≡ true)

-- What the search knows after the nodes below `i`, of which `seen` are active.
abbrev pub Found : List TempNode → ℕ → ℕ → Option ℕ → Option ℕ → Type 0
Found nodes i seen none none = seen ≡ 0
Found nodes i seen none (some b) = ⊥
Found nodes i seen (some a) none = (seen ≡ 1) × IsActive nodes a × (a < i)
Found nodes i seen (some a) (some b) =
    (2 ≤ seen) × IsActive nodes a × IsActive nodes b × (a ≢ b) × (a < i) × (b < i)

module _ (nodes : List TempNode) where
  Found-skip :
      (i seen : ℕ) (first second : Option ℕ)
      → Found nodes i seen first second
      → Found nodes (suc i) seen first second
  Found-skip i seen none none f = f
  Found-skip i seen none (some b) f = f
  Found-skip i seen (some a) none (e, x, l) = (e, x, omega arith)
  Found-skip i seen (some a) (some b) (e, x, y, n, l, m) = (e, x, y, n, omega arith, omega arith)

  Found-first :
      (i seen : ℕ) (first second : Option ℕ)
      → Found nodes i seen first second
      → IsActive nodes i
      → Found nodes (suc i) (suc seen) (some i) first
  Found-first i seen none none f x = (ap suc f, x, omega arith)
  Found-first i seen none (some b) f x = absurd f
  Found-first i seen (some a) none (e, y, l) x =
      (omega arith, x, y, omega arith, omega arith, omega arith)
  Found-first i seen (some a) (some b) (e, y, z, n, l, m) x =
      (omega arith, x, y, omega arith, omega arith, omega arith)

  Found-second :
      (i seen a : ℕ) (second : Option ℕ)
      → Found nodes i seen (some a) second
      → IsActive nodes i
      → Found nodes (suc i) (suc seen) (some a) (some i)
  Found-second i seen a none (e, y, l) x =
      (omega arith, y, x, omega arith, omega arith, omega arith)
  Found-second i seen a (some b) (e, y, z, n, l, m) x =
      (omega arith, y, x, omega arith, omega arith, omega arith)

  Found-keep :
      (i seen a b : ℕ)
      → Found nodes i seen (some a) (some b)
      → Found nodes (suc i) (suc seen) (some a) (some b)
  Found-keep i seen a b (e, y, z, n, l, m) = (omega arith, y, z, n, omega arith, omega arith)

  abbrev next_first : ℕ → TempNode → Option ℕ → Option ℕ
  next_first i node first =
      if node.is_active && is_less nodes node.freq first then some i else first

  abbrev next_second : ℕ → TempNode → Option ℕ → Option ℕ → Option ℕ
  next_second i node first second =
      if node.is_active
      then (if is_less nodes node.freq first
          then first
          else (if is_less nodes node.freq second then some i else second))
      else second

  Found-active :
      (i seen : ℕ) (node : TempNode) (first second : Option ℕ)
      → Found nodes i seen first second
      → get_elem? nodes i ≡ some node
      → node.is_active ≡ true
      → Found nodes (suc i) (suc seen) (next_first i node first) (next_second i node first second)
  Found-active i seen node none second f g t = rw t (Found-first i seen none second f (node, g, t))
  Found-active i seen node (some a) second f g t =
      elim (Bool-cases (ltb node.freq (freq_at nodes a))) [
        | inl l ↦ rw (t, l) (Found-first i seen (some a) second f (node, g, t))
        | inr l ↦ rw (t, l) (not_first i seen node a second f (node, g, t))
      ]
    where
      not_first :
          (i seen : ℕ) (node : TempNode) (a : ℕ) (second : Option ℕ)
          → Found nodes i seen (some a) second
          → IsActive nodes i
          → Found nodes
              (suc i)
              (suc seen)
              (some a)
              (if is_less nodes node.freq second then some i else second)
      not_first i seen node a none f x = Found-second i seen a none f x
      not_first i seen node a (some b) f x = elim (Bool-cases (ltb node.freq (freq_at nodes b))) [
        | inl l ↦ rw l (Found-second i seen a (some b) f x)
        | inr l ↦ rw l (Found-keep i seen a b f)
      ]

  least-Found :
      (rest : List TempNode) (i seen : ℕ) (first second : Option ℕ)
      → Found nodes i seen first second
      → ((j : ℕ) → j < length rest → get_elem? nodes (i + j) ≡ get_elem? rest j)
      → Found nodes
          (i + length rest)
          (seen + total active_count rest)
          (least nodes i rest first second).0
          (least nodes i rest first second).1
  unfolding least
  least-Found [] i seen first second f g =
      let z : i + 0 ≡ i = omega arith in let s : seen + 0 ≡ seen = omega arith in rw (z, s) f
  least-Found (node ∷ rest) i seen first second f g =
      let here : i + 0 ≡ i = omega arith in
      let e = rw here at (g 0 (omega arith)) in
      let later : (j : ℕ) → i + suc j ≡ suc i + j = λ j. omega arith in
      let g' : (j : ℕ) → j < length rest → get_elem? nodes (suc i + j) ≡ get_elem? rest j =
        λ j l. rw (later j) at (g (suc j) (omega arith)) in
      let end : i + suc (length rest) ≡ suc i + length rest = omega arith in
      elim (Bool-cases node.is_active) [
        | inl t ↦
            let s : seen + (active_count node + total active_count rest)
                ≡ suc seen + total active_count rest =
              ground arith in
            rw (end, s)
              (least-Found rest (suc i) (suc seen) (next_first i node first)
                (next_second i node first second) (Found-active i seen node first second f e t) g')
        | inr t ↦
            let s : seen + (active_count node + total active_count rest)
                ≡ seen + total active_count rest =
              ground arith in
            rw (end, s)
              (least-Found rest (suc i) seen (next_first i node first)
                (next_second i node first second) (rw t (Found-skip i seen first second f)) g')
      ]

  -- The two least of all nodes.
  pub least-pair :
      Found nodes
        (length nodes)
        (total active_count nodes)
        (least nodes 0 nodes none none).0
        (least nodes 0 nodes none none).1
  least-pair =
      let z : (j : ℕ) → 0 + j ≡ j = λ j. omega arith in
      rw (z (length nodes), z (total active_count nodes)) at
        (least-Found nodes 0 0 none none refl (λ j l. rw (z j) refl))
