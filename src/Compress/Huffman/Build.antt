-- ===== src/Compress/Huffman/Build.antt =====
-- The constructor of `CompileTimeHuffman`: the tree of the frequencies, its flat form, and the packing.
-- The array `old_to_new_map` is left out: it is written and never read.
use knowledge_acquisition.Prelude.{
  ℕ, zero, suc, ◌+◌, ◌-◌, ◌&&◌, ℤ, pos, sub_ℕ, Bool, true, false, not, Option, none, some, List, [],
  ◌∷◌, ◌++◌, length, get_elem?, set, replicate, ltb, ◌==◌, if◌then◌else◌,
}
use knowledge_acquisition.Compress.Huffman.{
  FlatNode, max_nodes, pack, new_writer, compressed_size, decompress,
}

-- `none` is the child -1.
pub record TempNode : Type 0 where
  pub ch : ℕ
  pub freq : ℕ
  pub left_child : Option ℕ
  pub right_child : Option ℕ
  pub is_active : Bool

abbrev pub at_least_zero : Option ℕ → ℕ
at_least_zero none = 0
at_least_zero (some n) = n

-- `freq_map[ch]++` for every character.
unfoldable pub count_chars : List ℕ → List ℕ → List ℕ
count_chars [] freq_map = freq_map
count_chars (ch ∷ input) freq_map =
    count_chars input (set freq_map ch (at_least_zero (get_elem? freq_map ch) + 1))

abbrev pub new_leaf : ℕ → ℕ → TempNode
new_leaf ch freq = record {
  ch = ch;
  freq = freq;
  left_child = none;
  right_child = none;
  is_active = true;
}

-- The leaves for the counts from character `ch` on.
unfoldable pub leaves : ℕ → List ℕ → List TempNode
leaves ch [] = []
leaves ch (freq ∷ freq_map) =
    let rest = leaves (suc ch) freq_map in if ltb 0 freq then new_leaf ch freq ∷ rest else rest

-- `nodes[i].freq`, at an index that the loop has passed.
abbrev pub freq_at : List TempNode → ℕ → ℕ
freq_at nodes i = elim (get_elem? nodes i) [ none ↦ 0 | some node ↦ node.freq ]

-- `idx == -1 || freq < nodes[idx].freq`.
abbrev pub is_less : List TempNode → ℕ → Option ℕ → Bool
is_less nodes freq none = true
is_less nodes freq (some idx) = ltb freq (freq_at nodes idx)

-- The search for the two least of the active nodes; the next is the `i`-th.
unfoldable pub least : List TempNode → ℕ → List TempNode → Option ℕ → Option ℕ → Option ℕ × Option ℕ
least nodes i [] first second = (first, second)
least nodes i (node ∷ rest) first second =
    least nodes (suc i) rest
      (if node.is_active && is_less nodes node.freq first then some i else first)
      (if node.is_active
        then (if is_less nodes node.freq first
            then first
            else (if is_less nodes node.freq second then some i else second))
        else second)

abbrev pub deactivate : ℕ → List TempNode → List TempNode
deactivate i nodes = elim (get_elem? nodes i) [
  | none ↦ nodes
  | some node ↦ set nodes i (record node { is_active = false })
]

abbrev pub new_parent : List TempNode → ℕ → ℕ → TempNode
new_parent nodes first second = record {
  ch = 0;
  freq = freq_at nodes first + freq_at nodes second;
  left_child = some first;
  right_child = some second;
  is_active = true;
}

abbrev pub node_capacity : ℕ
node_capacity = 256

unfoldable pub join : List TempNode → ℕ → ℕ → List TempNode
join nodes first second =
    deactivate second (deactivate first nodes) ++ (new_parent nodes first second ∷ [])

-- The loop that joins the two least nodes, until one is left.
unfoldable pub merge : ℕ → List TempNode → Option (List TempNode)
merge zero nodes = none
merge (suc fuel) nodes =
    let (first, second) = least nodes 0 nodes none none in
    elim second [
      | none ↦ some nodes
      | some j ↦ elim first [
        | none ↦ none
        | some i ↦ elim (ltb (length nodes) node_capacity) [
          | false ↦ none
          | true ↦ merge fuel (join nodes i j)
        ]
      ]
    ]

pub record Flat : Type 0 where
  pub queue : List ℕ
  pub flat_idx : ℕ
  pub tree : List FlatNode
  pub tree_size : ℕ

-- One link of a flat node.
unfoldable pub link : List TempNode → Option ℕ → Flat → Option (ℤ × Flat)
link nodes none flat = none
link nodes (some idx) flat = elim (get_elem? nodes idx) [
  | none ↦ none
  | some node ↦
      if not (node.ch == 0)
      then some (sub_ℕ 0 node.ch, flat)
      else if ltb (length flat.queue) node_capacity
      then some (
        pos (flat.flat_idx + 1),
        record flat { queue = flat.queue ++ (idx ∷ []); flat_idx = flat.flat_idx + 1 },
      )
      else none
]

-- The body of the loop for one entry of the queue.
unfoldable pub visit : List TempNode → ℕ → Flat → Option Flat
visit nodes curr flat = elim (get_elem? nodes curr) [
  | none ↦ none
  | some node ↦ if not (node.ch == 0) then some flat else elim (link nodes node.left_child flat) [
    | none ↦ none
    | some (left, flat') ↦ elim (link nodes node.right_child flat') [
      | none ↦ none
      | some (right, flat'') ↦
          if ltb flat''.tree_size max_nodes
          then some (record flat'' {
            tree = set flat''.tree flat''.tree_size (record { left = left; right = right });
            tree_size = flat''.tree_size + 1;
          })
          else none
    ]
  ]
]

-- The queue holds 256 entries, so there are no more rounds.
unfoldable pub flatten : ℕ → List TempNode → ℕ → Flat → Option Flat
flatten zero nodes q flat = some flat
flatten (suc fuel) nodes q flat = elim (get_elem? flat.queue q) [
  | none ↦ some flat
  | some curr ↦ elim (visit nodes curr flat) [
    | none ↦ none
    | some flat' ↦ flatten fuel nodes (suc q) flat'
  ]
]

abbrev pub zero_node : FlatNode
zero_node = record { left = pos 0; right = pos 0 }

unfoldable pub build_tree : List ℕ → Option (List FlatNode)
build_tree input =
    let nodes = leaves 0 (count_chars input (replicate 256 0)) in
    elim (merge (length nodes) nodes) [
      | none ↦ none
      | some joined ↦
          elim (flatten node_capacity joined 0 (record {
            queue = (length joined - 1) ∷ [];
            flat_idx = 0;
            tree = replicate max_nodes zero_node;
            tree_size = 0;
          })) [ none ↦ none | some flat ↦ some flat.tree ]
    ]

-- The public fields that `decompressEmbeddedData` reads, and the size.
pub record Huffman : Type 0 where
  pub tree : List FlatNode
  pub compressed_bytes : List ℕ
  pub size : ℕ
  pub original_length : ℕ

-- `capacity` is the length of `compressed_bytes`, 65000 in the source.
unfoldable pub huffman : ℕ → List ℕ → Option Huffman
huffman capacity [] = some (record {
  tree = replicate max_nodes zero_node;
  compressed_bytes = replicate capacity 0;
  size = 0;
  original_length = 0;
})
huffman capacity (ch ∷ input) = elim (build_tree (ch ∷ input)) [
  | none ↦ none
  | some tree ↦ elim (pack tree (ch ∷ input) (new_writer capacity)) [
    | none ↦ none
    | some w ↦ some (record {
      tree = tree;
      compressed_bytes = w.bytes;
      size = compressed_size w;
      original_length = length (ch ∷ input);
    })
  ]
]

unfoldable pub decompress_embedded : Huffman → Option (List ℕ)
decompress_embedded huff = decompress huff.tree huff.compressed_bytes huff.original_length
