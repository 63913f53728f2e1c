-- ===== src/Compress/Huffman/Files.antt =====
-- The compressed form as a whole.
use knowledge_acquisition.Prelude.{
  ◌<◌, ◌∙◌, ℕ, ◌≤◌, ◌≡◌, sym, some, List, [], ◌∷◌, length, replicate, ◌*◌, subst, All, ap, inl, inr,
  Option-cases,
}
use mathlib.Core.Option.{some-injective}
use knowledge_acquisition.Compress.Huffman.{
  FlatNode, max_nodes, pack, new_writer, decompress, decode,
}
use knowledge_acquisition.Compress.Huffman.Coding.{Coded}
use knowledge_acquisition.Compress.Huffman.RoundTrip.{decompress-pack, decode_done}
use knowledge_acquisition.Compress.Huffman.Merge.{leaves_of}
use knowledge_acquisition.Compress.Huffman.Counts.{IsText}
use knowledge_acquisition.Compress.Huffman.Book.{build_tree-Coded}
use knowledge_acquisition.Compress.Huffman.Build.{
  Huffman, zero_node, build_tree, huffman, decompress_embedded,
}

-- A text whose characters all have a code.
text_back :
    (capacity : ℕ) (input : List ℕ) (huff : Huffman)
    → huffman capacity input ≡ some huff
    → All (Coded huff.tree) input
    → huff.size ≤ capacity
    → decompress_embedded huff ≡ some input
unfolding huffman decompress_embedded decompress decode
text_back capacity [] huff e a c =
    let bytes : List ℕ = replicate capacity 0 in
    let p = some-injective _ huff e in
    rw (← p) (
      decode_done (length bytes * 8) (replicate max_nodes zero_node) bytes
        (record { byte_idx = 0; bit_idx = 0 }))
text_back capacity (ch ∷ input) huff e a c = elim (Option-cases (build_tree (ch ∷ input))) [
  | inl n ↦ let x = rw (n, huffman) at e in cc
  | inr (tree, n) ↦ elim (Option-cases (pack tree (ch ∷ input) (new_writer capacity))) [
    | inl m ↦ let x = rw (n, m, huffman) at e in cc
    | inr (w, m) ↦
        let p = some-injective _ huff (rw (n, m, huffman) at e) in
        let t : huff.tree ≡ tree = ap (λ (h : Huffman). h.tree) (sym p) in
        let a' = subst (λ (t : List FlatNode). All (Coded t) (ch ∷ input)) t a in
        rw (← p) (decompress-pack tree (ch ∷ input) capacity w a' m (rw (← p) at c))
  ]
]

-- The tree of a packed text.
tree-huffman :
    (capacity ch : ℕ) (input : List ℕ) (huff : Huffman)
    → huffman capacity (ch ∷ input) ≡ some huff
    → build_tree (ch ∷ input) ≡ some huff.tree
unfolding huffman
tree-huffman capacity ch input huff e = elim (Option-cases (build_tree (ch ∷ input))) [
  | inl n ↦ let x = rw (n, huffman) at e in cc
  | inr (tree, n) ↦ elim (Option-cases (pack tree (ch ∷ input) (new_writer capacity))) [
    | inl m ↦ let x = rw (n, m, huffman) at e in cc
    | inr (w, m) ↦
        n ∙ ap (λ (h : Huffman). some h.tree) (some-injective _ huff (rw (n, m, huffman) at e))
  ]
]

-- A text of bytes other than 0, with two different characters at least, is read back when the
-- constructor packs it and its size does not exceed the array.
pub decompress_embedded-huffman :
    (capacity : ℕ) (input : List ℕ) (huff : Huffman)
    → IsText input
    → 1 < length (leaves_of input)
    → huffman capacity input ≡ some huff
    → huff.size ≤ capacity
    → decompress_embedded huff ≡ some input
decompress_embedded-huffman capacity [] huff t l e c = text_back capacity [] huff e tt c
decompress_embedded-huffman capacity (ch ∷ input) huff t l e c =
    let coded =
      build_tree-Coded (ch ∷ input) huff.tree t l (tree-huffman capacity ch input huff e) in
    text_back capacity (ch ∷ input) huff e coded c
