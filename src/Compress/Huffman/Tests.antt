-- ===== src/Compress/Huffman/Tests.antt =====
-- A short text, packed and read back.
use knowledge_acquisition.Prelude.{
  ◌<◌, ℕ, ◌+◌, ◌*◌, ◌≡◌, refl, arith, Option, none, some, List, [], ◌∷◌, length, total,
}
use knowledge_acquisition.Compress.Huffman.{
  find_path, push_path, push_bit, pack, read_bit, decode, decompress,
}
use knowledge_acquisition.Compress.Huffman.Counts.{IsText}
use knowledge_acquisition.Compress.Huffman.Build.{
  TempNode, Huffman, huffman, decompress_embedded, build_tree, flatten, visit, link, merge, join,
  least, leaves, count_chars,
}
use knowledge_acquisition.Compress.Huffman.Search.{active_count, active_freq}
use knowledge_acquisition.Compress.Huffman.Merge.{leaves_of, merge-leaves}
use knowledge_acquisition.Compress.Huffman.Files.{decompress_embedded-huffman}

abbrev text : List ℕ
text = 97 ∷ 98 ∷ 97 ∷ 99 ∷ 97 ∷ []

abbrev get_or : Huffman → Option Huffman → Huffman
get_or h none = h
get_or h (some x) = x

abbrev packed : Huffman
packed =
    get_or (record { tree = []; compressed_bytes = []; size = 0; original_length = 0 })
      (huffman 4 text)

huffman-text : huffman 4 text ≡ some packed
unfolding huffman pack build_tree flatten visit link merge join least leaves count_chars find_path
    push_path push_bit
huffman-text = refl

text-IsText : IsText text
text-IsText =
    let a : (0 < 97) × (97 < 256) = (omega arith, omega arith) in
    let b : (0 < 98) × (98 < 256) = (omega arith, omega arith) in
    let c : (0 < 99) × (99 < 256) = (omega arith, omega arith) in (a, (b, (a, (c, (a, tt)))))

decompress_embedded-huffman_example : decompress_embedded packed ≡ some text
unfolding huffman pack build_tree flatten visit link merge join least leaves count_chars find_path
    push_path push_bit
decompress_embedded-huffman_example =
    decompress_embedded-huffman 4 text packed text-IsText (omega arith) huffman-text (omega arith)

merge-leaves_example :
    (joined : List TempNode) × (merge (length (leaves_of text)) (leaves_of text) ≡ some joined)
    × (length joined + 1 ≡ 2 * length (leaves_of text))
    × (total active_count joined ≡ 1)
    × (total active_freq joined ≡ length text)
unfolding leaves count_chars
merge-leaves_example =
    merge-leaves 97 (98 ∷ 97 ∷ 99 ∷ 97 ∷ [])
      (omega arith, (omega arith, (omega arith, (omega arith, (omega arith, tt))))) (omega arith)

-- A text of one character is read back as zeros.
one_character :
    elim (huffman 4 (97 ∷ 97 ∷ [])) [ none ↦ none | some huff ↦ decompress_embedded huff ]
    ≡ some (0 ∷ 0 ∷ [])
unfolding huffman decompress_embedded decompress pack build_tree flatten visit link merge join least
    leaves count_chars find_path push_path push_bit decode read_bit
one_character = refl
