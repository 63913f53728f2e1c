-- ===== src/Compress/Qoi/Buffer.antt =====
-- The buffers of `compressToQoiRuntime`: what it reads and how much it writes.
use knowledge_acquisition.Prelude.{
  ℕ, suc, ◌+◌, ◌*◌, ◌≤◌, ◌≡◌, refl, arith, some, List, [], ◌∷◌, ◌++◌, append_assoc, ◌==◌, length,
  length-append, get_elem?, set, All, Bool-cases, inl, inr,
}
use knowledge_acquisition.Compress.Qoi.{
  QoiPixel, default_pixel, hash, same, History, empty_history, slot_holds, flush, encode,
  emit_color, end_marker, compress_pixels, compress, read_pixels, decompress,
}
use knowledge_acquisition.Compress.Qoi.Loop.{encode-long, encode-more, encode-hit, encode-miss}
use knowledge_acquisition.Compress.Qoi.RoundTrip.{decompress-compress_pixels}
use knowledge_acquisition.Compress.Qoi.Chunk.{IsPixel}

-- The buffer of a picture with an alpha channel.
abbrev pub rgba_bytes : List QoiPixel → List ℕ
rgba_bytes [] = []
rgba_bytes (p ∷ ps) = p.r ∷ p.g ∷ p.b ∷ p.a ∷ rgba_bytes ps

get_elem?-append : (xs ys : List ℕ) (i : ℕ) → get_elem? (xs ++ ys) (length xs + i) ≡ get_elem? ys i
get_elem?-append [] ys i = let e : 0 + i ≡ i = omega arith in rw e refl
get_elem?-append (x ∷ xs) ys i =
    let e : suc (length xs) + i ≡ suc (length xs + i) = omega arith in
    rw e (get_elem?-append xs ys i)

read_pixel :
    (n off a : ℕ) (buf : List ℕ) (p : QoiPixel) (ps : List QoiPixel)
    → get_elem? buf off ≡ some p.r
    → get_elem? buf (off + 1) ≡ some p.g
    → get_elem? buf (off + 2) ≡ some p.b
    → get_elem? buf (off + 3) ≡ some p.a
    → read_pixels n 4 buf (off + 4) p.a ≡ some ps
    → read_pixels (suc n) 4 buf off a ≡ some (p ∷ ps)
unfolding read_pixels
read_pixel n off a buf p ps e0 e1 e2 e3 k = rw (e0, e1, e2, e3, k, read_pixels) refl

read_pixels-rgba_bytes :
    (ps : List QoiPixel) (pre : List ℕ) (a : ℕ)
    → read_pixels (length ps) 4 (pre ++ rgba_bytes ps) (length pre) a ≡ some ps
read_pixels-rgba_bytes [] pre a = unfold read_pixels in refl
read_pixels-rgba_bytes (p ∷ ps) pre a =
    let four = p.r ∷ p.g ∷ p.b ∷ p.a ∷ [] in
    let at = get_elem?-append pre (rgba_bytes (p ∷ ps)) in
    let z : length pre + 0 ≡ length pre = omega arith in
    let e : length (pre ++ four) ≡ length pre + 4 = length-append pre four in
    let later = read_pixels-rgba_bytes ps (pre ++ four) p.a in
    read_pixel (length ps) (length pre) a (pre ++ rgba_bytes (p ∷ ps)) p ps (rw z at (at 0)) (at 1)
      (at 2) (at 3) (rw (e, append_assoc pre four (rgba_bytes ps)) at later)

-- The number of bytes that the loop writes.
length-flush : (run : ℕ) → length (flush run) ≤ run
length-flush run = ground arith

length-emit_color : (prev c : QoiPixel) → length (emit_color prev c) ≤ 5
unfolding emit_color
length-emit_color prev c = ground arith

length-encode :
    (ps : List QoiPixel) (h : History) (prev : QoiPixel) (run : ℕ)
    → length (encode ps h prev run) ≤ run + 5 * length ps
length-encode [] h prev run = unfold encode in omega (arith, length-flush run)
length-encode (c ∷ ps) h prev run = elim (Bool-cases (same c prev)) [
  | inl t ↦ elim (Bool-cases (run + 1 == 62)) [
    | inl e ↦
        let r61 : run ≡ 61 = ground arith in
        rw (encode-long c ps h prev run t r61) (omega (arith, length-encode ps h c 0))
    | inr e ↦ rw (encode-more c ps h prev run t e) (omega (arith, length-encode ps h c (run + 1)))
  ]
  | inr t ↦ elim (Bool-cases (slot_holds h (hash c) c)) [
    | inl e ↦
        rw (encode-hit c ps h prev run t e, length-append)
          (omega (arith, length-flush run, length-encode ps h c 0))
    | inr e ↦
        rw (encode-miss c ps h prev run t e, length-append, length-append)
          (omega (
            arith,
            length-flush run,
            length-emit_color prev c,
            length-encode ps (set h (hash c) c) c 0,
          ))
  ]
]

-- From the buffer of a picture with an alpha channel the encoder makes at most five bytes per pixel
-- and 22 more, and the decoder, told the size of the picture, draws exactly its pixels.
pub decompress-compress :
    (ps : List QoiPixel) (w h : ℕ)
    → w * h ≡ length ps
    → All IsPixel ps
    → (out : List ℕ) × (compress (rgba_bytes ps) w h 4 ≡ some out)
      × (decompress w h out ≡ some ps)
      × (length out ≤ 22 + 5 * length ps)
unfolding compress compress_pixels
decompress-compress ps w h e vs = (
  compress_pixels ps w h 4,
  rw (e, read_pixels-rgba_bytes ps [] 255, compress) refl,
  decompress-compress_pixels ps w h 4 e vs,
  rw (length-append (encode ps empty_history default_pixel 0) end_marker)
      (omega (arith, length-encode ps empty_history default_pixel 0)),
)
