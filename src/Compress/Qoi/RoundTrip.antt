-- ===== src/Compress/Qoi/RoundTrip.antt =====
-- The decoder draws the pixels that the encoder was given.
use knowledge_acquisition.Prelude.{
  ℕ, suc, ◌+◌, ◌*◌, ◌<◌, ◌≡◌, refl, sym, arith, some, List, [], ◌∷◌, ◌++◌, append_assoc, ◌==◌,
  length, replicate, set, All, Bool-cases, inl, inr,
}
use knowledge_acquisition.Compress.Qoi.{
  QoiPixel, default_pixel, hash, same, History, empty_history, slot_holds, encode, decode,
  end_marker, qoi_header, compress_pixels, decompress, drop,
}
use knowledge_acquisition.Compress.Qoi.Loop.{
  Reads, Agree, Agree-set, same-eq, slot_holds-eq, flush_chunk, index_chunk, color_chunk,
  decode-zero, long_run, longer_run, no_run, encode-long, encode-more, encode-hit, encode-miss,
}
use knowledge_acquisition.Compress.Qoi.Chunk.{IsPixel}

-- The whole loop.
encode-Reads :
    (ps : List QoiPixel) (h : History) (prev : QoiPixel) (run : ℕ) (tail : List ℕ)
    → run < 62
    → Agree h prev
    → IsPixel prev
    → All IsPixel ps
    → Reads (encode ps h prev run ++ tail) (run + length ps) prev h (replicate run prev ++ ps)
encode-Reads [] h prev run tail hr g vp vs =
    unfold encode in flush_chunk run 0 tail prev h [] hr g (λ f hf. decode-zero f tail prev h)
encode-Reads (c ∷ ps) h prev run tail hr g vp (vc, vs) = elim (Bool-cases (same c prev)) [
  | inl t ↦
      let q : c ≡ prev = same-eq c prev t in
      let gc : Agree h c = rw q g in
      elim (Bool-cases (run + 1 == 62)) [
        | inl e ↦
            let r61 : run ≡ 61 = ground arith in
            rw (encode-long c ps h prev run t r61, r61, sym q)
              (long_run (length ps) (encode ps h c 0 ++ tail) c h ps gc
                (no_run (length ps) _ c _ ps (encode-Reads ps h c 0 tail (omega arith) gc vc vs)))
        | inr e ↦
            rw (encode-more c ps h prev run t e, sym q)
              (longer_run run (length ps) (encode ps h c (run + 1) ++ tail) c h ps
                (encode-Reads ps h c (run + 1) tail (ground arith) gc vc vs))
      ]
  | inr t ↦ elim (Bool-cases (slot_holds h (hash c) c)) [
    | inl e ↦
        let k = slot_holds-eq h (hash c) c e in
        rw (encode-hit c ps h prev run t e, append_assoc)
          (flush_chunk run (suc (length ps)) _ prev h (c ∷ ps) hr g (
            index_chunk (length ps) (encode ps h c 0 ++ tail) prev c h ps k (
              no_run (length ps) _ c _ ps
                (encode-Reads ps h c 0 tail (omega arith) (g.0, k) vc vs))))
    | inr e ↦
        rw (encode-miss c ps h prev run t e, append_assoc, append_assoc)
          (flush_chunk run (suc (length ps)) _ prev h (c ∷ ps) hr g (
            color_chunk (length ps) (encode ps (set h (hash c) c) c 0 ++ tail) prev c h ps vc vp (
              no_run (length ps) _ c _ ps (
                encode-Reads ps (set h (hash c) c) c 0 tail (omega arith) (Agree-set h c prev g) vc
                  vs))))
  ]
]

-- The loop of the encoder and then the loop of the decoder, with any bytes after the chunks.
decode-encode :
    (ps : List QoiPixel) (tail : List ℕ)
    → All IsPixel ps
    → (let bytes = encode ps empty_history default_pixel 0 ++ tail in
        decode (length bytes) (length ps) bytes default_pixel empty_history)
      ≡ some ps
decode-encode ps tail vs =
    no_run (length ps) _ default_pixel empty_history ps
      (encode-Reads ps empty_history default_pixel 0 tail (omega arith) (refl, refl)
        (record { r = omega arith; g = omega arith; b = omega arith; a = omega arith }) vs)
      _ (omega arith)

drop-header :
    (w h channels : ℕ) (bytes : List ℕ) → drop 14 (qoi_header w h channels ++ bytes) ≡ bytes
drop-header w h channels bytes = refl

-- The decoder, told the size of the picture, draws exactly the pixels that the encoder was given,
-- for any number of channels in the header, when the components of the pixels are bytes.
pub decompress-compress_pixels :
    (ps : List QoiPixel) (w h channels : ℕ)
    → w * h ≡ length ps
    → All IsPixel ps
    → decompress w h (compress_pixels ps w h channels) ≡ some ps
unfolding decompress compress_pixels
decompress-compress_pixels ps w h channels e vs =
    rw (drop-header w h channels, e) (decode-encode ps end_marker vs)
