-- ===== src/Compress/Qoi/Chunk.antt =====
-- The decoder reads back one chunk of the encoder.
use knowledge_acquisition.Prelude.{
  ℕ, suc, ◌+◌, ◌-◌, ◌*◌, ◌%◌, ◌<◌, ◌≡◌, refl, ◌∙◌, arith, bit_or, Bool, true, ◌&&◌, Option, none,
  some, List, [], ◌∷◌, ◌++◌, get_elem?, IsByte,
}
use knowledge_acquisition.Compress.Qoi.{
  QoiPixel, History, Round, emit_color, decode_round, delta, in_range, op_diff, op_luma, op_rgb,
  op_rgba,
}
use knowledge_acquisition.Compress.Qoi.Fields.{
  diff_byte, luma_byte, nibbles, diff_back, luma_green, luma_back,
}

pub record IsPixel (p : QoiPixel) : Type 0 where
  pub r : IsByte p.r
  pub g : IsByte p.g
  pub b : IsByte p.b
  pub a : IsByte p.a

-- A round on a list of bytes.
abbrev pub round : List ℕ → QoiPixel → History → Option Round
round [] px h = none
round (b1 ∷ rest) px h = decode_round b1 rest px h

abbrev pub drawn : QoiPixel → ℕ → List ℕ → Option Round
drawn p n rest = some (record { pixel = p; count = n; rest = rest })

diff_round :
    (x y z : ℕ) (rest : List ℕ) (px : QoiPixel) (h : History)
    → x < 4
    → y < 4
    → z < 4
    → decode_round (64 + x * 16 + y * 4 + z) rest px h
      ≡ drawn
          (record px {
            r = (px.r + x + 256 - 2) % 256;
            g = (px.g + y + 256 - 2) % 256;
            b = (px.b + z + 256 - 2) % 256;
          })
          1
          rest
unfolding decode_round
diff_round x y z rest px h hx hy hz = ground arith

luma_round :
    (v x y : ℕ) (rest : List ℕ) (px : QoiPixel) (h : History)
    → v < 64
    → x < 16
    → y < 16
    → decode_round (128 + v) ((x * 16 + y) ∷ rest) px h
      ≡ drawn
          (record px {
            r = (px.r + ((v + 256 - 32) % 256 + 256 - 8) + x) % 256;
            g = (px.g + (v + 256 - 32) % 256) % 256;
            b = (px.b + ((v + 256 - 32) % 256 + 256 - 8) + y) % 256;
          })
          1
          rest
unfolding decode_round
luma_round v x y rest px h hv hx hy = ground arith

pub run_round :
    (v : ℕ) (rest : List ℕ) (px : QoiPixel) (h : History)
    → v < 62
    → decode_round (192 + v) rest px h ≡ drawn px (suc v) rest
unfolding decode_round
run_round v rest px h hv = ground arith

pub index_round :
    (v : ℕ) (rest : List ℕ) (px q : QoiPixel) (h : History)
    → v < 64
    → get_elem? h v ≡ some q
    → decode_round v rest px h ≡ drawn q 1 rest
unfolding decode_round
index_round v rest px q h hv e = ground arith

rgb_round :
    (c px : QoiPixel) (rest : List ℕ) (h : History)
    → c.a ≡ px.a
    → round (op_rgb ∷ c.r ∷ c.g ∷ c.b ∷ rest) px h ≡ drawn c 1 rest
unfolding decode_round
rgb_round c px rest h e = ground arith

rgba_round :
    (c px : QoiPixel) (rest : List ℕ) (h : History)
    → round (op_rgba ∷ c.r ∷ c.g ∷ c.b ∷ c.a ∷ rest) px h ≡ drawn c 1 rest
unfolding decode_round
rgba_round c px rest h = refl

and_parts : (x y z : Bool) → (x && (y && z)) ≡ true → (x ≡ true) × (y ≡ true) × (z ≡ true)
and_parts x y z e = ground arith

in_range-lt : (low width x : ℕ) → in_range low width x ≡ true → (x + low) % 256 < width
in_range-lt low width x e = ground arith

module _ (c px : QoiPixel) (rest : List ℕ) (h : History) (vc : IsPixel c) (vp : IsPixel px) where
  diff_case :
      c.a ≡ px.a
      → (delta c.r px.r + 2) % 256 < 4
      → (delta c.g px.g + 2) % 256 < 4
      → (delta c.b px.b + 2) % 256 < 4
      → decode_round
          (bit_or
            (bit_or
              (bit_or op_diff ((delta c.r px.r + 2) % 256 * 16))
              ((delta c.g px.g + 2) % 256 * 4))
            ((delta c.b px.b + 2) % 256))
          rest
          px
          h
        ≡ drawn c 1 rest
  diff_case e hr hg hb = rw (diff_byte _ _ _ hr hg hb) (
      diff_round _ _ _ rest px h hr hg hb
      ∙ ground (
        arith,
        diff_back c.r px.r vc.r vp.r,
        diff_back c.g px.g vc.g vp.g,
        diff_back c.b px.b vc.b vp.b,
      ))

  luma_case :
      c.a ≡ px.a
      → (delta c.g px.g + 32) % 256 < 64
      → (delta (delta c.r px.r) (delta c.g px.g) + 8) % 256 < 16
      → (delta (delta c.b px.b) (delta c.g px.g) + 8) % 256 < 16
      → decode_round
          (bit_or op_luma ((delta c.g px.g + 32) % 256))
          (bit_or
              ((delta (delta c.r px.r) (delta c.g px.g) + 8) % 256 * 16)
              ((delta (delta c.b px.b) (delta c.g px.g) + 8) % 256)
            ∷ rest)
          px
          h
        ≡ drawn c 1 rest
  luma_case e hg hr hb =
      rw (luma_byte _ hg, nibbles _ _ hb)
        (luma_round _ _ _ rest px h hg hr hb
          ∙ ground (
            arith,
            luma_green c.g px.g vc.g vp.g,
            luma_back c.r px.r (delta c.g px.g) vc.r vp.r (omega arith),
            luma_back c.b px.b (delta c.g px.g) vc.b vp.b (omega arith),
          ))

  -- Whatever tags the encoder chooses for a colour, the decoder draws this colour once.
  pub emit_color-round : round (emit_color px c ++ rest) px h ≡ drawn c 1 rest
  unfolding emit_color
  emit_color-round =
      ground (arith, rgba_round c px rest h, rgb_round c px rest h, diff_case, luma_case)
