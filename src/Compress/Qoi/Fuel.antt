-- ===== src/Compress/Qoi/Fuel.antt =====
-- The fuel of the decoder's loop.
use knowledge_acquisition.Prelude.{
  ℕ, zero, suc, ◌-◌, ◌≤◌, ◌≡◌, refl, arith, some, List, [], ◌∷◌, length, set, Option-cases, inl,
  inr,
}
use knowledge_acquisition.Compress.Qoi.{QoiPixel, hash, History, Round, decode_round, decode}

-- A round leaves no more bytes than it is given.
decode_round-length :
    (b1 : ℕ) (bytes : List ℕ) (px : QoiPixel) (h : History) (o : Round)
    → decode_round b1 bytes px h ≡ some o
    → length o.rest ≤ length bytes
unfolding decode_round
decode_round-length b1 bytes px h o e = ground arith

-- One byte for each round is enough: with more fuel the decoder does the same.
pub decode-enough :
    (f g n : ℕ) (bytes : List ℕ) (px : QoiPixel) (h : History)
    → length bytes ≤ f
    → length bytes ≤ g
    → decode f n bytes px h ≡ decode g n bytes px h
unfolding decode
decode-enough f g zero bytes px h lf lg = refl
decode-enough f g (suc n) [] px h lf lg = refl
decode-enough zero g (suc n) (b ∷ bytes) px h lf lg = absurd (omega arith)
decode-enough (suc f) zero (suc n) (b ∷ bytes) px h lf lg = absurd (omega arith)
decode-enough (suc f) (suc g) (suc n) (b ∷ bytes) px h lf lg =
    elim (Option-cases (decode_round b bytes px h)) [
      | inl e ↦ rw (e, decode) refl
      | inr (o, e) ↦
          let l = decode_round-length b bytes px h o e in
          let k =
            decode-enough f g (suc n - o.count) o.rest o.pixel (set h (hash o.pixel) o.pixel)
              (omega arith) (omega arith) in
          rw (e, decode) (rw k refl)
    ]
