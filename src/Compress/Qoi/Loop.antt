-- ===== src/Compress/Qoi/Loop.antt =====
-- How the loop of the decoder goes on after the chunks of the encoder.
use knowledge_acquisition.Prelude.{
  ℕ, zero, suc, ◌+◌, ◌-◌, ◌<◌, ◌≤◌, ◌≡◌, refl, ◌∙◌, ap, arith, bit_or, true, false, some, List, [],
  ◌∷◌, ◌++◌, ◌==◌, lt→ltb, length, length-append, replicate, get_elem?, set, Option-cases, inl, inr,
}
use knowledge_acquisition.Compress.Qoi.{
  QoiPixel, hash, same, History, slot_holds, flush, encode, emit_color, decode, op_run, op_index,
}
use knowledge_acquisition.Compress.Qoi.Fields.{run_byte, index_byte}
use knowledge_acquisition.Compress.Qoi.Chunk.{
  IsPixel, round, drawn, run_round, index_round, emit_color-round,
}

-- With enough fuel the decoder draws `ps`.
abbrev pub Reads : List ℕ → ℕ → QoiPixel → History → List QoiPixel → Type 0
Reads bytes n px h ps = (f : ℕ) → length bytes ≤ f → decode f n bytes px h ≡ some ps

pub chunk :
    (bytes rest : List ℕ) (n m count : ℕ) (px p : QoiPixel) (h : History) (ps : List QoiPixel)
    → round bytes px h ≡ drawn p count rest
    → length rest < length bytes
    → suc m ≡ count + n
    → Reads rest n p (set h (hash p) p) ps
    → Reads bytes (suc m) px h (replicate count p ++ ps)
unfolding decode
chunk [] rest n m count px p h ps e l s k f hf = cc
chunk (b1 ∷ bs) rest n m count px p h ps e l s k zero hf = absurd (omega arith)
chunk (b1 ∷ bs) rest n m count px p h ps e l s k (suc f) hf =
    let left : suc m - count ≡ n = omega arith in rw (e, decode) (rw (left, k f (omega arith)) refl)

pub set_same : (h : History) (i : ℕ) (p : QoiPixel) → get_elem? h i ≡ some p → set h i p ≡ h
set_same [] i p e = refl
set_same (q ∷ h) zero p e = ground (arith, e)
set_same (q ∷ h) (suc i) p e = ap (◌∷◌ q) (set_same h i p e)

pub get_elem?-set :
    (h : History) (i : ℕ) (p : QoiPixel) → i < length h → get_elem? (set h i p) i ≡ some p
get_elem?-set [] i p l = absurd (omega arith)
get_elem?-set (q ∷ h) zero p l = refl
get_elem?-set (q ∷ h) (suc i) p l = get_elem?-set h i p (omega arith)

length-set_slot : (h : History) (i : ℕ) (p : QoiPixel) → length (set h i p) ≡ length h
length-set_slot [] i p = refl
length-set_slot (q ∷ h) zero p = refl
length-set_slot (q ∷ h) (suc i) p = ap suc (length-set_slot h i p)

pub same-eq : (p q : QoiPixel) → same p q ≡ true → p ≡ q
same-eq p q e = ground arith

pub slot_holds-eq :
    (h : History) (i : ℕ) (p : QoiPixel) → slot_holds h i p ≡ true → get_elem? h i ≡ some p
slot_holds-eq h i p e = elim (Option-cases (get_elem? h i)) [
  | inl n ↦ cc (rw (n, slot_holds) at e)
  | inr (q, n) ↦ n ∙ ap some (same-eq q p (rw (n, slot_holds) at e))
]

hash-lt : (p : QoiPixel) → hash p < 64
hash-lt p = omega arith

-- What the encoder and the decoder agree on: the history has 64 slots and holds the last pixel.
abbrev pub Agree : History → QoiPixel → Type 0
Agree h p = (length h ≡ 64) × (get_elem? h (hash p) ≡ some p)

pub Agree-set : (h : History) (p q : QoiPixel) → Agree h q → Agree (set h (hash p) p) p
Agree-set h p q (l, e) =
    (length-set_slot h (hash p) p ∙ l, get_elem?-set h (hash p) p (omega (arith, hash-lt p)))

replicate-shift :
    (n : ℕ) (p : QoiPixel) (ps : List QoiPixel)
    → replicate n p ++ (p ∷ ps) ≡ p ∷ (replicate n p ++ ps)
replicate-shift zero p ps = refl
replicate-shift (suc n) p ps = ap (◌∷◌ p) (replicate-shift n p ps)

-- A run of `v + 1` pixels.
run_chunk :
    (v n : ℕ) (rest : List ℕ) (px : QoiPixel) (h : History) (ps : List QoiPixel)
    → v < 62
    → Agree h px
    → Reads rest n px h ps
    → Reads (bit_or op_run v ∷ rest) (suc (v + n)) px h (replicate (suc v) px ++ ps)
run_chunk v n rest px h ps hv (l, e) k =
    chunk (bit_or op_run v ∷ rest) rest n (v + n) (suc v) px px h ps
      (rw (run_byte v (omega arith)) (run_round v rest px h hv)) (omega arith) (omega arith)
      (rw (set_same h (hash px) px e) k)

-- The run that waits, if there is one.
pub flush_chunk :
    (run n : ℕ) (rest : List ℕ) (px : QoiPixel) (h : History) (ps : List QoiPixel)
    → run < 62
    → Agree h px
    → Reads rest n px h ps
    → Reads (flush run ++ rest) (run + n) px h (replicate run px ++ ps)
flush_chunk zero n rest px h ps hr g k = let e : 0 + n ≡ n = omega arith in rw e k
flush_chunk (suc v) n rest px h ps hr g k =
    let e : suc v + n ≡ suc (v + n) = omega arith in
    let d : suc v - 1 ≡ v = omega arith in
    rw (e, lt→ltb 0 (suc v) (omega arith), d) (run_chunk v n rest px h ps (omega arith) g k)

-- A pixel that differs from the last one.
pub index_chunk :
    (n : ℕ) (rest : List ℕ) (px c : QoiPixel) (h : History) (ps : List QoiPixel)
    → get_elem? h (hash c) ≡ some c
    → Reads rest n c h ps
    → Reads (bit_or op_index (hash c) ∷ rest) (suc n) px h (c ∷ ps)
index_chunk n rest px c h ps e k =
    chunk (bit_or op_index (hash c) ∷ rest) rest n n 1 px c h ps
      (rw (index_byte (hash c) (hash-lt c)) (index_round (hash c) rest px c h (hash-lt c) e))
      (omega arith) (omega arith) (rw (set_same h (hash c) c e) k)

emit_color-length : (px c : QoiPixel) → 0 < length (emit_color px c)
unfolding emit_color
emit_color-length px c = ground arith

pub color_chunk :
    (n : ℕ) (rest : List ℕ) (px c : QoiPixel) (h : History) (ps : List QoiPixel)
    → IsPixel c
    → IsPixel px
    → Reads rest n c (set h (hash c) c) ps
    → Reads (emit_color px c ++ rest) (suc n) px h (c ∷ ps)
color_chunk n rest px c h ps vc vp k =
    chunk (emit_color px c ++ rest) rest n n 1 px c h ps (emit_color-round c px rest h vc vp)
      (omega (arith, length-append (emit_color px c) rest, emit_color-length px c)) (omega arith) k

pub decode-zero :
    (f : ℕ) (bytes : List ℕ) (px : QoiPixel) (h : History) → decode f 0 bytes px h ≡ some []
unfolding decode
decode-zero f bytes px h = refl

pub no_run :
    (n : ℕ) (bytes : List ℕ) (px : QoiPixel) (h : History) (ps : List QoiPixel)
    → Reads bytes (0 + n) px h ps
    → Reads bytes n px h ps
no_run n bytes px h ps k = let e : n ≡ 0 + n = omega arith in rw e k

-- A pixel equal to the last one.
pub long_run :
    (n : ℕ) (rest : List ℕ) (c : QoiPixel) (h : History) (ps : List QoiPixel)
    → Agree h c
    → Reads rest n c h ps
    → Reads (bit_or op_run 61 ∷ rest) (61 + suc n) c h (replicate 61 c ++ (c ∷ ps))
long_run n rest c h ps g k =
    let e : 61 + suc n ≡ suc (61 + n) = omega arith in
    rw (e, replicate-shift 61 c ps) (run_chunk 61 n rest c h ps (omega arith) g k)

pub longer_run :
    (run n : ℕ) (rest : List ℕ) (c : QoiPixel) (h : History) (ps : List QoiPixel)
    → Reads rest (run + 1 + n) c h (replicate (run + 1) c ++ ps)
    → Reads rest (run + suc n) c h (replicate run c ++ (c ∷ ps))
longer_run run n rest c h ps k =
    let e : run + 1 + n ≡ run + suc n = omega arith in
    let d : run + 1 ≡ suc run = omega arith in rw (replicate-shift run c ps) (rw (e, d) at k)

-- The four cases of the loop.
module _ (c : QoiPixel) (ps : List QoiPixel) (h : History) (prev : QoiPixel) (run : ℕ) where
  pub encode-long :
      same c prev ≡ true
      → run ≡ 61
      → encode (c ∷ ps) h prev run ≡ bit_or op_run 61 ∷ encode ps h c 0
  unfolding encode
  encode-long t e = rw (t, e) refl

  pub encode-more :
      same c prev ≡ true
      → (run + 1 == 62) ≡ false
      → encode (c ∷ ps) h prev run ≡ encode ps h c (run + 1)
  unfolding encode
  encode-more t e = rw (t, e) refl

  pub encode-hit :
      same c prev ≡ false
      → slot_holds h (hash c) c ≡ true
      → encode (c ∷ ps) h prev run ≡ flush run ++ (bit_or op_index (hash c) ∷ encode ps h c 0)
  unfolding encode
  encode-hit t e = rw (t, e) refl

  pub encode-miss :
      same c prev ≡ false
      → slot_holds h (hash c) c ≡ false
      → encode (c ∷ ps) h prev run
        ≡ flush run ++ (emit_color prev c ++ encode ps (set h (hash c) c) c 0)
  unfolding encode
  encode-miss t e = rw (t, e) refl
