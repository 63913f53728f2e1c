-- ===== src/Compress/Rle/Runs.antt =====
-- The runs of equal pixels, and the reads of the compressor.
use knowledge_acquisition.Prelude.{
  ℕ, zero, suc, ◌+◌, ◌-◌, ◌*◌, ◌%◌, ◌<◌, ◌≤◌, ◌≡◌, refl, arith, true, false, ◌&&◌, Option, none,
  some, List, [], ◌∷◌, length, get_elem?, ltb, ◌==◌, Bool-cases, inl, inr, ◌⊎◌,
}
use knowledge_acquisition.Compress.Rle.{byte_at, channels_at, colors_match, run_length}

-- The bytes from offset `k` on, as far as there are any.
abbrev pub or_zero : Option ℕ → ℕ
or_zero none = 0
or_zero (some byte) = byte

abbrev pub slice : List ℕ → ℕ → ℕ → List ℕ
slice raw k zero = []
slice raw k (suc n) = or_zero (get_elem? raw k) ∷ slice raw (suc k) n

abbrev pub pixel : List ℕ → ℕ → ℕ → List ℕ
pixel raw channels i = slice raw (i * channels) channels

byte_at-within :
    (raw : List ℕ) (k : ℕ) → k < length raw → byte_at raw k ≡ some (or_zero (byte_at raw k))
byte_at-within [] k l = absurd (omega arith)
byte_at-within (x ∷ raw) zero l = refl
byte_at-within (x ∷ raw) (suc k) l = byte_at-within raw k (omega arith)

pub channels_at-slice :
    (raw : List ℕ) (k n : ℕ) → k + n ≤ length raw → channels_at raw k n ≡ some (slice raw k n)
unfolding channels_at
channels_at-slice raw k zero l = refl
channels_at-slice raw k (suc n) l =
    let e = byte_at-within raw k (omega arith) in
    let r = channels_at-slice raw (suc k) n (omega arith) in rw (e, r, channels_at) refl

-- The answer, and what a yes says.
abbrev Compared : List ℕ → ℕ → ℕ → ℕ → Type 0
Compared raw a b n =
    ((colors_match raw a b n ≡ some true) × (slice raw b n ≡ slice raw a n))
    ⊎ (colors_match raw a b n ≡ some false)

colors_match_lem :
    (raw : List ℕ) (a b n : ℕ) → a + n ≤ length raw → b + n ≤ length raw → Compared raw a b n
unfolding colors_match
colors_match_lem raw a b zero l m = inl (refl, refl)
colors_match_lem raw a b (suc n) l m =
    let e = byte_at-within raw a (omega arith) in
    let f = byte_at-within raw b (omega arith) in
    elim (Bool-cases (or_zero (byte_at raw a) == or_zero (byte_at raw b))) [
      | inl t ↦
          let same : or_zero (byte_at raw b) ≡ or_zero (byte_at raw a) = ground arith in
          elim (colors_match_lem raw (suc a) (suc b) n (omega arith) (omega arith)) [
            | inl (c, s) ↦ inl (rw (e, f, t, colors_match) c, rw (same, s) refl)
            | inr c ↦ inr (rw (e, f, t, colors_match) c)
          ]
      | inr t ↦ inr (rw (e, f, t, colors_match) refl)
    ]

-- A run holds equal pixels, stays in the picture and fits a byte.
pub record Run (raw : List ℕ) (channels total i run result : ℕ) : Type 0 where
  pub more : run ≤ result
  pub byte : result ≤ 255
  pub inside : i + result ≤ total
  pub equal : (j : ℕ) → run ≤ j → j < result → pixel raw channels (i + j) ≡ pixel raw channels i

stop-Run :
    (raw : List ℕ) (channels total i run : ℕ)
    → i + run ≤ total
    → run ≤ 255
    → Run raw channels total i run run
stop-Run raw channels total i run l b = record {
  more = omega arith;
  byte = b;
  inside = l;
  equal = λ j m n. absurd (omega arith);
}

-- A pixel of the picture is one of the buffer.
pub pixel-within :
    (total channels i size : ℕ)
    → total * channels ≤ size
    → i < total
    → i * channels + channels ≤ size
pixel-within total channels i size l b = behind (total - suc i) (omega arith)
  where
    behind : (d : ℕ) → total ≡ suc i + d → i * channels + channels ≤ size
    behind d e =
        let f : (suc i + d) * channels ≡ i * channels + channels + d * channels = grind arith in
        let g = rw e at l in omega arith

-- The inner loop ends with a run, on more fuel than pixels are left.
pub run_length-Run :
    (fuel : ℕ) (raw : List ℕ) (channels total i run : ℕ)
    → total * channels ≤ length raw
    → i < total
    → i + run ≤ total
    → run ≤ 255
    → total < fuel + (i + run)
    → (result : ℕ) × (run_length fuel raw channels total i run ≡ some result)
      × Run raw channels total i run result
unfolding run_length
run_length-Run zero raw channels total i run z below l b f = absurd (omega arith)
run_length-Run (suc fuel) raw channels total i run z below l b f =
    elim (Bool-cases (ltb (i + run) total && ltb run 255)) [
      | inr t ↦ (run, rw (t, run_length) refl, stop-Run raw channels total i run l b)
      | inl t ↦
          let k : i + run < total = ground arith in
          let u : run < 255 = ground arith in
          let p = pixel-within total channels i (length raw) z below in
          let q = pixel-within total channels (i + run) (length raw) z k in
          elim (colors_match_lem raw (i * channels) ((i + run) * channels) channels p q) [
            | inr c ↦ (run, rw (t, c, run_length) refl, stop-Run raw channels total i run l b)
            | inl (c, m) ↦
                let wrap : (run + 1) % 256 ≡ run + 1 = omega arith in
                let (result, e, r) =
                  run_length-Run fuel raw channels total i ((run + 1) % 256) z below (omega arith)
                    (omega arith) (omega arith) in
                (
                  result,
                  rw (t, c, run_length) e,
                  record {
                    more = omega (arith, r.more);
                    byte = r.byte;
                    inside = r.inside;
                    equal = λ j x y. elim (Bool-cases (run == j)) [
                      | inl w ↦ let same : run ≡ j = ground arith in rw (← same) m
                      | inr w ↦ r.equal j (ground arith) y
                    ];
                  },
                )
          ]
    ]
