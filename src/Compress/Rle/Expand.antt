-- ===== src/Compress/Rle/Expand.antt =====
-- A payload stands for the picture it was made of.
use knowledge_acquisition.Prelude.{
  ℕ, zero, suc, ◌+◌, ◌-◌, ◌*◌, ◌<◌, ◌≤◌, ◌≡◌, refl, sym, ap, ◌∙◌, arith, some, List, [], ◌∷◌, ◌++◌,
  append_assoc, length, length-append, get_elem?, All, All-append, IsByte, ltb, ◌==◌, Bool-cases,
  inl, inr,
}
use knowledge_acquisition.Compress.Rle.{packets, compress_rle}
use knowledge_acquisition.Compress.Rle.Runs.{
  or_zero, slice, pixel, channels_at-slice, Run, pixel-within, run_length-Run,
}

-- What a payload stands for: each packet its pixel, as often as its count says.
abbrev pub times : ℕ → List ℕ → List ℕ
times zero pixel = []
times (suc n) pixel = pixel ++ times n pixel

abbrev pub take : ℕ → List ℕ → List ℕ
take zero xs = []
take (suc n) [] = []
take (suc n) (x ∷ xs) = x ∷ take n xs

abbrev pub drop : ℕ → List ℕ → List ℕ
drop zero xs = xs
drop (suc n) [] = []
drop (suc n) (x ∷ xs) = drop n xs

-- `fuel` bounds the number of packets.
unfoldable pub expand : ℕ → ℕ → List ℕ → List ℕ
expand zero channels payload = []
expand (suc fuel) channels [] = []
expand (suc fuel) channels (count ∷ payload) =
    times count (take channels payload) ++ expand fuel channels (drop channels payload)

-- The pixels from the `i`-th on.
abbrev pixels : List ℕ → ℕ → ℕ → ℕ → List ℕ
pixels raw channels i zero = []
pixels raw channels i (suc n) = pixel raw channels i ++ pixels raw channels (suc i) n

pixels-times :
    (raw : List ℕ) (channels i n : ℕ) (p : List ℕ)
    → ((j : ℕ) → j < n → pixel raw channels (i + j) ≡ p)
    → pixels raw channels i n ≡ times n p
pixels-times raw channels i zero p h = refl
pixels-times raw channels i (suc n) p h =
    let z : i + 0 ≡ i = omega arith in
    let first : pixel raw channels i ≡ p = rw z at (h 0 (omega arith)) in
    let later : (j : ℕ) → i + suc j ≡ suc i + j = λ j. omega arith in
    let rest =
      pixels-times raw channels (suc i) n p (λ j l. rw (later j) at (h (suc j) (omega arith))) in
    rw (first, rest) refl

pixels_add :
    (raw : List ℕ) (channels i a b : ℕ)
    → pixels raw channels i (a + b) ≡ pixels raw channels i a ++ pixels raw channels (i + a) b
pixels_add raw channels i zero b =
    let z : i + 0 ≡ i = omega arith in let y : 0 + b ≡ b = omega arith in rw (z, y) refl
pixels_add raw channels i (suc a) b =
    let z : i + suc a ≡ suc i + a = omega arith in
    let y : suc a + b ≡ suc (a + b) = omega arith in
    rw (y, z, pixels_add raw channels (suc i) a b)
      (sym (
        append_assoc (pixel raw channels i) (pixels raw channels (suc i) a)
          (pixels raw channels (suc i + a) b)))

take-slice :
    (raw : List ℕ) (k n : ℕ) (rest : List ℕ) → take n (slice raw k n ++ rest) ≡ slice raw k n
take-slice raw k zero rest = refl
take-slice raw k (suc n) rest = ap (◌∷◌ (or_zero (get_elem? raw k))) (take-slice raw (suc k) n rest)

drop-slice : (raw : List ℕ) (k n : ℕ) (rest : List ℕ) → drop n (slice raw k n ++ rest) ≡ rest
drop-slice raw k zero rest = refl
drop-slice raw k (suc n) rest = drop-slice raw (suc k) n rest

slice-add : (raw : List ℕ) (k a b : ℕ) → slice raw k (a + b) ≡ slice raw k a ++ slice raw (k + a) b
slice-add raw k zero b =
    let z : k + 0 ≡ k = omega arith in let y : 0 + b ≡ b = omega arith in rw (z, y) refl
slice-add raw k (suc a) b =
    let z : k + suc a ≡ suc k + a = omega arith in
    let y : suc a + b ≡ suc (a + b) = omega arith in
    rw (y, z) (ap (◌∷◌ (or_zero (get_elem? raw k))) (slice-add raw (suc k) a b))

pixels-slice :
    (raw : List ℕ) (channels i n : ℕ)
    → pixels raw channels i n ≡ slice raw (i * channels) (n * channels)
pixels-slice raw channels i zero = let z : 0 * channels ≡ 0 = omega arith in rw z refl
pixels-slice raw channels i (suc n) =
    let z : suc n * channels ≡ channels + n * channels = grind arith in
    let y : suc i * channels ≡ i * channels + channels = grind arith in
    rw
      (
        z,
        slice-add raw (i * channels) channels (n * channels),
        ← y,
        pixels-slice raw channels (suc i) n,
      )
      refl

-- The bytes from offset `k` on, of a buffer whose first `k` bytes are dropped.
slice_all :
    (raw xs : List ℕ) (k : ℕ)
    → ((j : ℕ) → or_zero (get_elem? raw (k + j)) ≡ or_zero (get_elem? xs j))
    → slice raw k (length xs) ≡ xs
slice_all raw [] k h = refl
slice_all raw (x ∷ xs) k h =
    let z : k + 0 ≡ k = omega arith in
    let first : or_zero (get_elem? raw k) ≡ x = rw z at (h 0) in
    let later : (j : ℕ) → k + suc j ≡ suc k + j = λ j. omega arith in
    rw (first, slice_all raw xs (suc k) (λ j. rw (later j) at (h (suc j)))) refl

length-slice : (raw : List ℕ) (k n : ℕ) → length (slice raw k n) ≡ n
length-slice raw k zero = refl
length-slice raw k (suc n) = omega (arith, length-slice raw (suc k) n)

byte_of : (raw : List ℕ) (k : ℕ) → All IsByte raw → or_zero (get_elem? raw k) < 256
byte_of [] k a = omega arith
byte_of (x ∷ raw) zero (b, a) = b
byte_of (x ∷ raw) (suc k) (b, a) = byte_of raw k a

All-slice : (raw : List ℕ) (k n : ℕ) → All IsByte raw → All IsByte (slice raw k n)
All-slice raw k zero a = tt
All-slice raw k (suc n) a = (byte_of raw k a, All-slice raw (suc k) n a)

grow : (run d c : ℕ) → 1 ≤ run → c + d * c ≤ (run + d) * c
grow zero d c l = absurd (omega arith)
grow (suc run) d c l = let z : (suc run + d) * c ≡ c + d * c + run * c = grind arith in omega arith

-- What the packets of `n` pixels from the `i`-th on are.
record Packed (raw : List ℕ) (channels i n : ℕ) (payload : List ℕ) : Type 0 where
  bytes : All IsByte payload
  size : length payload ≤ n * (channels + 1)
  stands : (room : ℕ) → n ≤ room → expand room channels payload ≡ pixels raw channels i n

nothing-Packed : (raw : List ℕ) (channels i : ℕ) → Packed raw channels i 0 []
unfolding expand
nothing-Packed raw channels i = record {
  bytes = tt;
  size = omega arith;
  stands = λ room l. no_packets room;
}
  where
    no_packets : (room : ℕ) → expand room channels [] ≡ []
    no_packets zero = refl
    no_packets (suc room) = refl

equal_pixel :
    (raw : List ℕ) (channels total i run j : ℕ)
    → Run raw channels total i 1 run
    → j < run
    → pixel raw channels (i + j) ≡ pixel raw channels i
equal_pixel raw channels total i run zero v b = let z : i + 0 ≡ i = omega arith in rw z refl
equal_pixel raw channels total i run (suc j) v b = v.equal (suc j) (omega arith) b

-- A run and the packets after it.
push_packet-Packed :
    (raw : List ℕ) (channels total i run n : ℕ) (rest : List ℕ)
    → All IsByte raw
    → Run raw channels total i 1 run
    → Packed raw channels (i + run) n rest
    → Packed raw channels i (run + n) (run ∷ (pixel raw channels i ++ rest))
unfolding expand
push_packet-Packed raw channels total i run n rest a v p = record {
  bytes = (
    let b = v.byte in omega arith,
    All-append IsByte (pixel raw channels i) rest (All-slice raw (i * channels) channels a) p.bytes,
  );
  size =
      let m = length-append (pixel raw channels i) rest in
      let k = length-slice raw (i * channels) channels in
      let s = p.size in let g = grow run n (channels + 1) v.more in omega arith;
  stands = λ room l. with_room room l;
}
  where
    with_room :
        (room : ℕ)
        → run + n ≤ room
        → expand room channels (run ∷ (pixel raw channels i ++ rest))
          ≡ pixels raw channels i (run + n)
    with_room zero l = let k = v.more in absurd (omega arith)
    with_room (suc room) l =
        let k = v.more in
        let same =
          pixels-times raw channels i run (pixel raw channels i)
            (λ j b. equal_pixel raw channels total i run j v b) in
        rw
          (
            take-slice raw (i * channels) channels rest,
            drop-slice raw (i * channels) channels rest,
            p.stands room (omega arith),
            pixels_add raw channels i run n,
            same,
          )
          refl

whole-Packed :
    (raw : List ℕ) (channels i n m : ℕ) (payload : List ℕ)
    → n ≡ m
    → Packed raw channels i m payload
    → Packed raw channels i n payload
whole-Packed raw channels i n m payload e p = rw e p

-- The outer loop ends, with fuel for each pixel that is left and one more.
packets-Packed :
    (fuel : ℕ) (raw : List ℕ) (channels total i n : ℕ)
    → total * channels ≤ length raw
    → All IsByte raw
    → i + n ≡ total
    → total < fuel + i
    → (payload : List ℕ) × (packets fuel raw channels total i ≡ some payload)
      × Packed raw channels i n payload
unfolding packets
packets-Packed zero raw channels total i n z a l f = absurd (omega arith)
packets-Packed (suc fuel) raw channels total i n z a l f = elim (Bool-cases (ltb i total)) [
  | inr t ↦
      let e : n ≡ 0 = ground arith in
      ([], rw (t, packets) refl, rw e (nothing-Packed raw channels i))
  | inl t ↦
      let below : i < total = ground arith in
      let within = pixel-within total channels i (length raw) z below in
      let (run, e, v) =
        run_length-Run (suc total) raw channels total i 1 z below (omega arith) (omega arith)
          (omega arith) in
      let more = v.more in
      let inside = v.inside in
      let (rest, r, p) =
        packets-Packed fuel raw channels total (i + run) (total - (i + run)) z a (omega arith)
          (omega arith) in
      let split : n ≡ run + (total - (i + run)) = omega arith in
      (
        run ∷ (pixel raw channels i ++ rest),
        rw (t, e, r, channels_at-slice raw (i * channels) channels within, packets) refl,
        whole-Packed raw channels i n (run + (total - (i + run)))
            (run ∷ (pixel raw channels i ++ rest)) split
            (push_packet-Packed raw channels total i run (total - (i + run)) rest a v p),
      )
]

empty_raw : (raw : List ℕ) → length raw ≡ 0 → [] ≡ raw
empty_raw [] e = refl
empty_raw (x ∷ raw) e = absurd (omega arith)

-- If the buffer holds bytes, and all channels of w times h pixels, then the compressor ends with a
-- payload of bytes, which stands for the buffer, each packet for its pixel as often as its count says,
-- and which has at most one byte for each pixel more than the buffer.
pub expand-compress_rle :
    (raw : List ℕ) (w h channels : ℕ)
    → All IsByte raw
    → length raw ≡ w * h * channels
    → (payload : List ℕ) × (compress_rle (some raw) w h channels ≡ some payload)
      × All IsByte payload
      × (expand (w * h) channels payload ≡ raw)
      × (length payload ≤ w * h + length raw)
unfolding compress_rle
expand-compress_rle raw w h channels a l = elim (Bool-cases (w * h == 0)) [
  | inl t ↦
      let z : w * h ≡ 0 = ground arith in
      let o : 0 * channels ≡ 0 = omega arith in
      let none_left : length raw ≡ 0 = rw (z, o) at l in
      (
        [],
        rw (t, compress_rle) refl,
        tt,
        rw z (unfold expand in empty_raw raw none_left),
        omega arith,
      )
  | inr t ↦
      let o : 0 * channels ≡ 0 = omega arith in
      let (payload, e, p) =
        packets-Packed (suc (w * h)) raw channels (w * h) 0 (w * h) (omega arith) a (omega arith)
          (omega arith) in
      let s : (j : ℕ) → 0 + j ≡ j = λ j. omega arith in
      let b = rw (o, ← l) at (pixels-slice raw channels 0 (w * h)) in
      let d : w * h * (channels + 1) ≡ w * h + w * h * channels = grind arith in
      let n = p.size in
      (
        payload,
        rw (t, compress_rle) e,
        p.bytes,
        p.stands (w * h) (omega arith) ∙ b ∙ slice_all raw raw 0 (λ j. rw (s j) refl),
        omega arith,
      )
]
