-- ===== src/Compress/Qoi/Fields.antt =====
-- The tag bytes as sums of their fields.
use knowledge_acquisition.Prelude.{ℕ, ◌+◌, ◌-◌, ◌*◌, ◌%◌, ◌<◌, ◌≡◌, arith, bit_or, bit_or-fields}
use knowledge_acquisition.Compress.Qoi.{op_index, op_diff, op_luma, op_run, delta}

pub diff_byte :
    (x y z : ℕ)
    → x < 4
    → y < 4
    → z < 4
    → bit_or (bit_or (bit_or op_diff (x * 16)) (y * 4)) z ≡ 64 + x * 16 + y * 4 + z
diff_byte x y z hx hy hz =
    let first : bit_or 64 (x * 16) ≡ (4 + x) * 16 =
      omega (arith, bit_or-fields 6 1 (x * 16) (omega arith)) in
    let second : bit_or ((4 + x) * 16) (y * 4) ≡ (16 + x * 4 + y) * 4 =
      omega (arith, bit_or-fields 4 (4 + x) (y * 4) (omega arith)) in
    rw (first, second) (omega (arith, bit_or-fields 2 (16 + x * 4 + y) z (omega arith)))

pub luma_byte : (v : ℕ) → v < 64 → bit_or op_luma v ≡ 128 + v
luma_byte v h = bit_or-fields 6 2 v h

pub run_byte : (v : ℕ) → v < 64 → bit_or op_run v ≡ 192 + v
run_byte v h = bit_or-fields 6 3 v h

pub index_byte : (v : ℕ) → v < 64 → bit_or op_index v ≡ v
index_byte v h = omega (arith, bit_or-fields 6 0 v h)

pub nibbles : (x y : ℕ) → y < 16 → bit_or (x * 16) y ≡ x * 16 + y
nibbles x y h = bit_or-fields 4 x y h

-- A channel comes back from its difference, two below zero at least.
pub diff_back : (c p : ℕ) → c < 256 → p < 256 → (p + (delta c p + 2) % 256 + 256 - 2) % 256 ≡ c
diff_back c p hc hp = omega arith

-- From the difference of green, and the difference to it.
pub luma_green :
    (c p : ℕ) → c < 256 → p < 256 → (p + ((delta c p + 32) % 256 + 256 - 32) % 256) % 256 ≡ c
luma_green c p hc hp = omega arith

pub luma_back :
    (c p d : ℕ)
    → c < 256
    → p < 256
    → d < 256
    → (p + (((d + 32) % 256 + 256 - 32) % 256 + 256 - 8) + (delta (delta c p) d + 8) % 256) % 256
      ≡ c
luma_back c p d hc hp hd = omega arith
