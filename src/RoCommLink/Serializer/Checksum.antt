-- ===== src/RoCommLink/Serializer/Checksum.antt =====
-- The checksum as a sum, and what it tells about a changed byte.
use knowledge_acquisition.Prelude.{
  ℕ, ◌+◌, ◌%◌, ◌^◌, ◌<◌, ◌≡◌, ◌≢◌, arith, List, [], ◌∷◌, ◌++◌, IsByte,
}
use knowledge_acquisition.RoCommLink.Serializer.{checksum_loop, calculate_checksum}

-- The sum of the bytes, with no bound.
pub byte_sum : List ℕ → ℕ
byte_sum [] = 0
byte_sum (b ∷ bs) = b + byte_sum bs

pub byte_sum-append : (xs ys : List ℕ) → byte_sum (xs ++ ys) ≡ byte_sum xs + byte_sum ys
unfolding byte_sum
byte_sum-append [] ys = omega arith
byte_sum-append (x ∷ xs) ys = omega (arith, byte_sum-append xs ys)

checksum_loop-byte_sum :
    (sum : ℕ) (bs : List ℕ) → sum < 2 ^ 16 → checksum_loop sum bs ≡ (sum + byte_sum bs) % 2 ^ 16
unfolding checksum_loop byte_sum
checksum_loop-byte_sum sum [] h = omega arith
checksum_loop-byte_sum sum (b ∷ bs) h =
    omega (arith, checksum_loop-byte_sum ((sum + b) % 2 ^ 16) bs (omega arith))

pub calculate_checksum-byte_sum : (bs : List ℕ) → calculate_checksum bs ≡ byte_sum bs % 2 ^ 16
unfolding calculate_checksum
calculate_checksum-byte_sum bs = omega (arith, checksum_loop-byte_sum 0 bs (omega arith))

pub calculate_checksum-lt : (bs : List ℕ) → calculate_checksum bs < 2 ^ 16
calculate_checksum-lt bs = omega (arith, calculate_checksum-byte_sum bs)

-- One changed byte changes the checksum.
pub calculate_checksum-change :
    (xs ys : List ℕ) (b c : ℕ)
    → IsByte b
    → IsByte c
    → b ≢ c
    → calculate_checksum (xs ++ (b ∷ ys)) ≢ calculate_checksum (xs ++ (c ∷ ys))
unfolding byte_sum
calculate_checksum-change xs ys b c hb hc ne e = omega (
  arith,
  calculate_checksum-byte_sum (xs ++ (b ∷ ys)),
  calculate_checksum-byte_sum (xs ++ (c ∷ ys)),
  byte_sum-append xs (b ∷ ys),
  byte_sum-append xs (c ∷ ys),
)
