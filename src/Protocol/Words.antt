-- ===== src/Protocol/Words.antt =====
-- The length of a frame on the wire.
use tiderace.Base.{[], ap, arith, length, refl, some, ℕ, ◌%◌, ◌*◌, ◌+◌, ◌/◌, ◌<◌, ◌∷◌, ◌≡◌}
use tiderace.Protocol.{Bytes, pack, unpack, word_limit}

bytes_sum :
    (n : ℕ)
    → n % 256 + 256 * (n / 256 % 256) + 65536 * (n / 65536 % 256) + 16777216 * (n / 16777216) ≡ n
bytes_sum n = omega arith

-- A length that fits in 32 bits is written as four bytes and read back as it was.
pub unpack-pack :
    (n : ℕ)
    → n < word_limit
    → (bs : Bytes) × (pack n ≡ some bs) × (length bs ≡ 4) × (unpack bs ≡ some n)
unfolding pack unpack
unpack-pack n small = (
  n % 256 ∷ n / 256 % 256 ∷ n / 65536 % 256 ∷ n / 16777216 ∷ [],
  ground arith,
  refl,
  ap some (bytes_sum n),
)
