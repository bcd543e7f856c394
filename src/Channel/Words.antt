-- ===== src/Channel/Words.antt =====
-- Little-endian words in a row of bytes: what `WriteUInteger`, `ReadUInteger` and `ReadUShort` of
-- mohpc-lib/Utility/Misc/MSG/MSG.cpp do with the byte codec of Codec.cpp. A read past the end finds
-- the zeros of the buffer.
use mohpc.Base.{ℕ, zero, suc, ◌+◌, ◌*◌, ◌/◌, ◌%◌, ◌≡◌, ◌<◌, arith, List, [], ◌∷◌, ◌++◌}

unfoldable pub bytes_of : ℕ → ℕ → List ℕ
bytes_of zero value = []
bytes_of (suc n) value = value % 256 ∷ bytes_of n (value / 256)

unfoldable pub value_of : ℕ → List ℕ → ℕ
value_of zero bytes = 0
value_of (suc n) [] = 0
value_of (suc n) (b ∷ bytes) = b + 256 * value_of n bytes

pub value_of-bytes_of_four :
    (value : ℕ) (rest : List ℕ) → value < 4294967296 → value_of 4 (bytes_of 4 value ++ rest) ≡ value
unfolding value_of bytes_of
value_of-bytes_of_four value rest h = omega arith

pub value_of-bytes_of_two :
    (value : ℕ) (rest : List ℕ) → value < 65536 → value_of 2 (bytes_of 2 value ++ rest) ≡ value
unfolding value_of bytes_of
value_of-bytes_of_two value rest h = omega arith
