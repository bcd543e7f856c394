-- ===== src/Chars/Tests.antt =====
-- A scrambled string.
use mohpc.Base.{◌≡◌, refl, arith, [], ◌∷◌, ◌++◌, some}
use mohpc.Chars.{
  char_byte_mapping, byte_char_mapping, mapped, write_scrambled_string, read_string_internal,
}
use mohpc.Chars.Inverse.{read-write_scrambled}

scrambles : write_scrambled_string char_byte_mapping (b'a' ∷ b'b' ∷ []) ≡ 2 ∷ 108 ∷ 254 ∷ []
unfolding write_scrambled_string mapped
scrambles = refl

read-write_scrambled_example :
    read_string_internal byte_char_mapping
      (write_scrambled_string char_byte_mapping (97 ∷ 98 ∷ []) ++ 7 ∷ [])
    ≡ some (97 ∷ 98 ∷ [], 7 ∷ [])
read-write_scrambled_example =
    read-write_scrambled (97 ∷ 98 ∷ []) (7 ∷ [])
      ((omega arith, omega arith), ((omega arith, omega arith), tt))
