-- ===== src/Chars/Inverse.antt =====
-- The tables undo each other, and so do the strings.
use mohpc.Base.{
  ℕ, zero, suc, ◌≡◌, ◌<◌, refl, sym, subst, inl, inr, arith, List, [], ◌∷◌, ◌++◌, Bool, true, false,
  Bool-cases, ◌==◌, ◌&&◌, some, All,
}
use mohpc.Chars.{
  char_byte_mapping, byte_char_mapping, mapped, write_scrambled_string, read_string_internal,
}

-- All the numbers below `n` come back.
undoes : List ℕ → List ℕ → ℕ → Bool
unfolding mapped
undoes there back zero = true
undoes there back (suc n) = (mapped back (mapped there n) == n) && undoes there back n

undoes-back :
    (there back : List ℕ) (n c : ℕ)
    → undoes there back n ≡ true
    → c < n
    → mapped back (mapped there c) ≡ c
unfolding undoes
undoes-back there back zero c h l = absurd (omega arith)
undoes-back there back (suc n) c h l = elim (Bool-cases (c == n)) [
  | inl e ↦
      let same : c ≡ n = ground arith in
      subst (λ (x : ℕ). mapped back (mapped there x) ≡ x) (sym same) (ground (arith, h))
  | inr e ↦ undoes-back there back n c (ground (arith, h)) (ground arith)
]

bytes_undone : undoes char_byte_mapping byte_char_mapping 256 ≡ true
unfolding undoes mapped
bytes_undone = refl

read_nul :
    (rest : List ℕ)
    → read_string_internal byte_char_mapping (write_scrambled_string char_byte_mapping [] ++ rest)
      ≡ some ([], rest)
unfolding read_string_internal write_scrambled_string mapped
read_nul rest = refl

-- What WriteScrambledString writes with the one table for a string of characters from 1 to 255,
-- ReadStringInternal reads back with the other: it gives the string and stops right behind its NUL,
-- whatever comes after.
pub read-write_scrambled :
    (string rest : List ℕ)
    → All (λ c. (0 < c) × (c < 256)) string
    → read_string_internal byte_char_mapping
        (write_scrambled_string char_byte_mapping string ++ rest)
      ≡ some (string, rest)
unfolding read_string_internal write_scrambled_string
read-write_scrambled [] rest all = read_nul rest
read-write_scrambled (c ∷ string) rest all =
    let (bounds, others) = all in
    let (some_char, in_table) = bounds in
    let other : (c == 0) ≡ false = ground arith in
    rw
      (
        undoes-back char_byte_mapping byte_char_mapping 256 c bytes_undone in_table,
        other,
        read-write_scrambled string rest others,
      )
      refl

bytes_back : undoes byte_char_mapping char_byte_mapping 256 ≡ true
unfolding undoes mapped
bytes_back = refl

-- The other way round too, the tables undo each other: each is a permutation of the 256 bytes.
pub mapped-mapped :
    (b : ℕ)
    → b < 256
    → (mapped byte_char_mapping (mapped char_byte_mapping b) ≡ b)
      × (mapped char_byte_mapping (mapped byte_char_mapping b) ≡ b)
mapped-mapped b h = (
  undoes-back char_byte_mapping byte_char_mapping 256 b bytes_undone h,
  undoes-back byte_char_mapping char_byte_mapping 256 b bytes_back h,
)
