-- ===== src/Scanner/Available.antt =====
-- Where TokenAvailable finds no token, although it may cross lines, it stands at the end.
use mohpc.Base.{
  ℕ, zero, suc, ◌≤◌, ◌<◌, ◌≡◌, refl, sym, ap, ◌∙◌, inl, inr, ◌⊎◌, arith, List, [], ◌∷◌, Bool, true,
  false, not, ◌&&◌, Bool-cases, length, ◌==◌,
}
use mohpc.Scanner.{
  is_space, next_line, skip_to_eol, at_comment, skip_spaces, available, token_available,
}
use mohpc.Scanner.Skipping.{length-skip_to_eol_comment}

skip_to_eol_done : (s : List ℕ) → (skip_to_eol s).0 ≡ true → (skip_to_eol s).1 ≡ []
unfolding skip_to_eol
skip_to_eol_done [] h = refl
skip_to_eol_done (c ∷ s) h = elim (Bool-cases (c == b'\n')) [
  | inl e ↦ ground (arith, h, e)
  | inr e ↦ rw e (skip_to_eol_done s (ground (arith, h, e)))
]

length-skip_spaces :
    (crossline : Bool) (s : List ℕ) (line : ℕ) → length (skip_spaces crossline s line).1 ≤ length s
unfolding skip_spaces
length-skip_spaces crossline [] line = omega arith
length-skip_spaces crossline (c ∷ s) line =
    let shorter = length-skip_spaces crossline s (next_line c line) in
    elim (Bool-cases (is_space c)) [
      | inl e ↦ elim (Bool-cases ((c == b'\n') && not crossline)) [
        | inl f ↦ rw (e, f) (omega arith)
        | inr f ↦ rw (e, f) (omega (arith, shorter))
      ]
      | inr e ↦ rw e (omega arith)
    ]

skip_spaces_none :
    (s : List ℕ) (line : ℕ) → (skip_spaces true s line).0 ≡ false → (skip_spaces true s line).1 ≡ []
unfolding skip_spaces
skip_spaces_none [] line h = refl
skip_spaces_none (c ∷ s) line h = elim (Bool-cases (is_space c)) [
  | inl e ↦
      let f : ((c == b'\n') && not true) ≡ false = ground arith in
      let on : skip_spaces true (c ∷ s) line ≡ skip_spaces true s (next_line c line) =
        rw (e, f) refl in
      ap (λ (r : Bool × List ℕ × ℕ). r.1) on
      ∙ skip_spaces_none s (next_line c line) (sym (ap (λ (r : Bool × List ℕ × ℕ). r.0) on) ∙ h)
  | inr e ↦ ground (arith, h, e)
]

available_none :
    (rounds : ℕ) (s : List ℕ) (line : ℕ)
    → length s < rounds
    → ((available true rounds s line).0 ≡ true) ⊎ ((available true rounds s line).1 ≡ [])
unfolding available
available_none zero s line h = absurd (omega arith)
available_none (suc rounds) s line h =
    let s' = (skip_spaces true s line).1 in
    let line' = (skip_spaces true s line).2 in
    elim (Bool-cases (skip_spaces true s line).0) [
      | inl e ↦ elim (Bool-cases (at_comment s')) [
        | inl f ↦ elim (Bool-cases (skip_to_eol s').0) [
          | inl g ↦ inr (rw (e, f, g) (skip_to_eol_done s' g))
          | inr g ↦
              rw (e, f, g)
                (available_none rounds (skip_to_eol s').1 line' (
                  omega
                    (arith, length-skip_to_eol_comment s' f, length-skip_spaces true s line, h)))
        ]
        | inr f ↦ inl (rw (e, f) refl)
      ]
      | inr e ↦ inr (rw e (skip_spaces_none s line e))
    ]

pub token_available_none :
    (s : List ℕ) (line : ℕ)
    → ((token_available true s line).0 ≡ true) ⊎ ((token_available true s line).1 ≡ [])
unfolding token_available
token_available_none s line = available_none (suc (length s)) s line (omega arith)
