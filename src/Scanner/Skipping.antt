-- ===== src/Scanner/Skipping.antt =====
-- What stands in front of a token is skipped to the token, and no further.
use mohpc.Base.{
  ℕ, zero, suc, ◌≤◌, ◌<◌, ◌≡◌, refl, inl, inr, ◌⊎◌, arith, List, [], ◌∷◌, Bool, true, false, not,
  ◌&&◌, Bool-cases, length, ◌==◌, Result, ok, err,
}
use mohpc.Scanner.{
  TokenError, line_incomplete, is_blank, next_line, skip_to_eol, skip_white_space, at_comment,
  skip_comments, skip_non_token,
}

-- The text begins with a character that is not skipped.
unfoldable pub NonBlank : List ℕ → Type 0
NonBlank [] = ⊥
NonBlank (c ∷ s) = is_blank c ≡ false

-- The text begins with a token.
unfoldable pub IsToken : List ℕ → Type 0
unfolding NonBlank
IsToken s = NonBlank s × (at_comment s ≡ false)

length-skip_to_eol : (s : List ℕ) → length (skip_to_eol s).1 ≤ length s
unfolding skip_to_eol
length-skip_to_eol [] = omega arith
length-skip_to_eol (c ∷ s) = ground (arith, length-skip_to_eol s)

-- A comment is at least one character long.
pub length-skip_to_eol_comment :
    (s : List ℕ) → at_comment s ≡ true → length (skip_to_eol s).1 < length s
unfolding skip_to_eol at_comment
length-skip_to_eol_comment [] h = ground (arith, h)
length-skip_to_eol_comment (c ∷ []) h = ground (arith, h)
length-skip_to_eol_comment (c ∷ d ∷ s) h = ground (arith, h, length-skip_to_eol (d ∷ s))

-- A skip ends at a text that `P` holds of, or in an exception.
abbrev pub Skips : Result TokenError (List ℕ × ℕ) → (List ℕ → Type 0) → Type 0
Skips r P =
    ((s : List ℕ) × (line : ℕ) × (r ≡ ok (s, line)) × P s) ⊎ ((e : TokenError) × (r ≡ err e))

pub skip_white_space-NonBlank :
    (crossline : Bool) (s : List ℕ) (line : ℕ)
    → Skips (skip_white_space crossline s line) (λ s'. NonBlank s' × (length s' ≤ length s))
unfolding skip_white_space NonBlank
skip_white_space-NonBlank crossline [] line = inr (_, refl)
skip_white_space-NonBlank crossline (c ∷ s) line = elim (Bool-cases (is_blank c)) [
  | inl e ↦ elim (Bool-cases ((c == b'\n') && not crossline)) [
    | inl f ↦ inr (line_incomplete line, rw (e, f) refl)
    | inr f ↦ elim (skip_white_space-NonBlank crossline s (next_line c line)) [
      | inl (s', line', ran, (token, shorter)) ↦
          inl (s', line', rw (e, f) ran, (token, omega (arith, shorter)))
      | inr (x, ran) ↦ inr (x, rw (e, f) ran)
    ]
  ]
  | inr e ↦ inl (c ∷ s, line, rw e refl, (e, omega arith))
]

skip_comments-IsToken :
    (crossline : Bool) (rounds : ℕ) (s : List ℕ) (line : ℕ)
    → NonBlank s
    → length s ≤ rounds
    → Skips (skip_comments crossline rounds s line) IsToken
unfolding skip_comments IsToken
skip_comments-IsToken crossline zero [] line h l = absurd (unfold NonBlank in h)
skip_comments-IsToken crossline zero (c ∷ s) line h l = absurd (omega arith)
skip_comments-IsToken crossline (suc rounds) s line h l = elim (Bool-cases (at_comment s)) [
  | inl e ↦
      let less = length-skip_to_eol_comment s e in
      elim (skip_white_space-NonBlank crossline (skip_to_eol s).1 line) [
        | inl (s1, line1, ran, (token, shorter)) ↦
            elim (skip_comments-IsToken crossline rounds s1 line1 token
              (omega (arith, shorter, less, l))) [
                | inl (s2, line2, on, found) ↦ inl (s2, line2, rw (e, ran) on, found)
                | inr (x, on) ↦ inr (x, rw (e, ran) on)
              ]
        | inr (x, ran) ↦ inr (x, rw (e, ran) refl)
      ]
  | inr e ↦ inl (s, line, rw e refl, (h, e))
]

-- SkipNonToken, with as many rounds as characters are left, ends in an exception or at a character
-- that is neither white space nor a comma and does not begin a comment.
pub skip_non_token-IsToken :
    (crossline : Bool) (s : List ℕ) (line : ℕ) → Skips (skip_non_token crossline s line) IsToken
unfolding skip_non_token
skip_non_token-IsToken crossline s line = elim (skip_white_space-NonBlank crossline s line) [
  | inl (s1, line1, ran, (token, shorter)) ↦
      elim (skip_comments-IsToken crossline (length s1) s1 line1 token (omega arith)) [
        | inl (s2, line2, on, found) ↦ inl (s2, line2, rw ran on, found)
        | inr (x, on) ↦ inr (x, rw ran on)
      ]
  | inr (x, ran) ↦ inr (x, rw ran refl)
]

-- In front of a token nothing is skipped, whether lines may be crossed or not.
pub skip_non_token_stays :
    (crossline : Bool) (s : List ℕ) (line : ℕ)
    → IsToken s
    → skip_non_token crossline s line ≡ ok (s, line)
unfolding skip_non_token skip_white_space skip_comments IsToken NonBlank
skip_non_token_stays crossline [] line (h, k) = absurd h
skip_non_token_stays crossline (c ∷ s) line (h, k) = rw (h, k) refl

pub IsToken-is_blank : (c : ℕ) (s : List ℕ) → IsToken (c ∷ s) → is_blank c ≡ false
unfolding IsToken NonBlank
IsToken-is_blank c s (h, k) = h
