-- ===== src/Scanner/Skipped.antt =====
-- What SkipNonToken passes over, character by character.
use mohpc.Base.{
  ℕ, zero, suc, ◌+◌, ◌≤◌, ◌<◌, ◌≡◌, ◌≢◌, refl, sym, ap, subst, inl, inr, ◌⊎◌, arith, List, [], ◌∷◌,
  ◌++◌, Bool, true, false, Bool-cases, All, length, ◌==◌, Result, ok, err, not, if◌then◌else◌,
}
use mohpc.Scanner.{
  TokenError, end_of_file_reached, line_incomplete, expected_token, is_blank, skip_to_eol,
  skip_white_space, at_comment, skip_comments, skip_non_token,
}
use mohpc.Scanner.Skipping.{NonBlank, length-skip_to_eol_comment, skip_white_space-NonBlank}

-- A comment begins with a semicolon or with two slashes.
abbrev pub BeginsComment : List ℕ → Type 0
BeginsComment [] = ⊥
BeginsComment (c ∷ []) = c ≡ b';'
BeginsComment (c ∷ d ∷ s) = (c ≡ b';') ⊎ ((c ≡ b'/') × (d ≡ b'/'))

abbrev pub IsInLine : List ℕ → Type 0
IsInLine = All (λ c. c ≢ b'\n')

abbrev pub AtLineEnd : List ℕ → Type 0
AtLineEnd [] = Unit {0}
AtLineEnd (c ∷ s) = c ≡ b'\n'

-- A character is signed: one from 128 on is below the space.
abbrev pub IsSkipped : ℕ → Type 0
IsSkipped c = (c ≤ b' ') ⊎ (128 ≤ c) ⊎ (c ≡ b',')

-- Nothing but space, commas, comments up to their line's end and, if lines may be crossed, line ends,
-- which are counted, stands in a text before its rest `s'` in line `line'`.
pub data Skipped (crossline : Bool) (s' : List ℕ) (line' : ℕ) : List ℕ → ℕ → Type 0 where
  nothing : Skipped crossline s' line' s' line'
  skipped :
      {c : ℕ} {s : List ℕ} {line : ℕ}
      → IsSkipped c
      → c ≢ b'\n'
      → Skipped crossline s' line' s line
      → Skipped crossline s' line' (c ∷ s) line
  line_end :
      {s : List ℕ} {line : ℕ}
      → crossline ≡ true
      → Skipped crossline s' line' s (line + 1)
      → Skipped crossline s' line' (b'\n' ∷ s) line
  comment :
      (text rest : List ℕ) {s : List ℕ} {line : ℕ}
      → s ≡ text ++ rest
      → BeginsComment text
      → IsInLine text
      → AtLineEnd rest
      → Skipped crossline s' line' rest line
      → Skipped crossline s' line' s line

then-Skipped :
    {crossline : Bool} {s₁ s₂ : List ℕ} {line₁ line₂ : ℕ} {s : List ℕ} {line : ℕ}
    → Skipped crossline s₁ line₁ s line
    → Skipped crossline s₂ line₂ s₁ line₁
    → Skipped crossline s₂ line₂ s line
then-Skipped nothing q = q
then-Skipped (skipped h n p) q = skipped h n (then-Skipped p q)
then-Skipped (line_end e p) q = line_end e (then-Skipped p q)
then-Skipped (comment text rest e b l a p) q = comment text rest e b l a (then-Skipped p q)

-- The text begins with a character above the space that is no comma and no beginning of a comment.
abbrev pub IsPlain : ℕ → Type 0
IsPlain c = (b' ' < c) × (c < 128) × (c ≢ b',') × (c ≢ b';')

abbrev pub BeginsToken : List ℕ → Type 0
BeginsToken [] = ⊥
BeginsToken (c ∷ []) = IsPlain c
BeginsToken (c ∷ d ∷ s) = IsPlain c × ((c ≢ b'/') ⊎ (d ≢ b'/'))

-- How a skip ends: at a rest that `P` holds of; or with all of the text skipped, at its end; or at a
-- line end that may not be crossed, in the line that is named.
abbrev pub Ends : Bool → (List ℕ → Type 0) → List ℕ → ℕ → Result TokenError (List ℕ × ℕ) → Type 0
Ends crossline P s line (ok (s', line')) = Skipped crossline s' line' s line × P s'
Ends crossline P s line (err end_of_file_reached) = (line' : ℕ) × Skipped crossline [] line' s line
Ends crossline P s line (err (line_incomplete l)) =
    (crossline ≡ false) × (behind : List ℕ) × Skipped crossline (b'\n' ∷ behind) l s line
Ends crossline P s line (err (expected_token l)) = ⊥

then-Ends :
    (crossline : Bool) (P : List ℕ → Type 0) (s s₁ : List ℕ) (line line₁ : ℕ)
    (r : Result TokenError (List ℕ × ℕ))
    → Skipped crossline s₁ line₁ s line
    → Ends crossline P s₁ line₁ r
    → Ends crossline P s line r
then-Ends crossline P s s₁ line line₁ (ok (s', line')) p (q, h) = (then-Skipped p q, h)
then-Ends crossline P s s₁ line line₁ (err end_of_file_reached) p (line', q) =
    (line', then-Skipped p q)
then-Ends crossline P s s₁ line line₁ (err (line_incomplete l)) p (e, behind, q) =
    (e, behind, then-Skipped p q)
then-Ends crossline P s s₁ line line₁ (err (expected_token l)) p h = h

failed-Ends :
    (crossline : Bool) (s : List ℕ) (line : ℕ) (x : TokenError)
    → Ends crossline NonBlank s line (err x)
    → Ends crossline BeginsToken s line (err x)
failed-Ends crossline s line end_of_file_reached h = h
failed-Ends crossline s line (line_incomplete l) h = h
failed-Ends crossline s line (expected_token l) h = h

char-cases :
    (c : ℕ)
    → (is_blank c ≡ false)
      ⊎ ((is_blank c ≡ true) × ((c == b'\n') ≡ false) × IsSkipped c × (c ≢ b'\n'))
      ⊎ (c ≡ b'\n')
char-cases c = ground arith

line_end-Ends :
    (crossline : Bool) (s : List ℕ) (line : ℕ) (r : Result TokenError (List ℕ × ℕ))
    → Ends crossline NonBlank s (line + 1) r
    → Ends crossline NonBlank
        (b'\n' ∷ s)
        line
        (if not crossline then err (line_incomplete line) else r)
line_end-Ends true s line r h =
    then-Ends true NonBlank (b'\n' ∷ s) s line (line + 1) r (line_end refl nothing) h
line_end-Ends false s line r h = (refl, s, nothing)

skip_white_space-Ends :
    (crossline : Bool) (s : List ℕ) (line : ℕ)
    → Ends crossline NonBlank s line (skip_white_space crossline s line)
unfolding skip_white_space NonBlank
skip_white_space-Ends crossline [] line = (line, nothing)
skip_white_space-Ends crossline (c ∷ s) line = elim (char-cases c) [
  | inl token ↦ rw token (nothing, token)
  | inr (inl (blank, other, h, n)) ↦
      rw (blank, other)
        (then-Ends crossline NonBlank (c ∷ s) s line line _ (skipped h n nothing)
          (skip_white_space-Ends crossline s line))
  | inr (inr e) ↦
      subst (λ x. Ends crossline NonBlank (x ∷ s) line (skip_white_space crossline (x ∷ s) line))
        (sym e) (line_end-Ends crossline s line _ (skip_white_space-Ends crossline s (line + 1)))
]

-- SkipToEOL stands at the end of the line that it began in.
skip_to_eol-AtLineEnd :
    (s : List ℕ)
    → (text : List ℕ) × (s ≡ text ++ (skip_to_eol s).1)
      × IsInLine text
      × AtLineEnd (skip_to_eol s).1
unfolding skip_to_eol
skip_to_eol-AtLineEnd [] = ([], refl, tt, tt)
skip_to_eol-AtLineEnd (c ∷ s) = elim (Bool-cases (c == b'\n')) [
  | inl e ↦ rw e ([], refl, tt, ground (arith, e))
  | inr e ↦
      let (text, split, inside, ends) = skip_to_eol-AtLineEnd s in
      rw e (c ∷ text, ap (λ l. c ∷ l) split, (ground (arith, e), inside), ends)
]

at_comment-BeginsComment :
    (text rest : List ℕ) → AtLineEnd rest → at_comment (text ++ rest) ≡ true → BeginsComment text
unfolding at_comment
at_comment-BeginsComment [] [] ends h = ground (arith, h)
at_comment-BeginsComment [] (c ∷ []) ends h = ground (arith, ends, h)
at_comment-BeginsComment [] (c ∷ d ∷ s) ends h = ground (arith, ends, h)
at_comment-BeginsComment (c ∷ []) [] ends h = ground (arith, h)
at_comment-BeginsComment (c ∷ []) (d ∷ s) ends h = ground (arith, ends, h)
at_comment-BeginsComment (c ∷ d ∷ s) rest ends h = ground (arith, h)

skip_to_eol-Skipped :
    (crossline : Bool) (s : List ℕ) (line : ℕ)
    → at_comment s ≡ true
    → Skipped crossline (skip_to_eol s).1 line s line
skip_to_eol-Skipped crossline s line h =
    let (text, split, inside, ends) = skip_to_eol-AtLineEnd s in
    let begins = subst (λ l. at_comment l ≡ true) split h in
    comment text (skip_to_eol s).1 split
      (at_comment-BeginsComment text (skip_to_eol s).1 ends begins) inside ends nothing

begins_token : (s : List ℕ) → NonBlank s → at_comment s ≡ false → BeginsToken s
unfolding NonBlank at_comment
begins_token [] h k = h
begins_token (c ∷ []) h k = ground (arith, h, k)
begins_token (c ∷ d ∷ s) h k = ground (arith, h, k)

skip_comments-Ends :
    (crossline : Bool) (rounds : ℕ) (s : List ℕ) (line : ℕ)
    → NonBlank s
    → length s ≤ rounds
    → Ends crossline BeginsToken s line (skip_comments crossline rounds s line)
unfolding skip_comments
skip_comments-Ends crossline zero [] line h l = absurd (unfold NonBlank in h)
skip_comments-Ends crossline zero (c ∷ s) line h l = absurd (omega arith)
skip_comments-Ends crossline (suc rounds) s line h l = elim (Bool-cases (at_comment s)) [
  | inr e ↦ rw e (nothing, begins_token s h e)
  | inl e ↦
      let rest : List ℕ = (skip_to_eol s).1 in
      let less = length-skip_to_eol_comment s e in
      let over = skip_to_eol-Skipped crossline s line e in
      let white = skip_white_space-Ends crossline rest line in
      elim (skip_white_space-NonBlank crossline rest line) [
        | inl (s1, line1, ran, (token, shorter)) ↦
            let (skip, _) = subst (Ends crossline NonBlank rest line) ran white in
            rw (e, ran)
              (then-Ends crossline BeginsToken s s1 line line1 _ (then-Skipped over skip) (
                skip_comments-Ends crossline rounds s1 line1 token
                  (omega (arith, shorter, less, l))))
        | inr (x, ran) ↦
            rw (e, ran)
              (then-Ends crossline BeginsToken s rest line line (err x) over (
                failed-Ends crossline rest line x
                  (subst (Ends crossline NonBlank rest line) ran white)))
      ]
]

-- SkipNonToken ends in one of three ways. It stands at a character above the space that is no comma
-- and begins no comment, and all it passed over is space, commas, whole comments up to their line's
-- end and, where it may cross lines, line ends, which it has counted. Or it throws EndOfFileReached,
-- and the whole text is of that kind. Or it may not cross lines and throws LineIncomplete with the
-- line of the first line end. Nothing else happens.
pub skip_non_token-Ends :
    (crossline : Bool) (s : List ℕ) (line : ℕ)
    → Ends crossline BeginsToken s line (skip_non_token crossline s line)
unfolding skip_non_token
skip_non_token-Ends crossline s line =
    let white = skip_white_space-Ends crossline s line in
    elim (skip_white_space-NonBlank crossline s line) [
      | inl (s1, line1, ran, (token, shorter)) ↦
          let (skip, _) = subst (Ends crossline NonBlank s line) ran white in
          rw ran (
            then-Ends crossline BeginsToken s s1 line line1 _ skip
              (skip_comments-Ends crossline (length s1) s1 line1 token (omega arith)))
      | inr (x, ran) ↦
          rw ran (failed-Ends crossline s line x (subst (Ends crossline NonBlank s line) ran white))
    ]
