-- ===== src/Tokens/Commas.antt =====
-- AtComma and the commas that are skipped before it looks.
use mohpc.Base.{ℕ, ◌≡◌, refl, inl, inr, ◌⊎◌, arith, List, [], ◌∷◌, Bool, false, ok, err}
use mohpc.Scanner.{TokenError}
use mohpc.Scanner.Skipping.{IsToken, skip_non_token-IsToken, IsToken-is_blank}
use mohpc.Tokens.{TokenParser, at_position, begins_with, at_char}

begins_with_comma : (s : List ℕ) → IsToken s → begins_with b',' s ≡ false
unfolding begins_with
begins_with_comma [] token = refl
begins_with_comma (c ∷ s) token = ground (arith, IsToken-is_blank c s token)

-- AtComma never finds a comma: wherever the parser stands, it answers false or throws an
-- exception.
pub at_char-comma :
    (crossline : Bool) (p : TokenParser)
    → ((q : TokenParser) × (at_char b',' crossline p ≡ ok (false, q)))
      ⊎ ((e : TokenError) × (at_char b',' crossline p ≡ err e))
unfolding at_char at_position
at_char-comma crossline p = elim (skip_non_token-IsToken crossline p.script p.line) [
  | inl (s, line, ran, token) ↦
      inl (at_position p (s, line), rw (ran, begins_with_comma s token) refl)
  | inr (e, ran) ↦ inr (e, rw ran refl)
]
