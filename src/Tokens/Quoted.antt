-- ===== src/Tokens/Quoted.antt =====
-- Texts that are written between quotes, with white space before each, are read back one by one.
use mohpc.Base.{
  ℕ, zero, suc, ◌≡◌, refl, ap, ◌∙◌, List, [], ◌∷◌, ◌++◌, Bool, true, false, if◌then◌else◌, Result,
  ok, ◌>>=◌, All, length,
}
use mohpc.Scanner.{TokenError, is_space}
use mohpc.Scanner.Skipping.{skip_non_token_stays}
use mohpc.Scanner.Strings.{
  quoted, string_chars-quoted, line_after, token_available_pad, quote-IsToken,
}
use mohpc.Tokens.{
  TokenParser, at_position, at_quote, at_special, string_at, get_string, grab_next_token, is_macro,
  get_token,
}

grab_quoted :
    (crossline : Bool) (p : TokenParser) (text rest : List ℕ)
    → p.tokenready ≡ false
    → p.script ≡ b'"' ∷ (quoted text ++ rest)
    → grab_next_token crossline p ≡ ok (record p { token = text; script = rest })
unfolding grab_next_token get_string string_at at_position at_quote
grab_quoted crossline p text rest ready at =
    let stays =
      skip_non_token_stays crossline (b'"' ∷ (quoted text ++ rest)) p.line
        (quote-IsToken (quoted text ++ rest)) in
    rw (at, stays, ready, stays, string_chars-quoted false p.line [] text rest) refl

get_quoted :
    (crossline : Bool) (p : TokenParser) (pad text rest : List ℕ)
    → p.tokenready ≡ false
    → All (λ c. is_space c ≡ true) pad
    → p.script ≡ pad ++ (b'"' ∷ (quoted text ++ rest))
    → get_token crossline p
      ≡ ok (false, record p { token = text; script = rest; line = line_after pad p.line })
unfolding get_token at_position
get_quoted crossline p pad text rest ready all at =
    let line = line_after pad p.line in
    let q = at_position p (b'"' ∷ (quoted text ++ rest), line) in
    let looked : is_macro p ≡ ok (false, q) =
      unfold is_macro at_special in
      rw
        (
          at,
          token_available_pad pad (quoted text ++ rest) p.line all,
          skip_non_token_stays true (b'"' ∷ (quoted text ++ rest)) line
              (quote-IsToken (quoted text ++ rest)),
        )
        refl in
    let grab : Result TokenError (Bool × TokenParser) → Result TokenError (Bool × TokenParser) =
      λ m. m >>= λ x. (grab_next_token crossline x.1 >>= λ r. ok (x.0, r)) in
    let fresh : Bool → Result TokenError (Bool × TokenParser) =
      λ b. if b then ok (false, record p { tokenready = false }) else grab (is_macro p) in
    let plain : Result TokenError TokenParser → Result TokenError (Bool × TokenParser) =
      λ m. m >>= λ r. ok (false, r) in
    ap fresh ready ∙ ap grab looked ∙ ap plain (grab_quoted crossline q text rest ready refl)

-- Texts as they are written: white space, and the text between quotes.
pub record Printed : Type 0 where
  pub pad : List ℕ
  pub text : List ℕ

pub print : List Printed → List ℕ → List ℕ
print [] rest = rest
print (t ∷ ts) rest = t.pad ++ (b'"' ∷ (quoted t.text ++ print ts rest))

unfoldable pub texts : List Printed → List (List ℕ)
texts [] = []
texts (t ∷ ts) = t.text ∷ texts ts

-- As many tokens as are asked for.
pub get_tokens : ℕ → Bool → TokenParser → Result TokenError (List (List ℕ) × TokenParser)
get_tokens zero crossline p = ok ([], p)
get_tokens (suc n) crossline p = do
  (special, q) ← get_token crossline p
  (ts, r) ← get_tokens n crossline q
  ok (q.token ∷ ts, r)

-- Texts of any characters that are written one behind another, each between quotes with its
-- quotes, backslashes and line ends escaped and with white space but no comma or comment before
-- it, are what as many calls of GetToken give, whatever the argument for crossing lines; the
-- parser, with no token waiting at first, then stands right behind the last quote.
pub get_tokens-print :
    (ts : List Printed) (rest : List ℕ) (crossline : Bool) (p : TokenParser)
    → p.tokenready ≡ false
    → All (λ t. All (λ c. is_space c ≡ true) t.pad) ts
    → p.script ≡ print ts rest
    → (q : TokenParser) × (get_tokens (length ts) crossline p ≡ ok (texts ts, q))
      × (q.script ≡ rest)
unfolding get_tokens print texts
get_tokens-print [] rest crossline p ready all at = (p, refl, at)
get_tokens-print (t ∷ ts) rest crossline p ready (blank, all) at =
    let q = record p { token = t.text; script = print ts rest; line = line_after t.pad p.line } in
    let got = get_quoted crossline p t.pad t.text (print ts rest) ready blank at in
    let (r, others, left) = get_tokens-print ts rest crossline q ready all refl in
    (r, rw (got, others) refl, left)
