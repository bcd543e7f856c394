-- ===== src/Tokens/Crossline.antt =====
-- GetToken looks for a macro first, across lines.
use mohpc.Base.{
  ◌≡◌, refl, ap, inl, inr, ◌⊎◌, arith, [], Bool, true, false, Bool-cases, Result, ok, err, ◌>>=◌,
}
use mohpc.Scanner.{TokenError, skip_white_space, skip_non_token, token_available}
use mohpc.Scanner.Available.{token_available_none}
use mohpc.Scanner.Skipping.{IsToken, skip_non_token-IsToken, skip_non_token_stays}
use mohpc.Tokens.{
  TokenParser, at_position, at_quote, at_special, grab_next_token, get_string, is_macro, get_token,
}

-- At a token or at the end of the text, lines do not matter.
grab_anywhere :
    (crossline : Bool) (p : TokenParser)
    → p.tokenready ≡ false
    → IsToken p.script ⊎ (p.script ≡ [])
    → grab_next_token crossline p ≡ grab_next_token true p
unfolding grab_next_token get_string at_position skip_non_token skip_white_space
grab_anywhere crossline p ready (inl token) =
    let here = skip_non_token_stays crossline p.script p.line token in
    let there = skip_non_token_stays true p.script p.line token in
    elim (Bool-cases (at_quote p.script)) [
      | inl e ↦ rw (here, there, e, ready, here, there) refl
      | inr e ↦ rw (here, there, e) refl
    ]
grab_anywhere crossline p ready (inr end) = rw end refl

-- Looking for a macro ends at a token, or at the end of the text, or in an exception.
is_macro_cases :
    (p : TokenParser)
    → p.tokenready ≡ false
    → ((special : Bool) × (q : TokenParser) × (is_macro p ≡ ok (special, q))
        × (q.tokenready ≡ false)
        × (IsToken q.script ⊎ (q.script ≡ [])))
      ⊎ ((e : TokenError) × (is_macro p ≡ err e))
unfolding is_macro at_position
is_macro_cases p ready =
    let s = (token_available true p.script p.line).1 in
    let line = (token_available true p.script p.line).2 in
    elim (Bool-cases (token_available true p.script p.line).0) [
      | inl found ↦ elim (skip_non_token-IsToken true s line) [
        | inl (s', line', ran, token) ↦
            inl (at_special s', at_position p (s', line'), rw (found, ran) refl, ready, inl token)
        | inr (x, ran) ↦ inr (x, rw (found, ran) refl)
      ]
      | inr none_found ↦ elim (token_available_none p.script p.line) [
        | inl found ↦ absurd (ground (arith, none_found, found))
        | inr end ↦ inl (false, at_position p (s, line), rw none_found refl, ready, inr end)
      ]
    ]

-- The first part of GetToken, up to its test for a macro, gives the same token, the same parser or
-- the same exception whether it is asked to cross lines or not: looking for a macro has crossed
-- the lines already.
pub get_token-ignores_crossline :
    (crossline : Bool) (p : TokenParser) → get_token crossline p ≡ get_token true p
unfolding get_token
get_token-ignores_crossline crossline p = elim (Bool-cases p.tokenready) [
  | inl ready ↦ rw ready refl
  | inr ready ↦ elim (is_macro_cases p ready) [
    | inl (special, q, ran, unread, here) ↦
        let with_special : Result TokenError TokenParser → Result TokenError (Bool × TokenParser) =
          λ r. r >>= λ x. ok (special, x) in
        rw (ran, ready) (ap with_special (grab_anywhere crossline q unread here))
    | inr (x, ran) ↦ rw (ran, ready) refl
  ]
]
