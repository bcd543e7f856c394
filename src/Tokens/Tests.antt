-- ===== src/Tokens/Tests.antt =====
-- Two texts on two lines, a comma, and a mark.
use mohpc.Base.{ℕ, ◌≡◌, refl, List, [], ◌∷◌, true, false, ok, err, ◌⊎◌}
use mohpc.Scanner.{TokenError, token_available, skip_non_token, grab_word}
use mohpc.Tokens.{
  at_char, TokenParser, mark_position, restore_position, at_position, at_special, is_macro,
  grab_next_token, get_token,
}
use mohpc.Tokens.Commas.{at_char-comma}
use mohpc.Tokens.Crossline.{get_token-ignores_crossline}
use mohpc.Tokens.Positions.{restore_position-mark_position}
use mohpc.Tokens.Quoted.{Printed, print, texts, get_tokens, get_tokens-print}

abbrev parser : List ℕ → TokenParser
parser text = record { buffer = text; script = text; line = 1; tokenready = false; token = [] }

-- A text with a quote in it, and one on the next line.
abbrev two : List Printed
two =
    record { pad = []; text = b'a' ∷ b'"' ∷ [] }
    ∷ record { pad = b'\n' ∷ b' ' ∷ []; text = b'b' ∷ [] }
    ∷ []

get_tokens-print_example :
    (q : TokenParser) × (get_tokens 2 false (parser (print two []))
      ≡ ok ((b'a' ∷ b'"' ∷ []) ∷ (b'b' ∷ []) ∷ [], q))
    × (q.script ≡ [])
unfolding texts
get_tokens-print_example =
    get_tokens-print two [] false (parser (print two [])) refl (tt, ((refl, (refl, tt)), tt)) refl

-- The token of the next line, for a caller that does not want to cross lines.
next_line_token :
    get_token false (parser (b'\n' ∷ b'a' ∷ []))
    ≡ ok (false, record (parser (b'\n' ∷ b'a' ∷ [])) { script = []; line = 2; token = b'a' ∷ [] })
unfolding get_token is_macro at_position at_special grab_next_token token_available skip_non_token
    grab_word
next_line_token = refl

get_token-ignores_crossline_example :
    get_token false (parser (b'\n' ∷ b'a' ∷ [])) ≡ get_token true (parser (b'\n' ∷ b'a' ∷ []))
get_token-ignores_crossline_example = get_token-ignores_crossline false (parser (b'\n' ∷ b'a' ∷ []))

-- A mark in the middle of a text.
mid :
    restore_position
      (mark_position (record (parser (1 ∷ 2 ∷ [])) { script = 2 ∷ [] }))
      (parser (1 ∷ 2 ∷ []))
    ≡ record (parser (1 ∷ 2 ∷ [])) { script = 2 ∷ [] }
mid =
    restore_position-mark_position (record (parser (1 ∷ 2 ∷ [])) { script = 2 ∷ [] })
      (parser (1 ∷ 2 ∷ [])) (1 ∷ []) refl refl

-- A text that goes on with a comma.
at_char-comma_example :
    ((q : TokenParser) × (at_char b',' true (parser (b',' ∷ b'a' ∷ [])) ≡ ok (false, q)))
    ⊎ ((e : TokenError) × (at_char b',' true (parser (b',' ∷ b'a' ∷ [])) ≡ err e))
at_char-comma_example = at_char-comma true (parser (b',' ∷ b'a' ∷ []))
