-- ===== src/Scanner/Tests.antt =====
-- Comments, commas and lines in front of a token.
use mohpc.Base.{◌≡◌, refl, [], ◌∷◌, true, false, ok, err}
use mohpc.Scanner.{
  end_of_file_reached, line_incomplete, skip_non_token, token_available, string_chars,
}
use mohpc.Scanner.Skipped.{Ends, BeginsToken, skip_non_token-Ends}

-- A space, a comment of the first form, a line with a comma, and a word.
skips_comments :
    skip_non_token true (b' ' ∷ b';' ∷ b'x' ∷ b'\n' ∷ b',' ∷ b'a' ∷ []) 1 ≡ ok (b'a' ∷ [], 2)
unfolding skip_non_token
skips_comments = refl

skip_non_token-Ends_example :
    Ends true BeginsToken
      (b' ' ∷ b';' ∷ b'x' ∷ b'\n' ∷ b',' ∷ b'a' ∷ [])
      1
      (skip_non_token true (b' ' ∷ b';' ∷ b'x' ∷ b'\n' ∷ b',' ∷ b'a' ∷ []) 1)
skip_non_token-Ends_example =
    skip_non_token-Ends true (b' ' ∷ b';' ∷ b'x' ∷ b'\n' ∷ b',' ∷ b'a' ∷ []) 1

-- Two slashes, and a line end that may not be crossed behind them.
stops_behind_comment :
    skip_non_token false (b'/' ∷ b'/' ∷ b'x' ∷ b'\n' ∷ b'a' ∷ []) 3 ≡ err (line_incomplete 3)
unfolding skip_non_token
stops_behind_comment = refl

-- A comma is a token for TokenAvailable, but not for what then reads it.
only_comma :
    (token_available true (b',' ∷ []) 1 ≡ (true, b',' ∷ [], 1))
    × (skip_non_token true (b',' ∷ []) 1 ≡ err end_of_file_reached)
unfolding token_available skip_non_token
only_comma = (refl, refl)

-- An escape that GetString does not know is dropped.
unknown_escape :
    string_chars false 1 [] (b'a' ∷ b'\\' ∷ b'x' ∷ b'b' ∷ b'"' ∷ []) ≡ ok (b'a' ∷ b'b' ∷ [], [])
unfolding string_chars
unknown_escape = refl
