-- ===== src/Scanner.antt =====
-- The loops over the characters in mohpc-lib/Utility/TokenParser.cpp: a text is the list of its
-- characters from 0 to 255, of those that are left from `script_p` on. Behind the text stands a NUL, as
-- in a string.
pub mod Skipping
pub mod Skipped
pub mod Available
pub mod Strings
mod Tests
use mohpc.Base.{
  ℕ, zero, suc, ◌+◌, List, [], ◌∷◌, ◌++◌, Bool, true, false, not, ◌&&◌, ◌||◌, length, leb, ◌==◌,
  if◌then◌else◌, Result, ok, err, ◌>>=◌,
}

-- The classes of TokenErrors that the scanner throws.
pub data TokenError : Type 0 where
  end_of_file_reached : TokenError
  line_incomplete : ℕ → TokenError
  expected_token : ℕ → TokenError

-- `*script_p <= TOKENSPACE`, where a character is signed
abbrev pub is_space : ℕ → Bool
is_space c = leb c b' ' || leb 128 c

-- What SkipWhiteSpace skips.
abbrev pub is_blank : ℕ → Bool
is_blank c = is_space c || c == b','

-- `SkipToEOL`: whether it came to the end of the text, and what is left.
unfoldable pub skip_to_eol : List ℕ → Bool × List ℕ
skip_to_eol [] = (true, [])
skip_to_eol (c ∷ s) = let rest = skip_to_eol s in if c == b'\n' then (false, c ∷ s) else rest

abbrev pub next_line : ℕ → ℕ → ℕ
next_line c line = if c == b'\n' then line + 1 else line

-- `SkipWhiteSpace`: what is left, and the line there.
unfoldable pub skip_white_space : Bool → List ℕ → ℕ → Result TokenError (List ℕ × ℕ)
skip_white_space crossline [] line = err end_of_file_reached
skip_white_space crossline (c ∷ s) line =
    let rest = skip_white_space crossline s (next_line c line) in
    if not (is_blank c)
    then ok (c ∷ s, line)
    else if (c == b'\n') && not crossline
    then err (line_incomplete line)
    else rest

-- `AtComment`
unfoldable pub at_comment : List ℕ → Bool
at_comment [] = false
at_comment (c ∷ []) = c == b';'
at_comment (c ∷ d ∷ s) = c == b';' || ((c == b'/') && (d == b'/'))

-- The loop of `SkipNonToken`, with a bound on the comments.
pub skip_comments : Bool → ℕ → List ℕ → ℕ → Result TokenError (List ℕ × ℕ)
unfolding skip_to_eol skip_white_space at_comment
skip_comments crossline zero s line = ok (s, line)
skip_comments crossline (suc rounds) s line =
    if at_comment s
    then (do
      (s', line') ← skip_white_space crossline (skip_to_eol s).1 line
      skip_comments crossline rounds s' line')
    else ok (s, line)

-- `SkipNonToken`; there are no more comments than characters.
unfoldable pub skip_non_token : Bool → List ℕ → ℕ → Result TokenError (List ℕ × ℕ)
unfolding skip_comments
skip_non_token crossline s line = do
  (s', line') ← skip_white_space crossline s line
  skip_comments crossline (length s') s' line'

-- The inner loop of `TokenAvailable`: whether it found a character above the space.
pub skip_spaces : Bool → List ℕ → ℕ → Bool × List ℕ × ℕ
skip_spaces crossline [] line = (false, [], line)
skip_spaces crossline (c ∷ s) line =
    let rest = skip_spaces crossline s (next_line c line) in
    if not (is_space c)
    then (true, c ∷ s, line)
    else if (c == b'\n') && not crossline
    then (false, c ∷ s, line)
    else rest

-- `TokenAvailable`, with a bound on the comments
available : Bool → ℕ → List ℕ → ℕ → Bool × List ℕ × ℕ
unfolding skip_spaces skip_to_eol
available crossline zero s line = (false, s, line)
available crossline (suc rounds) s line =
    let (found, s', line') = skip_spaces crossline s line in
    let (done, s'') = skip_to_eol s' in
    let rest = available crossline rounds s'' line' in
    if not found
    then (false, s', line')
    else if not (at_comment s')
    then (true, s', line')
    else if done
    then (false, s'', line')
    else rest

unfoldable pub token_available : Bool → List ℕ → ℕ → Bool × List ℕ × ℕ
unfolding available
token_available crossline s line = available crossline (suc (length s)) s line

-- The character that GrabNextToken takes for an escaped one.
unescape : ℕ → ℕ
unescape d = if d == b'n' || d == b'r' then b'\n' else d

-- The loop of `GrabNextToken` over a token without quotes.
unfoldable pub grab_word : List ℕ → List ℕ → List ℕ × List ℕ
unfolding unescape
grab_word token [] = (token, [])
grab_word token (c ∷ []) =
    if is_blank c || at_comment (c ∷ []) then (token, c ∷ []) else (token ++ c ∷ [], [])
grab_word token (c ∷ d ∷ s) =
    let plain = grab_word (token ++ c ∷ []) (d ∷ s) in
    let escaped = grab_word (token ++ unescape d ∷ []) s in
    if is_blank c || at_comment (c ∷ d ∷ s)
    then (token, c ∷ d ∷ s)
    else if c == b'\\'
    then escaped
    else plain

-- What GetString appends for an escaped character.
escaped_char : ℕ → List ℕ
escaped_char d =
    if d == b'n' || d == b'r'
    then b'\n' ∷ []
    else if d == b'\'' || (d == b'"' || d == b'\\')
    then d ∷ []
    else []

-- The loop of `GetString` with escapes: the text up to the quote, and what is left behind it.
unfoldable pub string_chars : Bool → ℕ → List ℕ → List ℕ → Result TokenError (List ℕ × List ℕ)
unfolding escaped_char
string_chars multi line token [] = err end_of_file_reached
string_chars multi line token (c ∷ []) =
    if c == b'"'
    then ok (token, [])
    else if (c == b'\n') && not multi
    then err (line_incomplete line)
    else err end_of_file_reached
string_chars multi line token (c ∷ d ∷ s) =
    let skipped = string_chars multi line token (d ∷ s) in
    let plain = string_chars multi line (token ++ c ∷ []) (d ∷ s) in
    let escaped = string_chars multi line (token ++ escaped_char d) s in
    if c == b'"'
    then ok (token, d ∷ s)
    else if c == b'\n'
    then (if multi then skipped else err (line_incomplete line))
    else if c == b'\\'
    then escaped
    else plain

-- The loop of `GetString` without escapes.
unfoldable pub raw_chars : List ℕ → List ℕ → Result TokenError (List ℕ × List ℕ)
raw_chars token [] = err end_of_file_reached
raw_chars token (c ∷ s) =
    let rest = raw_chars (token ++ c ∷ []) s in if c == b'"' then ok (token, s) else rest
