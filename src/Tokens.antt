-- ===== src/Tokens.antt =====
-- The parser of mohpc-lib/Utility/TokenParser.cpp over the loops of Scanner. What a parser holds after
-- an exception is left out, and so are the macros behind a `$`.
mod Commas
mod Crossline
mod Quoted
mod Positions
mod Tests
use mohpc.Base.{
  ℕ, ◌-◌, List, [], ◌∷◌, Bool, true, false, not, length, drop, ◌==◌, if◌then◌else◌, Result, ok, err,
  ◌>>=◌,
}
use mohpc.Scanner.{
  TokenError, expected_token, skip_to_eol, skip_white_space, skip_non_token, token_available,
  grab_word, string_chars, raw_chars,
}

-- `TokenParser`, without its macros, its file name, and who owns the text
pub record TokenParser : Type 0 where
  pub buffer : List ℕ
  pub script : List ℕ
  pub line : ℕ
  pub tokenready : Bool
  pub token : List ℕ

at_position : TokenParser → List ℕ × ℕ → TokenParser
at_position p (s, line) = record p { script = s; line = line }

-- `Reset`
pub reset : TokenParser → TokenParser
reset p = record p { script = p.buffer; line = 1; tokenready = false }

-- `scriptmarker_t`
pub record ScriptMarker : Type 0 where
  pub tokenready : Bool
  pub offset : ℕ
  pub line : ℕ
  pub token : List ℕ

-- `MarkPosition`
pub mark_position : TokenParser → ScriptMarker
mark_position p = record {
  tokenready = p.tokenready;
  offset = length p.buffer - length p.script;
  line = p.line;
  token = p.token;
}

-- `RestorePosition`
pub restore_position : ScriptMarker → TokenParser → TokenParser
restore_position mark p = record p {
  tokenready = mark.tokenready;
  script = drop mark.offset p.buffer;
  line = mark.line;
  token = mark.token;
}

-- `UnGetToken`
pub unget_token : TokenParser → TokenParser
unget_token p = record p { tokenready = true }

at_quote : List ℕ → Bool
at_quote [] = false
at_quote (c ∷ s) = c == b'"'

-- `GetString`; `p` stands at the token, the quote is not yet skipped.
string_at : Bool → Bool → TokenParser → Result TokenError TokenParser
unfolding at_quote
string_at escape multi p = if not (at_quote p.script) then err (expected_token p.line) else (do
  (token, s) ←
      if escape
      then string_chars multi p.line [] (drop 1 p.script)
      else raw_chars [] (drop 1 p.script)
  ok (record p { token = token; script = s }))

pub get_string : Bool → Bool → Bool → TokenParser → Result TokenError TokenParser
unfolding string_at at_position
get_string crossline escape multi p =
    if p.tokenready then ok (record p { tokenready = false }) else (do
      found ← skip_non_token crossline p.script p.line
      string_at escape multi (at_position p found))

-- `GrabNextToken`
pub grab_next_token : Bool → TokenParser → Result TokenError TokenParser
unfolding at_position at_quote get_string
grab_next_token crossline p = do
  found ← skip_non_token crossline p.script p.line
  let q = at_position p found in
      if at_quote q.script
      then get_string crossline true false q
      else ok (record q { token = (grab_word [] q.script).0; script = (grab_word [] q.script).1 })

at_special : List ℕ → Bool
at_special [] = false
at_special (c ∷ s) = c == b'$'

-- `isMacro`: the answer and where the parser stands then.
pub is_macro : TokenParser → Result TokenError (Bool × TokenParser)
unfolding at_position at_special
is_macro p =
    let (found, s, line) = token_available true p.script p.line in
    if not found then ok (false, at_position p (s, line)) else (do
      (s', line') ← skip_non_token true s line
      ok (at_special s', at_position p (s', line')))

-- `GetToken` up to its test for a macro: whether the token began with a `$`, and the parser with it.
pub get_token : Bool → TokenParser → Result TokenError (Bool × TokenParser)
get_token crossline p =
    if p.tokenready
    then ok (false, record p { tokenready = false })
    else (do (special, q) ← is_macro p; r ← grab_next_token crossline q; ok (special, r))

begins_with : ℕ → List ℕ → Bool
begins_with c [] = false
begins_with c (d ∷ s) = d == c

-- `AtString` with `"`, `AtOpenParen` with `(`, `AtCloseParen` with `)`, `AtComma` with `,` and `AtDot`
-- with `.`
pub at_char : ℕ → Bool → TokenParser → Result TokenError (Bool × TokenParser)
unfolding begins_with at_position
at_char c crossline p = do
  found ← skip_non_token crossline p.script p.line
  ok (begins_with c (at_position p found).script, at_position p found)

line_of : List ℕ → List ℕ
line_of [] = []
line_of (c ∷ s) = let rest = line_of s in if c == b'\n' then [] else c ∷ rest

-- The copy of `GetLine` and `GetRaw`: up to the end of the line.
copy_line : TokenParser → TokenParser
unfolding line_of
copy_line p = record p { token = line_of p.script; script = (skip_to_eol p.script).1 }

-- `GetLine`
pub get_line : Bool → TokenParser → Result TokenError TokenParser
unfolding copy_line at_position
get_line crossline p =
    if p.tokenready
    then ok (record p { tokenready = false })
    else (do found ← skip_non_token crossline p.script p.line; ok (copy_line (at_position p found)))

-- `GetRaw`
pub get_raw : TokenParser → Result TokenError TokenParser
unfolding copy_line at_position
get_raw p = do found ← skip_white_space true p.script p.line; ok (copy_line (at_position p found))
