-- ===== src/Scanner/Strings.antt =====
-- A text that is written between quotes, with escapes, is read back.
use mohpc.Base.{
  ℕ, ◌≡◌, refl, sym, ap, ◌∙◌, inl, inr, arith, List, [], ◌∷◌, ◌++◌, append_assoc, append-nil, Bool,
  true, false, not, ◌&&◌, ◌||◌, Bool-cases, ◌==◌, if◌then◌else◌, ok, All,
}
use mohpc.Scanner.{
  is_space, next_line, at_comment, skip_spaces, available, token_available, escaped_char,
  string_chars,
}
use mohpc.Scanner.Skipping.{IsToken}

-- How a character is written between quotes.
pub escape : ℕ → List ℕ
escape c =
    if c == b'\n'
    then b'\\' ∷ b'n' ∷ []
    else if c == b'"' || c == b'\\'
    then b'\\' ∷ c ∷ []
    else c ∷ []

pub quoted : List ℕ → List ℕ
unfolding escape
quoted [] = b'"' ∷ []
quoted (c ∷ text) = escape c ++ quoted text

-- The text up to the closing quote.
string_chars-escape :
    (multi : Bool) (line : ℕ) (token : List ℕ) (c d : ℕ) (s : List ℕ)
    → string_chars multi line token (escape c ++ (d ∷ s))
      ≡ string_chars multi line (token ++ c ∷ []) (d ∷ s)
unfolding string_chars escaped_char escape
string_chars-escape multi line token c d s = ground arith

string_chars_end :
    (multi : Bool) (line : ℕ) (token rest : List ℕ)
    → string_chars multi line token (b'"' ∷ rest) ≡ ok (token, rest)
unfolding string_chars
string_chars_end multi line token [] = refl
string_chars_end multi line token (d ∷ rest) = refl

pub quoted_cases : (text rest : List ℕ) → (d : ℕ) × (s : List ℕ) × (quoted text ++ rest ≡ d ∷ s)
unfolding quoted escape
quoted_cases [] rest = (b'"', rest, refl)
quoted_cases (c ∷ text) rest = elim (Bool-cases (c == b'\n')) [
  | inl e ↦ (b'\\', b'n' ∷ (quoted text ++ rest), rw e refl)
  | inr e ↦ elim (Bool-cases (c == b'"' || c == b'\\')) [
    | inl f ↦ (b'\\', c ∷ (quoted text ++ rest), rw (e, f) refl)
    | inr f ↦ (c, quoted text ++ rest, rw (e, f) refl)
  ]
]

pub string_chars-quoted :
    (multi : Bool) (line : ℕ) (token text rest : List ℕ)
    → string_chars multi line token (quoted text ++ rest) ≡ ok (token ++ text, rest)
unfolding quoted
string_chars-quoted multi line token [] rest =
    string_chars_end multi line token rest
    ∙ ap (λ (t : List ℕ). ok (t, rest)) (sym (append-nil token))
string_chars-quoted multi line token (c ∷ text) rest =
    let (d, s, shape) = quoted_cases text rest in
    ap (string_chars multi line token) (append_assoc (escape c) (quoted text) rest)
    ∙ ap (λ (t : List ℕ). string_chars multi line token (escape c ++ t)) shape
    ∙ string_chars-escape multi line token c d s
    ∙ ap (string_chars multi line (token ++ c ∷ [])) (sym shape)
    ∙ string_chars-quoted multi line (token ++ c ∷ []) text rest
    ∙ ap (λ (t : List ℕ). ok (t, rest)) (append_assoc token (c ∷ []) text)

-- Lines are counted over what is skipped.
pub line_after : List ℕ → ℕ → ℕ
line_after [] line = line
line_after (c ∷ pad) line = line_after pad (next_line c line)

at_comment_quote : (s : List ℕ) → at_comment (b'"' ∷ s) ≡ false
unfolding at_comment
at_comment_quote [] = refl
at_comment_quote (d ∷ s) = refl

skip_spaces_pad :
    (pad s : List ℕ) (line : ℕ)
    → All (λ c. is_space c ≡ true) pad
    → skip_spaces true (pad ++ (b'"' ∷ s)) line ≡ (true, b'"' ∷ s, line_after pad line)
unfolding skip_spaces line_after
skip_spaces_pad [] s line all = refl
skip_spaces_pad (c ∷ pad) s line (h, all) =
    let across : ((c == b'\n') && not true) ≡ false = ground arith in
    rw (h, across) (skip_spaces_pad pad s (next_line c line) all)

pub token_available_pad :
    (pad s : List ℕ) (line : ℕ)
    → All (λ c. is_space c ≡ true) pad
    → token_available true (pad ++ (b'"' ∷ s)) line ≡ (true, b'"' ∷ s, line_after pad line)
unfolding token_available available
token_available_pad pad s line all = rw (skip_spaces_pad pad s line all, at_comment_quote s) refl

pub quote-IsToken : (s : List ℕ) → IsToken (b'"' ∷ s)
unfolding IsToken
quote-IsToken s = (refl, at_comment_quote s)
