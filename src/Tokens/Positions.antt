-- ===== src/Tokens/Positions.antt =====
-- A position that was marked is restored.
use mohpc.Base.{
  ℕ, ◌-◌, ◌≡◌, refl, ap, ap₂, ◌∙◌, arith, List, [], ◌∷◌, ◌++◌, length, length-append, drop,
}
use mohpc.Tokens.{TokenParser, mark_position, restore_position}

drop-length : (xs ys : List ℕ) (n : ℕ) → n ≡ length xs → drop n (xs ++ ys) ≡ ys
drop-length [] ys n e = ap (λ (k : ℕ). drop k ys) e
drop-length (x ∷ xs) ys n e =
    ap (λ (k : ℕ). drop k (x ∷ (xs ++ ys))) e ∙ drop-length xs ys (length xs) refl

-- The rest of the text is its end.
pub restore_position-mark_position :
    (p q : TokenParser) (front : List ℕ)
    → p.buffer ≡ front ++ p.script
    → q.buffer ≡ p.buffer
    → restore_position (mark_position p) q ≡ p
unfolding restore_position mark_position
restore_position-mark_position p q front whole same =
    let n = length p.buffer - length p.script in
    let back : drop n q.buffer ≡ p.script =
      ap (drop n) (same ∙ whole)
      ∙ drop-length front p.script n
          (omega (arith, ap length whole, length-append front p.script)) in
    let with : List ℕ → List ℕ → TokenParser = λ b s. record {
      buffer = b;
      script = s;
      line = p.line;
      tokenready = p.tokenready;
      token = p.token;
    } in
    ap₂ with same back
