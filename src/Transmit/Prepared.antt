-- ===== src/Transmit/Prepared.antt =====
-- A growing stream that a header was written to and that has room for a body.
use mohpc.Base.{
  ℕ, zero, suc, ◌+◌, ◌≤◌, ◌^◌, ◌≡◌, refl, sym, ap, ap₂, subst, ◌∙◌, arith, List, [], ◌∷◌, length,
  take, take_of_length_le, overwrite, true, ok,
}
use mohpc.Stream.{begin, current}
use mohpc.Stream.Dynamic.{
  DynamicStream, empty_stream, content, reserve, write, seek, get_length, get_position, IsValid,
}
use mohpc.Stream.Dynamic.Laws.{dynamic_stream}
use mohpc.Stream.Dynamic.Growth.{seek-grows, reserve-clear, seek-current}

module _ (uninit : ℕ → List ℕ) (length-uninit : (n : ℕ) → length (uninit n) ≡ n) where
  -- A growing stream with a header in front and room for a body, where the body goes.
  pub record Prepared (header : List ℕ) (n : ℕ) (out : DynamicStream) : Type 0 where
    pub valid : IsValid out
    pub place : get_position out ≡ length header
    pub long : length (content out) ≡ length header + n
    pub front : take (length header) (content out) ≡ header

  empty-IsValid : IsValid empty_stream
  empty-IsValid = record {
    backed = refl;
    in_length = omega arith;
    in_storage = omega arith;
    small = omega arith;
    bounded = omega arith;
  }

  overwrite_nothing : (bs : List ℕ) → overwrite 0 bs [] ≡ bs
  overwrite_nothing [] = refl
  overwrite_nothing (b ∷ bs) = refl

  -- The header is written, into whatever was reserved.
  pub headed :
      (header : List ℕ) (m : ℕ)
      → m ≤ 2 ^ 60
      → length header ≤ 2 ^ 60
      → (t : DynamicStream) × (write uninit header (reserve uninit m empty_stream) ≡ ok t)
        × IsValid t
        × (get_position t ≡ length header)
        × (content t ≡ header)
  unfolding get_position
  headed header m h k =
      let dynamic = dynamic_stream uninit length-uninit in
      let r = reserve uninit m empty_stream in
      let (valid, room, same, place, _, _) =
        reserve-clear uninit length-uninit m true empty_stream empty-IsValid (omega (arith, h)) in
      let start : get_position r ≡ 0 = place in
      let (t, wrote, valid', fits, position, text) =
        dynamic.write_lem header 0 r valid (omega (arith, start, k)) in
      (
        t,
        wrote,
        valid',
        omega (arith, position, start),
        text
            ∙ ap₂ (λ (i : ℕ) (xs : List ℕ). overwrite i header xs) start same
            ∙ overwrite_nothing header,
      )

  -- The stream, where room for the body was made.
  record Wide (header : List ℕ) (n : ℕ) (out : DynamicStream) : Type 0 where
    pub wide_valid : IsValid out
    pub wide_length : get_length out ≡ length header + n
    pub wide_front : take (length header) (content out) ≡ header

  wide :
      (header : List ℕ) (n : ℕ) (t : DynamicStream)
      → IsValid t
      → content t ≡ header
      → length header + n ≤ 2 ^ 60
      → Wide header n (seek uninit (length header + n) begin t)
  wide header zero t v text h =
      let dynamic = dynamic_stream uninit length-uninit in
      let long : get_length t ≡ length header = sym (dynamic.length-content t v) ∙ ap length text in
      let o = length header + 0 in
      let (valid, place, same) = dynamic.seek_lem o t v (omega (arith, long)) in
      record {
        wide_valid = valid;
        wide_length =
            sym (dynamic.length-content (seek uninit o begin t) valid)
            ∙ ap length (same ∙ text)
            ∙ omega arith;
        wide_front =
            ap (take (length header)) (same ∙ text)
            ∙ take_of_length_le (length header) header (omega arith);
      }
  wide header (suc n) t v text h =
      let dynamic = dynamic_stream uninit length-uninit in
      let long : get_length t ≡ length header = sym (dynamic.length-content t v) ∙ ap length text in
      let o = length header + suc n in
      let (valid, place, length_o, front) =
        seek-grows uninit length-uninit o t v (omega (arith, long)) h in
      record {
        wide_valid = valid;
        wide_length = length_o;
        wide_front =
            ap (λ (l : ℕ). take l (content (seek uninit o begin t))) (sym long) ∙ front ∙ text;
      }

  pub widened :
      (header : List ℕ) (n : ℕ) (t : DynamicStream)
      → IsValid t
      → get_position t ≡ length header
      → content t ≡ header
      → length header + n ≤ 2 ^ 60
      → Prepared header n (seek uninit (length header) begin (seek uninit n current t))
  widened header n t v place text h =
      let dynamic = dynamic_stream uninit length-uninit in
      let cur : seek uninit n current t ≡ seek uninit (length header + n) begin t =
        seek-current uninit length-uninit n t v (omega (arith, h))
        ∙ ap (λ (p : ℕ). seek uninit (p + n) begin t) place in
      let w = wide header n t v text h in
      let big = seek uninit (length header + n) begin t in
      let (valid, position, same) =
        dynamic.seek_lem (length header) big w.wide_valid (omega (arith, w.wide_length)) in
      subst (λ (s : DynamicStream). Prepared header n (seek uninit (length header) begin s))
        (sym cur)
        (record {
          valid = valid;
          place = position;
          long = ap length same ∙ dynamic.length-content big w.wide_valid ∙ w.wide_length;
          front = ap (take (length header)) same ∙ w.wide_front;
        })
