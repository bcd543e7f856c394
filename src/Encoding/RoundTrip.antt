-- ===== src/Encoding/RoundTrip.antt =====
-- Encoding and decoding a message.
use mohpc.Base.{
  ℕ, ◌+◌, ◌-◌, ◌≤◌, ◌<◌, ◌≡◌, refl, sym, ap, ◌∙◌, arith, List, length, All, slice, drop, take,
  overwrite, ok, slice-overwrite, overwrite_back, length-slice, zero, suc, [], ◌∷◌,
}
use mohpc.Stream.{begin}
use mohpc.Stream.Interface.{MessageStream}
use mohpc.Encoding.{XorEncoding, key_string, start_key, convert_in_place}
use mohpc.Encoding.Pass.{xor_pass, xor_pass-xor_pass, length-xor_pass, xor_in_place_lem}

All-drop : (P : ℕ → Type 0) (i : ℕ) (xs : List ℕ) → All P xs → All P (drop i xs)
All-drop P zero xs h = h
All-drop P (suc i) [] h = h
All-drop P (suc i) (x ∷ xs) h = All-drop P i xs h.1

All-take : (P : ℕ → Type 0) (n : ℕ) (xs : List ℕ) → All P xs → All P (take n xs)
All-take P zero xs h = tt
All-take P (suc n) [] h = h
All-take P (suc n) (x ∷ xs) h = (h.0, All-take P n xs h.1)

-- Xoring the range from `p` on twice restores the content.
pass_back :
    (string : List ℕ) (key p n m : ℕ) (c : List ℕ)
    → All (λ b. b < 256) c
    → p + n ≤ length c
    → m ≡ n
    → let d = overwrite p (xor_pass string key p 0 (slice p n c)) c in
      overwrite p (xor_pass string key p 0 (slice p m d)) d ≡ c
pass_back string key p n m c bytes h e =
    let sl : List ℕ = slice p n c in
    let enc : List ℕ = xor_pass string key p 0 sl in
    let long : length sl ≡ n = length-slice p n c h in
    let long' : length enc ≡ n = length-xor_pass string key p 0 sl ∙ long in
    let again : slice p m (overwrite p enc c) ≡ enc =
      ap (λ (x : ℕ). slice p x (overwrite p enc c)) (e ∙ sym long')
      ∙ slice-overwrite p enc c (omega arith) in
    rw
      (
        again,
        xor_pass-xor_pass string key p 0 sl
            (All-take (λ b. b < 256) n (drop p c) (All-drop (λ b. b < 256) p c bytes)),
      )
      (ap (λ bs. overwrite p bs (overwrite p enc c)) (ap (λ (x : ℕ). slice p x c) (sym long'))
        ∙ overwrite_back p enc c (omega (arith, long')))

module _ (ms : MessageStream) where
  open ms use {Stream, get_position, get_length, content, IsValid, seek, seek_lem, length-content}
  open ms use {position_le}

  -- `convert` on one stream succeeds wherever the stream stands: it xors the bytes from the position
  -- to the end with the running key, leaves those before it and the position as they were, and the
  -- stream valid.
  pub convert_in_place_lem :
      (e : XorEncoding) (s : Stream)
      → IsValid s
      → (t : Stream) × (convert_in_place ms e s ≡ ok t)
        × IsValid t
        × (get_position t ≡ get_position s)
        × (get_length t ≡ get_length s)
        × (content t
            ≡ overwrite
                (get_position s)
                (xor_pass
                  (key_string e)
                  (start_key e)
                  (get_position s)
                  0
                  (slice (get_position s) (get_length s - get_position s) (content s)))
                (content s))
  unfolding convert_in_place
  convert_in_place_lem e s v =
      let p : ℕ = get_position s in
      let n : ℕ = get_length s - p in
      let (t, ran, vt, lt, ct) =
        xor_in_place_lem ms (key_string e) n (start_key e) p 0 s v refl
          (omega (arith, position_le s v)) in
      let (vu, pu, cu) = seek_lem p t vt (omega (arith, position_le s v, lt)) in
      (
        seek p begin t,
        rw ran refl,
        vu,
        pu,
        omega (arith, lt, length-content _ vu, length-content t vt, ap length cu),
        cu ∙ ct,
      )

  -- A message that one side encodes and the other decodes comes back: if both have the same command
  -- acknowledged and the same challenge, secret key and message number, a second `convert` restores
  -- every byte of the content, and the position. The content is made of bytes.
  pub convert-convert :
      (e e' : XorEncoding) (s : Stream)
      → IsValid s
      → All (λ b. b < 256) (content s)
      → key_string e' ≡ key_string e
      → start_key e' ≡ start_key e
      → (t : Stream) × (u : Stream) × (convert_in_place ms e s ≡ ok t)
        × (convert_in_place ms e' t ≡ ok u)
        × IsValid u
        × (content u ≡ content s)
        × (get_position u ≡ get_position s)
  convert-convert e e' s v bytes ks ke =
      let (t, ran, vt, pt, lt, ct) = convert_in_place_lem e s v in
      let (u, back, vu, pu, _, cu) = convert_in_place_lem e' t vt in
      (t, u, ran, back, vu, cu ∙ restored t vt pt lt ct, pu ∙ pt)
    where
      restored :
          (t : Stream)
          → IsValid t
          → get_position t ≡ get_position s
          → get_length t ≡ get_length s
          → content t
            ≡ overwrite
                (get_position s)
                (xor_pass
                  (key_string e)
                  (start_key e)
                  (get_position s)
                  0
                  (slice (get_position s) (get_length s - get_position s) (content s)))
                (content s)
          → overwrite
              (get_position t)
              (xor_pass
                (key_string e')
                (start_key e')
                (get_position t)
                0
                (slice (get_position t) (get_length t - get_position t) (content t)))
              (content t)
            ≡ content s
      restored t vt pt lt ct =
          let p : ℕ = get_position s in
          let n : ℕ = get_length s - p in
          let fits : p + n ≤ length (content s) =
            omega (arith, length-content s v, position_le s v) in
          rw (ks, ke, pt, ct)
            (pass_back (key_string e) (start_key e) p n (get_length t - p) (content s) bytes fits
              (omega (arith, lt)))
