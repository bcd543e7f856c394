-- ===== src/Encoding/Through.antt =====
-- The encoding from one stream into another.
use mohpc.Base.{
  ℕ, zero, suc, ◌+◌, ◌-◌, ◌≤◌, ◌≡◌, refl, sym, ap, ◌∙◌, subst, arith, List, [], ◌∷◌, ◌++◌, length,
  get_or, slice, overwrite, bit_xor, ok, overwrite_none, overwrite-append, slice-add, slice_one,
  length-slice, slice-overwrite,
}
use mohpc.Stream.{begin}
use mohpc.Stream.Interface.{MessageStream}
use mohpc.Encoding.{
  XorEncoding, key_string, start_key, convert, convert_in_place, xor_key_index, xor_byte,
  xor_values,
}
use mohpc.Encoding.Pass.{xor_pass, length-xor_pass}
use mohpc.Encoding.RoundTrip.{convert_in_place_lem}

module _ (outs ins : MessageStream) where
  xor_values_round :
      (string : List ℕ) (n key i index : ℕ) (out mid : outs.Stream) (s : ins.Stream)
      → ins.IsValid s
      → ins.get_position s ≡ i
      → i + 1 ≤ ins.get_length s
      → let (k, index') = xor_key_index i index string in
        outs.write (xor_byte (get_or (ins.content s) i 0) (bit_xor key k) ∷ []) out ≡ ok mid
        → xor_values outs ins string (suc n) key i index out s
          ≡ xor_values outs ins string n
              (bit_xor key k)
              (i + 1)
              (index' + 1)
              mid
              (ins.seek (i + 1) begin s)
  unfolding xor_values
  xor_values_round string n key i index out mid s v e h w =
      let got : ins.read 1 s ≡ ok (get_or (ins.content s) i 0 ∷ [], ins.seek (i + 1) begin s) =
        ins.read_lem 1 s v (omega arith)
        ∙ ap (λ (x : ℕ). ok (slice x 1 (ins.content s), ins.seek (x + 1) begin s)) e
        ∙ ap (λ bs. ok (bs, ins.seek (i + 1) begin s))
            (slice_one i (ins.content s) 0 (omega (arith, ins.length-content s v))) in
      rw got (rw w)

  -- Over the next `n` bytes of a valid stream the loop ends, with the pass over them written out.
  xor_values_lem :
      (string : List ℕ) (n key i index : ℕ) (out : outs.Stream) (s : ins.Stream)
      → outs.IsValid out
      → ins.IsValid s
      → outs.Fits out n
      → ins.get_position s ≡ i
      → i + n ≤ ins.get_length s
      → (out' : outs.Stream) × (s' : ins.Stream) × (xor_values outs ins string n key i index out s
          ≡ ok (out', s'))
        × outs.IsValid out'
        × (outs.content out'
            ≡ overwrite
                (outs.get_position out)
                (xor_pass string key i index (slice i n (ins.content s)))
                (outs.content out))
        × (ins.content s' ≡ ins.content s)
  xor_values_lem string zero key i index out s vo vi f e h = (
    out,
    s,
    unfold xor_values in refl,
    vo,
    sym (unfold xor_pass in overwrite_none (outs.get_position out) (outs.content out)),
    refl,
  )
  xor_values_lem string (suc n) key i index out s vo vi f e h =
      let (k, index') = xor_key_index i index string in
      let c : List ℕ = ins.content s in
      let b : ℕ = xor_byte (get_or c i 0) (bit_xor key k) in
      let (mid, wrote, vm, fm, pm, cm) =
        outs.write_lem (b ∷ []) n out vo (subst (outs.Fits out) (omega arith) f) in
      let (v₁, p₁, c₁) = ins.seek_lem (i + 1) s vi (omega arith) in
      let (out', s', ran, vo', co', cs') =
        xor_values_lem string n (bit_xor key k) (i + 1) (index' + 1) mid (ins.seek (i + 1) begin s)
          vm v₁ fm p₁
          (omega (arith, ins.length-content s vi, ins.length-content _ v₁, ap length c₁)) in
      let front : slice i (suc n) c ≡ get_or c i 0 ∷ slice (i + 1) n c =
        slice-add (suc n) i (i + 1) 1 n c (omega (arith, ins.length-content s vi)) (omega arith)
          refl
        ∙ ap (λ bs. bs ++ slice (i + 1) n c)
            (slice_one i c 0 (omega (arith, ins.length-content s vi))) in
      let q : ℕ = outs.get_position out in
      (
        out',
        s',
        xor_values_round string n key i index out mid s vi e (omega arith) wrote ∙ ran,
        vo',
        co'
            ∙ rw (c₁, front, pm, cm)
                (unfold xor_pass in
                  sym (
                    overwrite-append q (q + 1) (b ∷ [])
                      (xor_pass string (bit_xor key k) (i + 1) (index' + 1) (slice (i + 1) n c))
                      (outs.content out)
                      (omega (arith, outs.position_le out vo, outs.length-content out vo)) refl)),
        cs' ∙ c₁,
      )

  -- `convert` from one valid stream into another that has room for the rest of it succeeds, writes
  -- the pass over that rest over the output, leaves the output at its start, and the content of the
  -- input as it was.
  convert_lem :
      (e : XorEncoding) (out : outs.Stream) (s : ins.Stream)
      → outs.IsValid out
      → ins.IsValid s
      → outs.Fits out (ins.get_length s - ins.get_position s)
      → (out' : outs.Stream) × (s' : ins.Stream) × (convert outs ins e out s ≡ ok (out', s'))
        × (outs.get_position out' ≡ 0)
        × (outs.content out'
            ≡ overwrite
                (outs.get_position out)
                (xor_pass (key_string e) (start_key e) (ins.get_position s) 0 (
                  slice
                    (ins.get_position s)
                    (ins.get_length s - ins.get_position s)
                    (ins.content s)))
                (outs.content out))
        × (ins.content s' ≡ ins.content s)
  unfolding convert
  convert_lem e out s vo vi f =
      let p : ℕ = ins.get_position s in
      let n : ℕ = ins.get_length s - p in
      let (out', s', ran, vo', co', cs') =
        xor_values_lem (key_string e) n (start_key e) p 0 out s vo vi f refl
          (omega (arith, ins.position_le s vi)) in
      let (_, po, cz) = outs.seek_lem 0 out' vo' (omega arith) in
      (outs.seek 0 begin out', s', rw ran refl, po, cz ∙ co', cs')

  -- `convert` from one valid stream into another that has room for the rest of it succeeds, and so
  -- does `convert` on the input alone. The first writes over the output just the bytes that the second
  -- leaves in the input from the position on, up to its end; it leaves the output at its start, and the
  -- content of the input as it was.
  pub convert-convert_in_place :
      (e : XorEncoding) (out : outs.Stream) (s : ins.Stream)
      → outs.IsValid out
      → ins.IsValid s
      → outs.Fits out (ins.get_length s - ins.get_position s)
      → (out' : outs.Stream) × (s' : ins.Stream) × (t : ins.Stream) × (convert outs ins e out s
          ≡ ok (out', s'))
        × (convert_in_place ins e s ≡ ok t)
        × (outs.get_position out' ≡ 0)
        × (outs.content out'
            ≡ overwrite
                (outs.get_position out)
                (slice (ins.get_position s) (ins.get_length s - ins.get_position s) (ins.content t))
                (outs.content out))
        × (ins.content s' ≡ ins.content s)
  convert-convert_in_place e out s vo vi f =
      let p : ℕ = ins.get_position s in
      let n : ℕ = ins.get_length s - p in
      let c : List ℕ = ins.content s in
      let (out', s', ran, po, co, cs) = convert_lem e out s vo vi f in
      let (t, alone, _, _, _, ct) = convert_in_place_lem ins e s vi in
      let enc : List ℕ = xor_pass (key_string e) (start_key e) p 0 (slice p n c) in
      let long : p + n ≤ length c = omega (arith, ins.length-content s vi, ins.position_le s vi) in
      let same : length enc ≡ n =
        length-xor_pass (key_string e) (start_key e) p 0 (slice p n c) ∙ length-slice p n c long in
      let left : slice p n (ins.content t) ≡ enc =
        ap (λ (bs : List ℕ). slice p n bs) ct
        ∙ ap (λ (x : ℕ). slice p x (overwrite p enc c)) (sym same)
        ∙ slice-overwrite p enc c (omega (arith, same, long)) in
      (
        out',
        s',
        t,
        ran,
        alone,
        po,
        co
            ∙ ap (λ (bs : List ℕ). overwrite (outs.get_position out) bs (outs.content out))
                (sym left),
        cs,
      )
