-- ===== src/Encoding/Pass.antt =====
-- One pass of the encoding over the bytes of a stream.
use mohpc.Base.{
  ℕ, zero, suc, ◌+◌, ◌≤◌, ◌<◌, ◌≡◌, refl, sym, ap, ap₂, ◌∙◌, subst, arith, List, [], ◌∷◌, ◌++◌,
  length, All, get_or, slice, overwrite, bit_xor, ok, overwrite_none, slice-add, slice_one,
  slice-overwrite_after, overwrite-append, length-overwrite,
}
use mohpc.Base.Bits.{xor_mod_cancel}
use mohpc.Stream.{begin}
use mohpc.Stream.Interface.{MessageStream}
use mohpc.Encoding.{xor_key_index, xor_byte, xor_values_in_place}

-- What the encoding makes of the bytes from index `i` of a message on.
unfoldable pub xor_pass : List ℕ → ℕ → ℕ → ℕ → List ℕ → List ℕ
xor_pass string key i index [] = []
xor_pass string key i index (b ∷ bs) =
    let (k, index') = xor_key_index i index string in
    xor_byte b (bit_xor key k) ∷ xor_pass string (bit_xor key k) (i + 1) (index' + 1) bs

-- The same pass once more gives the bytes back: the key does not depend on them.
pub xor_pass-xor_pass :
    (string : List ℕ) (key i index : ℕ) (bs : List ℕ)
    → All (λ b. b < 256) bs
    → xor_pass string key i index (xor_pass string key i index bs) ≡ bs
unfolding xor_pass
xor_pass-xor_pass string key i index [] h = refl
xor_pass-xor_pass string key i index (b ∷ bs) h =
    let (k, index') = xor_key_index i index string in
    ap₂ ◌∷◌ (xor_mod_cancel 8 b (bit_xor key k) h.0)
      (xor_pass-xor_pass string (bit_xor key k) (i + 1) (index' + 1) bs h.1)

pub length-xor_pass :
    (string : List ℕ) (key i index : ℕ) (bs : List ℕ)
    → length (xor_pass string key i index bs) ≡ length bs
unfolding xor_pass
length-xor_pass string key i index [] = refl
length-xor_pass string key i index (b ∷ bs) =
    let (k, index') = xor_key_index i index string in
    ap suc (length-xor_pass string (bit_xor key k) (i + 1) (index' + 1) bs)

-- The first byte, and the pass over the others of the list in which it is already replaced.
pass_round :
    (string : List ℕ) (n key i index : ℕ) (c d : List ℕ)
    → i + suc n ≤ length c
    → let (k, index') = xor_key_index i index string in
      d ≡ overwrite i (xor_byte (get_or c i 0) (bit_xor key k) ∷ []) c
      → overwrite
          (i + 1)
          (xor_pass string (bit_xor key k) (i + 1) (index' + 1) (slice (i + 1) n d))
          d
        ≡ overwrite i (xor_pass string key i index (slice i (suc n) c)) c
unfolding xor_pass
pass_round string n key i index c d h e =
    let (k, index') = xor_key_index i index string in
    let b : List ℕ = xor_byte (get_or c i 0) (bit_xor key k) ∷ [] in
    let front : slice i (suc n) c ≡ get_or c i 0 ∷ slice (i + 1) n c =
      slice-add (suc n) i (i + 1) 1 n c (omega arith) (omega arith) refl
      ∙ ap (λ bs. bs ++ slice (i + 1) n c) (slice_one i c 0 (omega arith)) in
    rw (e, front, slice-overwrite_after i (i + 1) n b c refl (omega arith))
      (sym (
        overwrite-append i (i + 1) b
          (xor_pass string (bit_xor key k) (i + 1) (index' + 1) (slice (i + 1) n c)) c (omega arith)
          refl))

module _ (ms : MessageStream) (string : List ℕ) where
  open ms use {Stream, read, write, seek, get_position, get_length, content, IsValid, Fits}
  open ms use {length-content, position_le, read_lem, seek_lem, seek-Fits, write_lem}

  same_length :
      (s t : Stream)
      → IsValid s
      → IsValid t
      → length (content s) ≡ length (content t)
      → get_length s ≡ get_length t
  same_length s t v w e = omega (arith, length-content s v, length-content t w)

  -- One round: the byte at the position is replaced.
  record Round (b : ℕ) (s t : Stream) : Type 0 where
    valid : IsValid t
    moved : get_position t ≡ get_position s + 1
    bytes : content t ≡ overwrite (get_position s) (b ∷ []) (content s)
    long : get_length t ≡ get_length s

  -- A byte is read, the stream seeks back to it, and another is written over it.
  write_back :
      (b : ℕ) (s : Stream)
      → IsValid s
      → get_position s + 1 ≤ get_length s
      → (t : Stream) × (write
            (b ∷ [])
            (seek (get_position s) begin (seek (get_position s + 1) begin s))
          ≡ ok t)
        × Round b s t
  write_back b s v h =
      let p : ℕ = get_position s in
      let s₁ : Stream = seek (p + 1) begin s in
      let (v₁, p₁, c₁) = seek_lem (p + 1) s v h in
      let l₁ : get_length s₁ ≡ get_length s = same_length s₁ s v₁ v (ap length c₁) in
      let s₂ : Stream = seek p begin s₁ in
      let (v₂, p₂, c₂) = seek_lem p s₁ v₁ (omega (arith, l₁)) in
      let (t, wrote, vt, _, pt, ct) =
        write_lem (b ∷ []) 0 s₂ v₂
          (subst (Fits s₂) (omega arith) (seek-Fits p 1 s₁ v₁ (omega (arith, l₁)))) in
      let bytes : content t ≡ overwrite p (b ∷ []) (content s) = ct ∙ rw (p₂, c₂, c₁) in
      (
        t,
        wrote,
        record {
          valid = vt;
          moved = omega (arith, pt, p₂);
          bytes = bytes;
          long = same_length t s vt v (
              ap length bytes
              ∙ omega (
                arith,
                length-overwrite p (b ∷ []) (content s) (omega (arith, length-content s v)),
                length-content s v,
              ));
        },
      )

  xor_round :
      (n key i index : ℕ) (s t : Stream)
      → IsValid s
      → get_position s ≡ i
      → i + 1 ≤ get_length s
      → let (k, index') = xor_key_index i index string in
        write
            (xor_byte (get_or (content s) i 0) (bit_xor key k) ∷ [])
            (seek i begin (seek (get_position s + 1) begin s))
          ≡ ok t
        → xor_values_in_place ms string (suc n) key i index s
          ≡ xor_values_in_place ms string n (bit_xor key k) (i + 1) (index' + 1) t
  unfolding xor_values_in_place
  xor_round n key i index s t v e h w =
      let (k, index') = xor_key_index i index string in
      let got : read 1 s ≡ ok (get_or (content s) i 0 ∷ [], seek (get_position s + 1) begin s) =
        read_lem 1 s v (omega arith)
        ∙ ap (λ bs. ok (bs, seek (get_position s + 1) begin s))
            (slice_one (get_position s) (content s) 0 (omega (arith, length-content s v))
              ∙ ap (λ (x : ℕ). get_or (content s) x 0 ∷ []) e) in
      rw got (rw w)

  -- Over the next `n` bytes of a valid stream the loop ends, and makes of them what the pass does.
  pub xor_in_place_lem :
      (n key i index : ℕ) (s : Stream)
      → IsValid s
      → get_position s ≡ i
      → i + n ≤ get_length s
      → (t : Stream) × (xor_values_in_place ms string n key i index s ≡ ok t)
        × IsValid t
        × (get_length t ≡ get_length s)
        × (content t
            ≡ overwrite i (xor_pass string key i index (slice i n (content s))) (content s))
  xor_in_place_lem zero key i index s v e h = (
    s,
    unfold xor_values_in_place in refl,
    v,
    refl,
    sym (unfold xor_pass in overwrite_none i (content s)),
  )
  xor_in_place_lem (suc n) key i index s v e h =
      let (k, index') = xor_key_index i index string in
      let b : ℕ = xor_byte (get_or (content s) i 0) (bit_xor key k) in
      let (t, wrote, r) = write_back b s v (omega arith) in
      let (u, ran, vu, lu, cu) =
        xor_in_place_lem n (bit_xor key k) (i + 1) (index' + 1) t r.valid (omega (arith, r.moved))
          (omega (arith, r.long)) in
      (
        u,
        xor_round n key i index s t v e (omega arith) (
              subst (λ x. write (b ∷ []) (seek x begin (seek (get_position s + 1) begin s)) ≡ ok t)
                e wrote)
            ∙ ran,
        vu,
        lu ∙ r.long,
        cu
            ∙ pass_round string n key i index (content s) (content t)
                (omega (arith, length-content s v))
                (r.bytes ∙ ap (λ (x : ℕ). overwrite x (b ∷ []) (content s)) e),
      )
