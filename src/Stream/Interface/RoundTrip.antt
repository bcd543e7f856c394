-- ===== src/Stream/Interface/RoundTrip.antt =====
-- What was written to a stream is read back, whatever class it is of.
use mohpc.Base.{
  ℕ, ◌+◌, ◌≤◌, ◌≡◌, ◌∙◌, ap, refl, arith, List, length, overwrite, slice-overwrite,
  length-overwrite,
}
use mohpc.Base.{ok}
use native.Mathlib.Nat.{add-zero}
use mohpc.Stream.{begin}
use mohpc.Stream.Interface.{MessageStream}

module _ (ms : MessageStream) where
  open ms use {Stream, read, write, seek, get_position, get_length, content, IsValid, Fits}
  open ms use {length-content, position_le, read_lem, seek_lem, write_lem}

  -- A stream that holds what was written gives it back.
  read_written :
      (bs : List ℕ) (p : ℕ) (c : List ℕ) (t : Stream)
      → IsValid t
      → p ≤ length c
      → content t ≡ overwrite p bs c
      → read (length bs) (seek p begin t) ≡ ok (bs, seek (p + length bs) begin (seek p begin t))
  read_written bs p c t v h e =
      let long : p + length bs ≤ get_length t =
        omega (arith, length-content t v, ap length e, length-overwrite p bs c h) in
      let (valid, pos, same) = seek_lem p t v (omega (arith, long)) in
      read_lem (length bs) (seek p begin t) valid
        (omega (arith, pos, long, length-content _ valid, length-content t v, ap length same))
      ∙ rw (pos, same, e, slice-overwrite p bs c h) refl

  pub read_back :
      (bs : List ℕ) (s : Stream)
      → IsValid s
      → Fits s (length bs)
      → (t : Stream) × (write bs s ≡ ok t)
        × (read (length bs) (seek (get_position s) begin t)
            ≡ ok (bs, seek (get_position s + length bs) begin (seek (get_position s) begin t)))
  read_back bs s v h =
      let fits : Fits s (length bs + 0) = rw add-zero h in
      let (t, made, valid, _, _, bytes) = write_lem bs 0 s v fits in
      (
        t,
        made,
        read_written bs (get_position s) (content s) t valid
            (omega (arith, position_le s v, length-content s v)) bytes,
      )
