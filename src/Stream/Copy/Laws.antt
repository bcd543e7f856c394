-- ===== src/Stream/Copy/Laws.antt =====
-- What `streamHelpers::Copy` moves from one stream to another.
use mohpc.Base.{
  ℕ, zero, suc, ◌+◌, ◌-◌, ◌*◌, ◌/◌, ◌≤◌, ◌<◌, ◌≡◌, refl, sym, ap, ◌∙◌, ◌++◌, arith, length, min,
  slice, overwrite, overwrite-append, overwrite_none, slice-add, length-slice, ok, sub_size,
  size_mod,
}
use mathlib.Core.Path.{subst}
use mohpc.Base.{List}
use mohpc.Stream.{begin}
use mohpc.Stream.Interface.{MessageStream}
use mohpc.Stream.Copy.{copy_blocks, copy, Copied}

rounds_enough : (len b p : ℕ) → 0 < b → len ≤ p + (len + b - 1) / b * b
rounds_enough len b p h = grind arith

module _ (outs ins : MessageStream) where
  -- One block, then a copy from where the block ended.
  Copied-cons :
      (n len k : ℕ) (out mid out' : outs.Stream) (s s₁ s' : ins.Stream)
      → outs.IsValid out
      → ins.IsValid s
      → ins.get_position s + n ≤ len
      → len ≤ ins.get_length s
      → ins.get_position s₁ ≡ ins.get_position s + n
      → ins.content s₁ ≡ ins.content s
      → outs.get_position mid ≡ outs.get_position out + n
      → outs.content mid
        ≡ overwrite
            (outs.get_position out)
            (slice (ins.get_position s) n (ins.content s))
            (outs.content out)
      → Copied outs ins len k mid out' s₁ s'
      → Copied outs ins len k out out' s s'
  Copied-cons n len k out mid out' s s₁ s' vo vi h1 h2 ps cs po co c =
      let p : ℕ = ins.get_position s in
      let q : ℕ = outs.get_position out in
      let whole : slice p (len - p) (ins.content s)
          ≡ slice p n (ins.content s) ++ slice (p + n) (len - (p + n)) (ins.content s) =
        slice-add (len - p) p (p + n) n (len - (p + n)) (ins.content s)
          (omega (arith, ins.length-content s vi)) (omega arith) refl in
      record {
        in_valid = c.in_valid;
        out_valid = c.out_valid;
        in_position = c.in_position;
        in_content = c.in_content ∙ cs;
        out_fits = c.out_fits;
        out_position = omega (arith, c.out_position);
        out_content =
            c.out_content
            ∙ rw (ps, cs, po, co, whole)
                (sym (
                  overwrite-append q (q + n) _ _ (outs.content out)
                    (omega (arith, outs.position_le out vo, outs.length-content out vo))
                    (omega (
                      arith,
                      length-slice p n (ins.content s) (omega (arith, ins.length-content s vi)),
                    ))));
      }

  copy_round :
      (block_size rounds len : ℕ) (out mid : outs.Stream) (s s₁ : ins.Stream) (buf : List ℕ)
      → ins.read (min (sub_size len (ins.get_position s)) block_size) s ≡ ok (buf, s₁)
      → outs.write buf out ≡ ok mid
      → copy_blocks outs ins block_size (suc rounds) len out s
        ≡ copy_blocks outs ins block_size rounds len mid s₁
  unfolding copy_blocks
  copy_round block_size rounds len out mid s s₁ buf e f = rw e (rw f)

  copy_blocks_lem :
      (block_size rounds len k : ℕ) (out : outs.Stream) (s : ins.Stream)
      → outs.IsValid out
      → ins.IsValid s
      → ins.get_position s ≤ len
      → len ≤ ins.get_length s
      → len < size_mod
      → len ≤ ins.get_position s + rounds * block_size
      → outs.Fits out (len - ins.get_position s + k)
      → (out' : outs.Stream) × (s' : ins.Stream) × (copy_blocks outs ins block_size rounds len out s
          ≡ ok (out', s'))
        × Copied outs ins len k out out' s s'
  unfolding copy_blocks
  copy_blocks_lem block_size zero len k out s vo vi h1 h2 h3 h4 f =
      let done : len - ins.get_position s ≡ 0 = omega arith in
      (
        out,
        s,
        refl,
        record {
          in_valid = vi;
          out_valid = vo;
          in_position = omega arith;
          in_content = refl;
          out_fits = subst (outs.Fits out) (omega (arith, done)) f;
          out_position = omega arith;
          out_content = rw done (sym (overwrite_none _ _));
        },
      )
  copy_blocks_lem block_size (suc rounds) len k out s vo vi h1 h2 h3 h4 f =
      let p : ℕ = ins.get_position s in
      let n : ℕ = min (len - p) block_size in
      let want : min (sub_size len p) block_size ≡ n = omega arith in
      let inside : p + n ≤ ins.get_length s = omega arith in
      let buf : List ℕ = slice p n (ins.content s) in
      let s₁ : ins.Stream = ins.seek (p + n) begin s in
      let long : length buf ≡ n =
        length-slice p n (ins.content s) (omega (arith, ins.length-content s vi)) in
      let (vi₁, ps, cs) = ins.seek_lem (p + n) s vi inside in
      let (mid, wrote, vm, fm, po, co) =
        outs.write_lem buf (len - (p + n) + k) out vo
          (subst (outs.Fits out) (omega (arith, long)) f) in
      let (out', s', ran, c) =
        copy_blocks_lem block_size rounds len k mid s₁ vm vi₁ (omega (arith, ps))
          (omega (arith, ins.length-content s₁ vi₁, ins.length-content s vi, ap length cs)) h3
          (omega (arith, ps)) (subst (outs.Fits mid) (omega (arith, ps)) fm) in
      (
        out',
        s',
        copy_round block_size rounds len out mid s s₁ buf
              (ap (λ (t : ℕ). ins.read t s) want ∙ ins.read_lem n s vi inside) wrote
            ∙ ran,
        Copied-cons n len k out mid out' s s₁ s' vo vi (omega arith) h2 ps cs
            (omega (arith, po, long)) co c,
      )

  -- A copy of a valid stream takes `len`, which is documented as a length, as the absolute position
  -- to copy up to. From wherever the stream stands before it and whatever the block size, the copy
  -- succeeds if the bytes fit the output: it writes exactly the bytes between the position and `len`,
  -- leaves the input at `len` with its content, and both streams valid.
  pub copy_lem :
      (block_size len k : ℕ) (out : outs.Stream) (s : ins.Stream)
      → 0 < block_size
      → outs.IsValid out
      → ins.IsValid s
      → ins.get_position s ≤ len
      → len ≤ ins.get_length s
      → len < size_mod
      → outs.Fits out (len - ins.get_position s + k)
      → (out' : outs.Stream) × (s' : ins.Stream) × (copy outs ins block_size len out s
          ≡ ok (out', s'))
        × Copied outs ins len k out out' s s'
  unfolding copy
  copy_lem block_size len k out s b vo vi h1 h2 h3 f =
      copy_blocks_lem block_size ((len + block_size - 1) / block_size) len k out s vo vi h1 h2 h3
        (rounds_enough len block_size (ins.get_position s) b) f
