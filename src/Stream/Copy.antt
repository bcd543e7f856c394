-- ===== src/Stream/Copy.antt =====
-- `streamHelpers::Copy` of include/MOHPC/Utility/Misc/MSG/Stream.h, over any two streams.
pub mod Laws
use mohpc.Base.{
  ℕ, zero, suc, ◌+◌, ◌-◌, ◌/◌, ◌≡◌, min, slice, overwrite, Result, ok, ◌>>=◌, sub_size,
}
use mohpc.Stream.{StreamError}
use mohpc.Stream.Interface.{MessageStream}

module _ (outs ins : MessageStream) where
  -- `rounds` is the number of blocks left. What is read in a round is cut to `len` as an absolute
  -- position of the stream that is read.
  unfoldable pub copy_blocks :
      ℕ → ℕ → ℕ → outs.Stream → ins.Stream → Result StreamError (outs.Stream × ins.Stream)
  copy_blocks block_size zero len out s = ok (out, s)
  copy_blocks block_size (suc rounds) len out s = do
    (buf, s') ← ins.read (min (sub_size len (ins.get_position s)) block_size) s
    out' ← outs.write buf out
    copy_blocks block_size rounds len out' s'

  -- `Copy<BLOCK_SIZE>(out, in, len)`: one round for each multiple of the block size below `len`.
  unfoldable pub copy :
      ℕ → ℕ → outs.Stream → ins.Stream → Result StreamError (outs.Stream × ins.Stream)
  unfolding copy_blocks
  copy block_size len out s = copy_blocks block_size ((len + block_size - 1) / block_size) len out s

  -- What a copy that succeeded has done.
  pub record Copied (len k : ℕ) (out out' : outs.Stream) (s s' : ins.Stream) : Type 0 where
    pub in_valid : ins.IsValid s'
    pub out_valid : outs.IsValid out'
    pub in_position : ins.get_position s' ≡ len
    pub in_content : ins.content s' ≡ ins.content s
    pub out_fits : outs.Fits out' k
    pub out_position : outs.get_position out' ≡ outs.get_position out + (len - ins.get_position s)
    pub out_content :
        outs.content out'
        ≡ overwrite
            (outs.get_position out)
            (slice (ins.get_position s) (len - ins.get_position s) (ins.content s))
            (outs.content out)
