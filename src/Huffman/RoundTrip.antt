-- ===== src/Huffman/RoundTrip.antt =====
-- A byte that one tree sends, the other receives.
use mohpc.Base.{ℕ, ◌+◌, ◌*◌, ◌≤◌, ◌<◌, ◌≡◌, ◌∙◌, ap, arith, length, some}
use mohpc.Huffman.{BitBuffer, bit_at, offset_transmit, offset_receive}
use mohpc.Huffman.Bits.{IsClean, Extends, add_bits, add_bits-Extends}
use mohpc.Huffman.Codes.{
  bits_of, length-bits_of, bits_of-AreBits, offset_transmit_bits, offset_receive-Holds,
}
use mohpc.Huffman.Table.{compression_huff, decompression_huff}

-- In a buffer with no bits set at and above the position in the byte that it is in, and with 11
-- bits of room, the compression tree sends a byte in 1 to 11 bits: the decompression tree receives
-- the same byte from where it was sent and stops right behind it, the bits before are kept, and
-- the buffer is as long and as clean as before.
pub offset_receive-offset_transmit :
    (ch : ℕ) (b : BitBuffer)
    → ch < 256
    → IsClean b
    → b.bit + 11 ≤ 8 * length b.bytes
    → (t : BitBuffer) × (offset_transmit compression_huff ch b ≡ some t)
      × (offset_receive decompression_huff (record t { bit = b.bit }) ≡ some (ch, t))
      × (b.bit < t.bit)
      × (t.bit ≤ b.bit + 11)
      × IsClean t
      × (length t.bytes ≡ length b.bytes)
      × ((i : ℕ) → i < b.bit → bit_at t.bytes i ≡ bit_at b.bytes i)
offset_receive-offset_transmit ch b small clean fits =
    let (some_bits, few) = length-bits_of ch small in
    let t = add_bits (bits_of ch) b in
    let e : Extends (bits_of ch) b t =
      add_bits-Extends (bits_of ch) b (bits_of-AreBits ch small) clean (omega (arith, few)) in
    (
      t,
      offset_transmit_bits ch b small,
      offset_receive-Holds ch (record t { bit = b.bit }) small e.there
          ∙ ap (λ (x : ℕ). some (ch, record t { bit = x })) (omega (arith, e.moved)),
      omega (arith, e.moved, some_bits),
      omega (arith, e.moved, few),
      e.clean,
      e.room,
      e.kept,
    )
