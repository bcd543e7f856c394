-- ===== src/Huffman/Tests.antt =====
-- Bytes of long and of short codes.
use mohpc.Base.{ℕ, ◌+◌, ◌≤◌, ◌<◌, ◌≡◌, refl, arith, [], ◌∷◌, length, some, replicate}
use mohpc.Huffman.{BitBuffer, bit_at, node_at, offset_transmit, offset_receive}
use mohpc.Huffman.Bits.{IsClean}
use mohpc.Huffman.Codes.{bits_of}
use mohpc.Huffman.RoundTrip.{offset_receive-offset_transmit}
use mohpc.Huffman.Table.{compression_huff, decompression_huff}

-- Five bits of the first byte are taken.
abbrev started : BitBuffer
started = record { bytes = 19 ∷ replicate 15 0; bit = 5 }

started-IsClean : IsClean started
unfolding IsClean
started-IsClean h = omega arith

offset_receive-offset_transmit_example :
    (t : BitBuffer) × (offset_transmit compression_huff 42 started ≡ some t)
    × (offset_receive decompression_huff (record t { bit = 5 }) ≡ some (42, t))
    × (5 < t.bit)
    × (t.bit ≤ 5 + 11)
    × IsClean t
    × (length t.bytes ≡ 16)
    × ((i : ℕ) → i < 5 → bit_at t.bytes i ≡ bit_at started.bytes i)
offset_receive-offset_transmit_example =
    offset_receive-offset_transmit 42 started (omega arith) started-IsClean (omega arith)

-- The byte 208 is sent as nine zeros.
zeros : bits_of 208 ≡ replicate 9 0
unfolding bits_of node_at compression_huff
zeros = refl

most_frequent : bits_of 0 ≡ 0 ∷ 1 ∷ []
unfolding bits_of node_at compression_huff
most_frequent = refl
