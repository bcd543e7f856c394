-- ===== src/Stream/Tests.antt =====
-- Concrete streams, and the theorems on streams at them.
use mohpc.Base.{
  ℕ, ◌+◌, ◌<◌, ◌≡◌, refl, ◌⊎◌, arith, List, [], ◌∷◌, length, overwrite, replicate, length-replicate,
  some, ok, err,
}
use mohpc.Stream.{begin, overflow, reading, writing}
use mohpc.Stream.Fixed
use mohpc.Stream.Fixed.{FixedStream}
use mohpc.Stream.Fixed.Laws.{fixed_stream}
use mohpc.Stream.Fixed.Bounds.{write_cases}
use mohpc.Stream.Dynamic
use mohpc.Stream.Dynamic.{DynamicStream, empty_stream}
use mohpc.Stream.Dynamic.Growth.{read-write_grown}
use mohpc.Stream.Dynamic.Laws.{dynamic_stream}
use mohpc.Stream.Copy.{copy, Copied}
use mohpc.Stream.Copy.Laws.{copy_lem}

-- Four bytes of memory of which three can be read, at the start.
abbrev packet : FixedStream
packet = record { storage = 1 ∷ 2 ∷ 3 ∷ 4 ∷ []; len = 3; max_length = 4; cur_pos = 0 }

abbrev zeros : ℕ → List ℕ
zeros n = replicate n 0

abbrev length-zeros : (n : ℕ) → length (zeros n) ≡ n
length-zeros n = length-replicate n 0

packet-IsValid : Fixed.IsValid packet
packet-IsValid = omega arith

empty_stream-IsValid : Dynamic.IsValid empty_stream
empty_stream-IsValid = omega arith

-- One byte past the end of what is readable.
stale_byte : Fixed.read 4 packet ≡ ok (1 ∷ 2 ∷ 3 ∷ 4 ∷ [], record packet { cur_pos = 4 })
unfolding Fixed.read
stale_byte = refl

two_past_end : Fixed.read 5 packet ≡ err (overflow reading)
unfolding Fixed.read
two_past_end = refl

write_cases_example :
    ((t : FixedStream) × (Fixed.write (7 ∷ 8 ∷ []) packet ≡ ok t)
      × Fixed.IsValid t
      × (Fixed.get_position t ≡ Fixed.get_position packet + 2)
      × (Fixed.content t ≡ overwrite (Fixed.get_position packet) (7 ∷ 8 ∷ []) (1 ∷ 2 ∷ 3 ∷ [])))
    ⊎ ((4 < Fixed.get_position packet + 2)
        × (Fixed.write (7 ∷ 8 ∷ []) packet ≡ err (overflow writing)))
write_cases_example = write_cases (7 ∷ 8 ∷ []) packet packet-IsValid (omega arith)

abbrev written : FixedStream
written = record { storage = 7 ∷ 8 ∷ 3 ∷ 4 ∷ []; len = 3; max_length = 4; cur_pos = 2 }

packet-written : Fixed.write (7 ∷ 8 ∷ []) packet ≡ ok written
unfolding Fixed.write
packet-written = refl

abbrev grown : DynamicStream
grown = record { storage = some (9 ∷ 8 ∷ 0 ∷ 0 ∷ []); len = 2; max_length = 4; cur_pos = 2 }

empty_grown : Dynamic.write zeros (9 ∷ 8 ∷ []) empty_stream ≡ ok grown
unfolding Dynamic.write
empty_grown = refl

read-write_grown_example :
    (t : DynamicStream) × (Dynamic.write zeros (9 ∷ 8 ∷ []) empty_stream ≡ ok t)
    × (Dynamic.read 2 (Dynamic.seek zeros (Dynamic.get_position empty_stream) begin t)
        ≡ ok (
          9 ∷ 8 ∷ [],
          Dynamic.seek zeros
              (Dynamic.get_position empty_stream + 2)
              begin
              (Dynamic.seek zeros (Dynamic.get_position empty_stream) begin t),
        ))
read-write_grown_example =
    read-write_grown zeros length-zeros (9 ∷ 8 ∷ []) empty_stream empty_stream-IsValid (omega arith)

-- Three bytes in blocks of two.
copy_lem_example :
    (out' : DynamicStream) × (s' : FixedStream) × (copy
        (dynamic_stream zeros length-zeros)
        fixed_stream
        2
        3
        empty_stream
        packet
      ≡ ok (out', s'))
    × Copied (dynamic_stream zeros length-zeros) fixed_stream 3 0 empty_stream out' packet s'
copy_lem_example =
    copy_lem (dynamic_stream zeros length-zeros) fixed_stream 2 3 0 empty_stream packet
      (omega arith) empty_stream-IsValid packet-IsValid (unfold Fixed.get_position in omega arith)
      (unfold Fixed.get_length in omega arith) (omega arith)
      (unfold Fixed.get_position in omega arith)
