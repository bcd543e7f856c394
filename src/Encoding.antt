-- ===== src/Encoding.antt =====
-- The message encoding of mohpc-lib/Network/Remote/Encoding.cpp: every byte is xored with a key that
-- runs along the last command that the other side acknowledged.
pub mod Pass
pub mod RoundTrip
pub mod Through
mod Tests
use mohpc.Base.{
  ℕ, zero, suc, ◌+◌, ◌-◌, ◌*◌, ◌%◌, ◌^◌, List, [], ◌∷◌, Bool, ◌||◌, get_or, ltb, ◌==◌,
  if◌then◌else◌, bit_xor, Result, ok, ◌>>=◌,
}
use mohpc.Stream.{StreamError, begin}
use mohpc.Stream.Interface.{MessageStream}
use mohpc.Reliable.{Slots, max_elements, get_slot}

-- The index into the command, which starts again at its NUL.
abbrev pub wrap_index : ℕ → List ℕ → ℕ
wrap_index index string = if get_or string index 0 == 0 then 0 else index

-- `XORKeyIndex`: what the key is xored with, beside the index. The command's NUL reads as 0;
-- `'.'` is 46 and `'%'` is 37.
pub xor_key_index : ℕ → ℕ → List ℕ → ℕ × ℕ
xor_key_index i index string =
    let c = get_or string (wrap_index index string) 0 in
    (if ltb 127 c || c == 37 then 46 * 2 ^ (i % 2) else c * 2 ^ (i % 2), wrap_index index string)

-- One byte from the list that the stream gave.
abbrev pub first : List ℕ → ℕ
first bs = get_or bs 0 0

-- `byteValue ^= key` on a `uint8_t`.
abbrev pub xor_byte : ℕ → ℕ → ℕ
xor_byte b key = bit_xor b key % 256

module _ (outs ins : MessageStream) (string : List ℕ) where
  -- `XORValues` from one stream into another; `rounds` is `len - i`.
  pub xor_values :
      ℕ → ℕ → ℕ → ℕ → outs.Stream → ins.Stream → Result StreamError (outs.Stream × ins.Stream)
  unfolding xor_key_index
  xor_values zero key i index out s = ok (out, s)
  xor_values (suc rounds) key i index out s =
      let (k, index') = xor_key_index i index string in
      let key' = bit_xor key k in
      do
        (b, s') ← ins.read 1 s
        out' ← outs.write (xor_byte (first b) key' ∷ []) out
        xor_values rounds key' (i + 1) (index' + 1) out' s'

module _ (ms : MessageStream) (string : List ℕ) where
  -- `XORValues` on one stream.
  pub xor_values_in_place : ℕ → ℕ → ℕ → ℕ → ms.Stream → Result StreamError ms.Stream
  unfolding xor_key_index
  xor_values_in_place zero key i index s = ok s
  xor_values_in_place (suc rounds) key i index s =
      let (k, index') = xor_key_index i index string in
      let key' = bit_xor key k in
      do
        (b, s') ← ms.read 1 s
        t ← ms.write (xor_byte (first b) key' ∷ []) (ms.seek i begin s')
        xor_values_in_place rounds key' (i + 1) (index' + 1) t

-- `XOREncoding`
pub record XorEncoding : Type 0 where
  pub challenge : ℕ
  pub remote_commands : Slots
  pub secret_key : ℕ
  pub message_acknowledge : ℕ
  pub reliable_acknowledge : ℕ

-- The acknowledged command, and the byte that the key starts with.
pub key_string : XorEncoding → List ℕ
unfolding get_slot
key_string e = get_slot e.remote_commands (e.reliable_acknowledge % max_elements e.remote_commands)

pub start_key : XorEncoding → ℕ
start_key e = bit_xor (bit_xor e.challenge e.secret_key) e.message_acknowledge % 256

-- `XOREncoding::convert` where `in` and `out` are the same stream.
pub convert_in_place : (ms : MessageStream) → XorEncoding → ms.Stream → Result StreamError ms.Stream
unfolding xor_values_in_place
convert_in_place ms e s = do
  t ←
      xor_values_in_place ms (key_string e) (ms.get_length s - ms.get_position s) (start_key e)
        (ms.get_position s) 0 s
  ok (ms.seek (ms.get_position s) begin t)

-- `XOREncoding::convert` where they are two streams.
pub convert :
    (outs ins : MessageStream)
    → XorEncoding
    → outs.Stream
    → ins.Stream
    → Result StreamError (outs.Stream × ins.Stream)
unfolding xor_values
convert outs ins e out s = do
  (out', s') ←
      xor_values outs ins (key_string e) (ins.get_length s - ins.get_position s) (start_key e)
        (ins.get_position s) 0 out s
  ok (outs.seek 0 begin out', s')
