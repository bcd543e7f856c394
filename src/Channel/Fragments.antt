-- ===== src/Channel/Fragments.antt =====
-- A message that comes in fragments.
use mohpc.Base.{
  ℕ, zero, suc, ◌+◌, ◌-◌, ◌%◌, ◌≡◌, ◌≤◌, ◌<◌, ◌⊎◌, refl, ap, arith, List, [], ◌∷◌, ◌++◌, true,
  false, Option, none, some, Result, ok, u32_mod, sub_u32, length, length-append, length-replicate,
  slice_all, replicate, overwrite, slice, drop, leb, ltb, ◌==◌, if◌then◌else◌,
}
use mohpc.Channel.{
  Netchan, Received, ChannelError, fragment_bit, fragment_size, receive, receive_fragment, assemble,
  append_fragment, seek_to, write_packet_server_header,
}
use mohpc.Channel.Words.{bytes_of, value_of}

-- The packet of a fragment: number, place, length and bytes.
unfoldable pub packet_of : ℕ → ℕ → List ℕ → List ℕ
packet_of n start bytes =
    bytes_of 4 (n + fragment_bit) ++ (bytes_of 4 start ++ (bytes_of 2 (length bytes) ++ bytes))

overwrite-append_end :
    (fragments bytes : List ℕ) (k : ℕ)
    → k ≤ length bytes
    → overwrite (length fragments) bytes (fragments ++ replicate k 0) ≡ fragments ++ bytes
overwrite-append_end [] [] zero h = refl
overwrite-append_end [] [] (suc k) h = absurd (omega arith)
overwrite-append_end [] (b ∷ bytes) zero h = refl
overwrite-append_end [] (b ∷ bytes) (suc k) h =
    ap (◌∷◌ b) (overwrite-append_end [] bytes k (omega arith))
overwrite-append_end (x ∷ fragments) bytes k h =
    ap (◌∷◌ x) (overwrite-append_end fragments bytes k h)

append_fragment_lem :
    (bytes fragments : List ℕ) → append_fragment bytes fragments ≡ fragments ++ bytes
unfolding append_fragment seek_to
append_fragment_lem bytes fragments =
    overwrite-append_end fragments bytes (length bytes - length fragments) (omega arith)

overwrite_all : (bytes old : List ℕ) → length old ≤ length bytes → overwrite 0 bytes old ≡ bytes
overwrite_all [] [] h = refl
overwrite_all [] (x ∷ old) h = absurd (omega arith)
overwrite_all (b ∷ bytes) [] h = refl
overwrite_all (b ∷ bytes) (x ∷ old) h = ap (◌∷◌ b) (overwrite_all bytes old (omega arith))

number_then : (n : ℕ) {a b : List ℕ} → a ≡ b → bytes_of 4 n ++ a ≡ bytes_of 4 n ++ b
number_then n e = ap (λ x. bytes_of 4 n ++ x) e

over_number :
    (n : ℕ) (fragments stream : List ℕ)
    → length stream ≤ 4 + length fragments
    → overwrite 4 fragments (overwrite 0 (bytes_of 4 n) stream) ≡ bytes_of 4 n ++ fragments
unfolding bytes_of
over_number n f [] h = number_then n (overwrite_all f [] (omega arith))
over_number n f (a ∷ []) h = number_then n (overwrite_all f [] (omega arith))
over_number n f (a ∷ b ∷ []) h = number_then n (overwrite_all f [] (omega arith))
over_number n f (a ∷ b ∷ c ∷ []) h = number_then n (overwrite_all f [] (omega arith))
over_number n f (a ∷ b ∷ c ∷ d ∷ stream) h = number_then n (overwrite_all f stream (omega arith))

pub assemble_lem :
    (n : ℕ) (packet fragments : List ℕ)
    → length packet ≤ 4 + length fragments
    → assemble n packet fragments
      ≡ record { sequence = n; content = bytes_of 4 n ++ fragments; position = 4 }
unfolding assemble write_packet_server_header seek_to
assemble_lem n packet fragments h =
    ap (λ c. record { sequence = n; content = c; position = 4 })
      (over_number n fragments (seek_to (length fragments) packet) (
        omega (
          arith,
          length-append packet (replicate (length fragments - length packet) 0),
          length-replicate {A = ℕ} (length fragments - length packet) 0,
        )))

pub length-packet_of :
    (n start : ℕ) (bytes : List ℕ) → length (packet_of n start bytes) ≡ 10 + length bytes
unfolding packet_of bytes_of
length-packet_of n start bytes = omega arith

-- What the reads of a packet find.
pub reads :
    (n start : ℕ) (bytes : List ℕ)
    → n < fragment_bit
    → start < u32_mod
    → length bytes < 65536
    → (value_of 4 (packet_of n start bytes) ≡ n + fragment_bit)
      × (value_of 4 (drop 4 (packet_of n start bytes)) ≡ start)
      × (value_of 2 (drop 8 (packet_of n start bytes)) ≡ length bytes)
      × (slice 10 (length bytes) (packet_of n start bytes) ≡ bytes)
      × (length (packet_of n start bytes) ≡ 10 + length bytes)
unfolding packet_of bytes_of value_of
reads n start bytes h k b = (omega arith, omega arith, omega arith, slice_all bytes, omega arith)

same_message :
    (n : ℕ) (chan : Netchan)
    → n < 65536
    → chan.fragment_sequence ≡ n ⊎ chan.fragments ≡ []
    → (if n == chan.fragment_sequence
        then chan
        else record chan { fragment_sequence = n % 65536; fragments = [] })
      ≡ record chan { fragment_sequence = n }
same_message n chan small turn = ground (arith, turn)

-- What becomes of a fragment that comes in its turn.
abbrev taken : ℕ → List ℕ → List ℕ → Netchan → Result ChannelError (Option Received) × Netchan
taken n packet bytes chan =
    if length bytes == fragment_size
    then (ok none, record chan { fragment_sequence = n; fragments = chan.fragments ++ bytes })
    else (
      ok (some (assemble n packet (chan.fragments ++ bytes))),
      record chan { fragment_sequence = n; fragments = []; incoming_sequence = n },
    )

receive_fragment-taken :
    (n : ℕ) (packet bytes : List ℕ) (chan : Netchan)
    → n < 65536
    → chan.fragment_sequence ≡ n ⊎ chan.fragments ≡ []
    → value_of 4 (drop 4 packet) ≡ length chan.fragments
    → value_of 2 (drop 8 packet) ≡ length bytes
    → slice 10 (length bytes) packet ≡ bytes
    → length packet ≡ 10 + length bytes
    → receive_fragment n packet chan ≡ taken n packet bytes chan
unfolding receive_fragment
receive_fragment-taken n packet bytes chan small turn start len held size =
    let at_end : (length chan.fragments == length chan.fragments) ≡ true = ground arith in
    let whole : ltb (10 + length bytes) (10 + length bytes) ≡ false = ground arith in
    let cut : n % 65536 ≡ n = omega arith in
    rw
      (
        same_message n chan small turn,
        start,
        len,
        held,
        size,
        append_fragment_lem bytes chan.fragments,
        at_end,
        whole,
        cut,
      )
      refl

pub receive-taken :
    (n : ℕ) (bytes : List ℕ) (chan : Netchan)
    → n < 65536
    → chan.incoming_sequence ≤ n
    → length chan.fragments < u32_mod
    → length bytes < 65536
    → chan.fragment_sequence ≡ n ⊎ chan.fragments ≡ []
    → receive (some (packet_of n (length chan.fragments) bytes)) chan
      ≡ taken n
          (packet_of n (length chan.fragments) bytes)
          bytes
          (record chan { dropped = sub_u32 n (chan.incoming_sequence + 1) % 65536 })
unfolding receive
receive-taken n bytes chan small h total short turn =
    let (number, start, len, held, size) =
      reads n (length chan.fragments) bytes (omega arith) total short in
    let bit : (n + fragment_bit) % fragment_bit ≡ n = omega arith in
    let numbered : (n + fragment_bit == u32_mod - 1) ≡ false = ground arith in
    let later : ltb n chan.incoming_sequence ≡ false = ground arith in
    let marked : leb fragment_bit (n + fragment_bit) ≡ true = ground arith in
    rw (number, numbered, bit, later, marked)
      (receive_fragment-taken n _ bytes
        (record chan { dropped = sub_u32 n (chan.incoming_sequence + 1) % 65536 }) small turn start
        len held size)
