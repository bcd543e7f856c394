-- ===== src/Channel/Messages.antt =====
-- A whole message out of its fragments.
use mohpc.Base.{
  ℕ, ◌+◌, ◌-◌, ◌%◌, ◌≡◌, ◌≢◌, ◌≤◌, ◌<◌, ◌⊎◌, inl, refl, sym, ap, subst, arith, List, [], ◌∷◌, ◌++◌,
  append_assoc, append-nil, true, false, some, ok, u32_mod, sub_u32, length, length-append, ◌==◌,
  ltb, leb, if◌then◌else◌, All,
}
use mohpc.Channel.{Netchan, fragment_size, fragment_bit, receive, receive_fragment}
use mohpc.Channel.Words.{bytes_of}
use mohpc.Channel.Fragments.{packet_of, receive-taken, assemble_lem, reads, length-packet_of}

-- The fragments of message `n`, one behind the other from `place` on, come in.
unfoldable pub feed : ℕ → ℕ → List (List ℕ) → Netchan → Netchan
feed n place [] chan = chan
feed n place (bytes ∷ rest) chan =
    feed n (place + length bytes) rest (receive (some (packet_of n place bytes)) chan).1

abbrev pub flatten : List (List ℕ) → List ℕ
flatten [] = []
flatten (bytes ∷ rest) = bytes ++ flatten rest

-- A channel amid message `n`: it has the bytes `collected` of it.
pub record Amid (n : ℕ) (collected : List ℕ) (chan : Netchan) : Type 0 where
  pub of_message : chan.fragment_sequence ≡ n
  pub has_bytes : chan.fragments ≡ collected
  pub not_old : chan.incoming_sequence ≤ n

full_fragment :
    (n : ℕ) (collected bytes : List ℕ) (chan : Netchan)
    → n < 65536
    → length bytes ≡ fragment_size
    → length collected < u32_mod
    → Amid n collected chan
    → Amid n (collected ++ bytes) (receive (some (packet_of n (length collected) bytes)) chan).1
full_fragment n collected bytes chan small full total amid =
    let full' : (length bytes == fragment_size) ≡ true = ground arith in
    let total' = subst (λ x. length x < u32_mod) (sym amid.has_bytes) total in
    rw (sym amid.has_bytes) (
      rw
        (
          receive-taken n bytes chan small amid.not_old total' (omega arith) (inl amid.of_message),
          full',
        )
        (record { of_message = refl; has_bytes = refl; not_old = amid.not_old }))

feed-Amid :
    (n : ℕ) (blocks : List (List ℕ)) (collected : List ℕ) (chan : Netchan)
    → n < 65536
    → All (λ bytes. length bytes ≡ fragment_size) blocks
    → length collected + length (flatten blocks) < u32_mod
    → Amid n collected chan
    → Amid n (collected ++ flatten blocks) (feed n (length collected) blocks chan)
unfolding feed
feed-Amid n [] collected chan small full total amid =
    subst (λ x. Amid n x chan) (sym (append-nil collected)) amid
feed-Amid n (bytes ∷ rest) collected chan small full total amid =
    let in_all = length-append bytes (flatten rest) in
    let so_far = length-append collected bytes in
    rw (sym (append_assoc collected bytes (flatten rest)), sym so_far)
      (feed-Amid n rest (collected ++ bytes) _ small full.1 (omega (arith, in_all, so_far))
        (full_fragment n collected bytes chan small full.0 (omega (arith, in_all)) amid))

-- A channel that is not amid message `n`, as good as empty.
abbrev emptied : ℕ → Netchan → Netchan
emptied n chan = record chan { fragment_sequence = n; fragments = [] }

receive_fragment-fresh :
    (n : ℕ) (packet : List ℕ) (chan : Netchan)
    → n < 65536
    → chan.fragment_sequence ≢ n ⊎ chan.fragments ≡ []
    → receive_fragment n packet chan ≡ receive_fragment n packet (emptied n chan)
unfolding receive_fragment
receive_fragment-fresh n packet chan small fresh =
    let same : (n == n) ≡ true = ground arith in
    let c : (if n == chan.fragment_sequence
          then chan
          else record chan { fragment_sequence = n % 65536; fragments = [] })
        ≡ emptied n chan =
      ground (arith, fresh) in
    rw (c, same) refl

receive-fresh :
    (n : ℕ) (bytes : List ℕ) (chan : Netchan)
    → n < 65536
    → length bytes < 65536
    → chan.incoming_sequence ≤ n
    → chan.fragment_sequence ≢ n ⊎ chan.fragments ≡ []
    → receive (some (packet_of n 0 bytes)) chan
      ≡ receive (some (packet_of n 0 bytes)) (emptied n chan)
unfolding receive
receive-fresh n bytes chan small short h fresh =
    let (number, _, _, _, _) = reads n 0 bytes (omega arith) (omega arith) short in
    let bit : (n + fragment_bit) % fragment_bit ≡ n = omega arith in
    let numbered : (n + fragment_bit == u32_mod - 1) ≡ false = ground arith in
    let later : ltb n chan.incoming_sequence ≡ false = ground arith in
    let marked : leb fragment_bit (n + fragment_bit) ≡ true = ground arith in
    rw (number, numbered, bit, later, marked)
      (receive_fragment-fresh n (packet_of n 0 bytes)
        (record chan { dropped = sub_u32 n (chan.incoming_sequence + 1) % 65536 }) small fresh)

last_fragment :
    (n : ℕ) (collected last : List ℕ) (chan : Netchan)
    → n < 65536
    → length last < fragment_size
    → fragment_size ≤ length collected
    → length collected < u32_mod
    → Amid n collected chan
    → ((receive (some (packet_of n (length collected) last)) chan).0
        ≡ ok (
            some (record {
              sequence = n;
              content = bytes_of 4 n ++ (collected ++ last);
              position = 4;
            })))
      × ((receive (some (packet_of n (length collected) last)) chan).1.incoming_sequence ≡ n)
      × ((receive (some (packet_of n (length collected) last)) chan).1.fragments ≡ [])
last_fragment n collected last chan small short long total amid =
    let total' = subst (λ x. length x < u32_mod) (sym amid.has_bytes) total in
    let long' = subst (λ x. fragment_size ≤ length x) (sym amid.has_bytes) long in
    let part : (length last == fragment_size) ≡ false = ground arith in
    let place = length chan.fragments in
    rw (sym amid.has_bytes) (
      rw
        (
          receive-taken n last chan small amid.not_old total' (omega arith) (inl amid.of_message),
          part,
        )
        (
          ap (λ r. ok (some r))
              (assemble_lem n (packet_of n place last) (chan.fragments ++ last)
                (omega (arith, length-packet_of n place last, length-append chan.fragments last))),
          refl,
          refl,
        ))

feed-fresh :
    (n : ℕ) (block : List ℕ) (blocks : List (List ℕ)) (chan : Netchan)
    → n < 65536
    → length block < 65536
    → chan.incoming_sequence ≤ n
    → chan.fragment_sequence ≢ n ⊎ chan.fragments ≡ []
    → feed n 0 (block ∷ blocks) chan ≡ feed n 0 (block ∷ blocks) (emptied n chan)
unfolding feed
feed-fresh n block blocks chan small short h fresh =
    ap (λ x. feed n (0 + length block) blocks x.1) (receive-fresh n block chan small short h fresh)

-- A message of at least one full fragment, all of 1300 bytes but a shorter last one and fewer than
-- 2^32 bytes in all before that, that comes in order into a channel that holds nothing of it, with
-- a number below 65536 that is not below the last one, is passed on with its last fragment: all its
-- bytes in order behind its number, where the reader goes on; the number is then the last one, and
-- the channel holds no fragments.
pub receive-message :
    (n : ℕ) (block : List ℕ) (blocks : List (List ℕ)) (last : List ℕ) (chan : Netchan)
    → n < 65536
    → chan.incoming_sequence ≤ n
    → chan.fragment_sequence ≢ n ⊎ chan.fragments ≡ []
    → All (λ bytes. length bytes ≡ fragment_size) (block ∷ blocks)
    → length last < fragment_size
    → length (flatten (block ∷ blocks)) < u32_mod
    → ((receive
          (some (packet_of n (length (flatten (block ∷ blocks))) last))
          (feed n 0 (block ∷ blocks) chan)).0
        ≡ ok (
            some (record {
              sequence = n;
              content = bytes_of 4 n ++ (flatten (block ∷ blocks) ++ last);
              position = 4;
            })))
      × ((receive
            (some (packet_of n (length (flatten (block ∷ blocks))) last))
            (feed n 0 (block ∷ blocks) chan)).1.incoming_sequence
          ≡ n)
      × ((receive
            (some (packet_of n (length (flatten (block ∷ blocks))) last))
            (feed n 0 (block ∷ blocks) chan)).1.fragments
          ≡ [])
receive-message n block blocks last chan small h fresh full short total =
    let row = block ∷ blocks in
    let amid =
      subst (λ c. Amid n (flatten row) c)
        (sym (feed-fresh n block blocks chan small (omega (arith, full.0)) h fresh))
        (feed-Amid n row [] (emptied n chan) small full (omega arith)
          (record { of_message = refl; has_bytes = refl; not_old = h })) in
    last_fragment n (flatten row) last (feed n 0 row chan) small short
      (omega (arith, length-append block (flatten blocks), full.0)) total amid
