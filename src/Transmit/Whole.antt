-- ===== src/Transmit/Whole.antt =====
-- A message that fits one packet.
use mohpc.Base.{
  ℕ, ◌+◌, ◌-◌, ◌≤◌, ◌<◌, ◌^◌, ◌≡◌, refl, sym, ap, ap₂, subst, ◌∙◌, arith, List, [], ◌∷◌, ◌++◌,
  length, get_or, take, take_of_length_le, drop, slice, overwrite, Bool, false, Result, ok, ◌>>=◌,
  add_u32,
}
use mohpc.Stream.{StreamError, begin, current}
use mohpc.Stream.Interface.{MessageStream}
use mohpc.Stream.Dynamic.{
  DynamicStream, empty_stream, content, reserve, write, seek, get_length, get_position, Fits,
}
use mohpc.Stream.Dynamic.Laws.{dynamic_stream}
use mohpc.Stream.Copy.{copy}
use mohpc.Stream.Copy.Laws.{copy_lem}
use mohpc.Channel.{Netchan, fragment_size}
use mohpc.Channel.Words.{bytes_of}
use mohpc.Transmit.{packet_header, max_packetlen, transmit_whole}
use mohpc.Transmit.Prepared.{Prepared, headed, widened}

overwrite_all : (bs xs : List ℕ) → length xs ≡ length bs → overwrite 0 bs xs ≡ bs
overwrite_all [] [] h = refl
overwrite_all [] (x ∷ xs) h = absurd (omega (arith, h))
overwrite_all (b ∷ bs) [] h = absurd (omega (arith, h))
overwrite_all (b ∷ bs) (x ∷ xs) h = ap (◌∷◌ b) (overwrite_all bs xs (omega (arith, h)))

overwrite-behind :
    (header bs xs : List ℕ)
    → take (length header) xs ≡ header
    → length xs ≡ length header + length bs
    → overwrite (length header) bs xs ≡ header ++ bs
overwrite-behind [] bs xs front long = overwrite_all bs xs (omega (arith, long))
overwrite-behind (c ∷ header) bs [] front long = absurd (omega (arith, long))
overwrite-behind (c ∷ header) bs (x ∷ xs) front long =
    ap₂ ◌∷◌ (ap (λ (l : List ℕ). get_or l 0 x) front)
      (overwrite-behind header bs xs (ap (λ (l : List ℕ). drop 1 l) front) (omega (arith, long)))

length-packet_header :
    (qport : ℕ) (fragmented : Bool) (chan : Netchan)
    → length (packet_header qport fragmented chan) ≡ 6
unfolding bytes_of
length-packet_header qport fragmented chan = refl

Prepared-Fits :
    (uninit : ℕ → List ℕ) (length-uninit : (n : ℕ) → length (uninit n) ≡ n) (header : List ℕ)
    (n : ℕ) (out : DynamicStream) (k : ℕ)
    → Prepared uninit length-uninit header n out
    → length header + k ≤ 2 ^ 60
    → Fits out k
unfolding get_position
Prepared-Fits uninit length-uninit header n out k prep h = omega (arith, prep.place, h)

module _ (uninit : ℕ → List ℕ) (length-uninit : (n : ℕ) → length (uninit n) ≡ n)
    (ins : MessageStream) where
  -- The body is copied behind the header.
  copied-body :
      (block_size : ℕ) (header : List ℕ) (out : DynamicStream) (s : ins.Stream)
      → 0 < block_size
      → length header ≤ 2000
      → ins.get_length s ≤ 2000
      → Prepared uninit length-uninit header (ins.get_length s) out
      → ins.IsValid s
      → (out' : DynamicStream) × (s' : ins.Stream) × (copy
            (dynamic_stream uninit length-uninit)
            ins
            block_size
            (ins.get_length s)
            out
            (ins.seek 0 begin s)
          ≡ ok (out', s'))
        × (content out' ≡ header ++ ins.content s)
        × ins.IsValid s'
        × (ins.content s' ≡ ins.content s)
        × (ins.get_position s' ≡ ins.get_length s)
  copied-body block_size header out s b small short prep v =
      let (valid, place, same) = ins.seek_lem 0 s v (omega arith) in
      let n = ins.get_length s in
      let s0 = ins.seek 0 begin s in
      let size : ins.get_length s0 ≡ n =
        sym (ins.length-content s0 valid) ∙ ap length same ∙ ins.length-content s v in
      let (out', s', ran, done) =
        copy_lem (dynamic_stream uninit length-uninit) ins block_size n 0 out s0 b prep.valid valid
          (omega (arith, place)) (omega (arith, size)) (omega (arith, short))
          (Prepared-Fits uninit length-uninit header n out (n - ins.get_position s0 + 0) prep
            (omega (arith, small, short))) in
      let whole : slice (ins.get_position s0) (n - ins.get_position s0) (ins.content s0)
          ≡ ins.content s =
        ap₂ (λ (i : ℕ) (xs : List ℕ). slice i (n - i) xs) place same
        ∙ take_of_length_le (n - 0) (ins.content s) (omega (arith, ins.length-content s v)) in
      let text : content out' ≡ header ++ ins.content s =
        done.out_content
        ∙ ap₂ (λ (i : ℕ) (bs : List ℕ). overwrite i bs (content out)) prep.place whole
        ∙ overwrite-behind header (ins.content s) (content out) prep.front
            (omega (arith, prep.long, ins.length-content s v)) in
      (out', s', ran, text, done.in_valid, done.in_content ∙ same, done.in_position)

  abbrev copy_behind :
      ℕ → DynamicStream → ℕ → ins.Stream → Result StreamError (DynamicStream × ins.Stream)
  copy_behind l t n s =
      copy (dynamic_stream uninit length-uninit) ins max_packetlen n
        (seek uninit l begin (seek uninit n current t)) (ins.seek 0 begin s)

  transmit_whole-eq :
      (qport : ℕ) (chan : Netchan) (s s' : ins.Stream) (t out' : DynamicStream)
      → write uninit
          (packet_header qport false chan)
          (reserve uninit (ins.get_length s + 6) empty_stream)
        ≡ ok t
      → copy_behind (get_length t) t (ins.get_length s) s ≡ ok (out', s')
      → transmit_whole uninit length-uninit ins qport chan s
        ≡ ok
            (content out', s', record chan { outgoing_sequence = add_u32 chan.outgoing_sequence 1 })
  unfolding transmit_whole
  transmit_whole-eq qport chan s s' t out' wrote ran =
      let sent : Netchan = record chan { outgoing_sequence = add_u32 chan.outgoing_sequence 1 } in
      let last : DynamicStream × ins.Stream → Result StreamError (List ℕ × ins.Stream × Netchan) =
        λ x. ok (content x.0, x.1, sent) in
      ap (λ r. r >>= λ u. copy_behind (get_length u) u (ins.get_length s) s >>= last) wrote
      ∙ ap (λ r. r >>= last) ran

  -- The packet of a message below FRAGMENT_SIZE is its header and all of the message.
  pub transmit_whole_lem :
      (qport : ℕ) (chan : Netchan) (s : ins.Stream)
      → ins.IsValid s
      → ins.get_length s < fragment_size
      → (s' : ins.Stream) × (transmit_whole uninit length-uninit ins qport chan s
          ≡ ok (
            packet_header qport false chan ++ ins.content s,
            s',
            record chan { outgoing_sequence = add_u32 chan.outgoing_sequence 1 },
          ))
        × ins.IsValid s'
        × (ins.content s' ≡ ins.content s)
  transmit_whole_lem qport chan s v short =
      let header = packet_header qport false chan in
      let n = ins.get_length s in
      let six : length header ≡ 6 = length-packet_header qport false chan in
      let (t, wrote, valid, place, text) =
        headed uninit length-uninit header (n + 6) (omega (arith, short)) (omega (arith, six)) in
      let prep =
        widened uninit length-uninit header n t valid place text (omega (arith, six, short)) in
      let out = seek uninit (length header) begin (seek uninit n current t) in
      let (out', s', ran, sent, valid', same, _) =
        copied-body max_packetlen header out s (omega arith) (omega (arith, six))
          (omega (arith, short)) prep v in
      let here : get_length t ≡ length header =
        sym ((dynamic_stream uninit length-uninit).length-content t valid) ∙ ap length text in
      let ran' : copy_behind (get_length t) t n s ≡ ok (out', s') =
        subst (λ (l : ℕ). copy_behind l t n s ≡ ok (out', s')) (sym here) ran in
      let after : Netchan = record chan { outgoing_sequence = add_u32 chan.outgoing_sequence 1 } in
      (
        s',
        transmit_whole-eq qport chan s s' t out' wrote ran'
            ∙ ap (λ (packet : List ℕ). ok (packet, s', after)) sent,
        valid',
        same,
      )
