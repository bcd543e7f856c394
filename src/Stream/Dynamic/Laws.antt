-- ===== src/Stream/Dynamic/Laws.antt =====
-- `DynamicDataMessageStream` keeps its invariant, and is an `IMessageStream`.
use mohpc.Base.{
  ℕ, zero, suc, ◌+◌, ◌*◌, ◌%◌, ◌≤◌, ◌^◌, ◌≡◌, refl, sym, ap, ◌∙◌, arith, List, [], ◌∷◌, length, min,
  slice, splice, overwrite, ok, take, Option, none, some, size_mod, ltb, add_size, Bool-cases, inl,
  inr, length-take, length-splice, slice-take, take-splice-overwrite, take_of_length_le,
}
use mohpc.Base.{◌>>=◌}
use mohpc.Stream.{begin, copy_in}
use mohpc.Stream.Interface.{MessageStream}
use mohpc.Stream.Dynamic.{
  DynamicStream, read, write, seek, reallocate, allocate, make_room, move_to, get_length,
  get_position, buffer, stored, carry_over, content, IsValid, Fits,
}

pub position_le : (s : DynamicStream) → IsValid s → get_position s ≤ get_length s
unfolding get_position get_length
position_le s v = omega arith

pub length-content : (s : DynamicStream) → IsValid s → length (content s) ≡ get_length s
unfolding get_length
length-content s v = omega (arith, length-take s.len (buffer s.storage))

module _ (uninit : ℕ → List ℕ) (length-uninit : (n : ℕ) → length (uninit n) ≡ n) where
  pub read_inside :
      (n : ℕ) (s : DynamicStream)
      → IsValid s
      → get_position s + n ≤ get_length s
      → read n s
        ≡ ok (slice (get_position s) n (content s), seek uninit (get_position s + n) begin s)
  unfolding read seek get_length get_position
  read_inside n s v h = ground (arith, slice-take s.len s.cur_pos n (buffer s.storage))

  pub seek_inside :
      (o : ℕ) (s : DynamicStream)
      → IsValid s
      → o ≤ get_length s
      → IsValid (seek uninit o begin s)
        × (get_position (seek uninit o begin s) ≡ o)
        × (content (seek uninit o begin s) ≡ content s)
  unfolding get_length get_position seek
  seek_inside o s v h = ground arith

  pub seek-Fits :
      (o n : ℕ) (s : DynamicStream)
      → IsValid s
      → o + n ≤ get_length s
      → Fits (seek uninit o begin s) n
  unfolding get_length seek
  seek-Fits o n s v h = ground arith

  take-splice_zero :
      (n : ℕ) (bs xs : List ℕ)
      → n ≤ length bs
      → length bs ≤ length xs
      → take n (splice 0 bs xs) ≡ take n bs
  take-splice_zero zero bs xs h k = refl
  take-splice_zero (suc n) [] xs h k = absurd (omega arith)
  take-splice_zero (suc n) (b ∷ bs) [] h k = absurd (omega arith)
  take-splice_zero (suc n) (b ∷ bs) (x ∷ xs) h k =
      ap (◌∷◌ b) (take-splice_zero n bs xs (omega arith) (omega arith))

  pub carry_over-keeps :
      (n m : ℕ) (o : Option (List ℕ))
      → length (buffer o) ≡ m
      → m ≤ n
      → (length (carry_over uninit n m o) ≡ n) × (take m (carry_over uninit n m o) ≡ buffer o)
  unfolding carry_over
  carry_over-keeps n m none h k = (length-uninit n, ap (λ (t : ℕ). take t (uninit n)) (sym h))
  carry_over-keeps n m (some old) h k =
      let whole : take (min n m) old ≡ old = take_of_length_le (min n m) old (omega arith) in
      rw whole (
        length-splice 0 old (uninit n) ∙ length-uninit n,
        take-splice_zero m old (uninit n) (omega arith) (omega (arith, length-uninit n))
            ∙ take_of_length_le m old (omega arith),
      )

  -- The buffer into which `Write` copies is large enough, and holds the same content.
  record HasRoom (n : ℕ) (s r : DynamicStream) : Type 0 where
    backed : length (buffer r.storage) ≡ r.max_length
    room : s.cur_pos + n ≤ r.max_length
    larger : s.len ≤ r.max_length
    position : r.cur_pos ≡ s.cur_pos
    len_same : r.len ≡ s.len
    bounded : r.max_length ≤ 2 ^ 62
    same : take r.len (buffer r.storage) ≡ take s.len (buffer s.storage)

  make_room-HasRoom :
      (n : ℕ) (s : DynamicStream) → IsValid s → Fits s n → HasRoom n s (make_room uninit n s)
  unfolding make_room allocate reallocate
  make_room-HasRoom n s v h = elim (Bool-cases (ltb s.max_length (add_size s.cur_pos n))) [
    | inl grow ↦ rw grow (
        let big : ℕ = (s.max_length + n) * 2 % size_mod in
        let large : s.max_length ≤ big = ground arith in
        let (long, kept) = carry_over-keeps big s.max_length s.storage v.backed large in
        record {
          backed = long;
          room = ground arith;
          larger = ground arith;
          position = refl;
          len_same = refl;
          bounded = ground arith;
          same =
              sym (
                slice-take s.max_length 0 s.len (carry_over uninit big s.max_length s.storage)
                  (omega arith))
              ∙ ap (take s.len) kept;
        })
    | inr enough ↦ rw enough (record {
      backed = v.backed;
      room = ground arith;
      larger = v.in_storage;
      position = refl;
      len_same = refl;
      bounded = v.bounded;
      same = refl;
    })
  ]

  -- What `Write` makes of the buffer that has room.
  written : List ℕ → DynamicStream → DynamicStream
  unfolding move_to
  written bs r =
      move_to (r.cur_pos + length bs)
        (record r { storage = stored r.storage (splice r.cur_pos bs (buffer r.storage)) })

  buffer-stored :
      (o : Option (List ℕ)) (i : ℕ) (bs : List ℕ)
      → buffer (stored o (splice i bs (buffer o))) ≡ splice i bs (buffer o)
  buffer-stored none zero [] = refl
  buffer-stored none zero (b ∷ bs) = refl
  buffer-stored none (suc i) bs = refl
  buffer-stored (some old) i bs = refl

  write_into :
      (bs : List ℕ) (s r : DynamicStream)
      → IsValid s
      → Fits s (length bs)
      → HasRoom (length bs) s r
      → (do
        memory ← copy_in (buffer r.storage) r.cur_pos bs
        ok (
            move_to
              (add_size r.cur_pos (length bs))
              (record r { storage = stored r.storage memory })))
        ≡ ok (written bs r)
  unfolding written
  write_into bs s r v h g = ground arith

  written_lem :
      (bs : List ℕ) (s r : DynamicStream)
      → IsValid s
      → Fits s (length bs)
      → HasRoom (length bs) s r
      → IsValid (written bs r)
        × (get_position (written bs r) ≡ get_position s + length bs)
        × (content (written bs r) ≡ overwrite (get_position s) bs (content s))
  unfolding written get_position
  written_lem bs s r v h g = rw (buffer-stored r.storage r.cur_pos bs) (
    ground (arith, length-splice r.cur_pos bs (buffer r.storage)),
    omega arith,
    take-splice-overwrite _ r.len r.cur_pos bs (buffer r.storage) (omega arith) (omega arith)
          (ground arith)
        ∙ rw (g.same, g.position),
  )

  pub write_inside :
      (bs : List ℕ) (k : ℕ) (s : DynamicStream)
      → IsValid s
      → Fits s (length bs + k)
      → (t : DynamicStream) × (write uninit bs s ≡ ok t)
        × IsValid t
        × Fits t k
        × (get_position t ≡ get_position s + length bs)
        × (content t ≡ overwrite (get_position s) bs (content s))
  unfolding write get_position
  write_inside bs k s v h =
      let r : DynamicStream = make_room uninit (length bs) s in
      let g = make_room-HasRoom (length bs) s v (omega arith) in
      let (valid, moved, bytes) = written_lem bs s r v (omega arith) g in
      (written bs r, write_into bs s r v (omega arith) g, valid, omega arith, moved, bytes)

  -- The class as an implementation of the interface.
  abbrev pub dynamic_stream : MessageStream
  dynamic_stream = record {
    Stream = DynamicStream;
    read = read;
    write = write uninit;
    seek = seek uninit;
    get_position = get_position;
    get_length = get_length;
    content = content;
    IsValid = IsValid;
    Fits = Fits;
    length-content = length-content;
    position_le = position_le;
    read_lem = read_inside;
    seek_lem = seek_inside;
    seek-Fits = seek-Fits;
    write_lem = write_inside;
  }
