-- ===== src/Entities/Merge.antt =====
-- The parser and the merge of two lists agree.
use mohpc.Base.{
  ℕ, zero, suc, ◌+◌, ◌≡◌, ◌≤◌, ◌<◌, refl, sym, ap, ◌∙◌, inl, inr, arith, List, [], ◌∷◌, ◌++◌,
  append_assoc, append-nil, true, false, Bool-cases, length, length-append, ltb, ◌==◌, All, Result,
  ok, err, ◌>>=◌,
}
use mohpc.Entities.{
  ParseError, EntityParser, OldFrame, Parsing, none_number, past_old, put, copy_old, skip_older,
}
use mohpc.Entities.Reference.{present, before, from}
use mohpc.Entities.Ring.{Amid, HasRoom, put-Amid, put-removed, copy_old-Amid}

module _ (p : EntityParser) where
  open p use {Msg, Entity}

  abbrev pub AreListed : List Entity → Type 0
  AreListed olds = All (λ o. p.number o < none_number) olds

  -- The numbers of a message have ten bits.
  abbrev pub HasShortNumbers : Type 0
  HasShortNumbers =
      (msg : Msg) (n : ℕ) (rest : Msg) → p.read_entity_num msg ≡ ok (n, rest) → n ≤ none_number

  HasRoom-snoc :
      (old : OldFrame) (start more : ℕ) (news : List Entity) (e : Entity)
      → HasRoom p old start news (suc more)
      → HasRoom p old start (news ++ e ∷ []) more
  HasRoom-snoc old start more news e r =
      omega (arith, length-append news (e ∷ []), r.room, r.behind, r.no_wrap)

  pub HasRoom-less :
      (old : OldFrame) (start more less : ℕ) (news : List Entity)
      → less ≤ more
      → HasRoom p old start news more
      → HasRoom p old start news less
  HasRoom-less old start more less news h r = omega (arith, r.room, r.behind, r.no_wrap)

  pub skip_older-Amid :
      (rounds n more : ℕ) (old : OldFrame) (start : ℕ) (olds news : List Entity) (s : Parsing p)
      → length olds < rounds
      → n ≤ past_old
      → AreListed olds
      → HasRoom p old start news (length olds + more)
      → Amid p old start olds news s
      → Amid p old start (from p n olds) (news ++ before p n olds) (skip_older p rounds old n s)
        × HasRoom p old start (news ++ before p n olds) (length (from p n olds) + more)
        × AreListed (from p n olds)
  unfolding skip_older from before
  skip_older-Amid zero n more old start olds news s l b all r a = absurd (omega arith)
  skip_older-Amid (suc rounds) n more old start [] news s l b all r a =
      let stops : ltb s.old_num n ≡ false = ground (arith, a.next) in
      rw (stops, append-nil news) (a, r, tt)
  skip_older-Amid (suc rounds) n more old start (o ∷ olds) news s l b all r a =
      elim (Bool-cases (ltb (p.number o) n)) [
        | inl lower ↦
            let going : ltb s.old_num n ≡ true = ap (λ x. ltb x n) a.next ∙ lower in
            rw (going, lower, sym (append_assoc news (o ∷ []) (before p n olds)))
              (skip_older-Amid rounds n more old start olds (news ++ o ∷ []) (copy_old p old s)
                (omega arith) b all.1
                (HasRoom-snoc old start (length olds + more) news o
                  (HasRoom-less old start _ _ news (omega arith) r))
                (copy_old-Amid p old start (length olds + more) o olds news s a
                  (HasRoom-less old start _ _ news (omega arith) r) all.0))
        | inr reached ↦
            let stops : ltb s.old_num n ≡ false = ap (λ x. ltb x n) a.next ∙ reached in
            rw (stops, reached, append-nil news) (a, r, all)
      ]

  pub from_past : (olds : List Entity) → AreListed olds → from p past_old olds ≡ []
  unfolding from
  from_past [] all = refl
  from_past (o ∷ olds) all =
      let lower : ltb (p.number o) past_old ≡ true = ground (arith, all.0) in
      rw lower (from_past olds all.1)

  pub before_past : (olds : List Entity) → AreListed olds → before p past_old olds ≡ olds
  unfolding before
  before_past [] all = refl
  before_past (o ∷ olds) all =
      let lower : ltb (p.number o) past_old ≡ true = ground (arith, all.0) in
      rw lower (ap (◌∷◌ o) (before_past olds all.1))

  -- The list of the reference and the parser's variables stand for each other, or both threw.
  abbrev pub Agree :
      OldFrame
      → ℕ
      → List Entity
      → Result ParseError (List Entity × Msg)
      → Result ParseError (Msg × Parsing p)
      → Type 0
  Agree old start news (ok (made, rest)) (ok (rest', s)) =
      (rest' ≡ rest) × Amid p old start [] (news ++ made) s
  Agree old start news (err e) (err e') = e ≡ e'
  Agree old start news (ok made) (err e) = ⊥
  Agree old start news (err e) (ok s) = ⊥

  pub Agree-behind :
      (old : OldFrame) (start : ℕ) (news more : List Entity)
      (r : Result ParseError (List Entity × Msg)) (q : Result ParseError (Msg × Parsing p))
      → Agree old start (news ++ more) r q
      → Agree old start news (r >>= λ x. ok (more ++ x.0, x.1)) q
  Agree-behind old start news more (ok (made, rest)) (ok (rest', s)) (same, a) =
      (same, rw (sym (append_assoc news more made)) a)
  Agree-behind old start news more (err e) (err e') h = h
  Agree-behind old start news more (ok made) (err e) h = h
  Agree-behind old start news more (err e) (ok s) h = h

  -- What is put for a changed entity.
  pub put-present :
      (old : OldFrame) (start more : ℕ) (olds news : List Entity) (s : Parsing p) (e : Entity)
      → Amid p old start olds news s
      → HasRoom p old start news (suc more)
      → Amid p old start olds (news ++ present p e) (put p e s)
        × HasRoom p old start (news ++ present p e) more
  put-present old start more olds news s e a r = elim (Bool-cases (p.number e == none_number)) [
    | inl gone ↦
        rw (gone, append-nil news)
          (
            put-removed p old start (suc more) olds news s e a r gone,
            HasRoom-less old start (suc more) more news (omega arith) r,
          )
    | inr here ↦
        rw here
          (put-Amid p old start more olds news s e a r here, HasRoom-snoc old start more news e r)
  ]
