-- ===== src/Entities/Refine.antt =====
-- parsePacketEntities on the ring does what the merge of the lists says.
use mohpc.Base.{
  ℕ, zero, suc, ◌+◌, ◌≡◌, ◌≤◌, ◌<◌, refl, ap, subst, ◌∙◌, inl, inr, arith, List, [], ◌∷◌, ◌++◌,
  true, false, Bool-cases, length, ◌==◌, if◌then◌else◌, Result, ok, Result-cases, ◌>>=◌,
}
use mohpc.Entities.{
  ParseError, EntityParser, OldFrame, Parsing, none_number, past_old, put, advance, old_state,
  skip_older, old_rounds, parse_entity, parse_entities,
}
use mohpc.Entities.Reference.{present, before, from, source, merge}
use mohpc.Entities.Ring.{Amid, HasRoom, advance-Amid, old_state-Amid}
use mohpc.Entities.Merge.{
  AreListed, HasShortNumbers, Agree, Agree-behind, put-present, skip_older-Amid, from_past,
  before_past, HasRoom-less,
}

module _ (p : EntityParser) (old : OldFrame) (start : ℕ) where
  open p use {Msg, Entity}

  -- The claim for the rest of a message.
  abbrev Continues : ℕ → Type 0
  Continues rounds =
      (msg : Msg) (olds news : List Entity) (s : Parsing p)
      → AreListed p olds
      → HasRoom p old start news (length olds + rounds)
      → Amid p old start olds news s
      → Agree p old start news (merge p rounds msg olds) (parse_entities p rounds old msg s)

  -- A changed entity, and the rest: in the reference, and in the parser.
  abbrev merge_changed : ℕ → List Entity → Entity × Msg → Result ParseError (List Entity × Msg)
  merge_changed rounds behind x = do
    (news, rest) ← merge p rounds x.1 behind
    ok (present p x.0 ++ news, rest)

  abbrev put_changed :
      (Parsing p → Parsing p) → Parsing p → Entity × Msg → Result ParseError (Msg × Parsing p)
  put_changed step t x = ok (x.1, step (put p x.0 t))

  abbrev parse_rest : ℕ → Msg × Parsing p → Result ParseError (Msg × Parsing p)
  parse_rest rounds y = parse_entities p rounds old y.0 y.1

  changed-Agree :
      (rounds n : ℕ) (msg : Msg) (o : Entity) (behind news : List Entity) (t : Parsing p)
      (step : Parsing p → Parsing p)
      → Continues rounds
      → AreListed p behind
      → ((e : Entity)
          → Amid p old start behind (news ++ present p e) (step (put p e t))
            × HasRoom p old start (news ++ present p e) (length behind + rounds))
      → Agree p old start news
          (p.read_delta_entity msg o n >>= merge_changed rounds behind)
          (p.read_delta_entity msg o n >>= put_changed step t >>= parse_rest rounds)
  changed-Agree rounds n msg o behind news t step ih all a =
      elim (Result-cases (p.read_delta_entity msg o n)) [
        | inl ((e, rest), eq) ↦ rw eq (
            Agree-behind p old start news (present p e) (merge p rounds rest behind)
              (parse_entities p rounds old rest (step (put p e t)))
              (ih rest behind (news ++ present p e) (step (put p e t)) all (a e).1 (a e).0))
        | inr (e, eq) ↦ rw eq refl
      ]

  -- A number whose place among the old entities is found.
  abbrev from_source : ℕ → ℕ → Msg → Entity × List Entity → Result ParseError (List Entity × Msg)
  from_source rounds n msg x = p.read_delta_entity msg x.0 n >>= merge_changed rounds x.1

  abbrev parse_found : ℕ → Msg → Parsing p → Result ParseError (Msg × Parsing p)
  parse_found n msg t =
      if t.old_num == n
      then (p.read_delta_entity msg (old_state p old t) n >>= put_changed (advance p old) t)
      else (p.get_baseline n >>= λ b. p.read_delta_entity msg b n >>= put_changed (λ s. s) t)

  baseline-Agree :
      (rounds n : ℕ) (msg : Msg) (olds news : List Entity) (t : Parsing p)
      → Continues rounds
      → AreListed p olds
      → HasRoom p old start news (length olds + suc rounds)
      → Amid p old start olds news t
      → Agree p old start news
          (p.get_baseline n >>= (λ b. ok (b, olds)) >>= from_source rounds n msg)
          (p.get_baseline n
            >>= (λ b. p.read_delta_entity msg b n >>= put_changed (λ s. s) t)
            >>= parse_rest rounds)
  baseline-Agree rounds n msg olds news t ih all r a = elim (Result-cases (p.get_baseline n)) [
    | inl (b, eq) ↦ rw eq (
        changed-Agree rounds n msg b olds news t (λ s. s) ih all
          (λ e.
            put-present p old start (length olds + rounds) olds news t e a
              (HasRoom-less p old start _ _ news (omega arith) r)))
    | inr (e, eq) ↦ rw eq refl
  ]

  found-Agree :
      (rounds n : ℕ) (msg : Msg) (olds news : List Entity) (t : Parsing p)
      → Continues rounds
      → n < none_number
      → AreListed p olds
      → HasRoom p old start news (length olds + suc rounds)
      → Amid p old start olds news t
      → Agree p old start news
          (source p n olds >>= from_source rounds n msg)
          (parse_found n msg t >>= parse_rest rounds)
  unfolding source
  found-Agree rounds n msg [] news t ih low all r a =
      let passed : (t.old_num == n) ≡ false = ground (arith, a.next) in
      rw passed (baseline-Agree rounds n msg [] news t ih all r a)
  found-Agree rounds n msg (o ∷ olds) news t ih low all r a = elim (Bool-cases (p.number o == n)) [
    | inl same ↦
        let found : (t.old_num == n) ≡ true = ap (λ x. x == n) a.next ∙ same in
        rw (same, found, old_state-Amid p old start o olds news t a)
          (changed-Agree rounds n msg o olds news t (advance p old) ih all.1 (λ e.
            let (put_in, room) =
              put-present p old start (length olds + rounds) (o ∷ olds) news t e a
                (HasRoom-less p old start _ _ news (omega arith) r) in
            (advance-Amid p old start o olds (news ++ present p e) (put p e t) put_in, room)))
    | inr other ↦
        let passed : (t.old_num == n) ≡ false = ap (λ x. x == n) a.next ∙ other in
        rw (other, passed) (baseline-Agree rounds n msg (o ∷ olds) news t ih all r a)
  ]

  number-Agree :
      (rounds n : ℕ) (msg : Msg) (olds news : List Entity) (s : Parsing p)
      → Continues rounds
      → n < none_number
      → AreListed p olds
      → HasRoom p old start news (length olds + suc rounds)
      → Amid p old start olds news s
      → Agree p old start news
          ((source p n (from p n olds) >>= from_source rounds n msg) >>= λ x.
            ok (before p n olds ++ x.0, x.1))
          (parse_entity p old n msg s >>= parse_rest rounds)
  unfolding parse_entity
  number-Agree rounds n msg olds news s ih low all r a =
      let t = skip_older p (old_rounds p old s) old n s in
      let (amid, room, later) =
        skip_older-Amid p (old_rounds p old s) n (suc rounds) old start olds news s
          (omega (arith, a.left)) (omega arith) all r a in
      Agree-behind p old start news (before p n olds)
        (source p n (from p n olds) >>= from_source rounds n msg)
        (parse_found n msg t >>= parse_rest rounds)
        (found-Agree rounds n msg (from p n olds) (news ++ before p n olds) t ih low later room
          amid)

  end-Amid :
      (more : ℕ) (olds news : List Entity) (s : Parsing p)
      → AreListed p olds
      → HasRoom p old start news (length olds + more)
      → Amid p old start olds news s
      → Amid p old start [] (news ++ olds) (skip_older p (old_rounds p old s) old past_old s)
  end-Amid more olds news s all r a =
      let (amid, _, _) =
        skip_older-Amid p (old_rounds p old s) past_old more old start olds news s
          (omega (arith, a.left)) (omega arith) all r a in
      subst
        (λ xs.
          Amid p old start xs (news ++ olds) (skip_older p (old_rounds p old s) old past_old s))
        (from_past p olds all)
        (subst
          (λ xs.
            Amid p old start (from p past_old olds) (news ++ xs)
              (skip_older p (old_rounds p old s) old past_old s))
          (before_past p olds all) amid)

  pub parse_entities-Agree : HasShortNumbers p → (rounds : ℕ) → Continues rounds
  unfolding merge parse_entities
  parse_entities-Agree short zero msg olds news s all r a = refl
  parse_entities-Agree short (suc rounds) msg olds news s all r a =
      elim (Result-cases (p.read_entity_num msg)) [
        | inl ((n, rest), eq) ↦ elim (Bool-cases (n == none_number)) [
          | inl ends ↦ rw (eq, ends) (refl, end-Amid (suc rounds) olds news s all r a)
          | inr goes ↦
              let small : n ≤ none_number = short msg n rest eq in
              rw (eq, goes)
                (number-Agree rounds n rest olds news s (parse_entities-Agree short rounds)
                  (ground (arith, goes, small)) all r a)
        ]
        | inr (e, eq) ↦ rw eq refl
      ]
