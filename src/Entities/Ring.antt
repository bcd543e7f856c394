-- ===== src/Entities/Ring.antt =====
-- The ring, read as the lists of the entities that lie in it.
use mohpc.Base.{
  ℕ, suc, ◌+◌, ◌≡◌, ◌≤◌, ◌<◌, refl, sym, ap, subst, ◌∙◌, arith, List, [], ◌∷◌, ◌++◌, true, false,
  length, length-append, leb, ◌==◌, u32_mod,
}
use mohpc.Snapshot.{max_parse_entities}
use mohpc.Entities.{
  EntityParser, OldFrame, Parsing, none_number, past_old, at, assign, put, advance, copy_old,
  old_state,
}

module _ (p : EntityParser) where
  open p use {Entity}

  -- From place `i` on the ring holds these entities.
  abbrev pub Holds : (ℕ → Entity) → ℕ → List Entity → Type 0
  Holds ring i [] = Unit {0}
  Holds ring i (e ∷ es) = (at p ring i ≡ e) × Holds ring (i + 1) es

  assign-other :
      (ring : ℕ → Entity) (i q : ℕ) (e : Entity)
      → i < q
      → q < i + max_parse_entities
      → at p (assign p ring q e) i ≡ at p ring i
  assign-other ring i q e h k = ground arith

  assign-Holds :
      (ring : ℕ → Entity) (i q : ℕ) (e : Entity) (es : List Entity)
      → i + length es ≤ q
      → q < i + max_parse_entities
      → Holds ring i es
      → Holds (assign p ring q e) i es
  assign-Holds ring i q e [] h k holds = tt
  assign-Holds ring i q e (x ∷ es) h k holds = (
    assign-other ring i q e (omega arith) k ∙ holds.0,
    assign-Holds ring (i + 1) q e es (omega arith) (omega arith) holds.1,
  )

  Holds-snoc :
      (ring : ℕ → Entity) (i j : ℕ) (e : Entity) (es : List Entity)
      → j ≡ i + length es
      → Holds ring i es
      → at p ring j ≡ e
      → Holds ring i (es ++ e ∷ [])
  Holds-snoc ring i j e [] h holds last =
      let same : j ≡ i = omega arith in (subst (λ k. at p ring k ≡ e) same last, tt)
  Holds-snoc ring i j e (x ∷ es) h holds last =
      (holds.0, Holds-snoc ring (i + 1) j e es (omega arith) holds.1 last)

  abbrev pub next_number : List Entity → ℕ
  next_number [] = past_old
  next_number (o ∷ olds) = p.number o

  -- The variables of the parser amid a snapshot: `olds` are still to come, `news` are made. `start` is
  -- where the new snapshot starts.
  pub record Amid (old : OldFrame) (start : ℕ) (olds news : List Entity) (s : Parsing p)
      : Type 0 where
    pub left : s.old_index + length olds ≡ old.size
    pub olds_held : Holds s.ring (old.base + s.old_index) olds
    pub next : s.old_num ≡ next_number olds
    pub news_held : Holds s.ring start news
    pub place : s.parse_entities_num ≡ start + length news
    pub counted : s.num_entities ≡ length news

  -- There is room: the new snapshot starts behind the old one and ends before the ring is round.
  pub record HasRoom (old : OldFrame) (start : ℕ) (news : List Entity) (more : ℕ) : Type 0 where
    pub behind : old.base + old.size ≤ start
    pub room : start + length news + more < old.base + max_parse_entities
    pub no_wrap : old.base + max_parse_entities ≤ u32_mod

  assign-same : (ring : ℕ → Entity) (q : ℕ) (e : Entity) → at p (assign p ring q e) q ≡ e
  assign-same ring q e = ground arith

  -- The ring once an entity is written at the end of the new snapshot.
  write-Amid :
      (old : OldFrame) (start more : ℕ) (olds news : List Entity) (s : Parsing p) (e : Entity)
      → Amid old start olds news s
      → HasRoom old start news more
      → Amid old start olds news (record s { ring = assign p s.ring s.parse_entities_num e })
  write-Amid old start more olds news s e a r = record {
    left = a.left;
    olds_held =
        assign-Holds s.ring (old.base + s.old_index) s.parse_entities_num e olds
          (omega (arith, a.left, a.place, r.behind)) (omega (arith, a.place, r.room)) a.olds_held;
    next = a.next;
    news_held =
        assign-Holds s.ring start s.parse_entities_num e news (omega (arith, a.place))
          (omega (arith, a.place, r.room, r.behind)) a.news_held;
    place = a.place;
    counted = a.counted;
  }

  pub put-Amid :
      (old : OldFrame) (start more : ℕ) (olds news : List Entity) (s : Parsing p) (e : Entity)
      → Amid old start olds news s
      → HasRoom old start news (suc more)
      → (p.number e == none_number) ≡ false
      → Amid old start olds (news ++ e ∷ []) (put p e s)
  unfolding put
  put-Amid old start more olds news s e a r h =
      let w = write-Amid old start (suc more) olds news s e a r in
      rw h (record {
        left = w.left;
        olds_held = w.olds_held;
        next = w.next;
        news_held =
            Holds-snoc (assign p s.ring s.parse_entities_num e) start s.parse_entities_num e news
              w.place w.news_held (assign-same s.ring s.parse_entities_num e);
        place = omega (arith, length-append news (e ∷ []));
        counted = omega (arith, length-append news (e ∷ []));
      })

  pub put-removed :
      (old : OldFrame) (start more : ℕ) (olds news : List Entity) (s : Parsing p) (e : Entity)
      → Amid old start olds news s
      → HasRoom old start news more
      → (p.number e == none_number) ≡ true
      → Amid old start olds news (put p e s)
  unfolding put
  put-removed old start more olds news s e a r h =
      rw h (write-Amid old start more olds news s e a r)

  pub advance-Amid :
      (old : OldFrame) (start : ℕ) (o : Entity) (olds news : List Entity) (s : Parsing p)
      → Amid old start (o ∷ olds) news s
      → Amid old start olds news (advance p old s)
  unfolding advance
  advance-Amid old start o [] news s a =
      let at_end : leb old.size (s.old_index + 1) ≡ true = ground (arith, a.left) in
      rw at_end (record {
        left = omega (arith, a.left);
        olds_held = tt;
        next = refl;
        news_held = a.news_held;
        place = a.place;
        counted = a.counted;
      })
  advance-Amid old start o (o' ∷ olds) news s a =
      let index : old.base + s.old_index + 1 ≡ old.base + (s.old_index + 1) = omega arith in
      let inside : leb old.size (s.old_index + 1) ≡ false = ground (arith, a.left) in
      let held : Holds s.ring (old.base + (s.old_index + 1)) (o' ∷ olds) =
        subst (λ i. Holds s.ring i (o' ∷ olds)) index a.olds_held.1 in
      rw inside (record {
        left = omega (arith, a.left);
        olds_held = held;
        next = ap p.number held.0;
        news_held = a.news_held;
        place = a.place;
        counted = a.counted;
      })

  pub old_state-Amid :
      (old : OldFrame) (start : ℕ) (o : Entity) (olds news : List Entity) (s : Parsing p)
      → Amid old start (o ∷ olds) news s
      → old_state p old s ≡ o
  old_state-Amid old start o olds news s a = a.olds_held.0

  pub copy_old-Amid :
      (old : OldFrame) (start more : ℕ) (o : Entity) (olds news : List Entity) (s : Parsing p)
      → Amid old start (o ∷ olds) news s
      → HasRoom old start news (suc more)
      → p.number o < none_number
      → Amid old start olds (news ++ o ∷ []) (copy_old p old s)
  unfolding copy_old
  copy_old-Amid old start more o olds news s a r h =
      let same = old_state-Amid old start o olds news s a in
      let kept : (p.number o == none_number) ≡ false = ground arith in
      advance-Amid old start o olds (news ++ o ∷ []) (put p (old_state p old s) s) (
        subst (λ e. Amid old start (o ∷ olds) (news ++ o ∷ []) (put p e s)) (sym same)
          (put-Amid old start more (o ∷ olds) news s o a r kept))
