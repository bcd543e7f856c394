-- ===== src/Entities/Reference.antt =====
-- What a delta message means, on the list of the old entities: those before the number that was read
-- are kept, the one of the number or its baseline is changed, and the rest is kept at the end.
use mohpc.Base.{ℕ, zero, suc, List, [], ◌∷◌, ◌++◌, ltb, ◌==◌, if◌then◌else◌, Result, ok, err, ◌>>=◌}
use mohpc.Entities.{ParseError, too_many_rounds, EntityParser, none_number}

module _ (p : EntityParser) where
  open p use {Msg, Entity}

  -- A changed entity, unless it is the mark of a removal.
  abbrev pub present : Entity → List Entity
  present e = if p.number e == none_number then [] else e ∷ []

  -- The old entities with a number below `n`, and the others.
  unfoldable pub before : ℕ → List Entity → List Entity
  before n [] = []
  before n (o ∷ olds) = if ltb (p.number o) n then o ∷ before n olds else []

  unfoldable pub from : ℕ → List Entity → List Entity
  from n [] = []
  from n (o ∷ olds) = let later = from n olds in if ltb (p.number o) n then later else o ∷ olds

  -- What the entity `n` is read against, and the old entities behind it.
  unfoldable pub source : ℕ → List Entity → Result ParseError (Entity × List Entity)
  source n [] = p.get_baseline n >>= λ b. ok (b, [])
  source n (o ∷ olds) =
      if p.number o == n then ok (o, olds) else (p.get_baseline n >>= λ b. ok (b, o ∷ olds))

  -- The entities of the new snapshot, and the rest of the message.
  unfoldable pub merge : ℕ → Msg → List Entity → Result ParseError (List Entity × Msg)
  unfolding before from source
  merge zero msg olds = err too_many_rounds
  merge (suc rounds) msg olds = do
    (n, rest) ← p.read_entity_num msg
    if n == none_number then ok (olds, rest) else (do
      (made, rest'') ← (do
        (old, behind) ← source n (from n olds)
        (e, rest') ← p.read_delta_entity rest old n
        (news, rest'') ← merge rounds rest' behind
        ok (present e ++ news, rest''))
      ok (before n olds ++ made, rest''))
