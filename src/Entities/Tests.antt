-- ===== src/Entities/Tests.antt =====
-- A concrete parser, on messages that are lists of numbers, and the theorems on it.
use mohpc.Base.{
  ℕ, zero, suc, ◌+◌, ◌≡◌, refl, arith, List, [], ◌∷◌, true, leb, ◌==◌, if◌then◌else◌, some, Result,
  ok, err,
}
use mohpc.Snapshot.{RawSnapshot}
use mohpc.Entities.{
  ParseError, read_failed, EntityParser, OldFrame, Parsing, read_old_snapshot,
  parse_packet_entities,
}
use mohpc.Entities.Reference.{merge}
use mohpc.Entities.Ring.{HasRoom}
use mohpc.Entities.Merge.{Agree, HasShortNumbers}
use mohpc.Entities.Old.{parse_packet_entities-Agree}

abbrev short_num : List ℕ → Result ParseError (ℕ × List ℕ)
short_num [] = err read_failed
short_num (n ∷ msg) = ok (if leb n 1023 then n else 1023, msg)

-- A delta is a value, and a zero removes the entity.
abbrev delta_value : List ℕ → ℕ × ℕ → ℕ → Result ParseError ((ℕ × ℕ) × List ℕ)
delta_value [] e n = err read_failed
delta_value (zero ∷ msg) e n = ok ((1023, 0), msg)
delta_value (suc v ∷ msg) e n = ok ((n, e.1 + suc v), msg)

abbrev pairs : EntityParser
pairs = record {
  Msg = List ℕ;
  Entity = ℕ × ℕ;
  number = λ e. e.0;
  read_entity_num = short_num;
  read_delta_entity = delta_value;
  get_baseline = λ n. ok (n, 100);
}

pairs_short : HasShortNumbers pairs
pairs_short [] n rest h = absurd (grind arith)
pairs_short (x ∷ msg) n rest h = ground (arith, h)

-- The entities 2, 5 and 9 at the places 10 to 12, and 7 everywhere else.
abbrev ring : ℕ → ℕ × ℕ
ring i =
    if i == 10
    then (2, 20)
    else (if i == 11 then (5, 50) else (if i == 12 then (9, 90) else (7, 70)))

abbrev held : List (ℕ × ℕ)
held = (2, 20) ∷ (5, 50) ∷ (9, 90) ∷ []

abbrev at_ten : OldFrame
at_ten = record { base = 10; size = 3 }

-- Entity 3 is new, 5 is removed and 9 is changed.
abbrev message : List ℕ
message = 3 ∷ 1 ∷ 5 ∷ 0 ∷ 9 ∷ 4 ∷ 1023 ∷ []

merge_run : merge pairs 9 message held ≡ ok ((2, 20) ∷ (3, 101) ∷ (9, 94) ∷ [], [])
unfolding merge
merge_run = refl

abbrev lying : (ℕ → ℕ × ℕ) → ℕ → ℕ → List (ℕ × ℕ)
lying entities place zero = []
lying entities place (suc n) = entities place ∷ lying entities (suc place) n

abbrev made : Result ParseError (List ℕ × Parsing pairs) → List (ℕ × ℕ)
made (ok (msg, s)) = lying s.ring 20 s.num_entities
made (err e) = []

parse_run :
    made (parse_packet_entities pairs 9 (some at_ten) 20 ring message)
    ≡ (2, 20) ∷ (3, 101) ∷ (9, 94) ∷ []
unfolding parse_packet_entities
parse_run = refl

room_at_ten : HasRoom pairs at_ten 20 [] (3 + 9)
room_at_ten = record { behind = omega arith; room = omega arith; no_wrap = omega arith }

parse_packet_entities-Agree_example :
    Agree pairs at_ten 20 []
      (merge pairs 9 message held)
      (parse_packet_entities pairs 9 (some at_ten) 20 ring message)
parse_packet_entities-Agree_example =
    parse_packet_entities-Agree pairs 9 (some at_ten) 20 ring message held pairs_short
      (refl, (refl, (refl, (refl, tt)))) (omega arith, (omega arith, (omega arith, tt))) room_at_ten

-- An old snapshot without entities gives the new one the entity that lies at its place.
stale_entity :
    made (parse_packet_entities pairs 9 (some (record { base = 10; size = 0 })) 20 ring (1023 ∷ []))
    ≡ (2, 20) ∷ []
unfolding parse_packet_entities
stale_entity = refl

abbrev old_snap : RawSnapshot ℕ
old_snap = record {
  server_time = 0;
  message_num = 40;
  num_entities = 3;
  parse_entities_num = 10;
  server_command_num = 0;
  snap_flags = 0;
  valid = true;
  content = 0;
}

read_run : read_old_snapshot 42 2 20 (λ _. old_snap) ≡ (some old_snap, true)
unfolding read_old_snapshot
read_run = refl
