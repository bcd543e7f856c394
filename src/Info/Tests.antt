-- ===== src/Info/Tests.antt =====
-- Infos with short keys, and the theorems on them.
use mohpc.Base.{ℕ, ◌≡◌, refl, subst, List, [], ◌∷◌, ◌++◌, some}
use mohpc.Info.{
  empty_info, content, remove_key, set_value_for_key, value_for_key, read_only_value, iterate,
}
use mohpc.Info.Pairs.{Pair, print}
use mohpc.Info.Changes.{Has}
use mohpc.Info.Lookup.{lookup_start, value_for_key-start}
use mohpc.Info.Iterate.{iterate-print}
use mohpc.Info.Runs.{Op, set_to, removed, run, pairs_after, AreOnce, AreFit, run-Has}
use mohpc.Info.RoundTrip.{read-set}

-- a, na, name
abbrev a : List ℕ
a = 97 ∷ []

abbrev na : List ℕ
na = 110 ∷ 97 ∷ []

abbrev name : List ℕ
name = 110 ∷ 97 ∷ 109 ∷ 101 ∷ []

abbrev ops : List Op
ops =
    set_to na (49 ∷ [])
    ∷ set_to a (50 ∷ [])
    ∷ set_to na (51 ∷ [])
    ∷ removed a
    ∷ set_to name (52 ∷ [])
    ∷ []

abbrev pairs : List Pair
pairs = (na, 51 ∷ []) ∷ (name, 52 ∷ []) ∷ []

pairs_then : pairs_after ops [] ≡ pairs
unfolding pairs_after
pairs_then = refl

run_buffer : (run ops empty_info).key_buffer ≡ some (print pairs ++ 0 ∷ [])
unfolding run
run_buffer = refl

empty-Has : Has [] empty_info
empty-Has = record { shows = refl; pairs = tt }

fit : AreFit ops
fit = (
  (refl, (refl, tt)),
  (refl, tt),
  (
    (refl, tt),
    (refl, tt),
    (
      (refl, (refl, tt)),
      (refl, tt),
      ((refl, tt), ((refl, (refl, (refl, (refl, tt)))), (refl, tt), tt)),
    ),
  ),
)

run-Has_example : Has (pairs_after ops []) (run ops empty_info) × AreOnce (pairs_after ops [])
run-Has_example = run-Has ops [] empty_info fit tt empty-Has

pairs-Has : Has pairs (run ops empty_info)
pairs-Has =
    subst (λ kvs. Has kvs (run ops empty_info)) pairs_then
      (run-Has ops [] empty_info fit tt empty-Has).0

once : AreOnce pairs
once = (refl, (refl, tt))

read-set_example :
    (read_only_value a (content (set_value_for_key a (53 ∷ []) (run ops empty_info)).key_buffer)
      ≡ 53 ∷ [])
    × (read_only_value na (content (set_value_for_key a (53 ∷ []) (run ops empty_info)).key_buffer)
        ≡ read_only_value na (content (run ops empty_info).key_buffer))
read-set_example =
    read-set a (53 ∷ []) na pairs (run ops empty_info) (refl, tt) (refl, tt) refl once pairs-Has

iterate-print_example : iterate (print pairs ++ 0 ∷ []) ≡ pairs
iterate-print_example =
    iterate-print (na, 51 ∷ []) ((name, 52 ∷ []) ∷ [])
      (((refl, (refl, tt)), (refl, tt)), (((refl, (refl, (refl, (refl, tt)))), (refl, tt)), tt))

-- The value of "na" is given for "name".
value_for_key-start_example :
    value_for_key name (run ops empty_info) ≡ some (lookup_start name pairs)
value_for_key-start_example =
    value_for_key-start name (print pairs ++ 0 ∷ []) pairs (run ops empty_info) run_buffer pairs-Has

wrong_value : lookup_start name pairs ≡ 51 ∷ []
wrong_value = refl

-- An info whose last key was removed shows an empty key.
empty_key :
    iterate (content (remove_key a (set_value_for_key a (53 ∷ []) empty_info)).key_buffer)
    ≡ ([], []) ∷ []
unfolding iterate remove_key set_value_for_key
empty_key = refl

-- A value with a backslash is a key and a value too.
more_keys :
    iterate (content (set_value_for_key a (92 ∷ 110 ∷ 97 ∷ 92 ∷ 53 ∷ []) empty_info).key_buffer)
    ≡ (a, []) ∷ (na, 53 ∷ []) ∷ []
unfolding iterate set_value_for_key
more_keys = refl
