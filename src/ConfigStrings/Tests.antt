-- ===== src/ConfigStrings/Tests.antt =====
-- A manager of four strings and ten characters.
use mohpc.Base.{◌≡◌, refl, arith, [], ◌∷◌, ok, err, ◌>>=◌}
use mohpc.ConfigStrings.{
  ConfigStringManager, max_config_string, out_of_bounds, move_manager, make_manager,
  set_config_string, get_config_string,
}
use mohpc.ConfigStrings.Lookup.{
  IsFormed, get-set_config_string, set_config_string-overflows, get_config_string-bounds,
}

-- String 1 is "ab".
abbrev one_string : ConfigStringManager
one_string = record {
  string_offsets = 0 ∷ 1 ∷ 0 ∷ 0 ∷ [];
  string_data = 0 ∷ 97 ∷ 98 ∷ 0 ∷ 0 ∷ 0 ∷ 0 ∷ 0 ∷ 0 ∷ 0 ∷ [];
  max_chars = 10;
  max_config_strings = 4;
  highest_configstring = 1;
  data_count = 4;
}

abbrev one_string-IsFormed : IsFormed one_string
one_string-IsFormed = record { offsets_size = refl; data_size = refl }

from_empty : set_config_string 1 (97 ∷ 98 ∷ []) (make_manager 4 10) ≡ ok one_string
unfolding make_manager set_config_string
from_empty = refl

-- "ab" becomes "c", and the string behind it moves.
replaces :
    (set_config_string 2 (100 ∷ []) one_string >>= set_config_string 1 (99 ∷ []))
      >>= get_config_string 2
    ≡ ok (100 ∷ [])
unfolding set_config_string get_config_string
replaces = refl

get-set_config_string_example :
    (cs' : ConfigStringManager) × (set_config_string 2 (100 ∷ []) one_string ≡ ok cs')
    × (get_config_string 2 cs' ≡ ok (100 ∷ []))
get-set_config_string_example =
    get-set_config_string 2 100 [] one_string one_string-IsFormed (omega arith) refl (omega arith)
      (omega arith, tt)

set_config_string-overflows_example :
    set_config_string 2 (100 ∷ 101 ∷ 102 ∷ 103 ∷ 104 ∷ 105 ∷ []) one_string ≡ err out_of_bounds
set_config_string-overflows_example =
    set_config_string-overflows 2 100 (101 ∷ 102 ∷ 103 ∷ 104 ∷ 105 ∷ []) one_string
      one_string-IsFormed (omega arith) refl refl

get_config_string-bounds_example :
    (get_config_string 7 one_string ≡ err (max_config_string 7))
    × (get_config_string 4 one_string ≡ err out_of_bounds)
    × (get_config_string 7 (move_manager one_string) ≡ err out_of_bounds)
get_config_string-bounds_example =
    get_config_string-bounds 7 one_string one_string-IsFormed (omega arith) (omega arith)
