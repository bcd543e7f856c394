-- ===== src/ConfigStrings.antt =====
-- `ConfigStringManager` of mohpc-lib/Network/Types/Configstring.cpp: the strings lie one behind the
-- other in `string_data`, each ended by a NUL, and `string_offsets` says where; offset 0 is the empty
-- string. A read or a write outside of the arrays, which C++ does not define, is the error
-- `out_of_bounds`.
pub mod Lookup
mod Tests
use mohpc.Base.{
  ℕ, zero, suc, ◌+◌, ◌-◌, ◌≡◌, List, [], ◌∷◌, ◌++◌, map, Bool, true, false, length, get_or, set,
  slice, splice, drop, replicate, ltb, leb, ◌==◌, ◌||◌, if◌then◌else◌, Option, none, some, Result,
  ok, err, ◌>>=◌,
}

pub data ConfigstringError : Type 0 where
  max_config_string : ℕ → ConfigstringError
  max_game_state_chars : ℕ → ConfigstringError
  out_of_bounds : ConfigstringError

pub record ConfigStringManager : Type 0 where
  pub string_offsets : List ℕ
  pub string_data : List ℕ
  pub max_chars : ℕ
  pub max_config_strings : ℕ
  pub highest_configstring : ℕ
  pub data_count : ℕ

-- The constructor with two sizes
unfoldable pub make_manager : ℕ → ℕ → ConfigStringManager
make_manager strings chars =
    if strings == 0 || chars == 0
    then record {
      string_offsets = [];
      string_data = [];
      max_chars = 0;
      max_config_strings = 0;
      highest_configstring = 0;
      data_count = 0;
    }
    else record {
      string_offsets = replicate strings 0;
      string_data = replicate chars 0;
      max_chars = chars;
      max_config_strings = strings;
      highest_configstring = 0;
      data_count = 1;
    }

-- The move constructor, and the move assignment
pub move_manager : ConfigStringManager → ConfigStringManager
move_manager other = record other { max_config_strings = other.max_chars }

pub assign_manager : ConfigStringManager → ConfigStringManager
assign_manager other = other

-- The characters up to the NUL.
unfoldable pub c_string : List ℕ → List ℕ
c_string [] = []
c_string (zero ∷ rest) = []
c_string (suc c ∷ rest) = suc c ∷ c_string rest

-- `getConfigStringChecked`
pub get_config_string_checked : ℕ → ConfigStringManager → Result ConfigstringError (List ℕ)
unfolding c_string
get_config_string_checked num cs =
    if ltb num (length cs.string_offsets)
    then ok (c_string (drop (get_or cs.string_offsets num 0) cs.string_data))
    else err out_of_bounds

-- `getConfigString`
unfoldable pub get_config_string : ℕ → ConfigStringManager → Result ConfigstringError (List ℕ)
unfolding get_config_string_checked
get_config_string num cs =
    if ltb cs.max_config_strings num
    then err (max_config_string num)
    else get_config_string_checked num cs

-- `memmove` and `copy` within the data
pub put : ℕ → List ℕ → List ℕ → Result ConfigstringError (List ℕ)
put at bytes memory =
    if leb (at + length bytes) (length memory)
    then ok (splice at bytes memory)
    else err out_of_bounds

pub move_bytes : ℕ → ℕ → ℕ → List ℕ → Result ConfigstringError (List ℕ)
unfolding put
move_bytes to from n memory =
    if leb (from + n) (length memory)
    then put to (slice from n memory) memory
    else err out_of_bounds

abbrev pub raise_highest : ℕ → ConfigStringManager → ℕ
raise_highest num cs = if leb cs.highest_configstring num then num else cs.highest_configstring

-- `setConfigString` of a number without a string
pub append_string : ℕ → List ℕ → ConfigStringManager → Result ConfigstringError ConfigStringManager
unfolding put
append_string num [] cs = ok cs
append_string num (c ∷ rest) cs =
    let string = c ∷ rest in
    if ltb cs.max_chars (cs.data_count + length string)
    then err (max_game_state_chars (length string))
    else (do
      memory ← put cs.data_count (string ++ 0 ∷ []) cs.string_data
      ok (record cs {
        string_offsets = set cs.string_offsets num cs.data_count;
        string_data = memory;
        data_count = cs.data_count + (length string + 1);
        highest_configstring = raise_highest num cs;
      }))

-- The offsets behind a string that grew or shrank, from the lengths of the data before and after.
pub shift_offset : ℕ → ℕ → ℕ → ℕ → ℕ
shift_offset target before after offset =
    if leb target offset then offset + after - before else offset

-- The highest number up to `n` that has a string, or 0.
pub highest_from : ℕ → List ℕ → ℕ
highest_from zero offsets = zero
highest_from (suc n) offsets =
    let lower = highest_from n offsets in if get_or offsets (suc n) 0 == 0 then lower else suc n

-- The offsets of the numbers up to `n`, shifted.
pub shift_first : ℕ → (ℕ → ℕ) → List ℕ → List ℕ
shift_first n f [] = []
shift_first zero f (x ∷ xs) = f x ∷ xs
shift_first (suc n) f (x ∷ xs) = f x ∷ shift_first n f xs

-- `setConfigString` of a number that has a string, at `offset`
pub replace_string :
    ℕ → ℕ → List ℕ → ConfigStringManager → Result ConfigstringError ConfigStringManager
unfolding c_string put move_bytes shift_offset shift_first highest_from
replace_string num offset [] cs =
    let current = length (c_string (drop offset cs.string_data)) in
    let after = cs.data_count - (current + 1) in
    let target = offset + current + 1 in
    (do
      memory ← move_bytes offset target (cs.data_count - offset) cs.string_data
      let offsets = set cs.string_offsets num 0
      let highest = highest_from cs.highest_configstring offsets
      ok (record cs {
        string_offsets = shift_first highest (shift_offset target cs.data_count after) offsets;
        string_data = memory;
        data_count = after;
        highest_configstring = highest;
      }))
replace_string num offset (c ∷ rest) cs =
    let string = c ∷ rest in
    let current = length (c_string (drop offset cs.string_data)) in
    let after = cs.data_count + length string - current in
    let target = offset + current + 1 in
    if ltb cs.max_chars after then err (max_game_state_chars (length string)) else (do
      moved ← move_bytes (offset + length string + 1) target (cs.data_count - offset) cs.string_data
      memory ← put offset (string ++ 0 ∷ []) moved
      let highest = raise_highest num cs
      ok (record cs {
        string_offsets =
            shift_first highest (shift_offset target cs.data_count after) cs.string_offsets;
        string_data = memory;
        data_count = after;
        highest_configstring = highest;
      }))

-- `setConfigString`
unfoldable pub set_config_string :
    ℕ → List ℕ → ConfigStringManager → Result ConfigstringError ConfigStringManager
unfolding append_string replace_string
set_config_string num string cs =
    if ltb cs.max_config_strings num
    then err (max_config_string num)
    else if leb (length cs.string_offsets) num
    then err out_of_bounds
    else if get_or cs.string_offsets num 0 == 0
    then append_string num string cs
    else replace_string num (get_or cs.string_offsets num 0) string cs

-- `reset`
pub reset : ConfigStringManager → ConfigStringManager
reset cs = record cs {
  data_count = 1;
  highest_configstring = 0;
  string_data = replicate cs.max_chars 0;
  string_offsets = replicate cs.max_config_strings 0;
}
