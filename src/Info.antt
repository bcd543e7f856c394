-- ===== src/Info.antt =====
-- `Info`, `ReadOnlyInfo` and `InfoIterator` of mohpc-lib/Utility/Info.cpp: keys and values in one string,
-- with a backslash before each. A pointer into a buffer is the list of the characters from there on,
-- and a string that is passed is the list of its characters without the NUL.
pub mod Pairs
pub mod Changes
pub mod Fields
pub mod Lookup
pub mod Iterate
pub mod Runs
pub mod RoundTrip
mod Tests
use mohpc.Base.{
  ℕ, zero, suc, ◌+◌, ◌-◌, ◌≡◌, List, [], ◌∷◌, ◌++◌, Bool, true, false, not, length, take, ltb, ◌==◌,
  ◌&&◌, ◌||◌, if◌then◌else◌, Option, none, some,
}

-- The characters of the buffer up to `size`, which `size` is the count of.
pub record Info : Type 0 where
  pub key_buffer : Option (List ℕ)
  pub alloced : ℕ

abbrev pub backslash : ℕ
backslash = 92

abbrev pub empty_info : Info
empty_info = record { key_buffer = none; alloced = 0 }

abbrev pub content : Option (List ℕ) → List ℕ
content none = []
content (some buffer) = buffer

-- The move assignment: what it moves to, and what is left of the other one
abbrev pub move_info : Info → Info × Info
move_info other = (other, empty_info)

-- `*p`, and `p + 1`
abbrev pub char : List ℕ → ℕ
char [] = 0
char (c ∷ p) = c

abbrev pub next : List ℕ → List ℕ
next [] = []
next (c ∷ p) = p

-- `strHelpers::cmpn`, as whether it finds no difference
unfoldable pub same_chars : ℕ → List ℕ → List ℕ → Bool
same_chars zero s t = true
same_chars (suc n) s t =
    let later = same_chars n (next s) (next t) in if char s == char t then later else false

-- `while (*p && *p != '\\') ++p`: what it goes past, and where it stops
abbrev pub is_end : ℕ → Bool
is_end c = (c == 0) || (c == backslash)

unfoldable pub word : List ℕ → List ℕ
word [] = []
word (c ∷ p) = let later = word p in if is_end c then [] else c ∷ later

unfoldable pub after_word : List ℕ → List ℕ
after_word [] = []
after_word (c ∷ p) = let later = after_word p in if is_end c then c ∷ p else later

-- The key, the value and the end of the value from `startKey` on
pub record Entry : Type 0 where
  pub name : List ℕ
  pub name_at : List ℕ
  pub value : List ℕ
  pub end_value : List ℕ

unfoldable pub entry : List ℕ → Entry
unfolding word after_word
entry p =
    let pkey = if char p == backslash then next p else p in
    let start_value = next (after_word pkey) in
    record {
      name = word pkey;
      name_at = pkey;
      value = word start_value;
      end_value = after_word start_value;
    }

-- The loop of `RemoveKey`: where the key starts and its value ends
unfoldable pub find_key : ℕ → List ℕ → List ℕ → Option (List ℕ × List ℕ)
unfolding entry same_chars
find_key zero key p = none
find_key (suc rounds) key p =
    let e = entry p in
    let later = find_key rounds key e.end_value in
    if char p == 0
    then none
    else if (length key == length e.name) && same_chars (length e.name) e.name_at key
    then some (p, e.end_value)
    else later

-- `std::memmove(startKey, endValue, keyBuffer + size - endValue)`
abbrev pub cut_out : List ℕ → Option (List ℕ × List ℕ) → List ℕ
cut_out buffer none = buffer
cut_out buffer (some (start_key, end_value)) =
    take (length buffer - length start_key) buffer ++ end_value

abbrev pub has_backslash : List ℕ → Bool
has_backslash [] = false
has_backslash (c ∷ cs) = (c == backslash) || has_backslash cs

-- `RemoveKey`
unfoldable pub remove_key : List ℕ → Info → Info
unfolding find_key
remove_key key info =
    let buffer = content info.key_buffer in
    let cut = record info {
      key_buffer = some (cut_out buffer (find_key (length buffer) key buffer));
    } in
    if is_null info.key_buffer then info else if has_backslash key then info else cut
  where
    is_null : Option (List ℕ) → Bool
    is_null none = true
    is_null (some buffer) = false

-- `SetValueForKey`
unfoldable pub set_value_for_key : List ℕ → List ℕ → Info → Info
unfolding remove_key
set_value_for_key [] value info = info
set_value_for_key (c ∷ key) value info =
    let removed = remove_key (c ∷ key) info in
    let size = length (content removed.key_buffer) in
    let size_no_nul = if not (size == 0) then size - 1 else 0 in
    let newsz = size_no_nul + 1 + length (c ∷ key) + 1 + length value + 1 in
    record {
      key_buffer = some (
          take size_no_nul (content removed.key_buffer)
          ++ (backslash ∷ (c ∷ key) ++ (backslash ∷ value ++ 0 ∷ [])));
      alloced = if ltb removed.alloced newsz then newsz else removed.alloced;
    }

-- The loop of `Info::ValueForKey`, and the function: nothing where it reads through a null pointer
unfoldable pub find_value : ℕ → List ℕ → List ℕ → List ℕ
unfolding entry same_chars
find_value zero key p = []
find_value (suc rounds) key p =
    let e = entry p in
    let later = find_value rounds key e.end_value in
    if char p == 0 then [] else if same_chars (length e.name) e.name_at key then e.value else later

abbrev value_in : List ℕ → Option (List ℕ) → Option (List ℕ)
value_in key none = none
value_in key (some buffer) = some (find_value (length buffer) key buffer)

pub value_for_key : List ℕ → Info → Option (List ℕ)
unfolding find_value
value_for_key key info = value_in key info.key_buffer

-- `while (p < end && *p != '\\') ++p`, where the list stops at the end, and the characters of a string
-- that is constructed from a pointer
unfoldable pub field : List ℕ → List ℕ
field [] = []
field (c ∷ p) = let later = field p in if c == backslash then [] else c ∷ later

unfoldable pub after_field : List ℕ → List ℕ
after_field [] = []
after_field (c ∷ p) = let later = after_field p in if c == backslash then c ∷ p else later

unfoldable pub c_chars : List ℕ → List ℕ
c_chars [] = []
c_chars (c ∷ p) = let later = c_chars p in if c == 0 then [] else c ∷ later

unfoldable pub skip_backslashes : List ℕ → List ℕ
skip_backslashes [] = []
skip_backslashes (c ∷ p) = let later = skip_backslashes p in if c == backslash then later else c ∷ p

-- `ReadOnlyInfo::ValueForKey` on the `size` characters of its buffer. What stands behind them is not
-- taken for a backslash.
unfoldable pub read_value : ℕ → List ℕ → List ℕ → List ℕ
unfolding field after_field c_chars skip_backslashes same_chars
read_value zero key p = []
read_value (suc rounds) key [] = []
read_value (suc rounds) key (c ∷ p) =
    let pkey = skip_backslashes (c ∷ p) in
    let key_len = length (field pkey) in
    let start_value = next (after_field pkey) in
    let later = read_value rounds key (after_field start_value) in
    if not (key_len == 0) && (key_len == length key) && same_chars key_len pkey key
    then take (length (field start_value)) (c_chars start_value)
    else later

pub read_only_value : List ℕ → List ℕ → List ℕ
unfolding read_value
read_only_value key buffer = read_value (length buffer) key buffer

-- `InfoIterator`: the keys and values that it shows one after the other, from `keyPtr` on
unfoldable pub shown : ℕ → List ℕ → List (List ℕ × List ℕ)
unfolding field after_field c_chars
shown zero key_ptr = []
shown (suc rounds) [] = []
shown (suc rounds) (c ∷ p) =
    let p2 = next (after_field (c ∷ p)) in
    (c_chars (field (c ∷ p)), c_chars (field p2)) ∷ shown rounds (next (after_field p2))

pub iterate : List ℕ → List (List ℕ × List ℕ)
unfolding skip_backslashes shown
iterate buffer = shown (length buffer) (skip_backslashes buffer)
