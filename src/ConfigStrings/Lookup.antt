-- ===== src/ConfigStrings/Lookup.antt =====
-- A string that is set is found again, and where the guards let too much through.
use mohpc.Base.{
  ℕ, zero, suc, ◌+◌, ◌≡◌, ◌≢◌, ◌≤◌, ◌<◌, refl, ap, ◌∙◌, arith, List, [], ◌∷◌, ◌++◌, true, false,
  length, length-append, get_or, set, splice, append_assoc, drop, ltb, leb, All, ok, err,
}
use mohpc.ConfigStrings.{
  ConfigStringManager, max_config_string, out_of_bounds, move_manager, c_string, get_config_string,
  get_config_string_checked, put, raise_highest, append_string, set_config_string,
}

drop-splice :
    (i : ℕ) (bs xs : List ℕ)
    → i + length bs ≤ length xs
    → (rest : List ℕ) × (drop i (splice i bs xs) ≡ bs ++ rest)
drop-splice zero [] xs h = (xs, refl)
drop-splice zero (b ∷ bs) [] h = absurd (omega arith)
drop-splice zero (b ∷ bs) (x ∷ xs) h =
    let (rest, e) = drop-splice zero bs xs (omega arith) in (rest, ap (◌∷◌ b) e)
drop-splice (suc i) bs [] h = absurd (omega arith)
drop-splice (suc i) bs (x ∷ xs) h = drop-splice i bs xs (omega arith)

c_string-append : (s rest : List ℕ) → All (λ c. 0 < c) s → c_string (s ++ (0 ∷ rest)) ≡ s
unfolding c_string
c_string-append [] rest all = refl
c_string-append (zero ∷ s) rest all = absurd (omega (arith, all.0))
c_string-append (suc c ∷ s) rest all = ap (◌∷◌ (suc c)) (c_string-append s rest all.1)

-- A string that ends before a place is not touched by a write there.
c_string-splice :
    (j i : ℕ) (bs xs : List ℕ)
    → j + length (c_string (drop j xs)) < i
    → c_string (drop j (splice i bs xs)) ≡ c_string (drop j xs)
unfolding c_string
c_string-splice j zero bs xs h = absurd (omega arith)
c_string-splice zero (suc i) bs [] h = refl
c_string-splice zero (suc i) bs (zero ∷ xs) h = refl
c_string-splice zero (suc i) bs (suc c ∷ xs) h =
    ap (◌∷◌ (suc c)) (c_string-splice zero i bs xs (omega arith))
c_string-splice (suc j) (suc i) bs [] h = refl
c_string-splice (suc j) (suc i) bs (x ∷ xs) h = c_string-splice j i bs xs (omega arith)

get_or-set : (i d v : ℕ) (xs : List ℕ) → i < length xs → get_or (set xs i v) i d ≡ v
get_or-set i d v [] h = absurd (omega arith)
get_or-set zero d v (x ∷ xs) h = refl
get_or-set (suc i) d v (x ∷ xs) h = get_or-set i d v xs (omega arith)

get_or-set_other : (i j d v : ℕ) (xs : List ℕ) → i ≢ j → get_or (set xs i v) j d ≡ get_or xs j d
get_or-set_other i j d v [] h = refl
get_or-set_other zero zero d v (x ∷ xs) h = absurd (h refl)
get_or-set_other zero (suc j) d v (x ∷ xs) h = refl
get_or-set_other (suc i) zero d v (x ∷ xs) h = refl
get_or-set_other (suc i) (suc j) d v (x ∷ xs) h = get_or-set_other i j d v xs (λ e. h (ap suc e))

length-set_lem : (i v : ℕ) (xs : List ℕ) → length (set xs i v) ≡ length xs
length-set_lem i v [] = refl
length-set_lem zero v (x ∷ xs) = refl
length-set_lem (suc i) v (x ∷ xs) = ap suc (length-set_lem i v xs)

-- The arrays have the sizes that the manager counts with.
pub record IsFormed (cs : ConfigStringManager) : Type 0 where
  pub offsets_size : length cs.string_offsets ≡ cs.max_config_strings
  pub data_size : length cs.string_data ≡ cs.max_chars

-- The manager with a string behind the others.
abbrev with_string : ℕ → List ℕ → ConfigStringManager → ConfigStringManager
with_string num string cs = record cs {
  string_offsets = set cs.string_offsets num cs.data_count;
  string_data = splice cs.data_count (string ++ 0 ∷ []) cs.string_data;
  data_count = cs.data_count + (length string + 1);
  highest_configstring = raise_highest num cs;
}

set_config_string-ok :
    (num c : ℕ) (rest : List ℕ) (cs : ConfigStringManager)
    → IsFormed cs
    → num < cs.max_config_strings
    → get_or cs.string_offsets num 0 ≡ 0
    → cs.data_count + length (c ∷ rest) < cs.max_chars
    → set_config_string num (c ∷ rest) cs ≡ ok (with_string num (c ∷ rest) cs)
unfolding set_config_string append_string put
set_config_string-ok num c rest cs formed inside empty fits =
    let size = length-append (c ∷ rest) (0 ∷ []) in
    let known : ltb cs.max_config_strings num ≡ false = ground arith in
    let in_array : leb (length cs.string_offsets) num ≡ false =
      ground (arith, formed.offsets_size) in
    let low : ltb cs.max_chars (cs.data_count + length (c ∷ rest)) ≡ false = ground arith in
    let room : leb (cs.data_count + length ((c ∷ rest) ++ 0 ∷ [])) (length cs.string_data) ≡ true =
      ground (arith, size, formed.data_size) in
    rw (known, in_array, empty, low, room) refl

-- A string of non-NUL characters that is set for a number without one, with room for it and its NUL,
-- is found under the number.
pub get-set_config_string :
    (num c : ℕ) (rest : List ℕ) (cs : ConfigStringManager)
    → IsFormed cs
    → num < cs.max_config_strings
    → get_or cs.string_offsets num 0 ≡ 0
    → cs.data_count + length (c ∷ rest) < cs.max_chars
    → All (λ c. 0 < c) (c ∷ rest)
    → (cs' : ConfigStringManager) × (set_config_string num (c ∷ rest) cs ≡ ok cs')
      × (get_config_string num cs' ≡ ok (c ∷ rest))
unfolding get_config_string get_config_string_checked
get-set_config_string num c rest cs formed inside empty fits chars =
    let known : ltb cs.max_config_strings num ≡ false = ground arith in
    let in_array : ltb num (length (set cs.string_offsets num cs.data_count)) ≡ true =
      ground (arith, formed.offsets_size, length-set_lem num cs.data_count cs.string_offsets) in
    let place =
      get_or-set num 0 cs.data_count cs.string_offsets (omega (arith, formed.offsets_size)) in
    let (behind, there) =
      drop-splice cs.data_count ((c ∷ rest) ++ 0 ∷ []) cs.string_data
        (omega (arith, formed.data_size, length-append (c ∷ rest) (0 ∷ []))) in
    (
      with_string num (c ∷ rest) cs,
      set_config_string-ok num c rest cs formed inside empty fits,
      rw (known, in_array, place)
          (ap (λ m. ok (c_string m)) (there ∙ append_assoc (c ∷ rest) (0 ∷ []) behind)
            ∙ ap ok (c_string-append (c ∷ rest) behind chars)),
    )

-- Setting such a string changes nothing for another number, if its string ends before the end of the
-- data.
pub get-set_config_string_other :
    (num c other : ℕ) (rest : List ℕ) (cs : ConfigStringManager)
    → IsFormed cs
    → num < cs.max_config_strings
    → get_or cs.string_offsets num 0 ≡ 0
    → cs.data_count + length (c ∷ rest) < cs.max_chars
    → num ≢ other
    → get_or cs.string_offsets other 0
        + length (c_string (drop (get_or cs.string_offsets other 0) cs.string_data))
      < cs.data_count
    → (cs' : ConfigStringManager) × (set_config_string num (c ∷ rest) cs ≡ ok cs')
      × (get_config_string other cs' ≡ get_config_string other cs)
unfolding get_config_string get_config_string_checked
get-set_config_string_other num c other rest cs formed inside empty fits differ ends =
    let size = length-set_lem num cs.data_count cs.string_offsets in
    let place = get_or-set_other num other 0 cs.data_count cs.string_offsets differ in
    let kept =
      c_string-splice (get_or cs.string_offsets other 0) cs.data_count ((c ∷ rest) ++ 0 ∷ [])
        cs.string_data ends in
    (
      with_string num (c ∷ rest) cs,
      set_config_string-ok num c rest cs formed inside empty fits,
      rw (size, place, kept) refl,
    )

-- The room for a new string is checked without its NUL: a string that fills the array writes one byte
-- behind it.
pub set_config_string-overflows :
    (num c : ℕ) (rest : List ℕ) (cs : ConfigStringManager)
    → IsFormed cs
    → num < cs.max_config_strings
    → get_or cs.string_offsets num 0 ≡ 0
    → cs.data_count + length (c ∷ rest) ≡ cs.max_chars
    → set_config_string num (c ∷ rest) cs ≡ err out_of_bounds
unfolding set_config_string append_string put
set_config_string-overflows num c rest cs formed inside empty full =
    let size = length-append (c ∷ rest) (0 ∷ []) in
    let known : ltb cs.max_config_strings num ≡ false = ground arith in
    let in_array : leb (length cs.string_offsets) num ≡ false =
      ground (arith, formed.offsets_size) in
    let low : ltb cs.max_chars (cs.data_count + length (c ∷ rest)) ≡ false = ground arith in
    let room : leb (cs.data_count + length ((c ∷ rest) ++ 0 ∷ [])) (length cs.string_data) ≡ false =
      ground (arith, size, formed.data_size) in
    rw (known, in_array, empty, low, room) refl

-- getConfigString of a number above the count of strings and up to the count of characters throws,
-- where a NULL is documented; the count of strings itself, which is no number of a string either,
-- reads behind the array; and after a move the number reads behind it too.
pub get_config_string-bounds :
    (num : ℕ) (cs : ConfigStringManager)
    → IsFormed cs
    → cs.max_config_strings < num
    → num ≤ cs.max_chars
    → (get_config_string num cs ≡ err (max_config_string num))
      × (get_config_string cs.max_config_strings cs ≡ err out_of_bounds)
      × (get_config_string num (move_manager cs) ≡ err out_of_bounds)
unfolding get_config_string get_config_string_checked move_manager
get_config_string-bounds num cs formed above below =
    (ground arith, ground (arith, formed.offsets_size), ground (arith, formed.offsets_size))
