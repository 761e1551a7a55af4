-- ===== src/Str.antt =====
-- core/kernel/core/string.c: the kernel's string routines.
-- A `const char*` is the list of the bytes from the pointer on: the first 0 byte ends the text, and
-- so does the end of the list. Moving a pointer drops bytes. A buffer that is written is a list whose
-- length is the room behind the pointer; a write beyond it changes nothing.
pub mod Text
pub mod Decimal
mod Tests
use liam_os.Base.{
  Bool, List, Option, [], false, if◌then◌else◌, leb, none, not, some, suc, true, u32_mod, zero, ℕ,
  ◌%◌, ◌&&◌, ◌*◌, ◌+◌, ◌-◌, ◌==◌, ◌||◌, ◌∷◌,
}

-- `*value`
abbrev pub first : List ℕ → ℕ
first [] = 0
first (c ∷ s) = c

-- `value + 1`
abbrev pub rest : List ℕ → List ℕ
rest [] = []
rest (c ∷ s) = s

abbrev pub is_blank : ℕ → Bool
is_blank c = (c == b' ') || (c == 9)

-- `string_length`
unfoldable pub string_length : List ℕ → ℕ
string_length [] = 0
string_length (c ∷ s) = if c == 0 then 0 else suc (string_length s)

-- `string_equals`
unfoldable pub string_equals : List ℕ → List ℕ → Bool
string_equals [] right = first right == 0
string_equals (c ∷ left) [] = c == 0
string_equals (c ∷ left) (d ∷ right) =
    if (c == 0) || (d == 0)
    then (c == 0) && (d == 0)
    else if c == d
    then string_equals left right
    else false

-- `string_starts_with`
unfoldable pub string_starts_with : List ℕ → List ℕ → Bool
string_starts_with value [] = true
string_starts_with [] (p ∷ prefix) = p == 0
string_starts_with (c ∷ value) (p ∷ prefix) =
    if p == 0 then true else if c == p then string_starts_with value prefix else false

-- `destination[index] = '\0'`, at the place that the destination was moved to.
abbrev pub terminate : List ℕ → List ℕ
terminate [] = []
terminate (d ∷ ds) = 0 ∷ ds

-- The loop of `string_copy`, with `max_length - 1 - index` rounds left.
unfoldable pub copy_loop : ℕ → List ℕ → List ℕ → List ℕ
copy_loop zero destination source = terminate destination
copy_loop (suc n) destination [] = terminate destination
copy_loop (suc n) [] (c ∷ source) = []
copy_loop (suc n) (d ∷ destination) (c ∷ source) =
    if c == 0 then terminate (d ∷ destination) else c ∷ copy_loop n destination source

-- `string_copy`
unfoldable pub string_copy : List ℕ → List ℕ → ℕ → List ℕ
unfolding copy_loop
string_copy destination source zero = destination
string_copy destination source (suc n) = copy_loop n destination source

-- `string_clear`
unfoldable pub string_clear : List ℕ → ℕ → List ℕ
string_clear buffer zero = buffer
string_clear [] (suc n) = []
string_clear (b ∷ buffer) (suc n) = 0 ∷ string_clear buffer n

-- `string_trim_left`, and `string_skip_spaces` with the index dropped from the pointer.
unfoldable pub string_trim_left : List ℕ → List ℕ
string_trim_left [] = []
string_trim_left (c ∷ s) = if is_blank c then string_trim_left s else c ∷ s

-- The loop of `string_copy_until_space`: the destination, and how many bytes were copied.
unfoldable pub copy_word_loop : ℕ → List ℕ → List ℕ → List ℕ × ℕ
copy_word_loop zero destination source = (terminate destination, 0)
copy_word_loop (suc n) destination [] = (terminate destination, 0)
copy_word_loop (suc n) [] (c ∷ source) = ([], 0)
copy_word_loop (suc n) (d ∷ destination) (c ∷ source) =
    let (copied, count) = copy_word_loop n destination source in
    if (c == 0) || is_blank c then (terminate (d ∷ destination), 0) else (c ∷ copied, suc count)

-- `string_copy_until_space`
unfoldable pub string_copy_until_space : List ℕ → List ℕ → ℕ → List ℕ × ℕ
unfolding copy_word_loop
string_copy_until_space destination source zero = (destination, 0)
string_copy_until_space destination source (suc n) = copy_word_loop n destination source

-- `string_hex_digit_value`
unfoldable pub string_hex_digit_value : ℕ → Option ℕ
string_hex_digit_value c =
    if leb b'0' c && leb c b'9'
    then some (c - b'0')
    else if leb b'a' c && leb c b'f'
    then some (c - b'a' + 10)
    else if leb b'A' c && leb c b'F'
    then some (c - b'A' + 10)
    else none

abbrev pub is_digit : ℕ → Bool
is_digit c = leb b'0' c && leb c b'9'

-- The digits of `string_to_uint32`: what was parsed, whether there was one, and what follows.
unfoldable pub decimal_loop : ℕ → Bool → List ℕ → ℕ × Bool × List ℕ
decimal_loop parsed found [] = (parsed, found, [])
decimal_loop parsed found (c ∷ s) =
    let later = decimal_loop ((parsed * 10 + (c - b'0')) % u32_mod) true s in
    if is_digit c then later else (parsed, found, c ∷ s)

-- `string_to_uint32`: `none` where it returns 0.
unfoldable pub string_to_uint32 : List ℕ → Option ℕ
unfolding string_trim_left decimal_loop
string_to_uint32 value =
    let (parsed, found, left) = decimal_loop 0 false (string_trim_left value) in
    if not found then none else if first (string_trim_left left) == 0 then some parsed else none

-- The digits of the hexadecimal branch. `(parsed << 4) | digit` is a sum, since `digit < 16`.
unfoldable pub hex_loop : ℕ → Bool → List ℕ → ℕ × Bool × List ℕ
unfolding string_hex_digit_value
hex_loop parsed found [] = (parsed, found, [])
hex_loop parsed found (c ∷ s) = elim (string_hex_digit_value c) [
  | none ↦ (parsed, found, c ∷ s)
  | some digit ↦ hex_loop (parsed * 16 % u32_mod + digit) true s
]

-- `string_to_uint32_auto`
unfoldable pub string_to_uint32_auto : List ℕ → Option ℕ
unfolding string_trim_left hex_loop string_to_uint32
string_to_uint32_auto value =
    let start = string_trim_left value in
    let (parsed, found, left) = hex_loop 0 false (rest (rest start)) in
    if (first start == b'0') && ((first (rest start) == b'x') || (first (rest start) == b'X'))
    then (if not found || not (first (string_trim_left left) == 0) then none else some parsed)
    else string_to_uint32 value
