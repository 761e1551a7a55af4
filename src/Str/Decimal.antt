-- ===== src/Str/Decimal.antt =====
-- `string_to_uint32` against the value of a decimal numeral.

use liam_os.Base.{
  Bool, List, [], ap, arith, false, refl, some, true, u32_mod, ℕ, ◌%◌, ◌*◌, ◌++◌, ◌+◌, ◌-◌, ◌∙◌,
  ◌∷◌, ◌≡◌,
}
use liam_os.Str.{decimal_loop, first, is_blank, is_digit, string_to_uint32, string_trim_left}

abbrev pub AllDigits : List ℕ → Type 0
AllDigits [] = Unit {0}
AllDigits (c ∷ s) = (is_digit c ≡ true) × AllDigits s

abbrev pub AllBlank : List ℕ → Type 0
AllBlank [] = Unit {0}
AllBlank (c ∷ s) = (is_blank c ≡ true) × AllBlank s

-- The number that the digits stand for, after `acc`, with no bound.
unfoldable pub value_from : ℕ → List ℕ → ℕ
value_from acc [] = acc
value_from acc (c ∷ s) = value_from (acc * 10 + (c - b'0')) s

trim-blank : (b s : List ℕ) → AllBlank b → string_trim_left (b ++ s) ≡ string_trim_left s
unfolding string_trim_left
trim-blank [] s h = refl
trim-blank (c ∷ b) s h = rw h.0 (trim-blank b s h.1)

trim-digit : (c : ℕ) (s : List ℕ) → is_digit c ≡ true → string_trim_left (c ∷ s) ≡ c ∷ s
unfolding string_trim_left
trim-digit c s h = ground arith

-- Whether a digit was seen: before, or among these.
abbrev seen : Bool → List ℕ → Bool
seen found [] = found
seen found (c ∷ s) = true

seen-true : (s : List ℕ) → seen true s ≡ true
seen-true [] = refl
seen-true (c ∷ s) = refl

-- The parser's accumulator is the numeral's value up to 2 ^ 32.
decimal_loop_lem :
    (digits after : List ℕ) (acc parsed : ℕ) (found : Bool)
    → AllDigits digits
    → is_digit (first after) ≡ false
    → parsed ≡ acc % u32_mod
    → decimal_loop parsed found (digits ++ after)
      ≡ (value_from acc digits % u32_mod, seen found digits, after)
unfolding decimal_loop value_from
decimal_loop_lem [] [] acc parsed found d a e = ground arith
decimal_loop_lem [] (c ∷ after) acc parsed found d a e = ground arith
decimal_loop_lem (c ∷ digits) after acc parsed found d a e = rw d.0 (
    decimal_loop_lem digits after (acc * 10 + (c - b'0')) ((parsed * 10 + (c - b'0')) % u32_mod)
      true d.1 a (omega arith)
    ∙ ap (λ b. (value_from (acc * 10 + (c - b'0')) digits % u32_mod, b, after)) (seen-true digits))

after_digits :
    (after tail : List ℕ)
    → AllBlank after
    → first tail ≡ 0
    → is_digit (first (after ++ tail)) ≡ false
after_digits [] tail a t = rw t refl
after_digits (c ∷ after) tail a t = ground arith

ends :
    (after tail : List ℕ)
    → AllBlank after
    → first tail ≡ 0
    → first (string_trim_left (after ++ tail)) ≡ 0
unfolding string_trim_left
ends [] [] a t = refl
ends [] (c ∷ tail) a t = ground arith
ends (c ∷ after) tail a t = rw a.0 (ends after tail a.1 t)

-- A decimal numeral with blanks round it parses to its value, reduced modulo 2 ^ 32: a numeral that
-- does not fit wraps round without an error.
pub string_to_uint32-numeral :
    (before digits after tail : List ℕ) (c : ℕ)
    → AllBlank before
    → AllDigits (c ∷ digits)
    → AllBlank after
    → first tail ≡ 0
    → string_to_uint32 (before ++ ((c ∷ digits) ++ (after ++ tail)))
      ≡ some (value_from 0 (c ∷ digits) % u32_mod)
unfolding string_to_uint32
string_to_uint32-numeral before digits after tail c b d a t =
    rw
      (
        trim-blank before ((c ∷ digits) ++ (after ++ tail)) b,
        trim-digit c (digits ++ (after ++ tail)) d.0,
        decimal_loop_lem (c ∷ digits) (after ++ tail) 0 0 false d (after_digits after tail a t)
            refl,
        ends after tail a t,
      )
      refl
