-- ===== src/Str/Tests.antt =====
-- Runs of string.c's functions, and its theorems at concrete inputs.
use liam_os.Base.{List, [], refl, some, ℕ, ◌∷◌, ◌≡◌}
use liam_os.Str.Decimal.{string_to_uint32-numeral, value_from}
use liam_os.Str.{string_to_uint32, string_to_uint32_auto}

-- "ab c", with a byte behind the end of the text
abbrev sample : List ℕ
sample = b'a' ∷ b'b' ∷ b' ' ∷ b'c' ∷ 0 ∷ 7 ∷ []

parses_hex : string_to_uint32_auto (b' ' ∷ b'0' ∷ b'x' ∷ b'1' ∷ b'F' ∷ []) ≡ some 31
unfolding string_to_uint32_auto
parses_hex = refl

-- " 42 "
string_to_uint32-numeral_example : string_to_uint32 (b' ' ∷ b'4' ∷ b'2' ∷ b' ' ∷ 0 ∷ []) ≡ some 42
unfolding value_from
string_to_uint32-numeral_example =
    string_to_uint32-numeral (b' ' ∷ []) (b'2' ∷ []) (b' ' ∷ []) (0 ∷ []) b'4' (refl, tt)
      (refl, (refl, tt)) (refl, tt) refl
