-- ===== src/Str/Text.antt =====
-- The routines against the text that a buffer holds: its bytes before the first 0.
use liam_os.Base.{
  List, [], ap, arith, if◌then◌else◌, length, length-take, refl, suc, take, true, zero, ℕ, ◌-◌, ◌<◌,
  ◌==◌, ◌||◌, ◌↔◌, ◌∷◌, ◌≡◌, ◌≤◌,
}
use liam_os.Str.{
  copy_loop, copy_word_loop, is_blank, string_copy, string_copy_until_space, string_equals,
  string_length, string_starts_with, terminate,
}

abbrev pub text : List ℕ → List ℕ
text [] = []
text (c ∷ s) = if c == 0 then [] else c ∷ text s

-- `string_length` counts the bytes of the text.
pub string_length-text : (s : List ℕ) → string_length s ≡ length (text s)
unfolding string_length
string_length-text [] = refl
string_length-text (c ∷ s) = ground (arith, string_length-text s)

-- `string_equals` holds exactly of buffers with the same text.
pub string_equals_iff : (l r : List ℕ) → (string_equals l r ≡ true) ↔ (text l ≡ text r)
unfolding string_equals
string_equals_iff [] [] = (λ _. refl, λ _. refl)
string_equals_iff [] (d ∷ r) = (ground arith, ground arith)
string_equals_iff (c ∷ l) [] = (ground arith, ground arith)
string_equals_iff (c ∷ l) (d ∷ r) =
    let ih = string_equals_iff l r in (ground (arith, ih.0), ground (arith, ih.1))

-- `string_starts_with` holds exactly if the prefix's text begins the value's.
pub string_starts_with_iff :
    (v p : List ℕ) → (string_starts_with v p ≡ true) ↔ (take (string_length p) (text v) ≡ text p)
unfolding string_starts_with string_length
string_starts_with_iff v [] = (λ _. refl, λ _. refl)
string_starts_with_iff [] (d ∷ p) = (ground arith, ground arith)
string_starts_with_iff (c ∷ v) (d ∷ p) =
    let ih = string_starts_with_iff v p in (ground (arith, ih.0), ground (arith, ih.1))

length-terminate : (d : List ℕ) → length (terminate d) ≡ length d
length-terminate [] = refl
length-terminate (x ∷ d) = refl

text-terminate : (d : List ℕ) → text (terminate d) ≡ []
text-terminate [] = refl
text-terminate (x ∷ d) = refl

copy_loop_lem :
    (n : ℕ) (d s : List ℕ)
    → n < length d
    → (text (copy_loop n d s) ≡ take n (text s)) × (length (copy_loop n d s) ≡ length d)
unfolding copy_loop
copy_loop_lem zero d s h = (text-terminate d, length-terminate d)
copy_loop_lem (suc n) d [] h = (text-terminate d, length-terminate d)
copy_loop_lem (suc n) [] (c ∷ s) h = absurd (omega arith)
copy_loop_lem (suc n) (x ∷ d) (c ∷ s) h =
    let ih = copy_loop_lem n d s (omega arith) in (ground (arith, ih.0), ground (arith, ih.1))

-- Into a buffer with room for `max_length` bytes, `string_copy` writes the source's text, cut to
-- `max_length - 1` bytes, and never grows the buffer. The result always ends with a 0 byte in it.
pub string_copy_lem :
    (d s : List ℕ) (max_length : ℕ)
    → 0 < max_length
    → max_length ≤ length d
    → (text (string_copy d s max_length) ≡ take (max_length - 1) (text s))
      × (length (string_copy d s max_length) ≡ length d)
      × (string_length (string_copy d s max_length) < max_length)
unfolding string_copy
string_copy_lem d s zero h k = absurd (omega arith)
string_copy_lem d s (suc n) h k =
    let e : suc n - 1 ≡ n = omega arith in
    let c = copy_loop_lem n d s (omega arith) in
    (
      rw e c.0,
      c.1,
      omega (arith, string_length-text (copy_loop n d s), ap length c.0, length-take n (text s)),
    )

-- The bytes before the first blank or 0.
abbrev pub word : List ℕ → List ℕ
word [] = []
word (c ∷ s) = if (c == 0) || is_blank c then [] else c ∷ word s

copy_word_loop_lem :
    (n : ℕ) (d s : List ℕ)
    → n < length d
    → (text (copy_word_loop n d s).0 ≡ take n (word s))
      × ((copy_word_loop n d s).1 ≡ length (take n (word s)))
      × (length (copy_word_loop n d s).0 ≡ length d)
unfolding copy_word_loop
copy_word_loop_lem zero d s h = (text-terminate d, refl, length-terminate d)
copy_word_loop_lem (suc n) d [] h = (text-terminate d, refl, length-terminate d)
copy_word_loop_lem (suc n) [] (c ∷ s) h = absurd (omega arith)
copy_word_loop_lem (suc n) (x ∷ d) (c ∷ s) h =
    let ih = copy_word_loop_lem n d s (omega arith) in
    (ground (arith, ih.0), ground (arith, ih.1), ground (arith, ih.2))

-- `string_copy_until_space` writes the source's first word, cut to the room, returns how many bytes
-- that were, and never grows the buffer.
pub string_copy_until_space_lem :
    (d s : List ℕ) (max_length : ℕ)
    → 0 < max_length
    → max_length ≤ length d
    → let r = string_copy_until_space d s max_length in
      (text r.0 ≡ take (max_length - 1) (word s))
      × (r.1 ≡ length (take (max_length - 1) (word s)))
      × (r.1 < max_length)
      × (length r.0 ≡ length d)
unfolding string_copy_until_space
string_copy_until_space_lem d s zero h k = absurd (omega arith)
string_copy_until_space_lem d s (suc n) h k =
    let e : suc n - 1 ≡ n = omega arith in
    let c = copy_word_loop_lem n d s (omega arith) in
    (rw e c.0, rw e c.1, omega (arith, c.1, length-take n (word s)), c.2)
