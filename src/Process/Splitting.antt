-- ===== src/Process/Splitting.antt =====
-- The argument line of `process_configure_arguments` against its words.
use liam_os.Base.{
  ==→≡, ==→≢, Bool-cases, List, [], ap, arith, drop, false, get_or, get_or-set_ne, get_or-set_self,
  if_cases, if◌then◌else◌, inl, inr, length, length-set, refl, set, subst, suc, sym, take, tests,
  zero, ℕ, ◌+◌, ◌<◌, ◌==◌, ◌∙◌, ◌∷◌, ◌≡◌, ◌≢◌, ◌≤◌,
}
use liam_os.Str.{first, is_blank, string_copy_until_space, string_trim_left}
use liam_os.Str.Text.{string_copy_until_space_lem, text, word}
use liam_os.Process.{argument_max}
use liam_os.Process.Arguments.{split_arguments}

-- A text cut at its blanks: the word that it begins with, and the later words that are not empty.
abbrev pub keep : List ℕ × List (List ℕ) → List (List ℕ)
keep ([], later) = later
keep (c ∷ w, later) = (c ∷ w) ∷ later

unfoldable pub gather : List ℕ → List ℕ × List (List ℕ)
gather [] = ([], [])
gather (c ∷ s) =
    let (w, later) = gather s in
    if c == 0 then ([], []) else if is_blank c then ([], keep (w, later)) else (c ∷ w, later)

unfoldable pub words : List ℕ → List (List ℕ)
unfolding gather
words s = keep (gather s)

gather-word : (s : List ℕ) → (gather s).0 ≡ word s
unfolding gather
gather-word [] = refl
gather-word (c ∷ s) = ground (arith, gather-word s)

pub words-text : (s : List ℕ) → gather (text s) ≡ gather s
unfolding gather
words-text [] = refl
words-text (c ∷ s) =
    if_cases (λ l. gather l ≡ gather (c ∷ s)) (c == 0) (λ z. rw z refl)
      (λ n. rw (n, words-text s) refl)

pub words-trim : (s : List ℕ) → words (string_trim_left s) ≡ words s
unfolding words string_trim_left
words-trim [] = refl
words-trim (c ∷ s) =
    if_cases (λ l. keep (gather l) ≡ keep (gather (c ∷ s))) (is_blank c)
      (λ b. words-trim s ∙ ground (arith, b)) (λ b. refl)

pub first-trim : (s : List ℕ) → is_blank (first (string_trim_left s)) ≡ false
unfolding string_trim_left
first-trim [] = refl
first-trim (c ∷ s) =
    if_cases (λ l. is_blank (first l) ≡ false) (is_blank c) (λ b. first-trim s) (λ b. b)

-- What follows the first word.
gather-later : (s : List ℕ) → (gather s).1 ≡ words (drop (length (word s)) s)
unfolding gather words
gather-later [] = refl
gather-later (c ∷ s) = ground (arith, gather-later s)

-- A text that begins with neither a blank nor its end begins with a word.
words-first :
    (s : List ℕ)
    → first s ≢ 0
    → is_blank (first s) ≡ false
    → (words s ≡ word s ∷ words (drop (length (word s)) s)) × (0 < length (word s))
unfolding words gather
words-first [] n b = absurd (n refl)
words-first (c ∷ s) n b = ground (arith, gather-word s, gather-later s)

pub words-end : (s : List ℕ) → first s ≡ 0 → words s ≡ []
unfolding words gather
words-end [] h = refl
words-end (c ∷ s) h = ground (arith, h)

-- Each word fits an argument's buffer.
abbrev pub AllShort : List (List ℕ) → Type 0
AllShort [] = Unit {0}
AllShort (w ∷ ws) = (length w < argument_max) × AllShort ws

-- Buffers with the room that the code counts on.
abbrev pub Roomy : List (List ℕ) → Type 0
Roomy argv = (i : ℕ) → i < length argv → argument_max ≤ length (get_or argv i [])

pub set-Roomy :
    (argv : List (List ℕ)) (j : ℕ) (b : List ℕ)
    → Roomy argv
    → argument_max ≤ length b
    → Roomy (set argv j b)
set-Roomy argv j b r h i l = elim (Bool-cases (i == j)) [
  | inl here ↦
      let e : i ≡ j = ==→≡ _ _ here in
      let it : get_or (set argv j b) j [] ≡ b =
        get_or-set_self argv j b [] (omega (arith, length-set argv j b)) in
      rw (e, it) h
  | inr away ↦
      rw (get_or-set_ne argv j i b [] (λ e. ==→≢ _ _ away (sym e)))
        (r i (omega (arith, length-set argv j b)))
]

-- What the loop owes for the words `ws`, from argument `argc` on.
pub record Splits (argc : ℕ) (argv : List (List ℕ)) (ws : List (List ℕ)) (r : ℕ × List (List ℕ))
    : Type 0 where
  pub counted : r.0 ≡ argc + length ws
  pub copied : (k : ℕ) → k < length ws → text (get_or r.1 (argc + k) []) ≡ get_or ws k []
  pub kept : (i : ℕ) → i < argc → get_or r.1 i [] ≡ get_or argv i []

pub take_all : (n : ℕ) (xs : List ℕ) → length xs ≤ n → take n xs ≡ xs
take_all zero [] h = refl
take_all zero (x ∷ xs) h = absurd (omega arith)
take_all (suc n) [] h = refl
take_all (suc n) (x ∷ xs) h = ap (λ l. x ∷ l) (take_all n xs (omega arith))

-- One argument: the first word, whole.
one_word :
    (b cursor : List ℕ)
    → argument_max ≤ length b
    → length (word cursor) < argument_max
    → let r = string_copy_until_space b cursor argument_max in
      (text r.0 ≡ word cursor) × (r.1 ≡ length (word cursor)) × (length r.0 ≡ length b)
one_word b cursor room short =
    let c = string_copy_until_space_lem b cursor argument_max (omega arith) room in
    let e = take_all 63 (word cursor) (omega arith) in (c.0 ∙ e, c.1 ∙ ap length e, c.3)

-- The loop for one word more.
one_word_more :
    (argc : ℕ) (argv : List (List ℕ)) (b : List ℕ) (w : List ℕ) (ws : List (List ℕ))
    (r : ℕ × List (List ℕ))
    → argc < length argv
    → text b ≡ w
    → Splits (suc argc) (set argv argc b) ws r
    → Splits argc argv (w ∷ ws) r
one_word_more argc argv b w ws r lt e p = record {
  counted = omega (arith, p.counted);
  copied = elim [
    | zero ↦ λ l.
        let at : argc + 0 ≡ argc = omega arith in
        rw at (ap text (p.kept argc (omega arith) ∙ get_or-set_self argv argc b [] lt) ∙ e)
    | suc k ↦
        λ l. let at : argc + suc k ≡ suc argc + k = omega arith in rw at (p.copied k (omega arith))
  ];
  kept = λ i l. p.kept i (omega arith) ∙ get_or-set_ne argv argc i b [] (λ e. omega (arith, e));
}

pub no_word_left : (argc : ℕ) (argv : List (List ℕ)) → Splits argc argv [] (argc, argv)
no_word_left argc argv = record {
  counted = omega arith;
  copied = λ k l. absurd (omega arith);
  kept = λ i l. refl;
}

no_words : (ws : List (List ℕ)) → length ws ≤ 0 → ws ≡ []
no_words [] h = refl
no_words (w ∷ ws) h = absurd (omega arith)

pub split_arguments-Splits :
    (n : ℕ) (cursor : List ℕ) (argc : ℕ) (argv : List (List ℕ))
    → is_blank (first cursor) ≡ false
    → length (words cursor) ≤ n
    → AllShort (words cursor)
    → argc + n ≤ length argv
    → Roomy argv
    → Splits argc argv (words cursor) (split_arguments n cursor argc argv)
unfolding split_arguments
split_arguments-Splits zero cursor argc argv trimmed few short room roomy =
    rw (no_words (words cursor) few) (no_word_left argc argv)
split_arguments-Splits (suc n) cursor argc argv trimmed few short room roomy =
    if_cases (Splits argc argv (words cursor)) (first cursor == 0)
      (λ end. rw (words-end cursor (==→≡ _ _ end)) (no_word_left argc argv))
      (λ more.
        let f = words-first cursor (==→≢ _ _ more) trimmed in
        let s = subst AllShort f.0 short in
        let b = get_or argv argc [] in
        let o = one_word b cursor (roomy argc (omega arith)) s.0 in
        let argument = (string_copy_until_space b cursor argument_max).0 in
        let left = drop (string_copy_until_space b cursor argument_max).1 cursor in
        let e : words (string_trim_left left) ≡ words (drop (length (word cursor)) cursor) =
          words-trim left ∙ ap (λ k. words (drop k cursor)) o.1 in
        if_cases (Splits argc argv (words cursor))
          ((string_copy_until_space b cursor argument_max).1 == 0)
          (λ zero_copied. absurd (omega (tests, zero_copied, o.1, f.1)))
          (λ _. rw f.0 (
            one_word_more argc argv argument (word cursor) _ _ (omega arith) o.0 (
              rw (← e) (
                split_arguments-Splits n (string_trim_left left) (suc argc) (set argv argc argument)
                  (first-trim left) (omega (arith, ap length f.0, ap length e)) (rw e s.1)
                  (omega (arith, length-set argv argc argument))
                  (set-Roomy argv argc argument roomy
                    (omega (arith, o.2, roomy argc (omega arith)))))))))
