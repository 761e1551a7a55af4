-- ===== src/Process/Passing.antt =====
-- Arguments from `process_configure_arguments` to the program that asks for them.
use liam_os.Base.{
  ==→≡, List, Status, [], add32, ap, arith, get_or, get_or-set_self, if_cases, if_false, leb,
  length, length-set, ltb, ok, refl, set, some, suc, sym, take, zero, ℕ, ◌+◌, ◌-◌, ◌<◌, ◌==◌, ◌∙◌,
  ◌∷◌, ◌≡◌, ◌≤◌,
}
use liam_os.Str.{first, string_clear, string_copy, string_length, string_trim_left}
use liam_os.Str.Text.{string_copy_lem, string_length-text, text}
use liam_os.Process.Lifecycle.{name_argument}
use liam_os.Process.{
  Process, Table, argument_line_max, argument_max, clear_arguments, clear_argv, no_process, slot_at,
}
use liam_os.Process.Arguments.{
  argument_of, configure_arguments, configured, get_current_argc, get_current_argument,
  max_arguments, set_arguments,
}
use liam_os.Process.Splitting.{
  AllShort, Roomy, Splits, first-trim, gather, keep, no_word_left, set-Roomy,
  split_arguments-Splits, take_all, words, words-end, words-text, words-trim,
}

-- A process whose buffers have the sizes of `process_t`.
pub record IsSized (p : Process) : Type 0 where
  pub argument_buffers : length p.argv ≡ max_arguments
  pub argument_room : Roomy p.argv
  pub line_room : argument_line_max ≤ length p.arguments

-- Arguments that fit: the line, each word, and their number.
pub record Fits (arguments : List ℕ) : Type 0 where
  pub line_fits : length (text (string_trim_left arguments)) < argument_line_max
  pub words_fit : AllShort (words arguments)
  pub few : length (words arguments) < max_arguments

length-string_clear : (b : List ℕ) (n : ℕ) → length (string_clear b n) ≡ length b
unfolding string_clear
length-string_clear b zero = refl
length-string_clear [] (suc n) = refl
length-string_clear (c ∷ b) (suc n) = ap suc (length-string_clear b n)

clear_argv-Roomy :
    (argv : List (List ℕ))
    → Roomy argv
    → (length (clear_argv argv) ≡ length argv) × Roomy (clear_argv argv)
unfolding clear_argv
clear_argv-Roomy [] r = (refl, r)
clear_argv-Roomy (a ∷ argv) r =
    let ih = clear_argv-Roomy argv (λ i l. r (suc i) (omega arith)) in
    (
      ap suc ih.0,
      elim [
        | zero ↦ λ l. omega (arith, length-string_clear a argument_max, r 0 (omega arith))
        | suc i ↦ λ l. ih.1 i (omega arith)
      ],
    )

-- The buffers once the name has been copied into the first.
named_lem :
    (p : Process)
    → IsSized p
    → let q = name_argument (clear_arguments p) in
      (length q.argv ≡ max_arguments) × Roomy q.argv × (argument_line_max ≤ length q.arguments)
unfolding clear_arguments
named_lem p z =
    let c = clear_argv-Roomy p.argv z.argument_room in
    let first_room = c.1 0 (omega (arith, c.0, z.argument_buffers)) in
    let copied =
      string_copy_lem (get_or (clear_argv p.argv) 0 []) p.name argument_max (omega arith)
        first_room in
    (
      length-set (clear_argv p.argv) 0 _ ∙ c.0 ∙ z.argument_buffers,
      set-Roomy (clear_argv p.argv) 0 _ c.1 (omega (arith, copied.1, first_room)),
      omega (arith, length-string_clear p.arguments argument_line_max, z.line_room),
    )

-- The copy of the line has the same words.
words-line :
    (b cursor : List ℕ)
    → argument_line_max ≤ length b
    → length (text cursor) < argument_line_max
    → words (string_copy b cursor argument_line_max) ≡ words cursor
unfolding words
words-line b cursor room short =
    let c = string_copy_lem b cursor argument_line_max (omega arith) room in
    ap keep (
      sym (words-text (string_copy b cursor argument_line_max))
      ∙ ap gather (c.0 ∙ take_all 127 (text cursor) (omega arith))
      ∙ words-text cursor)

configured-Splits :
    (p : Process) (arguments : List ℕ)
    → IsSized p
    → Fits arguments
    → let q = configured p (some arguments) in
      Splits 1 (name_argument (clear_arguments p)).argv (words arguments) (q.argc, q.argv)
unfolding configured set_arguments
configured-Splits p arguments z f =
    let q = name_argument (clear_arguments p) in
    let n = named_lem p z in
    let cursor = string_trim_left arguments in
    let line = string_copy q.arguments cursor argument_line_max in
    let e : words (string_trim_left line) ≡ words arguments =
      words-trim line ∙ words-line q.arguments cursor n.2 f.line_fits ∙ words-trim arguments in
    if_cases (λ (r : Process). Splits 1 q.argv (words arguments) (r.argc, r.argv))
      (first cursor == 0)
      (λ end.
        rw (sym (words-trim arguments) ∙ words-end cursor (==→≡ _ _ end)) (no_word_left 1 q.argv))
      (λ _. rw (← e) (
        split_arguments-Splits 7 (string_trim_left line) 1 q.argv (first-trim line)
          (omega (arith, ap length e, f.few)) (rw e f.words_fit) (omega (arith, n.0)) n.1))

short_word : (ws : List (List ℕ)) (k : ℕ) → AllShort ws → length (get_or ws k []) < argument_max
short_word [] k s = omega arith
short_word (w ∷ ws) zero s = s.0
short_word (w ∷ ws) (suc k) s = short_word ws k s.1

argument_of_lem :
    (q : Process) (index len : ℕ) (buffer w : List ℕ)
    → text (get_or q.argv index []) ≡ w
    → length w < argument_max
    → index < q.argc
    → length w < len
    → len ≤ length buffer
    → let r = argument_of q index buffer len in (r.0 ≡ ok) × (text r.1 ≡ w) × (r.2 ≡ length w)
unfolding argument_of
argument_of_lem q index len buffer w e short lt room fits =
    let a = get_or q.argv index [] in
    let n : string_length a ≡ length w = string_length-text a ∙ ap length e in
    let c = string_copy_lem buffer a len (omega arith) fits in
    if_cases (λ (r : Status × List ℕ × ℕ). (r.0 ≡ ok) × (text r.1 ≡ w) × (r.2 ≡ length w))
      (leb q.argc index) (λ h. absurd (ground (arith, h, lt)))
      (λ _.
        if_cases (λ (r : Status × List ℕ × ℕ). (r.0 ≡ ok) × (text r.1 ≡ w) × (r.2 ≡ length w))
          (ltb len (add32 (string_length a) 1)) (λ h. absurd (ground (arith, h, n, short, room)))
          (λ _. (refl, c.0 ∙ ap (take (len - 1)) e ∙ take_all (len - 1) w (omega arith), n)))

argc_current : (u : Table) (i : ℕ) → u.current ≡ some i → get_current_argc u ≡ (slot_at u i).argc
unfolding get_current_argc
argc_current u i e = rw e refl

argument_current :
    (u : Table) (i index len : ℕ) (buffer : List ℕ)
    → u.current ≡ some i
    → 0 < len
    → get_current_argument u index (some buffer) len ≡ argument_of (slot_at u i) index buffer len
unfolding get_current_argument
argument_current u i index len buffer e pos = rw e (if_false (len == 0) _ _ (ground (arith, pos)))

-- Arguments round trip, for a current process whose buffers have their sizes: once
-- `process_configure_arguments` has been given a line that fits, the process's count is one more than
-- the line has words, and `process_get_current_argument` of each place from 1 on copies that word of
-- the line into a buffer that is long enough, and gives its length.
pub configure_arguments-get :
    (t : Table) (i k len : ℕ) (arguments buffer : List ℕ)
    → t.current ≡ some i
    → i < length t.slots
    → IsSized (slot_at t i)
    → Fits arguments
    → k < length (words arguments)
    → length (get_or (words arguments) k []) < len
    → len ≤ length buffer
    → let u = (configure_arguments t (some i) (some arguments)).1 in
      let r = get_current_argument u (1 + k) (some buffer) len in
      (get_current_argc u ≡ 1 + length (words arguments))
      × (r.0 ≡ ok)
      × (text r.1 ≡ get_or (words arguments) k [])
      × (r.2 ≡ length (get_or (words arguments) k []))
unfolding configure_arguments
configure_arguments-get t i k len arguments buffer current lt z f k_lt room fits =
    let w = get_or (words arguments) k [] in
    let q = configured (slot_at t i) (some arguments) in
    let u = record t { slots = set t.slots i q } in
    let here : slot_at u i ≡ q = get_or-set_self t.slots i q no_process lt in
    let s = configured-Splits (slot_at t i) arguments z f in
    let r =
      argument_of_lem q (1 + k) len buffer w (s.copied k k_lt)
        (short_word (words arguments) k f.words_fit) (omega (arith, s.counted)) room fits in
    (
      argc_current u i current ∙ ap (λ p. p.argc) here ∙ s.counted,
      rw (argument_current u i (1 + k) len buffer current (omega arith), here) r.0,
      rw (argument_current u i (1 + k) len buffer current (omega arith), here) r.1,
      rw (argument_current u i (1 + k) len buffer current (omega arith), here) r.2,
    )
