-- ===== src/Elf/Selection.antt =====
-- core/kernel/loader/elf32.c: which program header the loop of `elf32_load_from_node` selects.
use liam_os.Base.{
  ==→≡, ==→≢, List, ap, arith, if_cases, refl, subst, suc, zero, ℕ, ◌*◌, ◌+◌, ◌<◌, ◌==◌, ◌∙◌, ◌≡◌,
  ◌≢◌,
}
use liam_os.Elf.{
  ProgramHeader, Selected, nothing, program_header_at, segment, select_segment, several,
}

-- What `r` says of the `n` headers from `at` on, when `s` was selected before them.
abbrev pub Selects : List ℕ → ℕ → ℕ → ℕ → Selected → Selected → Type 0
Selects bytes n at size several r = r ≡ several
Selects bytes n at size nothing nothing = Unit {0}
Selects bytes n at size nothing several = Unit {0}
Selects bytes n at size nothing (segment p) =
    (k : ℕ) × (k < n)
    × (p ≡ program_header_at bytes (at + k * size))
    × (p.type ≡ 1)
    × ((j : ℕ) → j < n → j ≢ k → (program_header_at bytes (at + j * size)).type ≢ 1)
Selects bytes n at size (segment q) nothing = Unit {0}
Selects bytes n at size (segment q) several = Unit {0}
Selects bytes n at size (segment q) (segment p) =
    (p ≡ q) × ((j : ℕ) → j < n → (program_header_at bytes (at + j * size)).type ≢ 1)

next_address : (at j size : ℕ) → at + size + j * size ≡ at + suc j * size
next_address at j size = omega arith

start_address : (at size : ℕ) → at ≡ at + 0 * size
start_address at size = omega arith

-- The later headers, and the first one, together.
with_first :
    (bytes : List ℕ) (n at size : ℕ)
    → (program_header_at bytes at).type ≢ 1
    → ((j : ℕ) → j < n → (program_header_at bytes (at + size + j * size)).type ≢ 1)
    → (j : ℕ) → j < suc n
    → (program_header_at bytes (at + j * size)).type ≢ 1
with_first bytes n at size off later zero lt =
    subst (λ a. (program_header_at bytes a).type ≢ 1) (start_address at size) off
with_first bytes n at size off later (suc j) lt =
    subst (λ a. (program_header_at bytes a).type ≢ 1) (next_address at j size)
      (later j (omega (arith, lt)))

Selects-segment :
    (bytes : List ℕ) (n at size : ℕ) (h : ProgramHeader) (r : Selected)
    → h ≡ program_header_at bytes at
    → h.type ≡ 1
    → Selects bytes n (at + size) size (segment h) r
    → Selects bytes (suc n) at size nothing r
Selects-segment bytes n at size h nothing e loads c = tt
Selects-segment bytes n at size h several e loads c = tt
Selects-segment bytes n at size h (segment p) e loads (same, later) = (
  0,
  omega arith,
  same ∙ (e ∙ ap (program_header_at bytes) (start_address at size)),
  ap (λ (x : ProgramHeader). x.type) same ∙ loads,
  elim [
    | zero ↦ λ lt away. absurd (away refl)
    | suc j ↦ λ lt away.
        subst (λ a. (program_header_at bytes a).type ≢ 1) (next_address at j size)
          (later j (omega (arith, lt)))
  ],
)

Selects-nothing :
    (bytes : List ℕ) (n at size : ℕ) (r : Selected)
    → (program_header_at bytes at).type ≢ 1
    → Selects bytes n (at + size) size nothing r
    → Selects bytes (suc n) at size nothing r
Selects-nothing bytes n at size nothing off c = tt
Selects-nothing bytes n at size several off c = tt
Selects-nothing bytes n at size (segment p) off (k, lt, same, loads, others) = (
  suc k,
  omega (arith, lt),
  same ∙ ap (program_header_at bytes) (next_address at k size),
  loads,
  elim [
    | zero ↦ λ _ _. subst (λ a. (program_header_at bytes a).type ≢ 1) (start_address at size) off
    | suc j ↦ λ lt' away.
        subst (λ a. (program_header_at bytes a).type ≢ 1) (next_address at j size)
          (others j (omega (arith, lt')) (λ e. away (ap suc e)))
  ],
)

Selects-other :
    (bytes : List ℕ) (n at size : ℕ) (q : ProgramHeader) (r : Selected)
    → (program_header_at bytes at).type ≢ 1
    → Selects bytes n (at + size) size (segment q) r
    → Selects bytes (suc n) at size (segment q) r
Selects-other bytes n at size q nothing off c = tt
Selects-other bytes n at size q several off c = tt
Selects-other bytes n at size q (segment p) off (same, later) =
    (same, with_first bytes n at size off later)

-- Two segments are no segment.
Selects-several :
    (bytes : List ℕ) (n at size : ℕ) (q : ProgramHeader) (r : Selected)
    → r ≡ several
    → Selects bytes n at size (segment q) r
Selects-several bytes n at size q nothing e = tt
Selects-several bytes n at size q several e = tt
Selects-several bytes n at size q (segment p) e = absurd (cc)

Selects-zero : (bytes : List ℕ) (at size : ℕ) (s : Selected) → Selects bytes 0 at size s s
Selects-zero bytes at size nothing = tt
Selects-zero bytes at size several = refl
Selects-zero bytes at size (segment q) = (refl, λ j lt. absurd (omega (arith, lt)))

-- The loop over the program headers selects the only one that is loadable, or gives no segment.
pub select_segment-Selects :
    (n : ℕ) (bytes : List ℕ) (at size : ℕ) (s : Selected)
    → Selects bytes n at size s (select_segment n bytes at size s)
unfolding select_segment
select_segment-Selects zero bytes at size s = Selects-zero bytes at size s
select_segment-Selects (suc n) bytes at size several =
    select_segment-Selects n bytes (at + size) size several
select_segment-Selects (suc n) bytes at size nothing =
    let h = program_header_at bytes at in
    let P = λ (s : Selected).
      Selects bytes (suc n) at size nothing (select_segment n bytes (at + size) size s) in
    if_cases P (h.type == 1)
      (λ loads.
        Selects-segment bytes n at size h _ refl (==→≡ _ _ loads)
          (select_segment-Selects n bytes (at + size) size (segment h)))
      (λ off.
        Selects-nothing bytes n at size _ (==→≢ _ _ off)
          (select_segment-Selects n bytes (at + size) size nothing))
select_segment-Selects (suc n) bytes at size (segment q) =
    let h = program_header_at bytes at in
    let P = λ (s : Selected).
      Selects bytes (suc n) at size (segment q) (select_segment n bytes (at + size) size s) in
    if_cases P (h.type == 1)
      (λ loads.
        Selects-several bytes (suc n) at size q _
          (select_segment-Selects n bytes (at + size) size several))
      (λ off.
        Selects-other bytes n at size q _ (==→≢ _ _ off)
          (select_segment-Selects n bytes (at + size) size (segment q)))
