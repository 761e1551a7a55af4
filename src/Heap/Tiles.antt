-- ===== src/Heap/Tiles.antt =====
-- The blocks of the heap of core/kernel/memory/heap.c tile its pages: each begins where the one
-- before it ends.
use liam_os.Base.{
  List, Option, [], add32, arith, if_cases, if◌then◌else◌, none, not, refl, some, subst, suc, sym,
  true, zero, ℕ, ◌%◌, ◌&&◌, ◌++◌, ◌+◌, ◌<◌, ◌==◌, ◌||◌, ◌∙◌, ◌∷◌, ◌≡◌, ◌≤◌,
}
use liam_os.Heap.{
  Block, HeapStats, are_mergeable, block_header_is_sane, block_magic, max_audit_blocks,
  merge_free_blocks, merge_from, merge_pair,
}

-- The blocks lie one behind the other from `a` up to `e`.
abbrev pub Tiles : ℕ → List Block → ℕ → Type 0
Tiles a [] e = a ≡ e
Tiles a (b ∷ bs) e =
    (b.address ≡ a)
    × (b.magic ≡ block_magic)
    × (0 < b.size)
    × (b.size % 8 ≡ 0)
    × Tiles (a + 16 + b.size) bs e

-- The size of the used block whose payload begins at `q`.
abbrev pub live : List Block → ℕ → Option ℕ
live [] q = none
live (b ∷ bs) q =
    let later = live bs q in if b.used && (b.address + 16 == q) then some b.size else later

-- The heap's address range of core/kernel/memory/memory_layout.h.
pub record HasRange (s : HeapStats) : Type 0 where
  pub start_range : s.virtual_start ≡ 0xC1000000
  pub end_range : s.virtual_end ≡ 0xC1FFFFFF

pub Tiles-le : (a : ℕ) (bs : List Block) (e : ℕ) → Tiles a bs e → a ≤ e
Tiles-le a [] e t = omega (arith, t)
Tiles-le a (b ∷ bs) e (_, _, _, _, t) = omega (arith, Tiles-le (a + 16 + b.size) bs e t)

pub Tiles-append :
    (a : ℕ) (bs cs : List Block) (m e : ℕ) → Tiles a bs m → Tiles m cs e → Tiles a (bs ++ cs) e
Tiles-append a [] cs m e t u = subst (λ x. Tiles x cs e) (sym t) u
Tiles-append a (b ∷ bs) cs m e (h1, h2, h3, h4, t) u =
    (h1, h2, h3, h4, Tiles-append (a + 16 + b.size) bs cs m e t u)

-- The first block of a tiling inside the range is sane.
pub Tiles-sane :
    (s : HeapStats) (a : ℕ) (b : Block) (bs : List Block) (e : ℕ)
    → HasRange s
    → 0xC1000000 ≤ a
    → a % 8 ≡ 0
    → e ≤ 0xC2000000
    → Tiles a (b ∷ bs) e
    → block_header_is_sane s b ≡ true
unfolding block_header_is_sane
Tiles-sane s a b bs e r low al high (h1, h2, h3, h4, t) = ground (
  arith,
  r.start_range,
  r.end_range,
  h1,
  h2,
  h3,
  Tiles-le (a + 16 + b.size) bs e t,
  low,
  al,
  high,
)

-- No live payload lies in front of the first block's.
pub live-below : (a : ℕ) (bs : List Block) (e q : ℕ) → Tiles a bs e → q < a + 16 → live bs q ≡ none
live-below a [] e q t lt = refl
live-below a (b ∷ bs) e q (h1, h2, h3, h4, t) lt =
    ground (arith, h1, live-below (a + 16 + b.size) bs e q t (omega (arith, lt)), lt)

pub live_append : (bs cs : List Block) (q : ℕ) → live cs q ≡ none → live (bs ++ cs) q ≡ live bs q
live_append [] cs q h = h
live_append (b ∷ bs) cs q h = rw (live_append bs cs q h) (refl)

-- A merge of two neighbours.
pub merge_pair-Tiles :
    (a : ℕ) (b c : Block) (bs : List Block) (e : ℕ)
    → e ≤ 0xC2000000
    → Tiles a (b ∷ c ∷ bs) e
    → Tiles a (merge_pair b c ∷ bs) e
merge_pair-Tiles a b c bs e high (h1, h2, h3, h4, (k1, k2, k3, k4, t)) =
    let le = Tiles-le (a + 16 + b.size + 16 + c.size) bs e t in
    let size : add32 b.size (add32 16 c.size) ≡ b.size + 16 + c.size = omega (arith, le, high) in
    (
      h1,
      h2,
      omega (arith, size, h3),
      omega (arith, size, h4, k4),
      subst (λ x. Tiles x bs e) (omega (arith, size)) t,
    )

pub merge_from-Tiles :
    (n : ℕ) (s : HeapStats) (a : ℕ) (b : Block) (bs : List Block) (e : ℕ)
    → e ≤ 0xC2000000
    → Tiles a (b ∷ bs) e
    → Tiles a (merge_from n s b bs) e
unfolding merge_from
merge_from-Tiles n s a b [] e high t = t
merge_from-Tiles zero s a b (c ∷ bs) e high t = t
merge_from-Tiles (suc n) s a b (c ∷ bs) e high t =
    let (h1, h2, h3, h4, u) = t in
    if_cases (λ (x : List Block). Tiles a x e)
      (not (block_header_is_sane s b) || not (block_header_is_sane s c)) (λ _. t)
      (λ _.
        if_cases (λ (x : List Block). Tiles a x e) (are_mergeable b c)
          (λ _.
            merge_from-Tiles (suc n) s a (merge_pair b c) bs e high
              (merge_pair-Tiles a b c bs e high t))
          (λ _. (h1, h2, h3, h4, merge_from-Tiles n s (a + 16 + b.size) c bs e high u)))

pub merge-Tiles :
    (s : HeapStats) (a : ℕ) (bs : List Block) (e : ℕ)
    → e ≤ 0xC2000000
    → Tiles a bs e
    → Tiles a (merge_free_blocks s bs) e
unfolding merge_free_blocks
merge-Tiles s a [] e high t = t
merge-Tiles s a (b ∷ bs) e high t = merge_from-Tiles max_audit_blocks s a b bs e high t

-- Merges are of free blocks.
merge_pair-live :
    (b c : Block) (bs : List Block) (q : ℕ)
    → are_mergeable b c ≡ true
    → live (merge_pair b c ∷ bs) q ≡ live (b ∷ c ∷ bs) q
merge_pair-live b c bs q h = ground (arith, h)

merge_from-live :
    (n : ℕ) (s : HeapStats) (b : Block) (bs : List Block) (q : ℕ)
    → live (merge_from n s b bs) q ≡ live (b ∷ bs) q
unfolding merge_from
merge_from-live n s b [] q = refl
merge_from-live zero s b (c ∷ bs) q = refl
merge_from-live (suc n) s b (c ∷ bs) q =
    if_cases (λ (x : List Block). live x q ≡ live (b ∷ c ∷ bs) q)
      (not (block_header_is_sane s b) || not (block_header_is_sane s c)) (λ _. refl)
      (λ _.
        if_cases (λ (x : List Block). live x q ≡ live (b ∷ c ∷ bs) q) (are_mergeable b c)
          (λ m. merge_from-live (suc n) s (merge_pair b c) bs q ∙ merge_pair-live b c bs q m)
          (λ _. rw (merge_from-live n s c bs q) (refl)))

pub merge-live :
    (s : HeapStats) (bs : List Block) (q : ℕ) → live (merge_free_blocks s bs) q ≡ live bs q
unfolding merge_free_blocks
merge-live s [] q = refl
merge-live s (b ∷ bs) q = merge_from-live max_audit_blocks s b bs q
