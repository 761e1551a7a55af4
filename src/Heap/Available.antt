-- ===== src/Heap/Available.antt =====
-- `kmalloc` of core/kernel/memory/heap.c uses the free blocks that there are.
use liam_os.Base.{
  List, Option, [], arith, false, if_cases, inl, inr, leb, length, none, not, refl, some, suc, true,
  zero, ℕ, ◌%◌, ◌&&◌, ◌+◌, ◌==◌, ◌||◌, ◌∷◌, ◌≡◌, ◌≢◌, ◌≤◌, ◌⊎◌,
}
use liam_os.Heap.{Block, Heap, HeapStats, align_up8}
use liam_os.Heap.Operations.{Walk, after_walk, behind, find_fit, insane, kmalloc, missed, taken}
use liam_os.Heap.Tiles.{HasRange, Tiles, Tiles-sane, Tiles-le}
use liam_os.Heap.Validity.{IsValid}

-- Some free block is large enough.
abbrev pub HasFit : List Block → ℕ → Type 0
HasFit [] requested = ⊥
HasFit (b ∷ bs) requested = ((b.used ≡ false) × (requested ≤ b.size)) ⊎ HasFit bs requested

abbrev IsTaken : Walk → Type 0
IsTaken insane = ⊥
IsTaken missed = ⊥
IsTaken (taken p bs) = 16 ≤ p

behind-IsTaken : (b : Block) (w : Walk) → IsTaken w → IsTaken (behind b w)
behind-IsTaken b insane t = t
behind-IsTaken b missed t = t
behind-IsTaken b (taken p bs) t = t

fit_behind :
    (b : Block) (bs : List Block) (requested : ℕ)
    → (not b.used && leb requested b.size) ≡ false
    → HasFit (b ∷ bs) requested
    → HasFit bs requested
fit_behind b bs requested e (inl (free, fit)) = absurd (ground (arith, e, free, fit))
fit_behind b bs requested e (inr f) = f

find_fit-IsTaken :
    (n : ℕ) (s : HeapStats) (a : ℕ) (bs : List Block) (e requested : ℕ)
    → HasRange s
    → 0xC1000000 ≤ a
    → a % 8 ≡ 0
    → e ≤ 0xC2000000
    → length bs ≤ n
    → Tiles a bs e
    → HasFit bs requested
    → IsTaken (find_fit n s bs requested)
unfolding find_fit
find_fit-IsTaken n s a [] e requested r low al high few t f = absurd f
find_fit-IsTaken zero s a (b ∷ bs) e requested r low al high few t f = absurd (omega (arith, few))
find_fit-IsTaken (suc n) s a (b ∷ bs) e requested r low al high few t f =
    let (h1, h2, h3, h4, u) = t in
    rw (Tiles-sane s a b bs e r low al high t) (
      if_cases IsTaken (not b.used && leb requested b.size)
        (λ _. omega (arith, h1, low, high, Tiles-le (a + 16 + b.size) bs e u))
        (λ h. behind-IsTaken b (find_fit n s bs requested) (
          find_fit-IsTaken n s (a + 16 + b.size) bs e requested r (omega (arith, low))
            (omega (arith, al, h4)) high (omega (arith, few)) u (fit_behind b bs requested h f))))

-- A call that has returned a pointer that is not null.
abbrev pub Gives : Option (ℕ × Heap) → Type 0
Gives none = ⊥
Gives (some (p, g)) = p ≢ 0

after_walk-Gives :
    (h : Heap) (size : ℕ) (again : Heap → Option (ℕ × Heap)) (w : Walk)
    → IsTaken w
    → Gives (after_walk h size again w)
unfolding after_walk
after_walk-Gives h size again insane t = absurd t
after_walk-Gives h size again missed t = absurd t
after_walk-Gives h size again (taken p bs) t = λ e. omega (arith, t, e)

-- On a valid initialized heap of at most 4096 blocks, a `kmalloc` of a size above 0 gives a pointer
-- that is not null if some free block is as large as the size rounded up to a multiple of 8.
pub kmalloc-Gives :
    (fuel : ℕ) (h : Heap) (size : ℕ)
    → IsValid h
    → h.stats.initialized ≡ true
    → length h.blocks ≤ 4096
    → size ≢ 0
    → HasFit h.blocks (align_up8 size)
    → Gives (kmalloc (suc fuel) h size)
unfolding kmalloc
kmalloc-Gives fuel h size i init few pos f =
    if_cases Gives (not h.stats.initialized || (size == 0))
      (λ e. absurd (ground (arith, e, init, pos)))
      (λ _.
        after_walk-Gives h (align_up8 size) (λ g. kmalloc fuel g (align_up8 size))
          (find_fit 4096 h.stats h.blocks (align_up8 size))
          (find_fit-IsTaken 4096 h.stats 0xC1000000 h.blocks h.stats.next_virtual_page
            (align_up8 size) i.range (omega arith) refl i.high few i.tiles f))
