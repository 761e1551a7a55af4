-- ===== src/Heap/Allocation.antt =====
-- The walk of `kmalloc` in core/kernel/memory/heap.c over the blocks of a valid heap.
use liam_os.Base.{
  List, [], add32, arith, false, if_cases, if◌then◌else◌, leb, none, not, refl, some, sub32, subst,
  suc, true, zero, ℕ, ◌%◌, ◌&&◌, ◌++◌, ◌+◌, ◌-◌, ◌<◌, ◌==◌, ◌∷◌, ◌≡◌, ◌≤◌,
}
use liam_os.Heap.{Block, HeapStats, block_header_is_sane, initialize_block, split_block}
use liam_os.Heap.Operations.{Walk, behind, find_fit, insane, missed, take_block, taken}
use liam_os.Heap.Tiles.{HasRange, Tiles, live, live-below, Tiles-sane, Tiles-le}

-- What `live` owes after a block of the chain `bs` was taken for `requested` bytes: its payload, of
-- `size` bytes, lies in the heap and was not live.
pub record Granted (bs : List Block) (requested low high : ℕ) (p size : ℕ) (cs : List Block)
    : Type 0 where
  pub enough : requested ≤ size
  pub above : low + 16 ≤ p
  pub below : p + size ≤ high
  pub aligned : p % 8 ≡ 0
  pub fresh : live bs p ≡ none
  pub granted : (q : ℕ) → live cs q ≡ (if q == p then some size else live bs q)

-- What the walk owes on blocks that tile the heap from `a` to `e`.
abbrev pub Fits : List Block → ℕ → ℕ → ℕ → Walk → Type 0
Fits bs requested a e insane = ⊥
Fits bs requested a e missed = Unit {0}
Fits bs requested a e (taken p cs) = Tiles a cs e × (size : ℕ) × Granted bs requested a e p size cs

-- A block taken whole, and one that is split.
taken_whole-Fits :
    (a : ℕ) (b : Block) (bs : List Block) (e requested : ℕ)
    → e ≤ 0xC2000000
    → a % 8 ≡ 0
    → b.used ≡ false
    → requested ≤ b.size
    → Tiles a (b ∷ bs) e
    → Fits (b ∷ bs) requested a e (taken (add32 b.address 16) (record b { used = true } ∷ bs))
taken_whole-Fits a b bs e requested high al free fit (h1, h2, h3, h4, t) =
    let le = Tiles-le (a + 16 + b.size) bs e t in
    let p : add32 b.address 16 ≡ a + 16 = omega (arith, le, high, h1) in
    (
      (h1, h2, h3, h4, t),
      b.size,
      record {
        enough = fit;
        above = omega (arith, p);
        below = omega (arith, p, le);
        aligned = omega (arith, p, al);
        fresh = ground (
          arith,
          p,
          free,
          h1,
          h3,
          live-below (a + 16 + b.size) bs e (a + 16) t (omega (arith, h3)),
        );
        granted = λ q. ground (arith, p, free, h1);
      },
    )

split-Fits :
    (a : ℕ) (b : Block) (bs : List Block) (e requested : ℕ)
    → e ≤ 0xC2000000
    → a % 8 ≡ 0
    → requested % 8 ≡ 0
    → 0 < requested
    → b.used ≡ false
    → requested + 32 < b.size
    → Tiles a (b ∷ bs) e
    → Fits (b ∷ bs) requested a e (
        taken (add32 b.address 16) (
          record b { size = requested; used = true }
          ∷ initialize_block
              (add32 (add32 b.address 16) requested)
              (sub32 (sub32 b.size requested) 16)
          ∷ bs))
split-Fits a b bs e requested high al ral pos free fit (h1, h2, h3, h4, t) =
    let le = Tiles-le (a + 16 + b.size) bs e t in
    let p : add32 b.address 16 ≡ a + 16 = omega (arith, le, high, h1) in
    let q : add32 (add32 b.address 16) requested ≡ a + 16 + requested =
      omega (arith, le, high, h1, fit) in
    let r : sub32 (sub32 b.size requested) 16 ≡ b.size - requested - 16 =
      omega (arith, le, high, fit) in
    (
      (
        h1,
        h2,
        pos,
        ral,
        (
          q,
          refl,
          omega (arith, r, fit),
          omega (arith, r, h4, ral, fit),
          subst (λ x. Tiles x bs e) (omega (arith, r, fit)) t,
        ),
      ),
      requested,
      record {
        enough = omega arith;
        above = omega (arith, p);
        below = omega (arith, p, le, fit);
        aligned = omega (arith, p, al);
        fresh = ground (
          arith,
          p,
          free,
          h1,
          h3,
          live-below (a + 16 + b.size) bs e (a + 16) t (omega (arith, h3)),
        );
        granted = λ q. ground (arith, p, free, h1);
      },
    )

-- What `take_block` makes of a split.
abbrev mark_used : Block × List Block → List Block → List Block
mark_used (c, rest) bs = record c { used = true } ∷ (rest ++ bs)

take_block-Fits :
    (s : HeapStats) (a : ℕ) (b : Block) (bs : List Block) (e requested : ℕ)
    → block_header_is_sane s b ≡ true
    → e ≤ 0xC2000000
    → a % 8 ≡ 0
    → requested % 8 ≡ 0
    → 0 < requested
    → b.used ≡ false
    → requested ≤ b.size
    → Tiles a (b ∷ bs) e
    → Fits (b ∷ bs) requested a e (taken (add32 b.address 16) (take_block s b requested bs))
unfolding split_block
take_block-Fits s a b bs e requested sane high al ral pos free fit t =
    let (h1, h2, h3, h4, u) = t in
    let le = Tiles-le (a + 16 + b.size) bs e u in
    let wrap : add32 (add32 requested 16) 16 ≡ requested + 32 = omega (arith, le, high, fit) in
    rw sane (
      if_cases
        (λ (x : Block × List Block).
          Fits (b ∷ bs) requested a e (taken (add32 b.address 16) (mark_used x bs)))
        (leb b.size (add32 (add32 requested 16) 16))
        (λ _. taken_whole-Fits a b bs e requested high al free fit t)
        (λ h. split-Fits a b bs e requested high al ral pos free (ground (arith, h, wrap)) t))

-- A walk behind a block that is not taken.
behind-Fits :
    (a : ℕ) (b : Block) (bs : List Block) (e requested : ℕ) (w : Walk)
    → Tiles a (b ∷ bs) e
    → Fits bs requested (a + 16 + b.size) e w
    → Fits (b ∷ bs) requested a e (behind b w)
behind-Fits a b bs e requested insane t f = f
behind-Fits a b bs e requested missed t f = tt
behind-Fits a b bs e requested (taken p cs) (h1, h2, h3, h4, t) (u, size, g) = (
  (h1, h2, h3, h4, u),
  size,
  record {
    enough = g.enough;
    above = omega (arith, g.above);
    below = g.below;
    aligned = g.aligned;
    fresh = ground (arith, g.fresh, g.above, h1);
    granted = λ q. ground (arith, g.granted q, g.above, h1);
  },
)

pub find_fit-Fits :
    (n : ℕ) (s : HeapStats) (a : ℕ) (bs : List Block) (e requested : ℕ)
    → HasRange s
    → 0xC1000000 ≤ a
    → a % 8 ≡ 0
    → e ≤ 0xC2000000
    → requested % 8 ≡ 0
    → 0 < requested
    → Tiles a bs e
    → Fits bs requested a e (find_fit n s bs requested)
unfolding find_fit
find_fit-Fits zero s a bs e requested r low al high ral pos t = tt
find_fit-Fits (suc n) s a [] e requested r low al high ral pos t = tt
find_fit-Fits (suc n) s a (b ∷ bs) e requested r low al high ral pos t =
    let (h1, h2, h3, h4, u) = t in
    let sane = Tiles-sane s a b bs e r low al high t in
    let later =
      find_fit-Fits n s (a + 16 + b.size) bs e requested r (omega (arith, low))
        (omega (arith, al, h4)) high ral pos u in
    rw sane (
      if_cases (λ (x : Walk). Fits (b ∷ bs) requested a e x) (not b.used && leb requested b.size)
        (λ h.
          take_block-Fits s a b bs e requested sane high al ral pos (ground (arith, h))
            (ground (arith, h)) t)
        (λ _. behind-Fits a b bs e requested (find_fit n s bs requested) t later))
