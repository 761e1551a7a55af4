-- ===== src/Heap/Wrapping.antt =====
-- The largest sizes wrap to 0 when `kmalloc` of core/kernel/memory/heap.c rounds them up.
use liam_os.Base.{List, Option, [], none, some, suc, ℕ, ◌∷◌, ◌≡◌}
use liam_os.Heap.{Block, Heap}
use liam_os.Heap.Operations.{Walk, insane, kmalloc, missed, taken}

-- The pointer that a call returns.
abbrev pub pointer_of : Option (ℕ × Heap) → Option ℕ
pointer_of none = none
pointer_of (some (p, g)) = some p

-- A chain that begins with a block of no bytes.
abbrev IsBroken : List Block → Type 0
IsBroken [] = ⊥
IsBroken (b ∷ bs) = b.size ≡ 0

-- Every call of a sequence of `kmalloc` returns null, each on the heap that the one before it left.
abbrev pub Nulls : ℕ → List ℕ → Option (ℕ × Heap) → Type 0
Nulls fuel sizes none = ⊥
Nulls fuel [] (some (p, g)) = p ≡ 0
Nulls fuel (size ∷ sizes) (some (p, g)) = (p ≡ 0) × Nulls fuel sizes (kmalloc (suc fuel) g size)

-- A call that returns null and leaves the chain broken.
abbrev FailsBroken : Option (ℕ × Heap) → Type 0
FailsBroken none = ⊥
FailsBroken (some (p, g)) = (p ≡ 0) × IsBroken g.blocks

-- A walk that has taken the first block for no bytes.
abbrev Empties : ℕ → Walk → Type 0
Empties p insane = ⊥
Empties p missed = ⊥
Empties p (taken q bs) = (p ≡ q) × IsBroken bs

-- What such a call leaves: its pointer is that of the first block's payload, and all calls of
-- `kmalloc` of any sequence after it return null.
abbrev pub Exhausts : ℕ → Option (ℕ × Heap) → Type 0
Exhausts p none = ⊥
Exhausts p (some (q, g)) =
    (p ≡ q) × ((fuel size : ℕ) (sizes : List ℕ) → Nulls fuel sizes (kmalloc (suc fuel) g size))
