-- ===== src/Base/Words.antt =====
-- uint32_t arithmetic: numbers below 2 ^ 32, with the wrap written out.
use Prim.Native.Nat.{ℕ, ◌+◌, ◌-◌, ◌%◌, ◌^◌}

abbrev pub u32_mod : ℕ
u32_mod = 2 ^ 32

abbrev pub add32 : ℕ → ℕ → ℕ
add32 a b = (a + b) % u32_mod

abbrev pub sub32 : ℕ → ℕ → ℕ
sub32 a b = (a + u32_mod - b) % u32_mod

-- A counter's `++`.
abbrev pub inc32 : ℕ → ℕ
inc32 a = (a + 1) % u32_mod

-- The page size that all memory managers share (PMM_PAGE_SIZE, PAGE_SIZE).
abbrev pub page_size : ℕ
page_size = 4096

-- `address & 0xFFFFF000`.
abbrev pub page_align_down : ℕ → ℕ
page_align_down a = a - a % page_size
