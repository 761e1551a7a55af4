-- ===== src/Syscall/Writing.antt =====
-- core/kernel/core/syscall.c: what `syscall_write` prints.
use liam_os.Base.{ℕ, ◌++◌, ◌≡◌}
use liam_os.Syscall.{Kernel, bytes_from}

-- The result of a write of `len` bytes of which those from `total` on are still to come.
abbrev Prints : Kernel → ℕ → ℕ → ℕ → ℕ × Kernel → Type 0
Prints k a len n r = (r.0 ≡ len) × (r.1.screen ≡ k.screen ++ bytes_from n k.memory a)
