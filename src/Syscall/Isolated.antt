-- ===== src/Syscall/Isolated.antt =====
-- core/kernel/core/syscall.c: a system call and the processes that did not make it.
use liam_os.Base.{Option, Status, none, some, ℕ, ◌≡◌, ◌≢◌}
use liam_os.Process.{Process, Table, slot_at}

-- From `t` to `u`: the current process is the same one, and slot `j` is as it was.
abbrev Spares : ℕ → Table → Table → Type 0
Spares j t u = (u.current ≡ t.current) × (slot_at u j ≡ slot_at t j)

-- A slot that a search gives is another one.
abbrev SparesBut : ℕ → Table → Status × Option ℕ × Table → Type 0
SparesBut j t (s, none, u) = Spares j t u
SparesBut j t (s, some i, u) = (i ≢ j) × Spares j t u
