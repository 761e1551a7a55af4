-- ===== src/Syscall/Cases.antt =====
-- `syscall_dispatch` of core/kernel/core/syscall.c, taken apart by the number of the call.
use liam_os.Base.{if_cases, ℕ, ◌==◌}
use liam_os.Process.Lifecycle.{current_pid, mark_exit}
use liam_os.Process.Arguments.{get_current_argc}
use liam_os.Syscall.{Kernel}
use liam_os.Syscall.Dispatch.{
  close_file, exec, get_arg, open_path, read_descriptor, serve_call, stat_file, unserved, write,
}

-- What holds of the result of each call holds of the result of the dispatch.
pub serve_call-cases :
    (P : ℕ × Kernel → Type 0) (k : Kernel) (number arg1 arg2 arg3 : ℕ)
    → P (0, record k { table = mark_exit k.table arg1 })
    → P (write k arg1 arg2)
    → P (k.ticks, k)
    → P (0, k)
    → P (current_pid k.table, k)
    → P (open_path k arg1 arg2)
    → P (read_descriptor k arg1 arg2 arg3)
    → P (close_file k arg1)
    → P (stat_file k arg1 arg2)
    → P (get_current_argc k.table, k)
    → P (get_arg k arg1 arg2 arg3)
    → P (exec k arg1 arg2)
    → P (unserved k)
    → P (serve_call k number arg1 arg2 arg3)
unfolding serve_call
serve_call-cases P k number arg1 arg2 arg3 h1 h2 h3 h4 h5 h6 h7 h8 h9 h10 h11 h12 other =
    if_cases P (number == 1) (λ _. h1)
      (λ _.
        if_cases P (number == 2) (λ _. h2)
          (λ _.
            if_cases P (number == 3) (λ _. h3)
              (λ _.
                if_cases P (number == 4) (λ _. h4)
                  (λ _.
                    if_cases P (number == 5) (λ _. h5)
                      (λ _.
                        if_cases P (number == 6) (λ _. h6)
                          (λ _.
                            if_cases P (number == 7) (λ _. h7)
                              (λ _.
                                if_cases P (number == 8) (λ _. h8)
                                  (λ _.
                                    if_cases P (number == 9) (λ _. h9)
                                      (λ _.
                                        if_cases P (number == 10) (λ _. h10)
                                          (λ _.
                                            if_cases P (number == 11) (λ _. h11)
                                              (λ _.
                                                if_cases P (number == 12) (λ _. h12)
                                                  (λ _. other))))))))))))
