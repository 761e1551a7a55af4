-- ===== src/Syscall/Copying.antt =====
-- core/kernel/core/syscall.c: where `syscall_copy_to_user` writes.
use liam_os.Base.{
  Bool-cases, List, Status, [], add32, arith, if_cases, inl, inr, not, page_size, refl, suc, true,
  u32_mod, update, zero, ℕ, ◌%◌, ◌+◌, ◌<◌, ◌==◌, ◌^◌, ◌∙◌, ◌∷◌, ◌≡◌, ◌≤◌, ◌⊎◌,
}
use liam_os.Syscall.{
  copy_to_user, user_buffer_is_valid, user_code_page, user_range_contains, user_stack_page,
  write_bytes,
}

-- The first address behind the stack's page.
abbrev pub user_end : ℕ
user_end = 0x10002000

-- The addresses that are not the program's.
abbrev pub IsForeign : ℕ → Type 0
IsForeign x = (x < user_code_page) ⊎ (user_end ≤ x)

-- A page that holds a range holds its two ends, without wrapping.
range-inside :
    (a n start : ℕ)
    → a < 2 ^ 32
    → 0 < n
    → n < 2 ^ 32
    → start + 0x1000 ≤ 0x20000000
    → user_range_contains a n start page_size ≡ true
    → (start ≤ a) × (a + n ≤ start + 0x1000)
unfolding user_range_contains
range-inside a n start small positive room low h = (ground (arith, h), ground (arith, h))

user_buffer_is_valid-inside :
    (a n : ℕ)
    → a < 2 ^ 32
    → n < 2 ^ 32
    → user_buffer_is_valid a n ≡ true
    → (user_code_page ≤ a) × (a + n ≤ user_end)
unfolding user_buffer_is_valid
user_buffer_is_valid-inside a n small room h =
    let positive : 0 < n = ground (arith, h) in
    elim (Bool-cases (user_range_contains a n user_code_page page_size)) [
      | inl code ↦
          let (low, high) =
            range-inside a n user_code_page small positive room (omega arith) code in
          (low, omega (arith, high))
      | inr other ↦
          let it : user_range_contains a n user_stack_page page_size ≡ true =
            ground (arith, h, other) in
          let (low, high) = range-inside a n user_stack_page small positive room (omega arith) it in
          (omega (arith, low), high)
    ]

write_bytes-foreign :
    (n : ℕ) (memory : ℕ → ℕ) (a : ℕ) (bytes : List ℕ) (x : ℕ)
    → user_code_page ≤ a
    → a + n ≤ user_end
    → IsForeign x
    → write_bytes n memory a bytes x ≡ memory x
unfolding write_bytes
write_bytes-foreign zero memory a bytes x low high out = refl
write_bytes-foreign (suc n) memory a [] x low high out = refl
write_bytes-foreign (suc n) memory a (b ∷ bytes) x low high out =
    let next : add32 a 1 ≡ a + 1 = ground arith in
    let low' : user_code_page ≤ add32 a 1 = ground (arith, next) in
    let high' : add32 a 1 + n ≤ user_end = ground (arith, next) in
    write_bytes-foreign n (update memory a b) (add32 a 1) bytes x low' high' out ∙ ground arith

-- A copy to the program, whether it is refused or made, keeps the other addresses.
pub copy_to_user-foreign :
    (memory : ℕ → ℕ) (a : ℕ) (bytes : List ℕ) (n x : ℕ)
    → a < 2 ^ 32
    → IsForeign x
    → (copy_to_user memory a bytes n).1 x ≡ memory x
unfolding copy_to_user
copy_to_user-foreign memory a bytes n x small out =
    let keeps = λ (r : Status × (ℕ → ℕ)). r.1 x ≡ memory x in
    let room : n % u32_mod < 2 ^ 32 = ground arith in
    if_cases keeps (n % u32_mod == 0) (λ _. refl)
      (λ _.
        if_cases keeps (not (user_buffer_is_valid a (n % u32_mod))) (λ _. refl)
          (λ h.
            let (low, high) =
              user_buffer_is_valid-inside a (n % u32_mod) small room (ground (arith, h)) in
            write_bytes-foreign (n % u32_mod) memory a bytes x low high out))
