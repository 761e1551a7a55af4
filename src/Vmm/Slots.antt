-- ===== src/Vmm/Slots.antt =====
-- Addresses of table entries, and the clearing of a table.
use liam_os.Base.{
  ==→≡, Bool-cases, arith, inl, inr, page_size, refl, suc, tests, update, zero, ℕ, ◌%◌, ◌*◌, ◌+◌,
  ◌<◌, ◌==◌, ◌∙◌, ◌≡◌, ◌≢◌, ◌≤◌,
}
use liam_os.Vmm.{clear_from}

-- Entries of two tables on page boundaries lie apart, and so do two entries of one table.
pub slots_apart :
    (t u i j : ℕ)
    → t % page_size ≡ 0
    → u % page_size ≡ 0
    → i < 1024
    → j < 1024
    → t + 4 * i ≡ u + 4 * j
    → (t ≡ u) × (i ≡ j)
slots_apart t u i j a b h k e = (omega arith, omega arith)

-- A word outside the table keeps its value.
pub clear_from-outside :
    (table i n : ℕ) (memory : ℕ → ℕ) (u k : ℕ)
    → table % page_size ≡ 0
    → u % page_size ≡ 0
    → table ≢ u
    → k < 1024
    → i + n ≤ 1024
    → clear_from table i n memory (u + 4 * k) ≡ memory (u + 4 * k)
unfolding clear_from
clear_from-outside table i zero memory u k a b d h m = refl
clear_from-outside table i (suc n) memory u k a b d h m =
    clear_from-outside table (i + 1) n (update memory (table + 4 * i) 0) u k a b d h (omega arith)
    ∙ ground (arith, slots_apart u table k i b a h)

clear_from-below :
    (table i n : ℕ) (memory : ℕ → ℕ) (k : ℕ)
    → k < i
    → clear_from table i n memory (table + 4 * k) ≡ memory (table + 4 * k)
unfolding clear_from
clear_from-below table i zero memory k h = refl
clear_from-below table i (suc n) memory k h =
    clear_from-below table (i + 1) n (update memory (table + 4 * i) 0) k (omega arith)
    ∙ ground arith

-- Every entry of the table is cleared.
pub clear_from-inside :
    (table i n : ℕ) (memory : ℕ → ℕ) (k : ℕ)
    → i ≤ k
    → k < i + n
    → clear_from table i n memory (table + 4 * k) ≡ 0
unfolding clear_from
clear_from-inside table i zero memory k lo hi = absurd (omega arith)
clear_from-inside table i (suc n) memory k lo hi = elim (Bool-cases (i == k)) [
  | inl here ↦
      let e : i ≡ k = ==→≡ _ _ here in
      clear_from-below table (i + 1) n (update memory (table + 4 * i) 0) k (omega arith)
      ∙ ground arith
  | inr later ↦
      clear_from-inside table (i + 1) n (update memory (table + 4 * i) 0) k (omega (tests, later))
        (omega arith)
]
