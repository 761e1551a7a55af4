-- ===== src/Base/Pigeonhole.antt =====
-- The pigeonhole principle: no `k + 1` distinct numbers below `k`.
use Prim.Native.Nat.{ℕ, zero, suc, ◌<◌}
use mathlib.Core.Path.{◌≡◌}
use native.Mathlib.Omega.{arith}
use liam_os.Base.Tests.{if◌then◌else◌, ◌==◌}

abbrev Injective : ℕ → (ℕ → ℕ) → Type 0
Injective n f = (i j : ℕ) → i < n → j < n → f i ≡ f j → i ≡ j

-- `f` with the value `k` replaced by the value at `suc k`.
abbrev squeeze : ℕ → (ℕ → ℕ) → ℕ → ℕ
squeeze k f i = if f i == k then f (suc k) else f i

squeeze-lt :
    (k : ℕ) (f : ℕ → ℕ)
    → Injective (suc (suc k)) f
    → ((i : ℕ) → i < suc (suc k) → f i < suc k)
    → (i : ℕ) → i < suc k
    → squeeze k f i < k
squeeze-lt k f inj small i h = ground (arith, inj i (suc k), small i, small (suc k))

squeeze-Injective :
    (k : ℕ) (f : ℕ → ℕ) → Injective (suc (suc k)) f → Injective (suc k) (squeeze k f)
squeeze-Injective k f inj i j hi hj e = ground (arith, inj i j, inj i (suc k), inj j (suc k))

pub pigeonhole :
    (k : ℕ) (f : ℕ → ℕ)
    → ((i j : ℕ) → i < suc k → j < suc k → f i ≡ f j → i ≡ j)
    → ((i : ℕ) → i < suc k → f i < k)
    → ⊥
pigeonhole zero f inj small = omega (arith, small 0 (omega arith))
pigeonhole (suc k) f inj small =
    pigeonhole k (squeeze k f) (squeeze-Injective k f inj) (squeeze-lt k f inj small)
