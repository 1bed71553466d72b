-- ===== src/Common/Count.antt =====
-- How many of the first `n` numbers pass a test.
use Prim.Native.Nat.{ℕ, zero, suc, ◌+◌, ◌<◌}
use mathlib.Core.Path.{◌≡◌}
use mathlib.Core.Logic.{inl, inr}
use mathlib.Core.Bool.{Bool, true, false}
use native.Mathlib.Omega.{arith}
use red_x_os.Common.Tests.{◌==◌, Bool-cases}

abbrev pub weight : Bool → ℕ
weight true = 1
weight false = 0

pub count : (ℕ → Bool) → ℕ → ℕ
count f zero = 0
count f (suc n) = weight (f n) + count f n

pub count_same : (f g : ℕ → Bool) (n : ℕ) → ((j : ℕ) → j < n → g j ≡ f j) → count g n ≡ count f n
unfolding count
count_same f g zero h = omega arith
count_same f g (suc n) h = ground (arith, h n, count_same f g n (λ j p. h j (omega arith)))

-- Two tests that differ at one number alone.
pub count_one :
    (f g : ℕ → Bool) (i n : ℕ)
    → i < n
    → ((j : ℕ) → j < n → (i == j) ≡ false → g j ≡ f j)
    → count g n + weight (f i) ≡ count f n + weight (g i)
unfolding count
count_one f g i zero p h = absurd (omega arith)
count_one f g i (suc n) p h = elim (Bool-cases (i == n)) [
  | inl here ↦
      let i_is : i ≡ n = ground arith in
      rw i_is (omega (arith, count_same f g n (λ j q. h j (omega arith) (ground arith))))
  | inr apart ↦
      ground (
        arith,
        h n (omega arith) apart,
        count_one f g i n (ground arith) (λ j q. h j (omega arith)),
      )
]
