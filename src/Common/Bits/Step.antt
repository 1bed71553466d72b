-- ===== src/Common/Bits/Step.antt =====
-- One equation for the lowest digit of `&` and of `|`, from what the native operations stand for.
use Prim.Native.Nat.{ℕ, zero, suc, ◌+◌, ◌*◌, ◌/◌, ◌%◌, ◌≤◌, bit_and, bit_or}
use Prim.Native.Nat.{min, max, digits, bitwise, bit_and-bitwise, bit_or-bitwise}
use mathlib.Core.Path.{◌≡◌, refl}
use native.Mathlib.Nat.{le_refl}
use native.Mathlib.Omega.{arith}

module _ (rest : ℕ → ℕ) (join : ℕ → ℕ → ℕ) where
  -- `digits` gives the same for any two bounds of its first number.
  digits_any_fuel : (x y k l : ℕ) → x ≤ k → x ≤ l → digits rest join k x y ≡ digits rest join l x y
  digits_any_fuel zero y zero zero h g = refl
  digits_any_fuel zero y zero (suc l) h g = refl
  digits_any_fuel zero y (suc k) zero h g = refl
  digits_any_fuel zero y (suc k) (suc l) h g = refl
  digits_any_fuel (suc x) y zero l h g = absurd (omega arith)
  digits_any_fuel (suc x) y (suc k) zero h g = absurd (omega arith)
  digits_any_fuel (suc x) y (suc k) (suc l) h g =
      let halves : suc x / 2 ≤ k = omega arith in
      let halves' : suc x / 2 ≤ l = omega arith in
      rw (digits_any_fuel (suc x / 2) (y / 2) k l halves halves')

  lowest_digit :
      (x y : ℕ)
      → bitwise rest join (suc x) y
        ≡ bitwise rest join (suc x / 2) (y / 2) * 2 + join (suc x % 2) (y % 2)
  lowest_digit x y =
      let half : suc x / 2 ≤ x = omega arith in
      omega (arith, digits_any_fuel (suc x / 2) (y / 2) x (suc x / 2) half (le_refl _))

-- The lowest digit of `|` and of `&`.
pub bit_or_step : (x y : ℕ) → bit_or x y ≡ bit_or (x / 2) (y / 2) * 2 + max (x % 2) (y % 2)
bit_or_step zero y = simp bit_or-bitwise (omega arith)
bit_or_step (suc x) y = simp bit_or-bitwise (lowest_digit (λ low. low) max x y)

pub bit_and_step : (x y : ℕ) → bit_and x y ≡ bit_and (x / 2) (y / 2) * 2 + min (x % 2) (y % 2)
bit_and_step zero y = simp bit_and-bitwise (omega arith)
bit_and_step (suc x) y = simp bit_and-bitwise (lowest_digit (λ low. 0) min x y)
