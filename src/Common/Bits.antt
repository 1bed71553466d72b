-- ===== src/Common/Bits.antt =====
-- `&` and `|` at variables: a mask cuts a number into fields that are treated one by one.
mod Step
use Step.{bit_or_step, bit_and_step}
use Prim.Native.Nat.{ℕ, zero, suc, ◌+◌, ◌-◌, ◌*◌, ◌/◌, ◌%◌, ◌^◌, ◌<◌, bit_and, bit_or}
use Prim.Native.Nat.{min, max, bit_or-bitwise}
use mathlib.Core.Path.{◌≡◌, refl, ap, sym}
use mathlib.Core.Logic.{◌⊎◌, inl, inr}
use native.Mathlib.Nat.{pow-suc, one-le-pow, mul-one, add-zero, div-one, div-div-eq-div-mul}
use native.Mathlib.Omega.{arith}

mul-two-pow-suc : (digit k : ℕ) → digit * 2 ^ suc k ≡ 2 * (digit * 2 ^ k)
mul-two-pow-suc digit k = omega (arith, ap (λ (power : ℕ). digit * power) (pow-suc 2 k))

-- Both operations work on the part above bit `k` and the part below it on their own.
pub bit_and_split :
    (k high low high2 low2 : ℕ)
    → low < 2 ^ k
    → low2 < 2 ^ k
    → bit_and (high * 2 ^ k + low) (high2 * 2 ^ k + low2)
      ≡ bit_and high high2 * 2 ^ k + bit_and low low2
bit_and_split zero high low high2 low2 below below2 =
    let low_none : low ≡ 0 = omega arith in
    let low2_none : low2 ≡ 0 = omega arith in rw (low_none, low2_none) (simp (mul-one, add-zero))
bit_and_split (suc k) high low high2 low2 below below2 = ground (
  arith,
  bit_and_step (high * 2 ^ suc k + low) (high2 * 2 ^ suc k + low2),
  bit_and_step low low2,
  mul-two-pow-suc high k,
  mul-two-pow-suc high2 k,
  mul-two-pow-suc (bit_and high high2) k,
  pow-suc 2 k,
  bit_and_split k high (low / 2) high2 (low2 / 2) (omega (arith, pow-suc 2 k))
      (omega (arith, pow-suc 2 k)),
)

pub bit_or_split :
    (k high low high2 low2 : ℕ)
    → low < 2 ^ k
    → low2 < 2 ^ k
    → bit_or (high * 2 ^ k + low) (high2 * 2 ^ k + low2)
      ≡ bit_or high high2 * 2 ^ k + bit_or low low2
bit_or_split zero high low high2 low2 below below2 =
    let low_none : low ≡ 0 = omega arith in
    let low2_none : low2 ≡ 0 = omega arith in rw (low_none, low2_none) (simp (mul-one, add-zero))
bit_or_split (suc k) high low high2 low2 below below2 = ground (
  arith,
  bit_or_step (high * 2 ^ suc k + low) (high2 * 2 ^ suc k + low2),
  bit_or_step low low2,
  mul-two-pow-suc high k,
  mul-two-pow-suc high2 k,
  mul-two-pow-suc (bit_or high high2) k,
  pow-suc 2 k,
  bit_or_split k high (low / 2) high2 (low2 / 2) (omega (arith, pow-suc 2 k))
      (omega (arith, pow-suc 2 k)),
)

bit_and-zero_below : (bound x : ℕ) → x < bound → bit_and x 0 ≡ 0
bit_and-zero_below zero x below = absurd (omega arith)
bit_and-zero_below (suc bound) zero below = refl
bit_and-zero_below (suc bound) (suc x) below =
    omega (arith, bit_and_step (suc x) 0, bit_and-zero_below bound (suc x / 2) (omega arith))

pub bit_and-zero : (x : ℕ) → bit_and x 0 ≡ 0
bit_and-zero x = bit_and-zero_below (suc x) x (omega arith)

bit_or-zero_below : (bound x : ℕ) → x < bound → bit_or x 0 ≡ x
bit_or-zero_below zero x below = absurd (omega arith)
bit_or-zero_below (suc bound) zero below = refl
bit_or-zero_below (suc bound) (suc x) below =
    omega (arith, bit_or_step (suc x) 0, bit_or-zero_below bound (suc x / 2) (omega arith))

pub bit_or-zero : (x : ℕ) → bit_or x 0 ≡ x
bit_or-zero x = bit_or-zero_below (suc x) x (omega arith)

pub zero-bit_or : (b : ℕ) → bit_or 0 b ≡ b
zero-bit_or b = bit_or-bitwise 0 b

bit_and_ones : (k r : ℕ) → r < 2 ^ k → bit_and r (2 ^ k - 1) ≡ r
bit_and_ones zero r h = rw bit_and-zero (omega arith)
bit_and_ones (suc k) r h =
    ground
      (arith, bit_and_step r (2 ^ suc k - 1), pow-suc 2 k, one-le-pow k 2, bit_and_ones k (r / 2))

-- The low `k` bits.
pub bit_and_low : (k a : ℕ) → bit_and a (2 ^ k - 1) ≡ a % 2 ^ k
bit_and_low k a = ground (
  arith,
  one-le-pow k 2,
  bit_and_split k (a / 2 ^ k) (a % 2 ^ k) 0 (2 ^ k - 1),
  bit_and-zero (a / 2 ^ k),
  bit_and_ones k (a % 2 ^ k),
)

-- Bit `k` of a number.
abbrev pub bit : ℕ → ℕ → ℕ
bit a k = a / 2 ^ k % 2

div-two-pow-suc : (a k : ℕ) → a / 2 ^ suc k ≡ a / 2 / 2 ^ k
div-two-pow-suc a k = rw div-div-eq-div-mul (ap (λ (t : ℕ). a / t) (omega (arith, pow-suc 2 k)))

pub bit-bit_and : (k a b : ℕ) → bit (bit_and a b) k ≡ min (bit a k) (bit b k)
bit-bit_and zero a b = omega (arith, bit_and_step a b)
bit-bit_and (suc k) a b = ground (
  arith,
  bit_and_step a b,
  div-two-pow-suc a k,
  div-two-pow-suc b k,
  div-two-pow-suc (bit_and a b) k,
  bit-bit_and k (a / 2) (b / 2),
)

pub bit-bit_or : (k a b : ℕ) → bit (bit_or a b) k ≡ max (bit a k) (bit b k)
bit-bit_or zero a b = omega (arith, bit_or_step a b)
bit-bit_or (suc k) a b = ground (
  arith,
  bit_or_step a b,
  div-two-pow-suc a k,
  div-two-pow-suc b k,
  div-two-pow-suc (bit_or a b) k,
  bit-bit_or k (a / 2) (b / 2),
)

-- The bits from `k` on.
pub bit_and-div : (k a b : ℕ) → bit_and a b / 2 ^ k ≡ bit_and (a / 2 ^ k) (b / 2 ^ k)
bit_and-div zero a b = simp div-one refl
bit_and-div (suc k) a b = ground (
  arith,
  bit_and_step a b,
  div-two-pow-suc a k,
  div-two-pow-suc b k,
  div-two-pow-suc (bit_and a b) k,
  bit_and-div k (a / 2) (b / 2),
)

pub bit_or-div : (k a b : ℕ) → bit_or a b / 2 ^ k ≡ bit_or (a / 2 ^ k) (b / 2 ^ k)
bit_or-div zero a b = simp div-one refl
bit_or-div (suc k) a b = ground (
  arith,
  bit_or_step a b,
  div-two-pow-suc a k,
  div-two-pow-suc b k,
  div-two-pow-suc (bit_or a b) k,
  bit_or-div k (a / 2) (b / 2),
)
