-- ===== src/Math/Tests.antt =====
-- The functions on doubles, on inputs.
use red_x_os.Common.{ℕ, ◌*◌, ◌-◌, ◌^◌, ◌≡◌, refl, true, false, inr, arith}
use red_x_os.Doubles.{
  finite, one, of_unsigned, half, to_int, add, add_finite, div, mul, less, differ, rounded,
  round_ratio, nearest, excess, whole,
}
use red_x_os.Doubles.Exact.{part}
use red_x_os.Math.{sqrt, sqrt_loop, roundd}
use red_x_os.Math.Roundd.{pattern, IsNearest, roundd-IsNearest}

-- The root of 25, and that of 2 to twenty bits.
sqrt_25 : sqrt (of_unsigned 25) ≡ of_unsigned 5
unfolding sqrt of_unsigned sqrt_loop add add_finite div mul less differ rounded round_ratio nearest
    excess one
sqrt_25 = refl

sqrt_2 : to_int (mul (sqrt (of_unsigned 2)) (of_unsigned (2 ^ 20))) ≡ 1482910
unfolding to_int sqrt of_unsigned sqrt_loop add add_finite div mul less differ rounded round_ratio
    nearest excess whole one
sqrt_2 = refl

-- -2.5 is rounded to -3.
roundd-IsNearest_example :
    (r : ℕ) × (roundd (finite true (5 * part 1)) ≡ pattern true r) × IsNearest 1 5 r
roundd-IsNearest_example =
    roundd-IsNearest 0 5 (omega arith) (omega arith) true (omega arith) (inr (omega arith))

-- The number before 0.5 is rounded to 1, since its sum with 0.5 is rounded up.
roundd_before_half : roundd (finite false (2 ^ 1073 - 2 ^ 1020)) ≡ 1
unfolding roundd add add_finite less half of_unsigned to_int whole rounded round_ratio nearest
    excess one
roundd_before_half = refl
