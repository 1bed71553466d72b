-- ===== src/Math.antt =====
-- kernel/src/libs/math.h and math.cpp: the functions on doubles. (The bitmap of these files is in Bitmap.)
pub mod Roundd
mod Tests
use red_x_os.Common.{ℕ, zero, suc, true, false, if◌then◌else◌}
use red_x_os.Doubles.{Double, half, of_unsigned, add, sub, div, less, differ, to_int}

-- while (root != temp && i < 10000), where `left` is 10000 - i
unfoldable pub sqrt_loop : ℕ → Double → Double → Double → Double
sqrt_loop zero number temp root = root
sqrt_loop (suc left) number temp root = elim (differ root temp) [
  | true ↦ sqrt_loop left number root (div (add (div number root) root) (of_unsigned 2))
  | false ↦ root
]

-- `sqrt` and `rand`
unfoldable pub sqrt : Double → Double
sqrt number = sqrt_loop 10000 number (of_unsigned 0) (div number (of_unsigned 2))

pub rand : Double
rand = of_unsigned 0

-- `roundd`, whose result is the pattern of an `int`.
unfoldable pub roundd : Double → ℕ
roundd x = if less x (of_unsigned 0) then to_int (sub x half) else to_int (add x half)
