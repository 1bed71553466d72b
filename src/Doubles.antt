-- ===== src/Doubles.antt =====
-- The `double` of kernel/src/libs/math.cpp, string.cpp and basicRenderer.cpp: IEEE 754's binary64 as
-- the kernel computes with it, rounding to nearest and to even. Every finite number is a
-- whole number of units of 2 ^ -1074, of which `one` is 1.0.
pub mod Rounding
pub mod Exact
use red_x_os.Common.{ℕ, zero, suc, ◌+◌, ◌-◌, ◌*◌, ◌/◌, ◌%◌, ◌^◌, Bool, true, false, not, ◌&&◌, ◌||◌}
use red_x_os.Common.{ltb, leb, ◌==◌, if◌then◌else◌, u32, u64, sub32, sub64}

pub data Double : Type 0 where
  nan : Double
  infinite : (negative : Bool) → Double
  finite : (negative : Bool) (units : ℕ) → Double

unfoldable pub one : ℕ
one = 2 ^ 1074

-- How many bits a number has behind the 53 that a double keeps. The rounds are at least as many as a
-- number below the greatest double has.
unfoldable pub excess : ℕ → ℕ → ℕ
excess zero n = 0
excess (suc left) n = elim (ltb n (2 ^ 53)) [ true ↦ 0 | false ↦ suc (excess left (n / 2)) ]

-- `n / step`, to the nearest whole number, to the even one of two.
unfoldable pub nearest : ℕ → ℕ → ℕ
nearest n step =
    let k = n / step in
    let twice = 2 * (n % step) in
    if ltb twice step then k else if twice == step then k + k % 2 else k + 1

-- The units of the double that is nearest to `n / d` units.
unfoldable pub round_ratio : ℕ → ℕ → ℕ
round_ratio n d =
    let last_place = 2 ^ excess 2100 (n / d) in nearest n (d * last_place) * last_place

-- A result, rounded, which overflows to infinity.
unfoldable pub rounded : Bool → ℕ → ℕ → Double
rounded negative n d =
    let units = round_ratio n d in
    if ltb units (2 ^ 1024 * one) then finite negative units else infinite negative

abbrev pub xor : Bool → Bool → Bool
xor p q = if p then not q else q

-- Numbers from the 32-bit pattern of an `int` and of an `unsigned int`.
unfoldable pub of_int : ℕ → Double
of_int w = if ltb w (2 ^ 31) then finite false (w * one) else finite true (sub32 0 w * one)

unfoldable pub of_unsigned : ℕ → Double
of_unsigned w = finite false (w * one)

-- 0.5
unfoldable pub half : Double
half = finite false (one / 2)

unfoldable pub negated : Double → Double
negated nan = nan
negated (infinite s) = infinite (not s)
negated (finite s a) = finite (not s) a

-- A sum that is 0 is positive, unless both terms are -0.
unfoldable pub add_finite : Bool → ℕ → Bool → ℕ → Double
add_finite s a t b =
    if xor s t
    then if ltb b a
      then rounded s (a - b) 1
      else if ltb a b
      then rounded t (b - a) 1
      else finite false 0
    else rounded s (a + b) 1

unfoldable pub add : Double → Double → Double
add nan y = nan
add (infinite s) nan = nan
add (infinite s) (infinite t) = if xor s t then nan else infinite s
add (infinite s) (finite t b) = infinite s
add (finite s a) nan = nan
add (finite s a) (infinite t) = infinite t
add (finite s a) (finite t b) = add_finite s a t b

unfoldable pub sub : Double → Double → Double
sub x y = add x (negated y)

unfoldable pub mul : Double → Double → Double
mul nan y = nan
mul (infinite s) nan = nan
mul (infinite s) (infinite t) = infinite (xor s t)
mul (infinite s) (finite t b) = if b == 0 then nan else infinite (xor s t)
mul (finite s a) nan = nan
mul (finite s a) (infinite t) = if a == 0 then nan else infinite (xor s t)
mul (finite s a) (finite t b) = rounded (xor s t) (a * b) one

unfoldable pub div : Double → Double → Double
div nan y = nan
div (infinite s) nan = nan
div (infinite s) (infinite t) = nan
div (infinite s) (finite t b) = infinite (xor s t)
div (finite s a) nan = nan
div (finite s a) (infinite t) = finite (xor s t) 0
div (finite s a) (finite t b) =
    if b == 0 then if a == 0 then nan else infinite (xor s t) else rounded (xor s t) (a * one) b

-- `<` and `!=`. 0 and -0 are the same number.
unfoldable pub less : Double → Double → Bool
less nan y = false
less (infinite s) nan = false
less (infinite s) (infinite t) = s && not t
less (infinite s) (finite t b) = s
less (finite s a) nan = false
less (finite s a) (infinite t) = not t
less (finite s a) (finite t b) =
    if s then if t then ltb b a else ltb 0 (a + b) else if t then false else ltb a b

unfoldable pub differ : Double → Double → Bool
differ nan y = true
differ (infinite s) nan = true
differ (infinite s) (infinite t) = xor s t
differ (infinite s) (finite t b) = true
differ (finite s a) nan = true
differ (finite s a) (infinite t) = true
differ (finite s a) (finite t b) = not (a == b) || (xor s t && ltb 0 a)

-- The whole part, as the pattern of an `int` or an `int64_t`. A number that has no such value, for which
-- C++ leaves the result open, gives the least one, as the processor's instruction does.
unfoldable pub whole : ℕ → Double → ℕ
whole sign nan = sign
whole sign (infinite s) = sign
whole sign (finite s a) =
    let n = a / one in
    if s
    then if leb n sign then (2 * sign - n) % (2 * sign) else sign
    else if ltb n sign
    then n
    else sign

unfoldable pub to_int : Double → ℕ
to_int x = whole (2 ^ 31) x

unfoldable pub to_int64 : Double → ℕ
to_int64 x = whole (2 ^ 63) x

-- An `unsigned int` is the lower half of the 64-bit result.
unfoldable pub to_unsigned : Double → ℕ
to_unsigned x = u32 (to_int64 x)
