-- ===== src/Math/Roundd.antt =====
-- `roundd`: the nearest whole number.
use red_x_os.Common.{ℕ, suc, ◌+◌, ◌-◌, ◌*◌, ◌/◌, ◌%◌, ◌^◌, ◌≤◌, ◌<◌, ◌≡◌, ◌⊎◌, refl, ◌∙◌, arith}
use red_x_os.Common.{ltb, leb, Bool, true, false, if◌then◌else◌}
use native.Mathlib.Nat.{pow-suc, div-add-mod', mod-lt, div-lt_iff_lt-mul, mul-pos, pow-le-pow_right}
use red_x_os.Doubles.{
  finite, one, rounded, half, of_unsigned, add, sub, add_finite, negated, less, to_int, whole,
}
use red_x_os.Doubles.Rounding.{pow_pos}
use red_x_os.Doubles.Exact.{part, part_pos, one-part, rounded_lem, quotient_lem}
use red_x_os.Math.{roundd}

-- The two's complement pattern of an `int`.
abbrev pub pattern : Bool → ℕ → ℕ
pattern s n = if s then (2 ^ 32 - n) % 2 ^ 32 else n

-- The whole number of least distance from w / 2 ^ p, the greater one of two.
abbrev pub IsNearest : ℕ → ℕ → ℕ → Type 0
IsNearest p w r = (2 * r * 2 ^ p ≤ 2 * w + 2 ^ p) × (2 * w < (2 * r + 1) * 2 ^ p)

half_units : (f : ℕ) → f ≤ 51 → one / 2 ≡ 2 ^ f * part (suc f)
half_units f fine =
    let split : one ≡ 2 ^ f * part (suc f) * 2 =
      one-part (suc f) (omega arith) ∙ grind (arith, pow-suc 2 f) in
    omega (arith, split)

quotient-IsNearest : (f w : ℕ) → IsNearest (suc f) w ((w + 2 ^ f) / 2 ^ suc f)
quotient-IsNearest f w =
    let r = (w + 2 ^ f) / 2 ^ suc f in
    let two : 2 ^ suc f ≡ 2 ^ f * 2 = pow-suc 2 f in
    let split : r * 2 ^ suc f + (w + 2 ^ f) % 2 ^ suc f ≡ w + 2 ^ f =
      div-add-mod' (w + 2 ^ f) (2 ^ suc f) in
    let rest : (w + 2 ^ f) % 2 ^ suc f < 2 ^ suc f = mod-lt (w + 2 ^ f) (pow_pos (suc f)) in
    let once : (2 * r + 1) * 2 ^ suc f ≡ 2 * (r * 2 ^ suc f) + 2 ^ suc f = grind arith in
    let twice : 2 * r * 2 ^ suc f ≡ 2 * (r * 2 ^ suc f) = grind arith in
    (omega (arith, two, split, rest, twice), omega (arith, two, split, rest, once))

-- The half is added away from 0.
module _ (f w : ℕ) (fine : f ≤ 51) (bits : w < 2 ^ 52) where
  add_half :
      (s : Bool) → rounded s (w * part (suc f) + one / 2) 1 ≡ finite s ((w + 2 ^ f) * part (suc f))
  add_half s =
      let least : 2 ^ f ≤ 2 ^ 51 = pow-le-pow_right {n = 2} (omega arith) fine in
      rounded_lem (suc f) (omega arith) s (w * part (suc f) + one / 2) 1 (w + 2 ^ f) (omega arith)
        (grind (arith, half_units f fine)) (omega (arith, least))

  small_quotient : w < (2 ^ 31 - 1) * 2 ^ suc f → (w + 2 ^ f) / 2 ^ suc f < 2 ^ 31
  small_quotient h = (div-lt_iff_lt-mul (pow_pos (suc f))).1 (omega (arith, h, pow-suc 2 f))

  -- `roundd` of w / 2 ^ (f + 1), or of that number negated, is the nearest whole number, and of two the
  -- one further from 0, if the number has at most 52 bits behind the point and 52 in all, is of magnitude
  -- below 2 ^ 31 - 1, and is not -0.
  pub roundd-IsNearest :
      (s : Bool)
      → w < (2 ^ 31 - 1) * 2 ^ suc f
      → (s ≡ false) ⊎ (0 < w)
      → (r : ℕ) × (roundd (finite s (w * part (suc f))) ≡ pattern s r) × IsNearest (suc f) w r
  unfolding roundd sub add negated add_finite less half of_unsigned to_int whole
  roundd-IsNearest true h sign =
      let r = (w + 2 ^ f) / 2 ^ suc f in
      let nonzero : 0 < w = ground (arith, sign) in
      let below : ltb 0 (w * part (suc f) + 0 * one) ≡ true =
        ground (arith, mul-pos nonzero (part_pos (suc f))) in
      let fits : leb r (2 ^ 31) ≡ true = ground (arith, small_quotient h) in
      (
        r,
        rw (below, add_half true, quotient_lem (suc f) (omega arith) (w + 2 ^ f), fits) refl,
        quotient-IsNearest f w,
      )
  roundd-IsNearest false h sign =
      let r = (w + 2 ^ f) / 2 ^ suc f in
      let least : ltb (w * part (suc f)) (0 * one) ≡ false = ground arith in
      let fits : ltb r (2 ^ 31) ≡ true = ground (arith, small_quotient h) in
      (
        r,
        rw (least, add_half false, quotient_lem (suc f) (omega arith) (w + 2 ^ f), fits) refl,
        quotient-IsNearest f w,
      )
