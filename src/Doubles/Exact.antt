-- ===== src/Doubles/Exact.antt =====
-- Arithmetic that is exact: on numbers with at most `f` bits behind the point, and at most 53 in all.
use red_x_os.Common.{ℕ, ◌+◌, ◌-◌, ◌*◌, ◌/◌, ◌%◌, ◌^◌, ◌≤◌, ◌<◌, ◌≡◌, refl, sym, ap, ◌∙◌, arith}
use red_x_os.Common.{ltb, leb, Bool, true, false, Bool-cases, inl, inr, if◌then◌else◌}
use native.Mathlib.Nat.{
  mul_assoc, mul_comm, add-mul, mul-div-mul_right, mul-lt-mul_of_pos_right, mul-le-mul_left, mod-le,
  div-add-mod', le-mul_of_pos_right,
}
use red_x_os.Doubles.{
  finite, one, rounded, round_ratio, add_finite, negated, add, sub, mul, whole, to_int, to_int64,
  xor,
}
use red_x_os.Doubles.Rounding.{pow_pos, pow-plus, round_exact}

-- The units of 2 ^ -f.
unfoldable pub part : ℕ → ℕ
part f = 2 ^ (1074 - f)

pub part_pos : (f : ℕ) → 0 < part f
unfolding part
part_pos f = pow_pos (1074 - f)

pub one-part : (f : ℕ) → f ≤ 1074 → one ≡ 2 ^ f * part f
unfolding one part
one-part f h =
    let whole : 1074 ≡ f + (1074 - f) = omega arith in ap (λ x. 2 ^ x) whole ∙ pow-plus f (1074 - f)

pub one_pos : 0 < one
unfolding one
one_pos = pow_pos 1074

module _ (f : ℕ) (fine : f ≤ 1074) where
  -- No such number overflows.
  part-small : (w : ℕ) → w < 2 ^ 53 → w * part f < 2 ^ 1024 * one
  part-small w small =
      let le : part f ≤ one =
        rw (one-part f fine, mul_comm (2 ^ f) (part f))
          (le-mul_of_pos_right (part f) (pow_pos f)) in
      let bits : 2 ^ 53 ≤ 2 ^ 1024 = omega arith in
      let lt : w * one < 2 ^ 1024 * one = mul-lt-mul_of_pos_right (omega (arith, bits)) one_pos in
      omega (arith, lt, mul-le-mul_left w le)

  pub rounded_lem :
      (s : Bool) (n d w : ℕ)
      → 0 < d
      → n ≡ w * part f * d
      → w < 2 ^ 53
      → rounded s n d ≡ finite s (w * part f)
  unfolding rounded part
  rounded_lem s n d w pos e small =
      let units : round_ratio n d ≡ w * part f = round_exact n d w (1074 - f) pos e small in
      let fits : ltb (w * part f) (2 ^ 1024 * one) ≡ true = ground (arith, part-small w small) in
      rw (units, fits) refl

  pub quotient_lem : (w : ℕ) → w * part f / one ≡ w / 2 ^ f
  quotient_lem w = rw (one-part f fine) (mul-div-mul_right w (2 ^ f) (part_pos f))

  pub to_int_lem : (w : ℕ) → w / 2 ^ f < 2 ^ 31 → to_int (finite false (w * part f)) ≡ w / 2 ^ f
  unfolding to_int whole
  to_int_lem w small =
      let fits : ltb (w / 2 ^ f) (2 ^ 31) ≡ true = ground arith in rw (quotient_lem w, fits) refl

  pub to_int64_lem :
      (s : Bool) (w : ℕ)
      → w / 2 ^ f < 2 ^ 63
      → to_int64 (finite s (w * part f)) ≡ (if s then (2 ^ 64 - w / 2 ^ f) % 2 ^ 64 else w / 2 ^ f)
  unfolding to_int64 whole
  to_int64_lem true w small =
      let fits : leb (w / 2 ^ f) (2 ^ 63) ≡ true = ground arith in rw (quotient_lem w, fits) refl
  to_int64_lem false w small =
      let fits : ltb (w / 2 ^ f) (2 ^ 63) ≡ true = ground arith in rw (quotient_lem w, fits) refl

  -- A whole number times such a number.
  pub mul_lem :
      (s t : Bool) (w c : ℕ)
      → w * c < 2 ^ 53
      → mul (finite s (w * part f)) (finite t (c * one)) ≡ finite (xor s t) (w * c * part f)
  unfolding mul
  mul_lem s t w c small =
      rounded_lem (xor s t) (w * part f * (c * one)) one (w * c) one_pos (grind arith) small

  -- The whole part taken off.
  pub sub_lem :
      (w : ℕ)
      → w < 2 ^ 53
      → sub (finite false (w * part f)) (finite false (w / 2 ^ f * one))
        ≡ finite false (w % 2 ^ f * part f)
  unfolding sub add negated add_finite
  sub_lem w small =
      let q = w / 2 ^ f * one in
      let r = w % 2 ^ f * part f in
      let split : w * part f ≡ q + r =
        sym (ap (λ x. x * part f) (div-add-mod' w (2 ^ f)))
        ∙ add-mul (w / 2 ^ f * 2 ^ f) (w % 2 ^ f) (part f)
        ∙ ap (λ x. x + r)
            (mul_assoc (w / 2 ^ f) (2 ^ f) (part f)
              ∙ ap (λ x. w / 2 ^ f * x) (sym (one-part f fine))) in
      elim (Bool-cases (ltb 0 r)) [
        | inl e ↦
            let more : ltb q (w * part f) ≡ true = ground (arith, e, split) in
            rw more (
              rounded_lem false (w * part f - q) 1 (w % 2 ^ f) (omega arith) (omega (arith, split))
                (omega (arith, mod-le w (2 ^ f))))
        | inr e ↦
            let none_left : r ≡ 0 = ground (arith, e) in
            let same : w * part f ≡ q = omega (arith, split, none_left) in
            let not_more : ltb q (w * part f) ≡ false = ground (arith, same) in
            let not_less : ltb (w * part f) q ≡ false = ground (arith, same) in
            rw (not_more, not_less, none_left) refl
      ]
