-- ===== src/Strings/Expansion.antt =====
-- The decimals behind the point that `toString` of a double writes.
use red_x_os.Common.{
  ℕ, zero, suc, ◌+◌, ◌*◌, ◌/◌, ◌%◌, ◌^◌, ◌≤◌, ◌<◌, ◌≡◌, ◌⊎◌, refl, sym, ap, ◌∙◌, arith, ltb, true,
  false, inl, inr,
}
use red_x_os.Common.Ram.{Ram, store8, store8_lem}
use red_x_os.Common.Loops.{for_range}
use native.Mathlib.Nat.{
  pow-suc, div-add-mod', mod-lt, add-mul-div_right, add-mul-mod_self_right, div-lt_iff_lt-mul,
  mod-eq_of_lt, pow-le-pow_right, add-mul, mul_assoc, mul_comm,
}
use red_x_os.Doubles.{finite, one, of_int}
use red_x_os.Doubles.Rounding.{pow_pos}
use red_x_os.Doubles.Exact.{part, mul_lem, sub_lem, to_int_lem}
use red_x_os.Strings.Fractions.{decimal}

pub zero_or_suc : (i : ℕ) → (i ≡ 0) ⊎ ((j : ℕ) × (i ≡ suc j))
zero_or_suc zero = inl refl
zero_or_suc (suc i) = inr (i, refl)

-- The decimal number `i`, from 0, behind the point of w / 2 ^ f.
abbrev pub decimal_of : ℕ → ℕ → ℕ → ℕ
decimal_of f w i = w * 10 ^ suc i / 2 ^ f % 10

-- The whole part does not count.
pub decimal_of-mod : (f w i : ℕ) → decimal_of f (w % 2 ^ f) i ≡ decimal_of f w i
decimal_of-mod f w i =
    let q = w / 2 ^ f in
    let s = w % 2 ^ f in
    let t = 10 ^ suc i in
    let split : w * t ≡ s * t + q * t * 2 ^ f =
      sym (ap (λ x. x * t) (div-add-mod' w (2 ^ f))) ∙ add-mul (q * 2 ^ f) s t ∙ grind arith in
    let tens : q * t ≡ q * 10 ^ i * 10 =
      ap (λ x. q * x) (pow-suc 10 i) ∙ sym (mul_assoc q (10 ^ i) 10) in
    let e : w * t / 2 ^ f ≡ s * t / 2 ^ f + q * 10 ^ i * 10 =
      ap (λ x. x / 2 ^ f) split
      ∙ add-mul-div_right (s * t) (q * t) (pow_pos f)
      ∙ ap (λ x. s * t / 2 ^ f + x) tens in
    sym (ap (λ x. x % 10) e ∙ add-mul-mod_self_right (s * t / 2 ^ f) (q * 10 ^ i) 10)

-- The next decimals are those of the tenfold.
decimal_of-suc : (f r i : ℕ) → decimal_of f (r * 10 % 2 ^ f) i ≡ decimal_of f r (suc i)
decimal_of-suc f r i =
    decimal_of-mod f (r * 10) i
    ∙ ap (λ x. x / 2 ^ f % 10)
        (mul_assoc r 10 (10 ^ suc i)
          ∙ ap (λ x. r * x) (mul_comm 10 (10 ^ suc i) ∙ sym (pow-suc 10 (suc i))))

-- The `n` places from `a` on hold the decimals of w / 2 ^ f, and the rest of memory is `m`.
pub record Expands (f w a n : ℕ) (m t : Ram) : Type 0 where
  pub decimals : (i : ℕ) → i < n → t (a + i) ≡ decimal_of f w i + b'0'
  pub frame : (x : ℕ) → (x < a) ⊎ (a + n ≤ x) → t x ≡ m x

pub of_int_lem : (q : ℕ) → q < 2 ^ 31 → of_int q ≡ finite false (q * one)
unfolding of_int
of_int_lem q h = let low : ltb q (2 ^ 31) ≡ true = ground arith in rw low refl

module _ (f : ℕ) (fine : f ≤ 49) where
  decimal_lem :
      (r k a : ℕ) (m : Ram)
      → r < 2 ^ f
      → decimal k (record { deci = finite false (r * part f); doub_ptr = a; ram = m }) ≡ record {
        deci = finite false (r * 10 % 2 ^ f * part f);
        doub_ptr = a + 1;
        ram = store8 a (r * 10 / 2 ^ f + b'0') m;
      }
  unfolding decimal
  decimal_lem r k a m small =
      let least : 2 ^ f ≤ 2 ^ 49 = pow-le-pow_right {n = 2} (omega arith) fine in
      let digit : r * 10 / 2 ^ f < 10 = (div-lt_iff_lt-mul (pow_pos f)).1 (omega arith) in
      rw
        (
          of_int_lem 10 (omega arith),
          mul_lem f (omega arith) false false r 10 (omega (arith, least)),
          to_int_lem f (omega arith) (r * 10) (omega (arith, digit)),
          of_int_lem (r * 10 / 2 ^ f) (omega (arith, digit)),
          sub_lem f (omega arith) (r * 10) (omega (arith, least)),
        )
        refl

  pub decimals-Expands :
      (n r k a : ℕ) (m : Ram)
      → r < 2 ^ f
      → let d =
          for_range n k decimal
            (record { deci = finite false (r * part f); doub_ptr = a; ram = m }) in
        (d.doub_ptr ≡ a + n) × Expands f r a n m d.ram
  unfolding for_range
  decimals-Expands zero r k a m small =
      (omega arith, record { decimals = λ i p. absurd (omega arith); frame = λ x p. refl })
  decimals-Expands (suc n) r k a m small =
      let r' = r * 10 % 2 ^ f in
      let m' = store8 a (r * 10 / 2 ^ f + b'0') m in
      let (place, rest) = decimals-Expands n r' (k + 1) (a + 1) m' (mod-lt (r * 10) (pow_pos f)) in
      let digit : r * 10 / 2 ^ f < 10 = (div-lt_iff_lt-mul (pow_pos f)).1 (omega arith) in
      let first : decimal_of f r 0 ≡ r * 10 / 2 ^ f = mod-eq_of_lt digit in
      rw (for_range, decimal_lem r k a m small)
        (
          omega (arith, place),
          record {
            decimals = λ i p. elim (zero_or_suc i) [
              | inl e ↦
                  ground (arith, rest.frame a, store8_lem a (r * 10 / 2 ^ f + b'0') m a, first, e)
              | inr (j, e) ↦ ground (arith, rest.decimals j, decimal_of-suc f r j, e)
            ];
            frame = λ x p. ground (arith, rest.frame x, store8_lem a (r * 10 / 2 ^ f + b'0') m x);
          },
        )
