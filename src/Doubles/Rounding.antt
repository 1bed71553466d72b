-- ===== src/Doubles/Rounding.antt =====
-- What a double has room for is not rounded.
use red_x_os.Common.{
  ℕ, zero, suc, ◌+◌, ◌-◌, ◌*◌, ◌/◌, ◌^◌, ◌≤◌, ◌<◌, ◌≡◌, refl, sym, ap, ◌∙◌, arith,
}
use red_x_os.Common.{ltb, true, Bool-cases, inl, inr}
use native.Mathlib.Nat.{
  pow-suc, one-le-pow, mul_assoc, mul_comm, mul-div_left, mul-mod_left, mul-pos, mul-one, add-zero,
  add-suc,
}
use native.Mathlib.Nat.{mul-lt-mul_of_pos_right}
use red_x_os.Doubles.{excess, nearest, round_ratio}

pub pow_pos : (k : ℕ) → 0 < 2 ^ k
pow_pos k = one-le-pow k 2 (omega arith)

pub pow-plus : (a b : ℕ) → 2 ^ (a + b) ≡ 2 ^ a * 2 ^ b
pow-plus a zero = ap (λ x. 2 ^ x) (add-zero a) ∙ sym (mul-one (2 ^ a))
pow-plus a (suc b) =
    ap (λ x. 2 ^ x) (add-suc a b)
    ∙ pow-suc 2 (a + b)
    ∙ ap (λ x. x * 2) (pow-plus a b)
    ∙ mul_assoc (2 ^ a) (2 ^ b) 2
    ∙ ap (λ x. 2 ^ a * x) (sym (pow-suc 2 b))

pow_above : (n k : ℕ) → 2 ^ (n + suc k) ≡ 2 ^ (n + k) * 2
pow_above n k = ap (λ x. 2 ^ x) (add-suc n k) ∙ pow-suc 2 (n + k)

-- A number below 2 ^ (53 + k) has at most `k` bits too many.
excess_lem : (left n k : ℕ) → n < 2 ^ (53 + k) → excess left n ≤ k
unfolding excess
excess_lem zero n k h = omega arith
excess_lem (suc left) n zero h =
    let e : ltb n (2 ^ 53) ≡ true = ground arith in rw (excess, e) (omega arith)
excess_lem (suc left) n (suc k) h =
    let rest : excess left (n / 2) ≤ k =
      excess_lem left (n / 2) k (omega (arith, pow_above 53 k)) in
    elim (Bool-cases (ltb n (2 ^ 53))) [
      | inl e ↦ rw (excess, e) (omega arith)
      | inr e ↦ rw (excess, e) (omega (arith, rest))
    ]

nearest-multiple : (i step : ℕ) → 0 < step → nearest (i * step) step ≡ i
unfolding nearest
nearest-multiple i step h =
    rw (mul-mod_left i step, mul-div_left i h)
      (let less : ltb 0 step ≡ true = ground arith in rw less refl)

-- A ratio that is a whole number of at most 53 bits, but for zeros behind them, is exact.
pub round_exact :
    (n d j k : ℕ) → 0 < d → n ≡ j * 2 ^ k * d → j < 2 ^ 53 → round_ratio n d ≡ j * 2 ^ k
unfolding round_ratio
round_exact n d j k pos e small =
    let v = j * 2 ^ k in
    let quotient : n / d ≡ v = ap (λ x. x / d) e ∙ mul-div_left v pos in
    let below : v < 2 ^ (53 + k) = rw (pow-plus 53 k) (mul-lt-mul_of_pos_right small (pow_pos k)) in
    let s = excess 2100 v in
    let le : s ≤ k = excess_lem 2100 v k below in
    let i = j * 2 ^ (k - s) in
    let split : v ≡ i * 2 ^ s =
      ap (λ x. j * 2 ^ x) (omega arith)
      ∙ ap (λ x. j * x) (pow-plus (k - s) s)
      ∙ sym (mul_assoc j (2 ^ (k - s)) (2 ^ s)) in
    let whole : n ≡ i * (d * 2 ^ s) =
      e ∙ ap (λ x. x * d) split ∙ mul_assoc i (2 ^ s) d ∙ ap (λ x. i * x) (mul_comm (2 ^ s) d) in
    rw (quotient, whole, nearest-multiple i (d * 2 ^ s) (mul-pos pos (pow_pos s))) (sym split)
