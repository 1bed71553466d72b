-- ===== src/Strings/Signed.antt =====
-- `toString` of a signed number.
use red_x_os.Common.{ℕ, zero, suc, ◌+◌, ◌-◌, ◌/◌, ◌%◌, ◌^◌, ◌≤◌, ◌<◌, ◌≡◌, ◌≢◌, ◌⊎◌, arith}
use red_x_os.Common.{ltb, if◌then◌else◌, true, inl, inr, u8}
use native.Mathlib.Decide.{dec_lt}
use red_x_os.Common.Ram.{Ram, store8, store8_lem}
use red_x_os.Strings.{rounds, size_loop, Digits, digit_loop, to_string, signed_digits, signed_last}
use red_x_os.Strings.{is_negative, magnitude, to_string_signed}
use red_x_os.Strings.Decimal.{Spells, to_string-Spells}

magnitude-lt : (w : ℕ) → w < 2 ^ 64 → w ≢ 2 ^ 63 → magnitude w < 2 ^ 63
unfolding magnitude
magnitude-lt w h ne = ground arith

-- The loops do not leave the numbers below 2 ^ 63.
number-digit_loop :
    (fuel base size : ℕ) (d : Digits) → (digit_loop fuel base size d).number ≤ d.number
unfolding digit_loop
number-digit_loop zero base size d = omega arith
number-digit_loop (suc fuel) base size d = ground (
  arith,
  number-digit_loop fuel base size (record {
    number = d.number / 10;
    index = u8 (d.index + 1);
    ram = store8 (base + (size - d.index)) (u8 (d.number % 10) + b'0') d.ram;
  }),
)

-- But for the least number, the signed code is the unsigned code on the magnitude, behind the sign.
signed_as_unsigned :
    (out w : ℕ) (m : Ram)
    → w < 2 ^ 64
    → w ≢ 2 ^ 63
    → to_string_signed out w m
      ≡ to_string
          (out + is_negative w)
          (magnitude w)
          (if ltb w (2 ^ 63) then m else store8 out b'-' m)
unfolding to_string_signed to_string signed_digits signed_last
signed_as_unsigned out w m h ne =
    let base = out + is_negative w in
    let size = size_loop rounds (magnitude w) 0 in
    let start : Digits = record {
      number = magnitude w;
      index = 0;
      ram = if ltb w (2 ^ 63) then m else store8 out b'-' m;
    } in
    let small : ltb (magnitude w) (2 ^ 63) ≡ true = ground (arith, magnitude-lt w h ne) in
    let still : ltb (digit_loop rounds base size start).number (2 ^ 63) ≡ true =
      ground (arith, magnitude-lt w h ne, number-digit_loop rounds base size start) in
    rw (small, still)

is_negative_one : (w : ℕ) → 2 ^ 63 ≤ w → is_negative w ≡ 1
unfolding is_negative
is_negative_one w h = ground arith

-- The sign, the digits and the end, by the code's own sign and magnitude.
pub signed_parts :
    (int_output w : ℕ) (m : Ram)
    → w < 2 ^ 64
    → w ≢ 2 ^ 63
    → let t = to_string_signed int_output w m in
      ((w < 2 ^ 63) ⊎ (t int_output ≡ b'-'))
      × (k : ℕ) × (k < 20)
      × Spells t (int_output + is_negative w) k (magnitude w)
      × (t (int_output + is_negative w + (k + 1)) ≡ 0)
signed_parts out w m h ne =
    let m' : Ram = if ltb w (2 ^ 63) then m else store8 out b'-' m in
    let base = out + is_negative w in
    let (k, short, spells, ends, frame) =
      to_string-Spells base (magnitude w) m' (omega (arith, magnitude-lt w h ne)) in
    rw (signed_as_unsigned out w m h ne) (
      elim (dec_lt w (2 ^ 63)) [
        | yes p ↦ inl p
        | no p ↦
            inr (
              ground (arith, frame out, is_negative_one w (omega arith), store8_lem out b'-' m out))
      ],
      k,
      short,
      spells,
      ends,
    )

negative_parts : (w : ℕ) → 2 ^ 63 < w → w < 2 ^ 64 → magnitude w ≡ 2 ^ 64 - w
unfolding magnitude
negative_parts w h small = ground arith

positive_parts : (w : ℕ) → w < 2 ^ 63 → (magnitude w ≡ w) × (is_negative w ≡ 0)
unfolding magnitude is_negative
positive_parts w h = (ground arith, ground arith)

-- `toString` of a signed number, given as its two's complement pattern `w`, leaves the decimal digits of
-- w, without a zero in front, if it is not negative, and a minus sign and then those of 2 ^ 64 - w if it
-- is negative and not the least number; behind them stands the zero that ends the string.
pub to_string_signed-Spells :
    (int_output w : ℕ) (m : Ram)
    → w < 2 ^ 64
    → w ≢ 2 ^ 63
    → let t = to_string_signed int_output w m in
      ((w < 2 ^ 63) × (k : ℕ) × (k < 20) × Spells t int_output k w × (t (int_output + (k + 1)) ≡ 0))
      ⊎ ((2 ^ 63 < w)
          × (t int_output ≡ b'-')
          × (k : ℕ) × (k < 20)
          × Spells t (int_output + 1) k (2 ^ 64 - w)
          × (t (int_output + 1 + (k + 1)) ≡ 0))
to_string_signed-Spells out w m h ne =
    let (start, k, short, spells, ends) = signed_parts out w m h ne in
    elim (dec_lt w (2 ^ 63)) [
      | yes p ↦
          let (mag, neg) = positive_parts w p in
          let plain : out + is_negative w ≡ out = omega (arith, neg) in
          inl (p, k, short, rw (plain, mag) at spells, rw plain at ends)
      | no p ↦
          let high : 2 ^ 63 < w = ground (arith, ne) in
          let one : out + is_negative w ≡ out + 1 =
            omega (arith, is_negative_one w (omega arith)) in
          inr (
            high,
            ground (arith, start),
            k,
            short,
            rw (one, negative_parts w high h) at spells,
            rw one at ends,
          )
    ]
