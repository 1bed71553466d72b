-- ===== src/Strings/Tests.antt =====
-- Numbers printed at concrete inputs.
use red_x_os.Common.{
  ℕ, ◌+◌, ◌-◌, ◌*◌, ◌/◌, ◌%◌, ◌^◌, ◌<◌, ◌≡◌, ◌⊎◌, ◌≤◌, inl, inr, refl, arith, map, true, [], ◌∷◌,
}
use red_x_os.Common.{◌==◌, if◌then◌else◌}
use red_x_os.Common.Ram.{Ram, store8}
use red_x_os.Common.Text.{Waits}
use native.Mathlib.Decide.{dec_lt}
use red_x_os.Strings.Cat.{ends, goes, cat-Waits}
use red_x_os.Strings.{cat, to_h_string64, to_string, to_string_signed, is_negative, magnitude}
use red_x_os.Strings.Hex.{hex_digit, to_h_string64_lem}
use red_x_os.Strings.Decimal.{Spells, to_string-Spells}
use red_x_os.Strings.Signed.{to_string_signed-Spells}
use red_x_os.Doubles.{
  finite, sub, add, negated, add_finite, mul, less, of_int, to_int, to_int64, whole, rounded,
  round_ratio, nearest, excess, one,
}
use red_x_os.Common.Loops.{for_range}
use red_x_os.Strings.{signed_digits, signed_last, size_loop, digit_loop, last_digit}
use red_x_os.Doubles.Exact.{part}
use red_x_os.Strings.Fractions.{copy_chars, decimal, absolute, to_string_double}
use red_x_os.Strings.Double.{minus, IsText, to_string_double-Spells}

abbrev blank : Ram
blank a = 0

-- The number 0x12ab at address 500.
abbrev one_number : Ram
one_number a = if a == 500 then 0xab else if a == 501 then 0x12 else 0

to_string_example :
    let t = to_string 100 65535 blank in
    (k : ℕ) × (k < 20)
    × Spells t 100 k 65535
    × (t (100 + (k + 1)) ≡ 0)
    × ((x : ℕ) → (x < 100) ⊎ (100 + 20 < x) → t x ≡ blank x)
to_string_example = to_string-Spells 100 65535 blank (omega arith)

to_string_signed_example :
    let t = to_string_signed 100 (2 ^ 64 - 42) blank in
    ((2 ^ 64 - 42 < 2 ^ 63)
      × (k : ℕ) × (k < 20)
      × Spells t 100 k (2 ^ 64 - 42)
      × (t (100 + (k + 1)) ≡ 0))
    ⊎ ((2 ^ 63 < 2 ^ 64 - 42)
        × (t 100 ≡ b'-')
        × (k : ℕ) × (k < 20)
        × Spells t (100 + 1) k (2 ^ 64 - (2 ^ 64 - 42))
        × (t (100 + 1 + (k + 1)) ≡ 0))
to_string_signed_example =
    to_string_signed-Spells 100 (2 ^ 64 - 42) blank (omega arith) (omega arith)

to_h_string64_example :
    let t = to_h_string64 100 500 one_number in
    ((i : ℕ)
      → i < 8
      → (t (100 + (14 - 2 * i)) ≡ hex_digit (one_number (500 + i) / 16))
        × (t (100 + (15 - 2 * i)) ≡ hex_digit (one_number (500 + i) % 16)))
    × (t (100 + 16) ≡ 0)
    × ((i : ℕ)
        → i < 7
        → (t (100 - (2 * i + 2)) ≡ hex_digit (one_number (500 + 8 + i) / 16))
          × (t (100 - (2 * i + 1)) ≡ hex_digit (one_number (500 + 8 + i) % 16)))
to_h_string64_example =
    to_h_string64_lem 100 500 one_number (λ a. ground arith) (omega arith) (inl (omega arith))

-- "ab" at 1000 and "c" at 2000; the buffer at 3000 holds "zz".
abbrev three_texts : Ram
three_texts a =
    if a == 1000
    then b'a'
    else if a == 1001
    then b'b'
    else if a == 2000
    then b'c'
    else if a == 3000
    then b'z'
    else if a == 3001
    then b'z'
    else 0

zz-Waits : Waits three_texts 3000 128 (b'z' ∷ b'z' ∷ [])
zz-Waits = record {
  fits = omega arith;
  chars = λ i p. elim (dec_lt i 1) [
    | yes q ↦ let e : i ≡ 0 = omega arith in rw e refl
    | no q ↦ let e : i ≡ 1 = omega arith in rw e refl
  ];
  nonzero = λ i p. ground arith;
  zeros = λ i p q. ground arith;
}

cat-Waits_example :
    Waits (cat 3000 1000 2000 three_texts) 3000 128 (b'a' ∷ b'b' ∷ b'c' ∷ [])
    × ((x : ℕ) → (x < 3000) ⊎ (3000 + 128 ≤ x) → cat 3000 1000 2000 three_texts x ≡ three_texts x)
cat-Waits_example =
    cat-Waits 3000 1000 2000 three_texts (b'z' ∷ b'z' ∷ []) (b'a' ∷ b'b' ∷ []) (b'c' ∷ []) zz-Waits
      (omega arith)
      (goes refl (λ e. omega (arith, e)) (omega arith)
        (goes refl (λ e. omega (arith, e)) (omega arith) (ends refl)))
      (goes refl (λ e. omega (arith, e)) (omega arith) (ends refl)) (inl (omega arith))
      (inl (omega arith)) (omega arith)

-- -2.75 with three decimals.
to_string_double-Spells_example :
    (k : ℕ) × (k < 20)
    × IsText
        (to_string_double 1000 2000 (finite true (11 * part 2)) 3 blank)
        1000
        2
        11
        3
        (minus true (11 / 2 ^ 2))
        k
to_string_double-Spells_example =
    to_string_double-Spells 2 (omega arith) true 11 (omega arith) (inr (omega arith)) 1000 2000 3
      blank (omega arith) (inl (omega arith))

to_string_double_bytes :
    map
      (to_string_double 1000 2000 (finite true (11 * part 2)) 3 blank)
      (1000 ∷ 1001 ∷ 1002 ∷ 1003 ∷ 1004 ∷ 1005 ∷ 1006 ∷ [])
    ≡ b'-' ∷ b'2' ∷ b'.' ∷ b'7' ∷ b'5' ∷ b'0' ∷ 0 ∷ []
unfolding to_string_double copy_chars decimal absolute for_range store8 to_string_signed
    signed_digits signed_last magnitude is_negative size_loop digit_loop last_digit sub add negated
    add_finite mul less of_int to_int to_int64 whole rounded round_ratio nearest excess one part
to_string_double_bytes = refl
