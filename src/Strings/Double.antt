-- ===== src/Strings/Double.antt =====
-- `toString` of a double as a whole: the sign, the whole part, the point and the decimals.
use red_x_os.Common.{
  ℕ, ◌+◌, ◌-◌, ◌*◌, ◌/◌, ◌%◌, ◌^◌, ◌≤◌, ◌<◌, ◌≡◌, ◌≢◌, ◌⊎◌, refl, ap, ◌∙◌, arith, inl, inr,
}
use red_x_os.Common.{ltb, Bool, true, false, Bool-cases, ◌&&◌, if◌then◌else◌}
use native.Mathlib.Nat.{mul-pos, mul-one, mod-lt}
use native.Mathlib.Decide.{dec_lt}
use red_x_os.Common.Ram.{Ram, store8, store8_lem}
use red_x_os.Common.Loops.{for_range}
use red_x_os.Doubles.{finite, one, of_int, to_int, to_int64, sub, less}
use red_x_os.Doubles.Rounding.{pow_pos}
use red_x_os.Doubles.Exact.{part, part_pos, mul_lem, sub_lem, to_int_lem, to_int64_lem}
use red_x_os.Strings.{is_negative, magnitude, to_string_signed}
use red_x_os.Strings.Decimal.{Spells}
use red_x_os.Strings.Signed.{signed_parts}
use red_x_os.Strings.Fractions.{decimal, absolute, to_string_double}
use red_x_os.Strings.Copied.{Copied, copy_chars-Copied, Spells-text, Spells-copied}
use red_x_os.Strings.Expansion.{decimal_of, decimal_of-mod, of_int_lem, decimals-Expands}

-- A minus sign is printed for a negative number whose whole part is not 0.
abbrev pub minus : Bool → ℕ → ℕ
minus s n = if s && ltb 0 n then 1 else 0

sign_lem :
    (s : Bool) (n : ℕ)
    → n < 2 ^ 31
    → let w = if s then (2 ^ 64 - n) % 2 ^ 64 else n in
      (is_negative w ≡ minus s n) × (magnitude w ≡ n) × (w < 2 ^ 64) × (w ≢ 2 ^ 63)
unfolding is_negative magnitude
sign_lem s n h = ground arith

-- What stands in the buffer of the whole part: its sign, its digits, and the end.
record Whole (a l n : ℕ) (t : Ram) (neg k : ℕ) : Type 0 where
  size : l ≡ neg + (k + 1)
  short : k < 20
  sign : (neg ≡ 0) ⊎ ((neg ≡ 1) × (t a ≡ b'-'))
  digits : Spells t (a + neg) k n
  ends : t (a + l) ≡ 0

Whole-text :
    (a l n neg k i : ℕ) (t : Ram)
    → Whole a l n t neg k
    → i < l
    → (t (a + i) ≢ 0) × (t (a + i) < 256)
Whole-text a l n neg k i t w p = elim (dec_lt i neg) [
  | yes q ↦ ground (arith, w.sign)
  | no q ↦
      let c = Spells-text t (a + neg) k n (i - neg) w.digits (omega (arith, w.size)) in
      let e : a + i ≡ a + neg + (i - neg) = omega arith in rw e c
]

signed-Whole :
    (io p neg n : ℕ) (m : Ram)
    → is_negative p ≡ neg
    → magnitude p ≡ n
    → p < 2 ^ 64
    → p ≢ 2 ^ 63
    → (k : ℕ) × Whole io (neg + (k + 1)) n (to_string_signed io p m) neg k
unfolding is_negative
signed-Whole io p neg n m e mag small not_least =
    let (start, k, short, digits, ends) = signed_parts io p m small not_least in
    rw (← e, ← mag)
      (
        k,
        record {
          size = refl;
          short = short;
          sign = sign_of p start;
          digits = digits;
          ends = ground (arith, ends);
        },
      )
  where
    sign_of :
        (p : ℕ) {c : ℕ}
        → (p < 2 ^ 63) ⊎ (c ≡ b'-')
        → (is_negative p ≡ 0) ⊎ ((is_negative p ≡ 1) × (c ≡ b'-'))
    sign_of p h = ground arith

-- What stands from the point on.
record Finished (f w a places : ℕ) (m t : Ram) : Type 0 where
  point : t a ≡ b'.'
  decimals : (i : ℕ) → i < places → t (a + 1 + i) ≡ decimal_of f w i + b'0'
  ends : t (a + 1 + places) ≡ 0
  frame : (x : ℕ) → x < a → t x ≡ m x

-- The text of a number with a minus sign or none, `k + 1` digits and its decimals.
abbrev pub IsText : Ram → (a f w places neg k : ℕ) → Type 0
IsText t a f w places neg k =
    ((neg ≡ 0) ⊎ (t a ≡ b'-'))
    × Spells t (a + neg) k (w / 2 ^ f)
    × (t (a + neg + (k + 1)) ≡ b'.')
    × ((i : ℕ) → i < places → t (a + neg + (k + 2) + i) ≡ decimal_of f w i + b'0')
    × (t (a + neg + (k + 2) + places) ≡ 0)

assembled :
    (f w out io n neg k places : ℕ) (m1 m2 t : Ram)
    → n ≡ w / 2 ^ f
    → neg ≤ 1
    → Whole io (neg + (k + 1)) n m1 neg k
    → Copied out io (neg + (k + 1)) m1 m2
    → Finished f w (out + (neg + (k + 1))) places m2 t
    → IsText t out f w places neg k
assembled f w out io n neg k places m1 m2 t whole_part one_sign whole copied finished =
    let l = neg + (k + 1) in
    let both : (i : ℕ) → i < l → t (out + i) ≡ m1 (io + i) =
      λ i p. finished.frame (out + i) (omega arith) ∙ copied.chars i p in
    (
      ground (arith, whole.sign, both 0),
      rw (← whole_part) (
          Spells-copied m1 t (io + neg) (out + neg) k n
            (λ i p. ground (arith, both (neg + i) (omega arith))) whole.digits),
      ground (arith, finished.point),
      λ i p. ground (arith, finished.decimals i p),
      ground (arith, finished.ends),
    )

module _ (f : ℕ) (fine : f ≤ 49) (s : Bool) (w : ℕ) (bits : w < 2 ^ 53)
    (sign : (s ≡ false) ⊎ (0 < w)) where
  absolute_lem : absolute (finite s (w * part f)) ≡ finite false (w * part f)
  unfolding absolute less of_int
  absolute_lem = elim (Bool-cases s) [
    | inl e ↦
        let nonzero : 0 < w = ground (arith, e, sign) in
        let below : ltb 0 (w * part f + 0 * one) ≡ true =
          ground (arith, mul-pos nonzero (part_pos f)) in
        rw (e, below)
          (mul_lem f (omega arith) true true w 1 (omega arith)
            ∙ ap (λ x. finite false (x * part f)) (mul-one w))
    | inr e ↦ let least : ltb (w * part f) (0 * one) ≡ false = ground arith in rw (e, least) refl
  ]

  to_string_signed-Whole :
      (io : ℕ) (m : Ram)
      → w / 2 ^ f < 2 ^ 31
      → (k : ℕ) × Whole io
          (minus s (w / 2 ^ f) + (k + 1))
          (w / 2 ^ f)
          (to_string_signed io (to_int64 (finite s (w * part f))) m)
          (minus s (w / 2 ^ f))
          k
  to_string_signed-Whole io m h =
      let (neg, mag, small, not_least) = sign_lem s (w / 2 ^ f) h in
      rw (to_int64_lem f (omega arith) s w (omega arith))
        (signed-Whole io _ (minus s (w / 2 ^ f)) (w / 2 ^ f) m neg mag small not_least)

  deci_lem :
      w / 2 ^ f < 2 ^ 31
      → let x = absolute (finite s (w * part f)) in
        sub x (of_int (to_int x)) ≡ finite false (w % 2 ^ f * part f)
  deci_lem h =
      rw (absolute_lem, to_int_lem f (omega arith) w h, of_int_lem (w / 2 ^ f) h)
        (sub_lem f (omega arith) w bits)

  finish_lem :
      (a places : ℕ) (m : Ram)
      → let d = for_range places 0 decimal (record {
        deci = finite false (w % 2 ^ f * part f);
        doub_ptr = a + 1;
        ram = store8 a b'.' m;
      }) in
        Finished f w a places m (store8 d.doub_ptr 0 d.ram)
  finish_lem a places m =
      let start = store8 a b'.' m in
      let (place, e) =
        decimals-Expands f fine places (w % 2 ^ f) 0 (a + 1) start (mod-lt w (pow_pos f)) in
      let d =
        for_range places 0 decimal
          (record { deci = finite false (w % 2 ^ f * part f); doub_ptr = a + 1; ram = start }) in
      rw place (record {
        point =
            ground (arith, e.frame a, store8_lem a b'.' m a, store8_lem (a + 1 + places) 0 d.ram a);
        decimals = λ i p. ground (
          arith,
          e.decimals i,
          decimal_of-mod f w i,
          store8_lem (a + 1 + places) 0 d.ram (a + 1 + i),
        );
        ends = ground (arith, store8_lem (a + 1 + places) 0 d.ram (a + 1 + places));
        frame = λ x p.
            ground (arith, e.frame x, store8_lem a b'.' m x, store8_lem (a + 1 + places) 0 d.ram x);
      })

  -- Of a double with at most 49 bits behind the point and 53 in all, of magnitude below 2 ^ 31 and not -0,
  -- `toString` leaves a minus sign if it is -1 or less, the digits of the whole part of
  -- its magnitude without a zero in front, a point, the decimals that are asked for, cut off and not rounded, and
  -- the zero that ends the string, if the two buffers do not overlap.
  pub to_string_double-Spells :
      (out io places : ℕ) (m : Ram)
      → w / 2 ^ f < 2 ^ 31
      → (out + 128 ≤ io) ⊎ (io + 128 ≤ out)
      → let t = to_string_double out io (finite s (w * part f)) places m in
        (k : ℕ) × (k < 20) × IsText t out f w places (minus s (w / 2 ^ f)) k
  unfolding to_string_double
  to_string_double-Spells out io places m h apart =
      let n = w / 2 ^ f in
      let neg = minus s n in
      let (k, whole) = to_string_signed-Whole io m h in
      let l = neg + (k + 1) in
      let m1 = to_string_signed io (to_int64 (finite s (w * part f))) m in
      let text : (i : ℕ) → i < l → (m1 (io + i) ≢ 0) × (m1 (io + i) < 256) =
        λ i p. Whole-text io l n neg k i m1 whole p in
      let one_sign : neg ≤ 1 = ground arith in
      let (place, copied) =
        copy_chars-Copied (2 ^ 64) l out io m1 (omega (arith, whole.short, one_sign)) text
          whole.ends (omega (arith, whole.short, one_sign)) in
      rw (place, deci_lem h)
        (
          k,
          whole.short,
          assembled f w out io n neg k places m1 _ _ refl one_sign whole copied
              (finish_lem (out + l) places _),
        )
