-- ===== src/Bitmap/Byte.antt =====
-- One byte of a bitmap: clearing or raising one bit leaves the other seven alone. There are few
-- enough bytes and bits to check all of them.
use red_x_os.Common.{ℕ, ◌<◌, ◌≡◌, refl, arith, Bool, true, false, not, ◌&&◌, ◌==◌}
use red_x_os.Common.{if◌then◌else◌, all_below, all_below_sound, ltb}
use red_x_os.Bitmap.{byte_clear, byte_raise, byte_test}

abbrev bool_eq : Bool → Bool → Bool
bool_eq true b = b
bool_eq false b = not b

bool_eq_sound : (a b : Bool) → bool_eq a b ≡ true → a ≡ b
bool_eq_sound true b h = ground arith
bool_eq_sound false b h = ground arith

abbrev law : ℕ → ℕ → ℕ → Bool
law x k l =
    bool_eq (byte_test (byte_clear x k) l) (if k == l then false else byte_test x l)
    && bool_eq (byte_test (byte_raise (byte_clear x k) k) l)
        (if k == l then true else byte_test x l)
    && ltb (byte_clear x k) 256
    && ltb (byte_raise (byte_clear x k) k) 256

law_table : all_below 256 (λ x. all_below 8 (λ k. all_below 8 (law x k))) ≡ true
unfolding all_below byte_clear byte_raise byte_test
law_table = refl

law_holds : (x k l : ℕ) → x < 256 → k < 8 → l < 8 → law x k l ≡ true
law_holds x k l hx hk hl =
    all_below_sound 8 (law x k) l
      (all_below_sound 8 (λ j. all_below 8 (law x j)) k
        (all_below_sound 256 (λ y. all_below 8 (λ j. all_below 8 (law y j))) x law_table hx) hk)
      hl

module _ (x k l : ℕ) (hx : x < 256) (hk : k < 8) (hl : l < 8) where
  pub byte_test-clear : byte_test (byte_clear x k) l ≡ (if k == l then false else byte_test x l)
  byte_test-clear = ground (
    arith,
    law_holds x k l hx hk hl,
    bool_eq_sound (byte_test (byte_clear x k) l) (if k == l then false else byte_test x l),
  )

  pub byte_test-raise :
      byte_test (byte_raise (byte_clear x k) k) l ≡ (if k == l then true else byte_test x l)
  byte_test-raise = ground (
    arith,
    law_holds x k l hx hk hl,
    bool_eq_sound (byte_test (byte_raise (byte_clear x k) k) l)
        (if k == l then true else byte_test x l),
  )

  pub byte_bounds : (byte_clear x k < 256) × (byte_raise (byte_clear x k) k < 256)
  byte_bounds = ground (arith, law_holds x k l hx hk hl)
