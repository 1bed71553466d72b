-- ===== src/Keyboard/Tests.antt =====
-- Keys at concrete inputs.
use red_x_os.Common.Text.{Waits}
use red_x_os.Common.{ℕ, ◌+◌, ◌≤◌, ◌<◌, ◌≡◌, refl, arith}
use red_x_os.Common.{List, [], ◌∷◌, true, false, ◌==◌, if◌then◌else◌, get_or}
use native.Mathlib.Decide.{dec_lt}
use red_x_os.Common.Ram.{Ram}
use red_x_os.Keyboard.{Keyboard, lookup}
use red_x_os.Keyboard.Layout.{is_letter, is_digit}

-- The text "hi" in a buffer at 1000.
abbrev hi : List ℕ
hi = b'h' ∷ b'i' ∷ []

abbrev hi_waits : Ram
hi_waits a = if a == 1000 then b'h' else if a == 1001 then b'i' else 0

abbrev board : ℕ → Keyboard
board size = record {
  left_shift_down = true;
  right_shift_down = false;
  mod_down = false;
  ram = hi_waits;
  term_in = 1000;
  buffer_size = size;
}

hi-chars : (i : ℕ) → i < 2 → hi_waits (1000 + i) ≡ get_or hi i 0
hi-chars i h = elim (dec_lt i 1) [
  | yes p ↦ let e : i ≡ 0 = omega arith in rw e refl
  | no p ↦ let e : i ≡ 1 = omega arith in rw e refl
]

hi-Waits : (size : ℕ) → 2 ≤ size → Waits hi_waits 1000 size hi
hi-Waits size h = record {
  fits = h;
  chars = hi-chars;
  nonzero = λ i p. ground arith;
  zeros = λ i p q. ground arith;
}

a_is_letter : is_letter (lookup 0 0x1e false) ≡ true
unfolding lookup
a_is_letter = refl

four_is_digit : is_digit (lookup 0 5 false) ≡ true
unfolding lookup
four_is_digit = refl
