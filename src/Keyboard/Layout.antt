-- ===== src/Keyboard/Layout.antt =====
-- The characters of the keys, with and without shift.
use native.Mathlib.Decide.{dec_lt}
use red_x_os.Common.{ℕ, ◌-◌, ◌≤◌, ◌<◌, ◌≡◌, refl, arith, Bool, true, false, not, ◌&&◌, ◌||◌}
use red_x_os.Common.{
  get_or_default, leb, ltb, ◌==◌, ==_iff, if◌then◌else◌, all_below, all_below_sound,
}
use red_x_os.Keyboard.{ascii, lookup, upper}

abbrev pub is_letter : ℕ → Bool
is_letter c = leb b'a' c && leb c b'z'

abbrev pub is_digit : ℕ → Bool
is_digit c = leb b'0' c && leb c b'9'

-- What a US keyboard has above the digits 0 to 9.
abbrev pub above_digit : ℕ → ℕ
above_digit c =
    if c == b'0'
    then b')'
    else if c == b'1'
    then b'!'
    else if c == b'2'
    then b'@'
    else if c == b'3'
    then b'#'
    else if c == b'4'
    then b'$'
    else if c == b'5'
    then b'%'
    else if c == b'6'
    then b'^'
    else if c == b'7'
    then b'&'
    else if c == b'8'
    then b'*'
    else b'('

and_left : (a b : Bool) → (a && b) ≡ true → a ≡ true
and_left a b h = ground arith

and_right : (a b : Bool) → (a && b) ≡ true → b ≡ true
and_right a b h = ground arith

or_right : (a b : Bool) → (not a || b) ≡ true → a ≡ true → b ≡ true
or_right a b h k = ground arith

abbrev shifts : ℕ → ℕ → Bool
shifts c up = (not (is_letter c) || (up == c - 32)) && (not (is_digit c) || (up == above_digit c))

from_table :
    (c up : ℕ)
    → shifts c up ≡ true
    → (is_letter c ≡ true → up ≡ c - 32) × (is_digit c ≡ true → up ≡ above_digit c)
from_table c up h = (
  λ l. (==_iff _ _).0 (or_right (is_letter c) (up == c - 32) (and_left _ _ h) l),
  λ d. (==_iff _ _).0 (or_right (is_digit c) (up == above_digit c) (and_right _ _ h) d),
)

layout_ok : ℕ → Bool
layout_ok sc = shifts (lookup 0 sc false) (lookup 0 sc true)

layout_table : all_below 58 layout_ok ≡ true
unfolding all_below layout_ok lookup upper
layout_table = refl

lookup_beyond : (beyond sc : ℕ) (u : Bool) → sc < 58 → lookup beyond sc u ≡ lookup 0 sc u
unfolding lookup
lookup_beyond beyond sc u h = rw (get_or_default ascii sc beyond 0 h)

shifted_pair :
    (beyond sc : ℕ)
    → sc < 58
    → (is_letter (lookup beyond sc false) ≡ true
        → lookup beyond sc true ≡ lookup beyond sc false - 32)
      × (is_digit (lookup beyond sc false) ≡ true
          → lookup beyond sc true ≡ above_digit (lookup beyond sc false))
unfolding layout_ok
shifted_pair beyond sc h =
    rw (lookup_beyond beyond sc true h, lookup_beyond beyond sc false h)
      (from_table (lookup 0 sc false) (lookup 0 sc true)
        (all_below_sound 58 layout_ok sc layout_table h))

-- A key of the table that types a letter without shift types the capital letter with shift.
pub lookup_letter :
    (beyond sc : ℕ)
    → sc < 58
    → is_letter (lookup beyond sc false) ≡ true
    → lookup beyond sc true ≡ lookup beyond sc false - 32
lookup_letter beyond sc h l = (shifted_pair beyond sc h).0 l

-- A key of the table that types a digit without shift types, with shift, the character that a US
-- keyboard has above that digit.
pub lookup_digit :
    (beyond sc : ℕ)
    → sc < 58
    → is_digit (lookup beyond sc false) ≡ true
    → lookup beyond sc true ≡ above_digit (lookup beyond sc false)
lookup_digit beyond sc h d = (shifted_pair beyond sc h).1 d

byte_table : all_below 58 (λ sc. ltb (lookup 0 sc false) 256 && ltb (lookup 0 sc true) 256) ≡ true
unfolding all_below lookup upper
byte_table = refl

upper_beyond : (c : ℕ) → c < 256 → upper 58 c < 256
unfolding upper
upper_beyond c h = ground arith

lookup_table_lt : (beyond sc : ℕ) (u : Bool) → sc < 58 → lookup beyond sc u < 256
lookup_table_lt beyond sc u h = rw (lookup_beyond beyond sc u h) (pick u)
  where
    both : (ltb (lookup 0 sc false) 256 && ltb (lookup 0 sc true) 256) ≡ true
    both =
        all_below_sound 58 (λ k. ltb (lookup 0 k false) 256 && ltb (lookup 0 k true) 256) sc
          byte_table h

    pick : (b : Bool) → lookup 0 sc b < 256
    pick true = ground (arith, both)
    pick false = ground (arith, both)

lookup_end : (beyond : ℕ) (u : Bool) → beyond < 256 → lookup beyond 58 u < 256
unfolding lookup
lookup_end beyond true h = upper_beyond beyond h
lookup_end beyond false h = h

lookup_past : (beyond sc : ℕ) (u : Bool) → 58 < sc → lookup beyond sc u ≡ 0
unfolding lookup
lookup_past beyond sc u h = ground arith

lookup_from_58 : (beyond sc : ℕ) (u : Bool) → beyond < 256 → 58 ≤ sc → lookup beyond sc u < 256
lookup_from_58 beyond sc u h p = elim (dec_lt 58 sc) [
  | yes q ↦ omega (arith, lookup_past beyond sc u q)
  | no q ↦ let at_end : sc ≡ 58 = omega arith in rw at_end (lookup_end beyond u h)
]

-- Every character is a byte.
pub lookup-lt : (beyond sc : ℕ) (u : Bool) → beyond < 256 → lookup beyond sc u < 256
lookup-lt beyond sc u h = elim (dec_lt sc 58) [
  | yes p ↦ lookup_table_lt beyond sc u p
  | no p ↦ lookup_from_58 beyond sc u h (omega arith)
]
