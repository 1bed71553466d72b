-- ===== src/Keyboard/Typing.antt =====
-- Keys and the text that waits in `terminal.in`.
use mathlib.Core.List.{append-nil}
use red_x_os.Keyboard.Layout.{lookup-lt}
use red_x_os.Common.{ℕ, zero, suc, ◌+◌, ◌≤◌, ◌<◌, ◌≡◌, ◌≢◌, ◌⊎◌, refl, arith}
use red_x_os.Common.{Bool, true, false, ◌||◌, ◌==◌, if◌then◌else◌, Bool-cases, inl, inr}
use red_x_os.Common.{Option, none, some, List, [], ◌∷◌, ◌++◌, length}
use red_x_os.Common.Text.{Waits, store8-Waits}
use red_x_os.Common.Ram.{Ram, store8_lem}
use red_x_os.Keyboard.{Keyboard, lookup, find_end, put, type_key, handle_keyboard}
use red_x_os.Keyboard.{left_shift, right_shift, enter, back_space, spacebar}

-- The loop stops at the first zero, or behind the last place.
find_end_lem :
    (left i n : ℕ) (m : Ram) (a : ℕ)
    → i ≤ n
    → n ≤ i + left
    → ((j : ℕ) → j < n → m (a + j) ≢ 0)
    → (n < i + left → m (a + n) ≡ 0)
    → find_end left i m a ≡ n
unfolding find_end
find_end_lem zero i n m a p q full stop = omega arith
find_end_lem (suc left) i n m a p q full stop = elim (Bool-cases (m (a + i) == 0)) [
  | inl z ↦ rw z (ground (arith, full i))
  | inr nz ↦ rw nz (
      find_end_lem left (i + 1) n m a (ground (arith, stop)) (omega arith) full
        (λ r. stop (omega arith)))
]

find_end-Waits :
    {m : Ram} {a size : ℕ} {xs : List ℕ} → Waits m a size xs → find_end size 0 m a ≡ length xs
find_end-Waits {m} {a} {size} {xs} w =
    find_end_lem size 0 (length xs) m a (omega arith) (omega (arith, w.fits)) w.nonzero
      (λ p. w.zeros (length xs) (omega arith) (omega arith))

-- A character goes behind the text, if there is room for it.
pub put-Waits :
    (chr : ℕ) (s : Keyboard) (xs : List ℕ)
    → chr ≢ 0
    → chr < 256
    → Waits s.ram s.term_in s.buffer_size xs
    → length xs < s.buffer_size
    → Waits (put chr s).ram s.term_in s.buffer_size (xs ++ chr ∷ [])
unfolding put
put-Waits chr s xs ne small w room =
    rw (find_end-Waits w) (store8-Waits chr s.ram s.term_in s.buffer_size xs ne small w room)

-- The character that a scan code types, if any: none while a prefix is pending, and none for a
-- prefix, a shift key or the backspace.
abbrev pub typed : ℕ → ℕ → Keyboard → Option ℕ
typed beyond sc s =
    if s.mod_down || sc == 0xe0 || sc == left_shift || sc == right_shift || sc == back_space
    then none
    else if sc == enter
    then some 10
    else if sc == spacebar
    then some b' '
    else if lookup beyond sc (s.left_shift_down || s.right_shift_down) == 0
    then none
    else some (lookup beyond sc (s.left_shift_down || s.right_shift_down))

abbrev pub written : Option ℕ → Keyboard → Ram
written none s = s.ram
written (some c) s = (put c s).ram

abbrev pub text_of : Option ℕ → List ℕ
text_of none = []
text_of (some c) = c ∷ []

lookup_high : (beyond sc : ℕ) (u : Bool) → 58 < sc → lookup beyond sc u ≡ 0
unfolding lookup
lookup_high beyond sc u h = ground arith

pub handle_ram :
    (beyond sc : ℕ) (s : Keyboard)
    → (handle_keyboard beyond sc s).ram ≡ written (typed beyond sc s) s
unfolding handle_keyboard type_key
handle_ram beyond sc s = ground (
  arith,
  lookup_high beyond sc s.right_shift_down,
  lookup_high beyond sc (s.left_shift_down || false),
  lookup_high beyond sc (s.left_shift_down || s.right_shift_down),
)

pub typed_char :
    (beyond sc : ℕ) (s : Keyboard) (c : ℕ)
    → beyond < 256
    → typed beyond sc s ≡ some c
    → (c ≢ 0) × (c < 256)
typed_char beyond sc s c h e =
    ground (arith, lookup-lt beyond sc (s.left_shift_down || s.right_shift_down) h)

written-Waits :
    (o : Option ℕ) (s : Keyboard) (xs : List ℕ)
    → ((c : ℕ) → o ≡ some c → (c ≢ 0) × (c < 256))
    → Waits s.ram s.term_in s.buffer_size xs
    → length xs < s.buffer_size
    → Waits (written o s) s.term_in s.buffer_size (xs ++ text_of o)
written-Waits none s xs ok w room = rw append-nil w
written-Waits (some c) s xs ok w room = put-Waits c s xs (ok c refl).0 (ok c refl).1 w room

-- A scan code puts the character that it types, if any, behind the waiting text, and changes
-- nothing else of it. There is room for one character more, and the byte behind the table is a byte.
pub handle_keyboard-Waits :
    (beyond sc : ℕ) (s : Keyboard) (xs : List ℕ)
    → beyond < 256
    → Waits s.ram s.term_in s.buffer_size xs
    → length xs < s.buffer_size
    → Waits
        (handle_keyboard beyond sc s).ram
        s.term_in
        s.buffer_size
        (xs ++ text_of (typed beyond sc s))
handle_keyboard-Waits beyond sc s xs h w room =
    rw (handle_ram beyond sc s)
      (written-Waits (typed beyond sc s) s xs (λ c e. typed_char beyond sc s c h e) w room)

written_frame :
    (o : Option ℕ) (s : Keyboard) (xs : List ℕ)
    → Waits s.ram s.term_in s.buffer_size xs
    → length xs < s.buffer_size
    → (x : ℕ) → (x < s.term_in) ⊎ (s.term_in + s.buffer_size ≤ x)
    → written o s x ≡ s.ram x
unfolding put
written_frame none s xs w room x away = refl
written_frame (some c) s xs w room x away =
    rw (find_end-Waits w) (ground (arith, store8_lem (s.term_in + length xs) c s.ram x))

-- Outside the buffer memory stays.
pub handle_keyboard_frame :
    (beyond sc : ℕ) (s : Keyboard) (xs : List ℕ)
    → Waits s.ram s.term_in s.buffer_size xs
    → length xs < s.buffer_size
    → (x : ℕ) → (x < s.term_in) ⊎ (s.term_in + s.buffer_size ≤ x)
    → (handle_keyboard beyond sc s).ram x ≡ s.ram x
handle_keyboard_frame beyond sc s xs w room x away =
    rw (handle_ram beyond sc s) (written_frame (typed beyond sc s) s xs w room x away)

-- The shift keys follow their own scan codes and no others, and a code behind the prefix 0xe0
-- counts for nothing.
pub handle_keyboard_shift :
    (beyond sc : ℕ) (s : Keyboard)
    → let s' = handle_keyboard beyond sc s in
      (s'.left_shift_down ≡ (
        if s.mod_down
        then s.left_shift_down
        else if sc == left_shift
        then true
        else if sc == left_shift + 0x80
        then false
        else s.left_shift_down))
      × (s'.right_shift_down ≡ (
          if s.mod_down
          then s.right_shift_down
          else if sc == right_shift
          then true
          else if sc == right_shift + 0x80
          then false
          else s.right_shift_down))
      × (s'.mod_down ≡ (if s.mod_down then false else sc == 0xe0))
unfolding handle_keyboard type_key put
handle_keyboard_shift beyond sc s = (ground arith, ground arith, ground arith)
