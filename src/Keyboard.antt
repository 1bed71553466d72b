-- ===== src/Keyboard.antt =====
-- kernel/src/hid/keyboard.h and keyboard.cpp: scan codes become characters in `terminal.in`.
pub mod Layout
pub mod Typing
mod Tests
use red_x_os.Common.{ℕ, zero, suc, ◌+◌, ◌-◌, ◌%◌, ◌^◌, Bool, true, false, ◌||◌, List, [], ◌∷◌}
use red_x_os.Common.{ltb, ◌==◌, if◌then◌else◌, u8, get_or}
use red_x_os.Common.Ram.{Ram, store8}

abbrev pub left_shift : ℕ
left_shift = 0x2A

abbrev pub right_shift : ℕ
right_shift = 0x36

abbrev pub enter : ℕ
enter = 0x1C

abbrev pub back_space : ℕ
back_space = 0x0E

abbrev pub spacebar : ℕ
spacebar = 0x39

-- `ascii`: 58 characters, by scan code. (0x27 is the quote, 0x5c the backslash.)
abbrev pub ascii : List ℕ
ascii =
    0 ∷ 0 ∷ b'1' ∷ b'2' ∷ b'3' ∷ b'4' ∷ b'5' ∷ b'6' ∷ b'7' ∷ b'8' ∷ b'9' ∷ b'0' ∷ b'-' ∷ b'=' ∷ 0
    ∷ 0 ∷ b'q' ∷ b'w' ∷ b'e' ∷ b'r' ∷ b't' ∷ b'y' ∷ b'u' ∷ b'i' ∷ b'o' ∷ b'p' ∷ b'[' ∷ b']' ∷ 0 ∷ 0
    ∷ b'a' ∷ b's' ∷ b'd' ∷ b'f' ∷ b'g' ∷ b'h' ∷ b'j' ∷ b'k' ∷ b'l' ∷ b';' ∷ 0x27 ∷ b'`' ∷ 0 ∷ 0x5c
    ∷ b'z' ∷ b'x' ∷ b'c' ∷ b'v' ∷ b'b' ∷ b'n' ∷ b'm' ∷ b',' ∷ b'.' ∷ b'/' ∷ 0 ∷ b'*' ∷ 0 ∷ b' ' ∷ []

-- The shifted character, as a `char`: what falls below 0 wraps to the top of a byte.
unfoldable pub upper : ℕ → ℕ → ℕ
upper scancode c =
    if c == b'0'
    then c - 7
    else if c == b'2'
    then c + 14
    else if c == b'6'
    then c + 40
    else if c == b'8'
    then c - 14
    else if c == b'`'
    then c + 30
    else if c == b';'
    then c - 1
    else if c == 0x27
    then c - 17
    else if ltb scancode 7
    then u8 (c + 256 - 16)
    else if ltb scancode 11
    then u8 (c + 256 - 17)
    else u8 (c + 256 - 32)

-- `lookup`. The guard lets 58 through, where the table has ended: `beyond` is the byte that
-- stands behind it.
unfoldable pub lookup : ℕ → ℕ → Bool → ℕ
lookup beyond scancode uppercase =
    if ltb 58 scancode
    then 0
    else let c = get_or ascii scancode beyond in if uppercase then upper scancode c else c

-- The shift keys and `mod`, and `terminal.in` with `terminal.bufferSize`.
pub record Keyboard : Type 0 where
  pub left_shift_down : Bool
  pub right_shift_down : Bool
  pub mod_down : Bool
  pub ram : Ram
  pub term_in : ℕ
  pub buffer_size : ℕ

-- for (i = 0; in[i] != NULL && i < bufferSize; i++), with `left` places left
pub find_end : ℕ → ℕ → Ram → ℕ → ℕ
find_end zero i m term_in = i
find_end (suc left) i m term_in =
    let rest = find_end left (i + 1) m term_in in if m (term_in + i) == 0 then i else rest

-- The loop, and the write to the place that it stopped at.
unfoldable pub put : ℕ → Keyboard → Keyboard
put chr s =
    let i = find_end s.buffer_size 0 s.ram s.term_in in
    record s { ram = store8 (s.term_in + i) chr s.ram }

-- The code behind the `switch`.
unfoldable pub type_key : ℕ → ℕ → Keyboard → Keyboard
type_key beyond scancode s =
    let chr = lookup beyond scancode (s.left_shift_down || s.right_shift_down) in
    if chr == 0 then s else put chr s

-- `handleKeyboard`. The arrow keys behind a prefix do nothing yet.
unfoldable pub handle_keyboard : ℕ → ℕ → Keyboard → Keyboard
handle_keyboard beyond scancode s =
    if s.mod_down
    then record s { mod_down = false }
    else if scancode == 0xe0
    then record s { mod_down = true }
    else if scancode == left_shift
    then record s { left_shift_down = true }
    else if scancode == left_shift + 0x80
    then type_key beyond scancode (record s { left_shift_down = false })
    else if scancode == right_shift
    then record s { right_shift_down = true }
    else if scancode == right_shift + 0x80
    then type_key beyond scancode (record s { right_shift_down = false })
    else if scancode == enter
    then put 10 s
    else if scancode == back_space
    then s
    else if scancode == spacebar
    then put b' ' s
    else type_key beyond scancode s
