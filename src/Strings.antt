-- ===== src/Strings.antt =====
-- kernel/src/libs/string.h and string.cpp: text in static buffers. A buffer is an address in memory,
-- and so is a number whose bytes are read through a pointer.
pub mod Hex
pub mod Decimal
pub mod Signed
pub mod Cat
pub mod Fractions
pub mod Copied
pub mod Double
pub mod Expansion
mod Tests
use red_x_os.Common.{ℕ, zero, suc, ◌+◌, ◌-◌, ◌*◌, ◌/◌, ◌%◌, ◌^◌, Bool, true, false, List, [], ◌∷◌}
use red_x_os.Common.{ltb, ◌==◌, if◌then◌else◌, bit_and, u8, sub64}
use red_x_os.Common.Ram.{Ram, store8}
use red_x_os.Common.Loops.{for_range}

-- `tmp + (tmp > 9 ? 55 : '0')`
pub hex_char : ℕ → ℕ
hex_char tmp = tmp + (if ltb 9 tmp then 55 else b'0')

-- One round of the loop in `toHString`: byte `i` of the number goes to the two places of the
-- buffer that end at `size - i * 2`, an `int` that is negative from the middle of the loop on.
pub hex_byte : ℕ → ℕ → ℕ → ℕ → Ram → Ram
hex_byte size output val_ptr i m =
    let high = bit_and (m (val_ptr + i)) 0xf0 / 2 ^ 4 in
    let m' = store8 (output + size - (i * 2 + 1)) (hex_char high) m in
    let low = bit_and (m' (val_ptr + i)) 0x0f in store8 (output + size - i * 2) (hex_char low) m'

-- The body that the four functions share.
pub hex_string : ℕ → ℕ → ℕ → Ram → Ram
hex_string size output val_ptr m =
    store8 (output + size + 1) 0 (for_range size 0 (hex_byte size output val_ptr) m)

-- `toHString` of a `uint64_t`, a `uint32_t`, a `uint16_t` and a `uint8_t` that stands at `val_ptr`.
pub to_h_string64 : ℕ → ℕ → Ram → Ram
to_h_string64 hex_output64 val_ptr m = hex_string 15 hex_output64 val_ptr m

pub to_h_string32 : ℕ → ℕ → Ram → Ram
to_h_string32 hex_output32 val_ptr m = hex_string 7 hex_output32 val_ptr m

pub to_h_string16 : ℕ → ℕ → Ram → Ram
to_h_string16 hex_output16 val_ptr m = hex_string 3 hex_output16 val_ptr m

pub to_h_string8 : ℕ → ℕ → Ram → Ram
to_h_string8 hex_output8 val_ptr m = hex_string 1 hex_output8 val_ptr m

-- A 64-bit number has at most twenty decimal digits, which bounds the rounds of each loop below.
abbrev pub rounds : ℕ
rounds = 20

-- for (sizeCheck = number; sizeCheck / 10 > 0; sizeCheck /= 10) size++
pub size_loop : ℕ → ℕ → ℕ → ℕ
size_loop zero size_check size = size
size_loop (suc fuel) size_check size =
    let rest = size_loop fuel (size_check / 10) (u8 (size + 1)) in
    if ltb 0 (size_check / 10) then rest else size

-- What the loop over the digits hands on: the number, `index` and memory.
pub record Digits : Type 0 where
  pub number : ℕ
  pub index : ℕ
  pub ram : Ram

-- while (number / 10 > 0), where `base` is the place of the first digit
pub digit_loop : ℕ → ℕ → ℕ → Digits → Digits
digit_loop zero base size d = d
digit_loop (suc fuel) base size d =
    let rest = digit_loop fuel base size (record {
      number = d.number / 10;
      index = u8 (d.index + 1);
      ram = store8 (base + (size - d.index)) (u8 (d.number % 10) + b'0') d.ram;
    }) in
    if ltb 0 (d.number / 10) then rest else d

-- The digit that is left, behind the loop.
pub last_digit : ℕ → ℕ → Digits → Ram
last_digit base size d = store8 (base + (size - d.index)) (u8 (d.number % 10) + b'0') d.ram

-- `toString` of a `uint64_t`.
pub to_string : ℕ → ℕ → Ram → Ram
to_string uint_output number m =
    let size = size_loop rounds number 0 in
    let d = digit_loop rounds uint_output size (record { number = number; index = 0; ram = m }) in
    store8 (uint_output + (size + 1)) 0 (last_digit uint_output size d)

-- `toString` of an `int64_t`, given as its 64-bit pattern. `isNegative` is 1 for a negative
-- number. A number that is still negative after `number *= -1` (only the least one is) makes
-- `number / 10 > 0` false and leaves a negative remainder.
pub is_negative : ℕ → ℕ
is_negative w = if ltb w (2 ^ 63) then 0 else 1

pub magnitude : ℕ → ℕ
magnitude w = if ltb w (2 ^ 63) then w else sub64 0 w

pub signed_digits : ℕ → ℕ → Digits → Digits
signed_digits base size d = if ltb d.number (2 ^ 63) then digit_loop rounds base size d else d

pub signed_last : ℕ → ℕ → Digits → Ram
signed_last base size d =
    if ltb d.number (2 ^ 63)
    then last_digit base size d
    else store8 (base + (size - d.index)) (u8 (256 - (2 ^ 64 - d.number) % 10) + b'0') d.ram

pub to_string_signed : ℕ → ℕ → Ram → Ram
to_string_signed int_output w m =
    let number = magnitude w in
    let m' = if ltb w (2 ^ 63) then m else store8 int_output b'-' m in
    let base = int_output + is_negative w in
    let size = size_loop rounds number 0 in
    let d = signed_digits base size (record { number = number; index = 0; ram = m' }) in
    store8 (base + (size + 1)) 0 (signed_last base size d)

-- The first loop of `cat`: for (i = 0; catOutput[i] != 0; i++) catOutput[i] = 0, with a round for each
-- address.
pub clear_loop : ℕ → ℕ → ℕ → Ram → Ram
clear_loop zero output i m = m
clear_loop (suc left) output i m = elim (m (output + i) == 0) [
  | true ↦ m
  | false ↦ clear_loop left output (i + 1) (store8 (output + i) 0 m)
]

-- The other two loops: the string at `chr` is copied up to its end. `index` is a `uint8_t`.
pub copy_string : ℕ → ℕ → ℕ → ℕ → Ram → ℕ × Ram
copy_string zero output chr index m = (index, m)
copy_string (suc left) output chr index m = elim (m chr == 0) [
  | true ↦ (index, m)
  | false ↦ copy_string left output (chr + 1) (u8 (index + 1)) (store8 (output + index) (m chr) m)
]

-- `cat`
pub cat : ℕ → ℕ → ℕ → Ram → Ram
cat output so st m =
    let (index, m') = copy_string (2 ^ 64) output so 0 (clear_loop (2 ^ 64) output 0 m) in
    (copy_string (2 ^ 64) output st index m').1

-- The characters of a string in memory, up to the 0 behind them.
pub string_at : ℕ → Ram → ℕ → List ℕ
string_at zero m a = []
string_at (suc left) m a = elim (m a == 0) [ true ↦ [] | false ↦ m a ∷ string_at left m (a + 1) ]
