-- ===== src/Strings/Hex.antt =====
-- `toHString`: the digits that it writes, inside its buffer and below it.
use red_x_os.Common.{ℕ, ◌+◌, ◌-◌, ◌*◌, ◌/◌, ◌%◌, ◌^◌, ◌≤◌, ◌<◌, ◌≡◌, ◌⊎◌, arith, refl, ◌∙◌, ltb}
use red_x_os.Common.{◌==◌, if◌then◌else◌, bit_and}
use red_x_os.Common.Bits.{bit_and_low, bit_and_split, bit_and-zero}
use red_x_os.Common.Ram.{Ram, HoldsBytes, store8, store8_lem, store8-HoldsBytes}
use red_x_os.Common.Loops.{for_range, for_range_inv}
use red_x_os.Strings.{hex_char, hex_byte, hex_string, to_h_string64}

high_nibble : (x : ℕ) → x < 256 → bit_and x 0xf0 / 2 ^ 4 ≡ x / 16
high_nibble x h =
    ground
      (arith, bit_and_split 4 (x / 16) (x % 16) 15 0, bit_and_low 4 (x / 16), bit_and-zero (x % 16))

low_nibble : (x : ℕ) → bit_and x 0x0f ≡ x % 16
low_nibble x = bit_and_low 4 x

-- The hexadecimal digit of a number below 16: 0 to 9, and A to F.
abbrev pub hex_digit : ℕ → ℕ
hex_digit d = if ltb d 10 then b'0' + d else b'A' + (d - 10)

hex_char-hex_digit : (d : ℕ) → hex_char d ≡ hex_digit d
unfolding hex_char
hex_char-hex_digit d = ground arith

hex_char-lt : (x : ℕ) → x < 16 → hex_char x < 256
unfolding hex_char
hex_char-lt x h = ground arith

-- The digits of the first `k` bytes are in place; the number's bytes and what lies outside the
-- places written so far are as they were.
record Written (size out val k : ℕ) (m t : Ram) : Type 0 where
  bytes : HoldsBytes t
  high : (i : ℕ) → i < k → t (out + size - (i * 2 + 1)) ≡ hex_char (m (val + i) / 16)
  low : (i : ℕ) → i < k → t (out + size - i * 2) ≡ hex_char (m (val + i) % 16)
  frame : (x : ℕ) → (out + size < x) ⊎ (x + 2 * k ≤ out + size) → t x ≡ m x

module _ (size out val k : ℕ) {m t : Ram} (h : Written size out val k m t)
    (room : 2 * k + 2 ≤ out + size + 1)
    (away : (out + size < val + k) ⊎ (val + k + (2 * k + 2) ≤ out + size)) where
  source : t (val + k) ≡ m (val + k)
  source = h.frame (val + k) (omega arith)

  after_high : Ram
  after_high = store8 (out + size - (k * 2 + 1)) (hex_char (bit_and (t (val + k)) 0xf0 / 2 ^ 4)) t

  after_high_at :
      (x : ℕ)
      → after_high x ≡ (if out + size - (k * 2 + 1) == x then hex_char (m (val + k) / 16) else t x)
  unfolding after_high
  after_high_at x = ground (
    arith,
    source,
    h.bytes (val + k),
    high_nibble (t (val + k)) (h.bytes (val + k)),
    hex_char-lt (t (val + k) / 16),
    store8_lem (out + size - (k * 2 + 1)) (hex_char (bit_and (t (val + k)) 0xf0 / 2 ^ 4)) t x,
  )

  cell :
      (x : ℕ)
      → hex_byte size out val k t x ≡ (
          if out + size - k * 2 == x
          then hex_char (m (val + k) % 16)
          else if out + size - (k * 2 + 1) == x
          then hex_char (m (val + k) / 16)
          else t x)
  unfolding hex_byte after_high
  cell x = ground (
    arith,
    source,
    low_nibble (after_high (val + k)),
    hex_char-lt (t (val + k) % 16),
    after_high_at (val + k),
    after_high_at x,
    store8_lem (out + size - k * 2) (hex_char (bit_and (after_high (val + k)) 0x0f)) after_high x,
  )

  Written-suc : Written size out val (k + 1) m (hex_byte size out val k t)
  Written-suc = record {
    bytes = after-HoldsBytes;
    high = λ i p. ground (arith, cell (out + size - (i * 2 + 1)), h.high i);
    low = λ i p. ground (arith, cell (out + size - i * 2), h.low i);
    frame = λ x p. ground (arith, cell x, h.frame x);
  }
    where
      after-HoldsBytes : HoldsBytes (hex_byte size out val k t)
      after-HoldsBytes x = ground (
        arith,
        cell x,
        source,
        h.bytes (val + k),
        h.bytes x,
        hex_char-lt (m (val + k) / 16),
        hex_char-lt (m (val + k) % 16),
      )

-- The number's bytes stand apart from all places that are written.
abbrev pub Apart : ℕ → ℕ → ℕ → Type 0
Apart size out val = (out + size + 1 < val) ⊎ (val + 2 * size ≤ out + 1)

Written-loop :
    (size out val : ℕ) (m : Ram)
    → HoldsBytes m
    → 2 * size ≤ out + size + 1
    → Apart size out val
    → Written size out val size m (for_range size 0 (hex_byte size out val) m)
Written-loop size out val m bytes room away =
    for_range_inv (λ k t. Written size out val k m t) (hex_byte size out val) size 0 size m
      (omega arith) (λ k t p q h. Written-suc size out val k h (omega arith) (omega arith))
      (record {
        bytes = bytes;
        high = λ i p. absurd (omega arith);
        low = λ i p. absurd (omega arith);
        frame = λ x p. refl;
      })

-- What `toHString` leaves in memory: two hexadecimal digits for each byte `i`, at the places that
-- end at `out + size - 2 * i`, the end of the string, and nothing else changed.
pub record HexText (size out val : ℕ) (m t : Ram) : Type 0 where
  pub high : (i : ℕ) → i < size → t (out + size - (i * 2 + 1)) ≡ hex_char (m (val + i) / 16)
  pub low : (i : ℕ) → i < size → t (out + size - i * 2) ≡ hex_char (m (val + i) % 16)
  pub end : t (out + size + 1) ≡ 0
  pub frame : (x : ℕ) → (out + size + 1 < x) ⊎ (x + 2 * size ≤ out + size) → t x ≡ m x

hex_string-HexText :
    (size out val : ℕ) (m : Ram)
    → HoldsBytes m
    → 2 * size ≤ out + size + 1
    → Apart size out val
    → HexText size out val m (hex_string size out val m)
unfolding hex_string
hex_string-HexText size out val m bytes room away = record {
  high = λ i p. ground (arith, at (out + size - (i * 2 + 1)), w.high i);
  low = λ i p. ground (arith, at (out + size - i * 2), w.low i);
  end = ground (arith, at (out + size + 1));
  frame = λ x p. ground (arith, at x, w.frame x);
}
  where
    w : Written size out val size m (for_range size 0 (hex_byte size out val) m)
    w = Written-loop size out val m bytes room away

    at :
        (x : ℕ)
        → store8 (out + size + 1) 0 (for_range size 0 (hex_byte size out val) m) x
          ≡ (if out + size + 1 == x then 0 else for_range size 0 (hex_byte size out val) m x)
    at x =
        ground (arith, store8_lem (out + size + 1) 0 (for_range size 0 (hex_byte size out val) m) x)

-- `toHString` of a `uint64_t` leaves its sixteen hexadecimal digits, with capital letters, the
-- first one at the start of the buffer, and a zero behind them. It also writes the digits of the
-- seven bytes that follow the number in memory to the fourteen places below the buffer, so
-- `hex_output64` is at least 14. The number and those seven bytes stand apart from all that is
-- written.
pub to_h_string64_lem :
    (hex_output64 val_ptr : ℕ) (m : Ram)
    → HoldsBytes m
    → 14 ≤ hex_output64
    → Apart 15 hex_output64 val_ptr
    → let t = to_h_string64 hex_output64 val_ptr m in
      ((i : ℕ)
        → i < 8
        → (t (hex_output64 + (14 - 2 * i)) ≡ hex_digit (m (val_ptr + i) / 16))
          × (t (hex_output64 + (15 - 2 * i)) ≡ hex_digit (m (val_ptr + i) % 16)))
      × (t (hex_output64 + 16) ≡ 0)
      × ((i : ℕ)
          → i < 7
          → (t (hex_output64 - (2 * i + 2)) ≡ hex_digit (m (val_ptr + 8 + i) / 16))
            × (t (hex_output64 - (2 * i + 1)) ≡ hex_digit (m (val_ptr + 8 + i) % 16)))
unfolding to_h_string64
to_h_string64_lem out val m bytes room away = (
  λ i p. (
    digit_high i (out + (14 - 2 * i)) (val + i) (omega arith) (omega arith) refl,
    digit_low i (out + (15 - 2 * i)) (val + i) (omega arith) (omega arith) refl,
  ),
  rw (← end_place) text.end,
  λ i p. (
    digit_high (i + 8) (out - (2 * i + 2)) (val + 8 + i) (omega arith) (omega arith) (omega arith),
    digit_low (i + 8) (out - (2 * i + 1)) (val + 8 + i) (omega arith) (omega arith) (omega arith),
  ),
)
  where
    text : HexText 15 out val m (hex_string 15 out val m)
    text = hex_string-HexText 15 out val m bytes (omega arith) away

    end_place : out + 15 + 1 ≡ out + 16
    end_place = omega arith

    digit_high :
        (i x y : ℕ)
        → i < 15
        → x ≡ out + 15 - (i * 2 + 1)
        → y ≡ val + i
        → hex_string 15 out val m x ≡ hex_digit (m y / 16)
    digit_high i x y p e f = rw (e, f) (text.high i p ∙ hex_char-hex_digit (m (val + i) / 16))

    digit_low :
        (i x y : ℕ)
        → i < 15
        → x ≡ out + 15 - i * 2
        → y ≡ val + i
        → hex_string 15 out val m x ≡ hex_digit (m y % 16)
    digit_low i x y p e f = rw (e, f) (text.low i p ∙ hex_char-hex_digit (m (val + i) % 16))

-- One byte's two digits.
byte_frame :
    (size out val k : ℕ) (t : Ram) (x : ℕ)
    → (x + (k * 2 + 1) < out + size) ⊎ (out + size < x)
    → k * 2 + 1 ≤ out + size
    → hex_byte size out val k t x ≡ t x
unfolding hex_byte
byte_frame size out val k t x away low =
    let high = bit_and (t (val + k)) 0xf0 / 2 ^ 4 in
    let t' = store8 (out + size - (k * 2 + 1)) (hex_char high) t in
    ground (
      arith,
      store8_lem (out + size - (k * 2 + 1)) (hex_char high) t x,
      store8_lem (out + size - k * 2) (hex_char (bit_and (t' (val + k)) 0x0f)) t' x,
    )

-- What lies outside the places that `toHString` writes is as it was.
pub to_h_string64_frame :
    (out val : ℕ) (m : Ram)
    → 14 ≤ out
    → (x : ℕ) → (x + 14 < out) ⊎ (out + 16 < x)
    → to_h_string64 out val m x ≡ m x
unfolding to_h_string64 hex_string hex_byte
to_h_string64_frame out val m low x away =
    let loop =
      for_range_inv (λ k t. t x ≡ m x) (hex_byte 15 out val) 15 0 15 m refl
        (λ k t p q e. ground (arith, e, byte_frame 15 out val k t x)) refl in
    ground (arith, loop, store8_lem (out + 15 + 1) 0 (for_range 15 0 (hex_byte 15 out val) m) x)

pub to_h_string64-HoldsBytes :
    (out val : ℕ) (m : Ram) → HoldsBytes m → HoldsBytes (to_h_string64 out val m)
unfolding to_h_string64 hex_string hex_byte
to_h_string64-HoldsBytes out val m bytes =
    store8-HoldsBytes (out + 15 + 1) 0 (for_range 15 0 (hex_byte 15 out val) m) (
      for_range_inv (λ k t. HoldsBytes t) (hex_byte 15 out val) 15 0 15 m refl
        (λ k t p q h. store8-HoldsBytes _ _ _ (store8-HoldsBytes _ _ t h)) bytes)
