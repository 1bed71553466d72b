-- ===== src/Pic/Chips.antt =====
-- What the data sheet of the 8259 interrupt controller says of its command words, for the two chips
-- of a PC, and the byte that the keyboard has sent.
use red_x_os.Common.{ℕ, Bool, ◌+◌, ◌-◌, ◌%◌, ltb, ◌==◌, if◌then◌else◌, bit_and}
use red_x_os.Ports.{Ports}

-- Which word a chip takes next at its data port: a mask, or one of the initialisation words.
pub data Phase : Type 0 where
  masks : Phase
  icw2 : Phase
  icw3 : Phase
  icw4 : Phase

-- `single` and `fourth` are the bits SNGL and IC4 of the first word: whether the chip stands alone and gets
-- no third word, and whether it gets a fourth. `ended` counts the ends of interrupts that a chip was told of.
pub record Chip : Type 0 where
  pub phase : Phase
  pub single : Bool
  pub fourth : Bool
  pub offset : ℕ
  pub wiring : ℕ
  pub mode : ℕ
  pub mask : ℕ
  pub ended : ℕ

abbrev pub command : ℕ → Chip → Chip
command byte c =
    if ltb 0 (bit_and byte 0x10)
    then record c {
      phase = icw2;
      single = ltb 0 (bit_and byte 0x02);
      fourth = ltb 0 (bit_and byte 0x01);
      mode = if ltb 0 (bit_and byte 0x01) then c.mode else 0;
      mask = 0;
    }
    else if byte == 0x20
    then record c { ended = c.ended + 1 }
    else c

-- A fourth word is taken if the first one announced it. Without it its functions are off.
abbrev pub after_wiring : Chip → Phase
after_wiring c = if c.fourth then icw4 else masks

abbrev pub word : ℕ → Chip → Phase → Chip
word byte c masks = record c { mask = byte }
word byte c icw2 = record c {
  phase = if c.single then after_wiring c else icw3;
  offset = byte - byte % 8;
}
word byte c icw3 = record c { phase = after_wiring c; wiring = byte }
word byte c icw4 = record c { phase = masks; mode = byte }

pub record Pair : Type 0 where
  pub master : Chip
  pub slave : Chip
  pub key : ℕ

abbrev pub pair_write : ℕ → ℕ → Pair → Pair
pair_write port byte p =
    if port == 0x20
    then record p { master = command byte p.master }
    else if port == 0x21
    then record p { master = word byte p.master p.master.phase }
    else if port == 0xA0
    then record p { slave = command byte p.slave }
    else if port == 0xA1
    then record p { slave = word byte p.slave p.slave.phase }
    else p

abbrev pub pair_read : ℕ → Pair → ℕ × Pair
pair_read port p =
    if port == 0x21
    then (p.master.mask, p)
    else if port == 0xA1
    then (p.slave.mask, p)
    else if port == 0x60
    then (p.key, p)
    else (0xff, p)

abbrev pub pair : Ports Pair
pair = record { read = pair_read; write = pair_write }
