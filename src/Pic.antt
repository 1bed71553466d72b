-- ===== src/Pic.antt =====
-- kernel/src/interrupts/interrupts.h and interrupts.cpp: the commands to the two interrupt
-- controllers, and the handler of the keyboard's interrupt.
pub mod Chips
pub mod Laws
mod Tests
use red_x_os.Common.{ℕ, bit_or}
use red_x_os.Ports.{Ports, outb, inb, io_wait}
use red_x_os.Keyboard.{Keyboard, handle_keyboard}

abbrev pub pic1_command : ℕ
pic1_command = 0x20

abbrev pub pic1_data : ℕ
pic1_data = 0x21

abbrev pub pic2_command : ℕ
pic2_command = 0xA0

abbrev pub pic2_data : ℕ
pic2_data = 0xA1

abbrev pub pic_eoi : ℕ
pic_eoi = 0x20

abbrev pub icw1_init : ℕ
icw1_init = 0x10

abbrev pub icw1_icw4 : ℕ
icw1_icw4 = 0x01

abbrev pub icw4_8086 : ℕ
icw4_8086 = 0x01

-- `outb` and the `ioWait` behind it.
pub out_wait : {D : Type 0} → Ports D → ℕ → ℕ → D → D
out_wait p port byte d = io_wait p (outb p port byte d)

-- `remapPIC`
pub remap_pic : {D : Type 0} → Ports D → D → D
remap_pic p d0 =
    let (a1, d1) = inb p pic1_data d0 in
    let (a2, d2) = inb p pic2_data (io_wait p d1) in
    let d3 = out_wait p pic1_command (bit_or icw1_init icw1_icw4) (io_wait p d2) in
    let d4 = out_wait p pic2_command (bit_or icw1_init icw1_icw4) d3 in
    let d5 = out_wait p pic2_data 0x28 (out_wait p pic1_data 0x20 d4) in
    let d6 = out_wait p pic2_data 2 (out_wait p pic1_data 4 d5) in
    let d7 = out_wait p pic2_data icw4_8086 (out_wait p pic1_data icw4_8086 d6) in
    outb p pic2_data a2 (out_wait p pic1_data a1 d7)

-- `endMaster` and `endSlave`
unfoldable pub end_master : {D : Type 0} → Ports D → D → D
end_master p d = outb p pic1_command pic_eoi d

pub end_slave : {D : Type 0} → Ports D → D → D
end_slave p d = outb p pic1_command pic_eoi (outb p pic2_command pic_eoi d)

-- `keyboardHandler`, with the global `scancode`.
pub record Handler (D : Type 0) : Type 0 where
  pub ports : D
  pub scancode : ℕ
  pub keyboard : Keyboard

unfoldable pub keyboard_handler : {D : Type 0} → Ports D → ℕ → Handler D → Handler D
keyboard_handler p beyond s =
    let (scancode, d) = inb p 0x60 s.ports in
    record {
      ports = end_master p d;
      scancode = scancode;
      keyboard = handle_keyboard beyond scancode s.keyboard;
    }
