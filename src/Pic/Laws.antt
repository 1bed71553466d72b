-- ===== src/Pic/Laws.antt =====
-- The commands against the controllers.
use red_x_os.Common.Text.{Waits}
use red_x_os.Common.{ℕ, ◌+◌, ◌<◌, ◌≡◌, refl, ap, u8, List, true, false, ◌++◌, length, arith}
use red_x_os.Keyboard.Typing.{typed, text_of, handle_keyboard-Waits}
use red_x_os.Ports.{outb, inb, io_wait}
use red_x_os.Pic.{remap_pic, out_wait, end_master, keyboard_handler, Handler}
use red_x_os.Pic.Chips.{Pair, pair, masks}

-- `remapPIC` on any two controllers, whatever they were told before, leaves both ready, the first
-- one with the interrupts 0x20 to 0x27, the second one with 0x28 to 0x2f, wired to one another by
-- line 2, in 8086 mode, which only a first word that announces the fourth one gives, and with the
-- masks, which are bytes, that they had.
pub remap_pic_lem :
    (s : Pair)
    → s.master.mask < 256
    → s.slave.mask < 256
    → remap_pic pair s ≡ record s {
      master = record (s.master) {
        phase = masks;
        single = false;
        fourth = true;
        offset = 0x20;
        wiring = 4;
        mode = 1;
      };
      slave = record (s.slave) {
        phase = masks;
        single = false;
        fourth = true;
        offset = 0x28;
        wiring = 2;
        mode = 1;
      };
    }
unfolding remap_pic out_wait outb inb io_wait
remap_pic_lem s h g =
    let first : u8 (u8 s.master.mask) ≡ s.master.mask = omega arith in
    let second : u8 (u8 s.slave.mask) ≡ s.slave.mask = omega arith in
    ap
      (λ (m : ℕ × ℕ). record s {
        master = record (s.master) {
          phase = masks;
          single = false;
          fourth = true;
          offset = 0x20;
          wiring = 4;
          mode = 1;
          mask = m.0;
        };
        slave = record (s.slave) {
          phase = masks;
          single = false;
          fourth = true;
          offset = 0x28;
          wiring = 2;
          mode = 1;
          mask = m.1;
        };
      })
      (rw (first, second) refl)

-- The keyboard's handler reads the byte that the keyboard sent, puts the character that it types,
-- if any, behind the waiting text, and ends the interrupt at the first controller alone. There is
-- room for one character more, and the byte behind the scan code table is a byte.
pub keyboard_handler_lem :
    (beyond : ℕ) (s : Handler Pair) (xs : List ℕ)
    → beyond < 256
    → s.ports.key < 256
    → Waits s.keyboard.ram s.keyboard.term_in s.keyboard.buffer_size xs
    → length xs < s.keyboard.buffer_size
    → let t = keyboard_handler pair beyond s in
      Waits t.keyboard.ram s.keyboard.term_in s.keyboard.buffer_size
        (xs ++ text_of (typed beyond s.ports.key s.keyboard))
      × (t.ports ≡ record (s.ports) {
        master = record (s.ports.master) { ended = s.ports.master.ended + 1 };
      })
unfolding keyboard_handler end_master outb inb
keyboard_handler_lem beyond s xs h k w room =
    let byte : u8 s.ports.key ≡ s.ports.key = omega arith in
    (rw byte (handle_keyboard-Waits beyond s.ports.key s.keyboard xs h w room), refl)
