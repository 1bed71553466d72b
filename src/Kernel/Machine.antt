-- ===== src/Kernel/Machine.antt =====
-- The kernel while it runs: interrupts between the rounds of the loop in `_start`.
use red_x_os.Common.{ℕ, Bool, [], ◌∷◌}
use red_x_os.Ports.{Ports}
use red_x_os.Keyboard.{Keyboard}
use red_x_os.Pic
use red_x_os.Pic.{Handler}
use red_x_os.Kernel.{Kernel, Run}
use red_x_os.Kernel.Drawing.{panic_const}
use red_x_os.Kernel.Start.{main_round}

-- The kernel with the globals of the keyboard.
pub record Machine (D : Type 0) : Type 0 where
  pub kernel : Kernel D
  pub scancode : ℕ
  pub left_shift_down : Bool
  pub right_shift_down : Bool
  pub mod_down : Bool

-- What the keyboard's handler works on: its globals, and the terminal's buffer `in` in memory.
unfoldable pub keyboard_of : {D : Type 0} → Machine D → Keyboard
keyboard_of s = record {
  left_shift_down = s.left_shift_down;
  right_shift_down = s.right_shift_down;
  mod_down = s.mod_down;
  ram = s.kernel.ram;
  term_in = s.kernel.terminal.in_buffer;
  buffer_size = s.kernel.terminal.buffer_size;
}

-- `keyboardHandler`
unfoldable pub keyboard_interrupt : {D : Type 0} → Ports D → ℕ → Machine D → Machine D
keyboard_interrupt p beyond s =
    let h =
      Pic.keyboard_handler p beyond
        (record { ports = s.kernel.ports; scancode = s.scancode; keyboard = keyboard_of s }) in
    record {
      kernel = record s.kernel { ports = h.ports; ram = h.keyboard.ram };
      scancode = h.scancode;
      left_shift_down = h.keyboard.left_shift_down;
      right_shift_down = h.keyboard.right_shift_down;
      mod_down = h.keyboard.mod_down;
    }

-- A round of the loop in `_start`, without its `hlt`.
unfoldable pub loop_round : {D : Type 0} → Machine D → Machine D
loop_round s = record s { kernel = (main_round s.kernel).1 }

-- The handlers of the three faults.
pub page_fault_handler : {D A : Type 0} → Run D A
page_fault_handler =
    panic_const (b'P' ∷ b'a' ∷ b'g' ∷ b'e' ∷ b' ' ∷ b'F' ∷ b'a' ∷ b'u' ∷ b'l' ∷ b't' ∷ [])

pub double_fault_handler : {D A : Type 0} → Run D A
double_fault_handler =
    panic_const
      (b'D' ∷ b'o' ∷ b'u' ∷ b'b' ∷ b'l' ∷ b'e' ∷ b' ' ∷ b'F' ∷ b'a' ∷ b'u' ∷ b'l' ∷ b't' ∷ [])

pub gen_proc_fault_handler : {D A : Type 0} → Run D A
gen_proc_fault_handler = panic_const (
    b'G' ∷ b'e' ∷ b'n' ∷ b'e' ∷ b'r' ∷ b'a' ∷ b'l' ∷ b' ' ∷ b'P' ∷ b'r' ∷ b'o' ∷ b't' ∷ b'e' ∷ b'c'
    ∷ b't' ∷ b'i' ∷ b'o' ∷ b'n' ∷ b' ' ∷ b'F' ∷ b'a' ∷ b'u' ∷ b'l' ∷ b't' ∷ [])
