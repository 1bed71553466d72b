-- ===== src/Ps2/Controller.antt =====
-- What is documented of the 8042 controller of a PC: its commands 0x20, 0x60, 0xa8 and 0xd4, and
-- its status. It takes a while over each byte that is written to it.
use red_x_os.Common.{ℕ, ◌+◌, ◌-◌, Bool, bit_and, ltb, ◌==◌, if◌then◌else◌}
use red_x_os.Common.{List, [], ◌∷◌, ◌++◌}
use red_x_os.Ports.{Ports}

-- Where the next byte at the data port goes.
pub data Target : Type 0 where
  keyboard : Target
  configuration : Target
  mouse : Target

-- Bit 5 of `config` disables the mouse. `busy` is for how many reads of the status the controller
-- still takes no byte, `answers` what waits to be read, and `orders` what the mouse was sent.
-- `lost` counts the bytes that came too early.
pub record Controller : Type 0 where
  pub target : Target
  pub config : ℕ
  pub answers : List ℕ
  pub orders : List ℕ
  pub busy : ℕ
  pub delay : ℕ
  pub lost : ℕ

-- Whether the controller passes on what the mouse sends.
abbrev pub mouse_on : Controller → Bool
mouse_on c = bit_and c.config 0b100000 == 0

-- The command 0xa8 enables the mouse: it clears the bit.
abbrev pub command : ℕ → Controller → Controller
command byte c =
    if byte == 0x20
    then record c { answers = c.answers ++ c.config ∷ [] }
    else if byte == 0x60
    then record c { target = configuration }
    else if byte == 0xa8
    then record c { config = bit_and c.config 0b11011111 }
    else if byte == 0xd4
    then record c { target = mouse }
    else c

abbrev pub data_byte : ℕ → Controller → Target → Controller
data_byte byte c keyboard = c
data_byte byte c configuration = record c { config = byte; target = keyboard }
data_byte byte c mouse = record c {
  orders = c.orders ++ byte ∷ [];
  answers = c.answers ++ 0xfa ∷ [];
  target = keyboard;
}

abbrev pub controller_write : ℕ → ℕ → Controller → Controller
controller_write port byte c =
    if ltb 0 c.busy
    then record c { lost = c.lost + 1 }
    else if port == 0x64
    then command byte (record c { busy = c.delay })
    else if port == 0x60
    then data_byte byte (record c { busy = c.delay }) c.target
    else c

-- The status: bit 0 for an answer that waits, bit 1 for a controller that is busy.
abbrev pub status : Controller → ℕ
status c = (if ltb 0 c.busy then 0b10 else 0) + elim c.answers [ [] ↦ 0 | x ∷ xs ↦ 1 ]

abbrev pub first_answer : Controller → List ℕ → ℕ × Controller
first_answer c [] = (0, c)
first_answer c (x ∷ xs) = (x, record c { answers = xs })

abbrev pub controller_read : ℕ → Controller → ℕ × Controller
controller_read port c =
    if port == 0x64
    then (status c, record c { busy = c.busy - 1 })
    else if port == 0x60
    then first_answer c c.answers
    else (0xff, c)

abbrev pub controller : Ports Controller
controller = record { read = controller_read; write = controller_write }
