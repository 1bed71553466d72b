-- ===== src/Mouse.antt =====
-- kernel/src/hid/mouse.h and mouse.cpp: the three-byte packets of the PS/2 mouse.
pub mod Packets
pub mod Moves
mod Tests
use red_x_os.Common.{ℕ, ◌+◌, ◌-◌, ◌*◌, ◌%◌, ◌^◌, Bool, true, false}
use red_x_os.Common.{ltb, ◌==◌, if◌then◌else◌, bit_and, u32, sub32}
use red_x_os.Cursor
use red_x_os.Cursor.{Cursor}

-- `mCycle`, `mPacket`, `mReady` and the cursor `mouse`.
pub record MouseState : Type 0 where
  pub m_cycle : ℕ
  pub packet0 : ℕ
  pub packet1 : ℕ
  pub packet2 : ℕ
  pub m_ready : Bool
  pub mouse : Cursor

-- The test of case 0: C reads `data & 0b00001000 == 0` as `data & (0b00001000 == 0)`.
pub out_of_step : ℕ → Bool
out_of_step byte = ltb 0 (bit_and byte (if 8 == 0 then 1 else 0))

-- `handleMouse`
pub handle_mouse : ℕ → MouseState → MouseState
unfolding out_of_step
handle_mouse byte s =
    if s.m_cycle == 0
    then (if s.m_ready
        then s
        else if out_of_step byte
        then s
        else record s { packet0 = byte; m_cycle = s.m_cycle + 1 })
    else if s.m_cycle == 1
    then (if s.m_ready then s else record s { packet1 = byte; m_cycle = s.m_cycle + 1 })
    else if s.m_cycle == 2
    then (if s.m_ready then s else record s { packet2 = byte; m_ready = true; m_cycle = 0 })
    else s

abbrev pub y_oflow : ℕ
y_oflow = 0b10000000

abbrev pub x_oflow : ℕ
x_oflow = 0b01000000

abbrev pub y_sign : ℕ
y_sign = 0b00100000

abbrev pub x_sign : ℕ
x_sign = 0b00010000

-- One axis of `processMPacket`, as the 32-bit pattern of an `int32_t`: the sign bit, the overflow
-- bit and the byte of the axis.
pub movement : Bool → Bool → ℕ → ℕ
movement neg oflow byte =
    let extra : ℕ = 255 * (if oflow then 1 else 0) in
    if neg then sub32 (sub32 0 (256 - byte)) extra else u32 (byte + extra)

-- A flag of the first byte.
pub flag_set : ℕ → ℕ → Bool
flag_set mask byte = ltb 0 (bit_and byte mask)

-- `processMPacket`
pub process_m_packet : MouseState → MouseState
process_m_packet s =
    if s.m_ready
    then (let x_mov = movement (flag_set x_sign s.packet0) (flag_set x_oflow s.packet0) s.packet1 in
        let y_mov = movement (flag_set y_sign s.packet0) (flag_set y_oflow s.packet0) s.packet2 in
        record s { mouse = Cursor.move x_mov (sub32 0 y_mov) s.mouse; m_ready = false })
    else s
