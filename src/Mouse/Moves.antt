-- ===== src/Mouse/Moves.antt =====
-- Where a packet moves the cursor.
use red_x_os.Common.{ℕ, ◌+◌, ◌-◌, ◌^◌, ◌<◌, ◌≡◌, arith, Bool, true, false}
use red_x_os.Common.{if◌then◌else◌, sub32}
use red_x_os.Cursor.Laws.{OnScreen, moved, pattern_of, move_lem}
use red_x_os.Mouse.{MouseState, movement, flag_set, process_m_packet}
use red_x_os.Mouse.{x_sign, y_sign, x_oflow, y_oflow}

-- How far a packet moves along an axis, and whether that is forward.
abbrev pub forward : Bool → Bool → ℕ → ℕ
forward neg oflow byte = if neg then 0 else byte + (if oflow then 255 else 0)

abbrev pub backward : Bool → Bool → ℕ → ℕ
backward neg oflow byte = if neg then 256 - byte + (if oflow then 255 else 0) else 0

movement_pattern :
    (neg oflow : Bool) (byte : ℕ)
    → byte < 256
    → (movement neg oflow byte ≡ pattern_of (forward neg oflow byte) (backward neg oflow byte))
      × (sub32 0 (movement neg oflow byte)
          ≡ pattern_of (backward neg oflow byte) (forward neg oflow byte))
unfolding movement
movement_pattern neg oflow byte h = ground arith

distances :
    (neg oflow : Bool) (byte : ℕ)
    → byte < 256
    → (forward neg oflow byte < 2 ^ 31) × (backward neg oflow byte < 2 ^ 31)
distances neg oflow byte h = ground arith

-- A ready packet of bytes moves a cursor that is on the screen by its signed distances, to the right
-- and, as the mouse counts upwards, up; a coordinate that would leave the screen stays. The packet is
-- used up.
pub process_m_packet_lem :
    (s : MouseState)
    → OnScreen s.mouse
    → s.m_ready ≡ true
    → s.packet1 < 256
    → s.packet2 < 256
    → let xs = flag_set x_sign s.packet0 in
      let xo = flag_set x_oflow s.packet0 in
      let ys = flag_set y_sign s.packet0 in
      let yo = flag_set y_oflow s.packet0 in
      process_m_packet s ≡ record s {
        mouse = record (s.mouse) {
          x = moved s.mouse.xm (forward xs xo s.packet1) (backward xs xo s.packet1) s.mouse.x;
          y = moved s.mouse.ym (backward ys yo s.packet2) (forward ys yo s.packet2) s.mouse.y;
        };
        m_ready = false;
      }
unfolding process_m_packet
process_m_packet_lem s h ready p q =
    let xs = flag_set x_sign s.packet0 in
    let xo = flag_set x_oflow s.packet0 in
    let ys = flag_set y_sign s.packet0 in
    let yo = flag_set y_oflow s.packet0 in
    let dx = distances xs xo s.packet1 p in
    let dy = distances ys yo s.packet2 q in
    rw (
      ready,
      (movement_pattern xs xo s.packet1 p).0,
      (movement_pattern ys yo s.packet2 q).1,
      move_lem (forward xs xo s.packet1) (backward xs xo s.packet1) (backward ys yo s.packet2)
          (forward ys yo s.packet2) s.mouse h dx.0 dx.1 dy.1 dy.0,
    )
