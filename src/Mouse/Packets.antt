-- ===== src/Mouse/Packets.antt =====
-- How bytes become packets.
use red_x_os.Common.{ℕ, ◌<◌, ◌≡◌, refl, arith, true, false, List, [], ◌∷◌}
use red_x_os.Common.Bits.{bit_and-zero}
use red_x_os.Mouse.{MouseState, out_of_step, handle_mouse, process_m_packet}

-- No byte is out of step: the test of bit 3 never fires.
pub out_of_step_never : (byte : ℕ) → out_of_step byte ≡ false
unfolding out_of_step
out_of_step_never byte = rw bit_and-zero

-- A packet under way has at most two bytes, and a packet that is ready waits whole.
pub record InStep (s : MouseState) : Type 0 where
  pub cycle : s.m_cycle < 3
  pub whole : s.m_ready ≡ true → s.m_cycle ≡ 0

pub handle_mouse-InStep : (byte : ℕ) (s : MouseState) → InStep s → InStep (handle_mouse byte s)
unfolding handle_mouse
handle_mouse-InStep byte s h = ground (arith, h.whole)

pub process_m_packet-InStep : (s : MouseState) → InStep s → InStep (process_m_packet s)
unfolding process_m_packet
process_m_packet-InStep s h = ground (arith, h.whole)

pub handle_all : List ℕ → MouseState → MouseState
handle_all [] s = s
handle_all (b ∷ bs) s = handle_all bs (handle_mouse b s)

-- While a packet waits, bytes change nothing, whatever the cycle.
pub handle_mouse_ready : (byte : ℕ) (s : MouseState) → s.m_ready ≡ true → handle_mouse byte s ≡ s
unfolding handle_mouse
handle_mouse_ready byte s h = ground arith

pub handle_all_ready : (bs : List ℕ) (s : MouseState) → s.m_ready ≡ true → handle_all bs s ≡ s
unfolding handle_all
handle_all_ready [] s h = refl
handle_all_ready (b ∷ bs) s h = rw (handle_mouse_ready b s h) (handle_all_ready bs s h)

three_bytes :
    (a b c : ℕ) (s : MouseState)
    → s.m_cycle ≡ 0
    → s.m_ready ≡ false
    → handle_mouse c (handle_mouse b (handle_mouse a s))
      ≡ record s { packet0 = a; packet1 = b; packet2 = c; m_ready = true; m_cycle = 0 }
unfolding handle_mouse
three_bytes a b c s p q = ground (arith, out_of_step_never a)

-- From the start of a packet the next three bytes, whatever they are, become the packet, and all
-- bytes behind them are dropped. No packet is ready or under way at the start.
pub handle_all_packet :
    (a b c : ℕ) (more : List ℕ) (s : MouseState)
    → s.m_cycle ≡ 0
    → s.m_ready ≡ false
    → handle_all (a ∷ b ∷ c ∷ more) s
      ≡ record s { packet0 = a; packet1 = b; packet2 = c; m_ready = true; m_cycle = 0 }
unfolding handle_all
handle_all_packet a b c more s p q = rw (three_bytes a b c s p q) (handle_all_ready more _ refl)
