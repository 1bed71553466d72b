-- ===== src/Mouse/Tests.antt =====
-- Packets at concrete inputs.
use red_x_os.Common.{◌≡◌, refl, arith}
use red_x_os.Common.{[], ◌∷◌, true, false}
use red_x_os.Cursor.{Cursor}
use red_x_os.Cursor.Laws.{OnScreen, moved}
use red_x_os.Mouse.{MouseState, process_m_packet, flag_set, x_sign, y_sign, x_oflow, y_oflow}
use red_x_os.Mouse.Packets.{handle_all, handle_all_packet}
use red_x_os.Mouse.Moves.{forward, backward, process_m_packet_lem}

abbrev pointer : Cursor
pointer = record { x = 10; y = 20; xm = 639; ym = 479 }

abbrev idle : MouseState
idle = record {
  m_cycle = 0;
  packet0 = 0;
  packet1 = 0;
  packet2 = 0;
  m_ready = false;
  mouse = pointer;
}

-- Five to the right and seven down.
abbrev waiting : MouseState
waiting = record idle { packet0 = 0b00101000; packet1 = 5; packet2 = 249; m_ready = true }

handle_all_example :
    handle_all (0b00101000 ∷ 5 ∷ 249 ∷ 8 ∷ []) idle
    ≡ record idle { packet0 = 0b00101000; packet1 = 5; packet2 = 249; m_ready = true; m_cycle = 0 }
handle_all_example = handle_all_packet 0b00101000 5 249 (8 ∷ []) idle refl refl

pointer-OnScreen : OnScreen pointer
pointer-OnScreen = record {
  column = omega arith;
  row = omega arith;
  columns = omega arith;
  rows = omega arith;
}

process_m_packet_example :
    let xs = flag_set x_sign 0b00101000 in
    let xo = flag_set x_oflow 0b00101000 in
    let ys = flag_set y_sign 0b00101000 in
    let yo = flag_set y_oflow 0b00101000 in
    process_m_packet waiting ≡ record waiting {
      mouse = record pointer {
        x = moved 639 (forward xs xo 5) (backward xs xo 5) 10;
        y = moved 479 (backward ys yo 249) (forward ys yo 249) 20;
      };
      m_ready = false;
    }
process_m_packet_example =
    process_m_packet_lem waiting pointer-OnScreen refl (omega arith) (omega arith)
