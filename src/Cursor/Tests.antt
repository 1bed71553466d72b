-- ===== src/Cursor/Tests.antt =====
-- Cursors at concrete inputs.
use red_x_os.Common.{arith}
use red_x_os.Cursor.{Cursor, reset, up, down, new_line, left, right, back, move}
use red_x_os.Cursor.Laws.{OnScreen, all-OnScreen}

abbrev at_edge : Cursor
at_edge = record { x = 79; y = 3; xm = 79; ym = 24 }

at_edge-OnScreen : OnScreen at_edge
at_edge-OnScreen = record {
  column = omega arith;
  row = omega arith;
  columns = omega arith;
  rows = omega arith;
}

all-OnScreen_example :
    OnScreen (reset at_edge)
    × OnScreen (up at_edge)
    × OnScreen (down at_edge)
    × OnScreen (new_line at_edge)
    × OnScreen (left at_edge)
    × OnScreen (right at_edge)
    × OnScreen (back at_edge)
    × OnScreen (move 5 7 at_edge)
all-OnScreen_example = all-OnScreen 5 7 at_edge at_edge-OnScreen
