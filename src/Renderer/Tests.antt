-- ===== src/Renderer/Tests.antt =====
-- Drawing at concrete inputs.
use red_x_os.Common.{◌==◌, ltb, ◌-◌, ◌+◌, ◌*◌, inr, ◌≡◌, refl, arith}
use red_x_os.Common.{[], ◌∷◌, ◌&&◌, leb, if◌then◌else◌}
use red_x_os.Common.Ram.{Ram}
use red_x_os.Cursor.Laws.{OnScreen}
use red_x_os.Renderer.{
  Framebuffer, Font, BasicRenderer, plot_pixel, rect, cls, fill, print_char_at, draw_mouse,
  del_char, cl_char, print,
}
use red_x_os.Common.Loops.{for_range}
use red_x_os.Doubles.{
  of_int, of_unsigned, to_int, add, add_finite, div, mul, less, differ, rounded, round_ratio,
  nearest, excess, whole, one,
}
use red_x_os.Math.{sqrt, sqrt_loop}
use red_x_os.Renderer.{draw_line, line_rounds, line_pixel}
use red_x_os.Renderer.Lines.{draw_line-for_range}
use red_x_os.Renderer.Inside.{SameOutside, all-SameOutside}
use red_x_os.Renderer.Pixels.{HoldsRows, pixel, pixel-rect}
use red_x_os.Renderer.Glyphs.{lit, pixel-print_char_at}
use red_x_os.Renderer.Text.{rights, line_start, print_cur}

abbrev black : Ram
black a = 0

-- Twenty rows of thirty pixels, of which 28 are seen.
abbrev display : Framebuffer
display = record { base_addr = 5000; size = 2400; width = 28; height = 20; ppsl = 30 }

abbrev letters : Font
letters = record { buffer = 9000; charsize = 16 }

display-HoldsRows : HoldsRows display
display-HoldsRows = record { rows = omega arith; small = omega arith }

all-SameOutside_example :
    SameOutside display black (plot_pixel display 100 3 7 black)
    × SameOutside display black (rect display 100 3 120 50 7 black)
    × SameOutside display black (draw_line display 100 3 120 50 7 black)
    × SameOutside display black (cls display black)
    × SameOutside display black (fill display 7 black)
    × SameOutside display black (print_char_at display letters b'a' 100 3 7 black)
    × SameOutside display black (draw_mouse display 100 3 7 black)
    × SameOutside display black (del_char display 100 3 7 black)
    × SameOutside display black (cl_char display 100 3 7 black)
all-SameOutside_example = all-SameOutside display refl letters b'a' 100 3 120 50 7 black

draw_line-for_range_example :
    draw_line display 2 3 14 8 7 black
    ≡ for_range
        (line_rounds 5 12)
        0
        (λ i. line_pixel display 2 3 5 12 (line_rounds 5 12) 7 (of_unsigned i))
        black
draw_line-for_range_example = draw_line-for_range display 2 3 14 8 7 black

-- A line of 13 pixels has 26 rounds.
line_rounds_example : line_rounds 5 12 ≡ 26
unfolding line_rounds to_int sqrt of_int of_unsigned sqrt_loop add add_finite div mul less differ
    rounded round_ratio nearest excess whole one
line_rounds_example = refl

pixel-rect_example :
    pixel display (rect display 4 5 9 8 0x00ff00 black) 9 8
    ≡ (if (leb 4 9 && leb 9 9) && (leb 5 8 && leb 8 8) then 0x00ff00 else pixel display black 9 8)
pixel-rect_example =
    pixel-rect display display-HoldsRows 0x00ff00 (omega arith) 9 8 (omega arith) (omega arith) 4 5
      9 8 black (omega arith) (omega arith) (omega arith) (omega arith)

abbrev near_edge : BasicRenderer
near_edge = record {
  buffer = display;
  font = letters;
  cur = record { x = 2; y = 0; xm = 2; ym = 1 };
  ram = black;
}

near_edge-OnScreen : OnScreen near_edge.cur
near_edge-OnScreen = record {
  column = omega arith;
  row = omega arith;
  columns = omega arith;
  rows = omega arith;
}

print_cur_example :
    (print (b'o' ∷ b'k' ∷ []) 7 near_edge).cur ≡ rights 2 (line_start 2 near_edge.cur)
print_cur_example = print_cur (b'o' ∷ b'k' ∷ []) 7 near_edge near_edge-OnScreen (omega arith)

-- The first row of the letter a is half set.
abbrev half_row : Ram
half_row a = if a == 9000 + b'a' * 16 then 0xf0 else 0

pixel-print_char_at_example :
    pixel display (print_char_at display letters b'a' 10 2 7 half_row) 13 2 ≡ (
      if ((leb 10 13 && ltb 13 (10 + 8)) && (leb 2 2 && ltb 2 (2 + 16)))
        && lit (half_row (9000 + b'a' * 16 + (2 - 2))) (13 - 10)
      then 7
      else pixel display half_row 13 2)
unfolding red_x_os.Renderer.glyph
pixel-print_char_at_example =
    pixel-print_char_at display display-HoldsRows refl 7 (omega arith) 13 2 (omega arith)
      (omega arith) letters b'a' 10 2 half_row (λ e. omega (arith, e)) (λ i p. inr (omega arith))
      (omega arith) (omega arith)
