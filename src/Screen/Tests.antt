-- ===== src/Screen/Tests.antt =====
-- The terminal's renderer at a concrete input.
use red_x_os.Common.{refl, arith, ◌==◌, if◌then◌else◌}
use red_x_os.Common.Ram.{Ram}
use red_x_os.Renderer.{Framebuffer, Font}
use red_x_os.Renderer.Inside.{SameOutside}
use red_x_os.Screen.{render}
use red_x_os.Screen.Inside.{HoldsRows, render-SameOutside}

abbrev one_letter : Ram
one_letter a = if a == 700 then b'k' else if a == 10717 then 0b00111100 else 0

abbrev double_buffer : Framebuffer
double_buffer = record { base_addr = 5000; size = 4096; width = 30; height = 32; ppsl = 32 }

abbrev letters : Font
letters = record { buffer = 9000; charsize = 16 }

double_buffer-HoldsRows : HoldsRows double_buffer
double_buffer-HoldsRows = record { pitch = omega arith; whole = refl }

render_example :
    SameOutside double_buffer one_letter (render double_buffer letters 700 2 1 one_letter)
render_example =
    render-SameOutside double_buffer double_buffer-HoldsRows letters 700 2 1 one_letter
      (omega arith)
