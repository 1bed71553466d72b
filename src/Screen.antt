-- ===== src/Screen.antt =====
-- kernel/src/screen.h and screen.cpp, kernel/src/terminal/renderer.h and renderer.cpp: pixels of the
-- double buffer, and the terminal's text drawn into it.
pub mod Inside
mod Tests
use red_x_os.Common.{ℕ, ◌+◌, ◌-◌, ◌*◌, ◌/◌, ◌^◌, bit_or, bit_and}
use red_x_os.Common.{ltb, ◌==◌, if◌then◌else◌, u32, add32}
use red_x_os.Common.Ram.{Ram, store32}
use red_x_os.Common.Loops.{for_range}
use red_x_os.Renderer.{Framebuffer, Font, glyph}

-- `Screen::pixel` with a color. The test uses `ppsl`, the store `Width`; `x` and `y` are an `int` each,
-- not negative, and the sums are `unsigned int`.
pub pixel : Framebuffer → ℕ → ℕ → ℕ → Ram → Ram
pixel fb x y color m =
    if ltb (fb.base_addr + u32 (x * 4 + y * fb.ppsl * 4)) (fb.base_addr + fb.size)
    then store32 (fb.base_addr + u32 (x + y * fb.width) * 4) color m
    else m

-- `Screen::pixel` with the four parts of a color, a byte each.
pub argb : ℕ → ℕ → ℕ → ℕ → ℕ
argb a r g b = bit_or (bit_or (bit_or (bit_or 0 b) (g * 2 ^ 8)) (r * 2 ^ 16)) (a * 2 ^ 24)

pub pixel_argb : Framebuffer → ℕ → ℕ → ℕ → ℕ → ℕ → ℕ → Ram → Ram
pixel_argb fb x y a r g b m = pixel fb x y (argb a r g b) m

-- One pixel of a character in `drawChar`.
pub char_pixel : Framebuffer → ℕ → ℕ → ℕ → ℕ → ℕ → Ram → Ram
char_pixel fb row x u color c m =
    if ltb 0 (bit_and (m row) (128 / 2 ^ (c - x))) then pixel fb c u color m else m

-- `TerminalRenderer::drawChar` and `clearChar`
pub draw_char : Framebuffer → Font → ℕ → ℕ → ℕ → ℕ → Ram → Ram
draw_char fb font chr x y color m =
    if chr == 0
    then m
    else for_range (add32 y 16 - y) y
        (λ u m'.
          for_range (add32 x 8 - x) x (char_pixel fb (glyph font chr + (u - y)) x u color) m')
        m

pub clear_char : Framebuffer → ℕ → ℕ → ℕ → Ram → Ram
clear_char fb x y color m =
    for_range (add32 y 16 - y) y (λ u m'. for_range (add32 x 8 - x) x (λ c. pixel fb c u color) m')
      m

-- One place of the text in `render`.
pub text_place : Framebuffer → Font → ℕ → ℕ → ℕ → ℕ → Ram → Ram
text_place fb font text width y x m =
    let chr = m (text + (x + y * width)) in
    if chr == 10 then m else draw_char fb font chr (x * 8) (y * 16) 0xFFFFFFFF m

-- `TerminalRenderer::render`
pub render : Framebuffer → Font → ℕ → ℕ → ℕ → Ram → Ram
render fb font text width height m =
    for_range height 0 (λ y m'. for_range width 0 (text_place fb font text width y) m') m
