-- ===== src/Renderer.antt =====
-- kernel/src/basicRenderer.h and basicRenderer.cpp: drawing into the frame buffer, which is a range
-- of memory with four bytes for each pixel.
pub mod Lines
pub mod Inside
pub mod Pixels
pub mod Text
pub mod Printed
pub mod Glyphs
mod Tests
use red_x_os.Common.{ℕ, zero, suc, ◌+◌, ◌-◌, ◌*◌, ◌/◌, ◌%◌, ◌^◌, List, [], ◌∷◌, Bool, true, false}
use red_x_os.Common.{ltb, ◌==◌, if◌then◌else◌, bit_and, u8, u32, u64, add32, sub32, get_or}
use red_x_os.Common.Ram.{Ram, store32}
use red_x_os.Common.Loops.{for_range}
use red_x_os.Doubles.{Double, of_int, of_unsigned, less, add, mul, div, to_int, to_unsigned}
use red_x_os.Math.{sqrt}
use red_x_os.Cursor
use red_x_os.Cursor.{Cursor}

pub record Framebuffer : Type 0 where
  pub base_addr : ℕ
  pub size : ℕ
  pub width : ℕ
  pub height : ℕ
  pub ppsl : ℕ

-- The guarded write of one pixel that each function makes, at an offset into the buffer.
pub plot_at : Framebuffer → ℕ → ℕ → Ram → Ram
plot_at fb offset color m =
    if ltb (fb.base_addr + offset) (fb.base_addr + fb.size)
    then store32 (fb.base_addr + offset) color m
    else m

-- `plotPixel`: the offset is an `unsigned int`.
pub plot_pixel : Framebuffer → ℕ → ℕ → ℕ → Ram → Ram
plot_pixel fb x y color m = plot_at fb (u32 (x * 4 + y * fb.ppsl * 4)) color m

-- The same with `unsigned long` coordinates.
pub plot_long : Framebuffer → ℕ → ℕ → ℕ → Ram → Ram
plot_long fb c u color m = plot_at fb (u64 (c * 4 + u * fb.ppsl * 4)) color m

-- One round of the loop in `drawLine`, whose counter is a double: `n` rounds make the whole line.
unfoldable pub line_pixel : Framebuffer → ℕ → ℕ → ℕ → ℕ → ℕ → ℕ → Double → Ram → Ram
line_pixel fb x1 y1 a b n color i m =
    let x = to_unsigned (mul (of_int b) (div i (of_unsigned n))) in
    let y = to_unsigned (mul (of_int a) (div i (of_unsigned n))) in
    plot_pixel fb (add32 x1 x) (add32 y1 y) color m

-- for (double i = 0; i < n; i++), for an `unsigned int` n, which bounds the rounds by 2 ^ 32.
unfoldable pub line_loop : ℕ → ℕ → (Double → Ram → Ram) → Double → Ram → Ram
line_loop zero n round i m = m
line_loop (suc left) n round i m = elim (less i (of_unsigned n)) [
  | true ↦ line_loop left n round (add i (of_unsigned 1)) (round i m)
  | false ↦ m
]

-- `length` and the number of rounds in `drawLine`. A product of the `int`s that overflows wraps.
unfoldable pub line_rounds : ℕ → ℕ → ℕ
line_rounds a b = u32 (to_int (sqrt (of_int (u32 (b * b + a * a)))) * 2)

-- `drawLine`
unfoldable pub draw_line : Framebuffer → ℕ → ℕ → ℕ → ℕ → ℕ → Ram → Ram
draw_line fb x1 y1 x2 y2 color m =
    let a = sub32 y2 y1 in
    let b = sub32 x2 x1 in
    let n = line_rounds a b in
    line_loop (2 ^ 32) n (line_pixel fb x1 y1 a b n color) (of_unsigned 0) m

-- `rect`. `x2` and `y2` are below 2 ^ 31: the `int` counters pass no greater number.
pub rect : Framebuffer → ℕ → ℕ → ℕ → ℕ → ℕ → Ram → Ram
rect fb x1 y1 x2 y2 color m =
    for_range (x2 + 1 - x1) x1
      (λ x m'. for_range (y2 + 1 - y1) y1 (λ y. plot_pixel fb x y color) m') m

-- `cls` and `fill`, of a buffer whose width and height are not 0.
pub cls : Framebuffer → Ram → Ram
cls fb m =
    for_range fb.width 0 (λ x m'. for_range fb.height 0 (λ y. plot_pixel fb x y 0x00000000) m') m

pub fill : Framebuffer → ℕ → Ram → Ram
fill fb color m =
    for_range fb.width 0 (λ x m'. for_range fb.height 0 (λ y. plot_pixel fb x y color) m') m

-- `font->buffer` and `font->header->charsize`
pub record Font : Type 0 where
  pub buffer : ℕ
  pub charsize : ℕ

-- `fontPtr`, for a `char`, which is signed.
pub glyph : Font → ℕ → ℕ
glyph font chr =
    if ltb chr 128
    then font.buffer + chr * font.charsize
    else font.buffer - (256 - chr) * font.charsize

-- One pixel of a character: it is drawn if its bit in the glyph's row is set.
pub glyph_pixel : Framebuffer → ℕ → ℕ → ℕ → ℕ → ℕ → Ram → Ram
glyph_pixel fb row x u color c m =
    if ltb 0 (bit_and (m row) (128 / 2 ^ (c - x))) then plot_long fb c u color m else m

-- `printChar` at a place. `y + 16` and `x + 8` are `unsigned int`.
pub print_char_at : Framebuffer → Font → ℕ → ℕ → ℕ → ℕ → Ram → Ram
print_char_at fb font chr x y color m =
    if chr == 0
    then m
    else for_range (add32 y 16 - y) y
        (λ u m'.
          for_range (add32 x 8 - x) x (glyph_pixel fb (glyph font chr + (u - y)) x u color) m')
        m

abbrev pub m_cur_bitmap : List ℕ
m_cur_bitmap =
    0b11000000 ∷ 0b00000000 ∷ 0b10100000 ∷ 0b00000000 ∷ 0b10010000 ∷ 0b00000000 ∷ 0b10001000
    ∷ 0b00000000 ∷ 0b10000100 ∷ 0b00000000 ∷ 0b10000010 ∷ 0b00000000 ∷ 0b10000001 ∷ 0b00000000
    ∷ 0b10000000 ∷ 0b10000000 ∷ 0b10000000 ∷ 0b01000000 ∷ 0b10000000 ∷ 0b00100000 ∷ 0b10000000
    ∷ 0b00010000 ∷ 0b10000000 ∷ 0b11111000 ∷ 0b10000000 ∷ 0b10000000 ∷ 0b10001110 ∷ 0b10000000
    ∷ 0b10110010 ∷ 0b01000000 ∷ 0b11000001 ∷ 0b10000000 ∷ []

-- `drawMouse`
pub draw_mouse : Framebuffer → ℕ → ℕ → ℕ → Ram → Ram
draw_mouse fb x y color m =
    for_range 16 0
      (λ u m'.
        for_range 16 0
          (λ c m''.
            if ltb 0 (bit_and (get_or m_cur_bitmap ((u * 16 + c) / 8) 0) (128 / 2 ^ (c % 8)))
            then plot_pixel fb (c + x) (u + y) color m''
            else m'')
          m')
      m

-- `delChar` and `clChar`
pub del_char : Framebuffer → ℕ → ℕ → ℕ → Ram → Ram
del_char fb x y color m =
    for_range (add32 y 16 - y) y
      (λ u m'. for_range (add32 x 8 - x) x (λ c. plot_long fb c u color) m') m

pub cl_char : Framebuffer → ℕ → ℕ → ℕ → Ram → Ram
cl_char fb x y color m =
    for_range (add32 y 16 - y) y
      (λ u m'. for_range (add32 x 8 - x) x (λ c. plot_long fb c u color) m') m

-- `basicRender` and `cur`.
pub record BasicRenderer : Type 0 where
  pub buffer : Framebuffer
  pub font : Font
  pub cur : Cursor
  pub ram : Ram

-- `if (cur.x > cur.xm) cur.newLine()`
abbrev pub wrap : Cursor → Cursor
wrap cur = if ltb cur.xm cur.x then Cursor.new_line cur else cur

-- `putChar`
pub put_char : ℕ → ℕ → BasicRenderer → BasicRenderer
put_char chr color r =
    let cur = wrap r.cur in
    record r {
      cur = cur;
      ram = print_char_at r.buffer r.font chr (u32 (cur.x * 8)) (u32 (cur.y * 16)) color r.ram;
    }

-- `printChar` at the cursor.
pub print_char : ℕ → ℕ → BasicRenderer → BasicRenderer
print_char chr color r =
    let cur = wrap r.cur in
    record r {
      cur = Cursor.right cur;
      ram = print_char_at r.buffer r.font chr (u32 (cur.x * 8)) (u32 (cur.y * 16)) color r.ram;
    }

-- `printString`: a string is the list of its characters, none of them 0.
pub print_string : List ℕ → ℕ → BasicRenderer → BasicRenderer
print_string [] color r = r
print_string (chr ∷ str) color r =
    print_string str color (print_char chr color (record r { cur = wrap r.cur }))

-- The `uint8_t` in which `print` counts.
pub length8 : List ℕ → ℕ → ℕ
length8 [] n = n
length8 (chr ∷ str) n = length8 str (u8 (n + 1))

-- `print`: a string that does not fit the line begins a new one.
pub print : List ℕ → ℕ → BasicRenderer → BasicRenderer
print str color r =
    let cur =
      if ltb (sub32 r.cur.xm r.cur.x) (length8 str 0) then Cursor.new_line r.cur else r.cur in
    print_string str color (record r { cur = cur })
