-- ===== src/Renderer/Printed.antt =====
-- Printing a string changes the cursor, and of memory the frame buffer.
use red_x_os.Common.{
  ℕ, ◌+◌, ◌-◌, ◌*◌, ◌/◌, ◌%◌, ◌^◌, ◌≡◌, ◌∙◌, refl, List, [], ◌∷◌, add32, sub32, u32, ltb, ◌==◌,
  bit_and, Bool-cases, inl, inr, if◌then◌else◌,
}
use red_x_os.Common.Ram.{Ram, HoldsBytes, store32-HoldsBytes}
use red_x_os.Common.Loops.{for_range, for_range_inv}
use red_x_os.Cursor
use red_x_os.Cursor.{Cursor}
use red_x_os.Renderer.{
  Framebuffer, Font, BasicRenderer, plot_at, plot_long, glyph, glyph_pixel, print_char,
  print_char_at, print_string, print, length8, wrap,
}
use red_x_os.Renderer.Inside.{SameOutside, print_char_at-SameOutside}

-- From `r` to `t` something was drawn: in the frame buffer, which stays where it is, and in bytes.
pub record Drawn (r t : BasicRenderer) : Type 0 where
  pub same_buffer : t.buffer ≡ r.buffer
  pub outside : SameOutside r.buffer r.ram t.ram
  pub bytes : HoldsBytes r.ram → HoldsBytes t.ram

loop-HoldsBytes :
    (n i : ℕ) (body : ℕ → Ram → Ram) (m : Ram)
    → ((k : ℕ) (t : Ram) → HoldsBytes t → HoldsBytes (body k t))
    → HoldsBytes m
    → HoldsBytes (for_range n i body m)
loop-HoldsBytes n i body m one start =
    for_range_inv (λ k t. HoldsBytes t) body n i (i + n) m refl (λ k t p q h. one k t h) start

module _ (fb : Framebuffer) where
  plot_long-HoldsBytes :
      (c u color : ℕ) (m : Ram) → HoldsBytes m → HoldsBytes (plot_long fb c u color m)
  unfolding plot_long plot_at
  plot_long-HoldsBytes c u color m h =
      let offset = (c * 4 + u * fb.ppsl * 4) % 2 ^ 64 in
      elim (Bool-cases (ltb (fb.base_addr + offset) (fb.base_addr + fb.size))) [
        | inl e ↦ rw e (store32-HoldsBytes (fb.base_addr + offset) color m h)
        | inr e ↦ rw e h
      ]

  glyph_pixel-HoldsBytes :
      (row x u color c : ℕ) (m : Ram) → HoldsBytes m → HoldsBytes (glyph_pixel fb row x u color c m)
  unfolding glyph_pixel
  glyph_pixel-HoldsBytes row x u color c m h =
      elim (Bool-cases (ltb 0 (bit_and (m row) (128 / 2 ^ (c - x))))) [
        | inl e ↦ rw e (plot_long-HoldsBytes c u color m h)
        | inr e ↦ rw e h
      ]

  print_char_at-HoldsBytes :
      (font : Font) (chr x y color : ℕ) (m : Ram)
      → HoldsBytes m
      → HoldsBytes (print_char_at fb font chr x y color m)
  unfolding print_char_at
  print_char_at-HoldsBytes font chr x y color m h = elim (Bool-cases (chr == 0)) [
    | inl e ↦ rw e h
    | inr e ↦ rw e (
        loop-HoldsBytes (add32 y 16 - y) y
          (λ u. for_range (add32 x 8 - x) x (glyph_pixel fb (glyph font chr + (u - y)) x u color)) m
          (λ u t.
            loop-HoldsBytes (add32 x 8 - x) x (glyph_pixel fb (glyph font chr + (u - y)) x u color)
              t (glyph_pixel-HoldsBytes (glyph font chr + (u - y)) x u color))
          h)
  ]

print_string-Drawn :
    (str : List ℕ) (color : ℕ) (r : BasicRenderer)
    → r.buffer.size % 4 ≡ 0
    → Drawn r (print_string str color r)
unfolding print_string print_char
print_string-Drawn [] color r whole = record {
  same_buffer = refl;
  outside = λ x h. refl;
  bytes = λ h. h;
}
print_string-Drawn (chr ∷ str) color r whole =
    let r1 = print_char chr color (record r { cur = wrap r.cur }) in
    let cur = wrap (wrap r.cur) in
    let rest = print_string-Drawn str color r1 whole in
    record {
      same_buffer = rest.same_buffer;
      outside = λ x h.
          rest.outside x h
          ∙ print_char_at-SameOutside r.buffer whole r.font chr (u32 (cur.x * 8)) (u32 (cur.y * 16))
              color r.ram x h;
      bytes = λ h. rest.bytes (
          print_char_at-HoldsBytes r.buffer r.font chr (u32 (cur.x * 8)) (u32 (cur.y * 16)) color
            r.ram h);
    }

-- The string's own line, or a new one.
abbrev started : List ℕ → BasicRenderer → Cursor
started str r =
    if ltb (sub32 r.cur.xm r.cur.x) (length8 str 0) then Cursor.new_line r.cur else r.cur

pub print-Drawn :
    (str : List ℕ) (color : ℕ) (r : BasicRenderer)
    → r.buffer.size % 4 ≡ 0
    → Drawn r (print str color r)
unfolding print
print-Drawn str color r whole =
    let d = print_string-Drawn str color (record r { cur = started str r }) whole in
    record { same_buffer = d.same_buffer; outside = d.outside; bytes = d.bytes }
