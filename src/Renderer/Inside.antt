-- ===== src/Renderer/Inside.antt =====
-- Drawing never leaves the frame buffer.
use red_x_os.Common.{ℕ, ◌+◌, ◌-◌, ◌*◌, ◌/◌, ◌%◌, ◌^◌, ◌≤◌, ◌<◌, ◌≡◌, ◌⊎◌, refl, ◌∙◌, arith}
use red_x_os.Common.{Bool-cases, inl, inr, ◌==◌, add32, sub32, if◌then◌else◌, ltb, get_or, bit_and}
use red_x_os.Common.Ram.{Ram, store32_apart}
use red_x_os.Common.Loops.{for_range, for_range_inv}
use red_x_os.Renderer.{Framebuffer, Font, plot_at, plot_pixel, plot_long, rect, cls, fill}
use red_x_os.Doubles.{Double, of_unsigned}
use red_x_os.Renderer.{draw_line, line_pixel, line_rounds}
use red_x_os.Renderer.Lines.{draw_line-for_range}
use red_x_os.Renderer.{
  glyph, glyph_pixel, print_char_at, m_cur_bitmap, draw_mouse, del_char, cl_char,
}

-- Memory outside the frame buffer is the same.
abbrev pub SameOutside : Framebuffer → Ram → Ram → Type 0
SameOutside fb m t = (x : ℕ) → (x < fb.base_addr) ⊎ (fb.base_addr + fb.size ≤ x) → t x ≡ m x

-- The buffer is made of whole pixels.
module _ (fb : Framebuffer) (whole : fb.size % 4 ≡ 0) where
  plot_at-SameOutside :
      (offset color : ℕ) (m : Ram) → offset % 4 ≡ 0 → SameOutside fb m (plot_at fb offset color m)
  unfolding plot_at
  plot_at-SameOutside offset color m aligned x h =
      ground (arith, store32_apart (fb.base_addr + offset) color m x)

  plot_pixel-SameOutside : (x y color : ℕ) (m : Ram) → SameOutside fb m (plot_pixel fb x y color m)
  unfolding plot_pixel
  plot_pixel-SameOutside x y color m = plot_at-SameOutside _ color m (omega arith)

  plot_long-SameOutside : (x y color : ℕ) (m : Ram) → SameOutside fb m (plot_long fb x y color m)
  unfolding plot_long
  plot_long-SameOutside x y color m = plot_at-SameOutside _ color m (omega arith)

  -- A loop whose rounds leave the outside alone leaves it alone.
  loop-SameOutside :
      (n i : ℕ) (body : ℕ → Ram → Ram) (m : Ram)
      → ((k : ℕ) (t : Ram) → SameOutside fb t (body k t))
      → SameOutside fb m (for_range n i body m)
  loop-SameOutside n i body m one x h =
      for_range_inv (λ k t. t x ≡ m x) body n i (i + n) m refl (λ k t p q r. one k t x h ∙ r) refl

  grid-SameOutside :
      (n i p j : ℕ) (body : ℕ → ℕ → Ram → Ram) (m : Ram)
      → ((k l : ℕ) (t : Ram) → SameOutside fb t (body k l t))
      → SameOutside fb m (for_range n i (λ k. for_range p j (body k)) m)
  grid-SameOutside n i p j body m one =
      loop-SameOutside n i (λ k. for_range p j (body k)) m
        (λ k t. loop-SameOutside p j (body k) t (one k))

  pub glyph_pixel-SameOutside :
      (row x u color c : ℕ) (m : Ram) → SameOutside fb m (glyph_pixel fb row x u color c m)
  unfolding glyph_pixel
  glyph_pixel-SameOutside row x u color c m =
      elim (Bool-cases (ltb 0 (bit_and (m row) (128 / 2 ^ (c - x))))) [
        | inl e ↦ rw e (plot_long-SameOutside c u color m)
        | inr e ↦ rw e (λ z h. refl)
      ]

  pub print_char_at-SameOutside :
      (font : Font) (chr x y color : ℕ) (m : Ram)
      → SameOutside fb m (print_char_at fb font chr x y color m)
  unfolding print_char_at
  print_char_at-SameOutside font chr x y color m = elim (Bool-cases (chr == 0)) [
    | inl e ↦ rw e (λ z h. refl)
    | inr e ↦ rw e (
        grid-SameOutside (add32 y 16 - y) y (add32 x 8 - x) x
          (λ u. glyph_pixel fb (glyph font chr + (u - y)) x u color) m
          (λ u c t. glyph_pixel-SameOutside (glyph font chr + (u - y)) x u color c t))
  ]

  mouse_pixel : ℕ → ℕ → ℕ → ℕ → ℕ → Ram → Ram
  mouse_pixel x y color u c m =
      if ltb 0 (bit_and (get_or m_cur_bitmap ((u * 16 + c) / 8) 0) (128 / 2 ^ (c % 8)))
      then plot_pixel fb (c + x) (u + y) color m
      else m

  mouse_pixel-SameOutside :
      (x y color u c : ℕ) (m : Ram) → SameOutside fb m (mouse_pixel x y color u c m)
  unfolding mouse_pixel
  mouse_pixel-SameOutside x y color u c m =
      elim (Bool-cases
        (ltb 0 (bit_and (get_or m_cur_bitmap ((u * 16 + c) / 8) 0) (128 / 2 ^ (c % 8))))) [
          | inl e ↦ rw e (plot_pixel-SameOutside (c + x) (u + y) color m)
          | inr e ↦ rw e (λ z h. refl)
        ]

  draw_mouse-SameOutside : (x y color : ℕ) (m : Ram) → SameOutside fb m (draw_mouse fb x y color m)
  unfolding draw_mouse mouse_pixel
  draw_mouse-SameOutside x y color m =
      grid-SameOutside 16 0 16 0 (mouse_pixel x y color) m
        (λ u c t. mouse_pixel-SameOutside x y color u c t)

  line_pixel-SameOutside :
      (x1 y1 a b n color : ℕ) (i : Double) (m : Ram)
      → SameOutside fb m (line_pixel fb x1 y1 a b n color i m)
  unfolding line_pixel
  line_pixel-SameOutside x1 y1 a b n color i m = plot_pixel-SameOutside _ _ color m

  draw_line-SameOutside :
      (x1 y1 x2 y2 color : ℕ) (m : Ram) → SameOutside fb m (draw_line fb x1 y1 x2 y2 color m)
  draw_line-SameOutside x1 y1 x2 y2 color m =
      let a = sub32 y2 y1 in
      let b = sub32 x2 x1 in
      let n = line_rounds a b in
      rw (draw_line-for_range fb x1 y1 x2 y2 color m) (
        loop-SameOutside n 0 (λ i. line_pixel fb x1 y1 a b n color (of_unsigned i)) m
          (λ i t. line_pixel-SameOutside x1 y1 a b n color (of_unsigned i) t))

  -- None of these nine drawing functions writes outside a frame buffer of whole pixels, wherever it is
  -- asked to draw.
  pub all-SameOutside :
      (font : Font) (chr x1 y1 x2 y2 color : ℕ) (m : Ram)
      → SameOutside fb m (plot_pixel fb x1 y1 color m)
        × SameOutside fb m (rect fb x1 y1 x2 y2 color m)
        × SameOutside fb m (draw_line fb x1 y1 x2 y2 color m)
        × SameOutside fb m (cls fb m)
        × SameOutside fb m (fill fb color m)
        × SameOutside fb m (print_char_at fb font chr x1 y1 color m)
        × SameOutside fb m (draw_mouse fb x1 y1 color m)
        × SameOutside fb m (del_char fb x1 y1 color m)
        × SameOutside fb m (cl_char fb x1 y1 color m)
  unfolding rect cls fill print_char_at draw_mouse del_char cl_char
  all-SameOutside font chr x1 y1 x2 y2 color m = (
    plot_pixel-SameOutside x1 y1 color m,
    grid-SameOutside (x2 + 1 - x1) x1 (y2 + 1 - y1) y1 (λ x y. plot_pixel fb x y color) m
        (λ x y t. plot_pixel-SameOutside x y color t),
    draw_line-SameOutside x1 y1 x2 y2 color m,
    grid-SameOutside fb.width 0 fb.height 0 (λ x y. plot_pixel fb x y 0) m
        (λ x y t. plot_pixel-SameOutside x y 0 t),
    grid-SameOutside fb.width 0 fb.height 0 (λ x y. plot_pixel fb x y color) m
        (λ x y t. plot_pixel-SameOutside x y color t),
    print_char_at-SameOutside font chr x1 y1 color m,
    draw_mouse-SameOutside x1 y1 color m,
    grid-SameOutside (add32 y1 16 - y1) y1 (add32 x1 8 - x1) x1 (λ u c. plot_long fb c u color) m
        (λ u c t. plot_long-SameOutside c u color t),
    grid-SameOutside (add32 y1 16 - y1) y1 (add32 x1 8 - x1) x1 (λ u c. plot_long fb c u color) m
        (λ u c t. plot_long-SameOutside c u color t),
  )
