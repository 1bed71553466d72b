-- ===== src/Renderer/Glyphs.antt =====
-- What a printed character looks like.
use red_x_os.Common.{
  ℕ, ◌+◌, ◌-◌, ◌*◌, ◌/◌, ◌%◌, ◌^◌, ◌≤◌, ◌<◌, ◌≡◌, ◌≢◌, ◌⊎◌, ◌∙◌, refl, ap, arith, Bool, true, false,
  ◌&&◌, leb, ltb, ◌==◌, if◌then◌else◌, bit_and, inl, inr, Bool-cases, u32, u64, add32,
}
use red_x_os.Common.Ram.{Ram}
use red_x_os.Common.Loops.{for_range, for_range_inv}
use red_x_os.Renderer.{
  Framebuffer, Font, plot_at, plot_pixel, plot_long, glyph, glyph_pixel, print_char_at,
}
use red_x_os.Renderer.Inside.{SameOutside, glyph_pixel-SameOutside}
use red_x_os.Renderer.Pixels.{HoldsRows, pixel, rows_mono, in_buffer, pixel-plot_pixel}

-- The bit of a glyph's row for its column `k`.
abbrev pub lit : ℕ → ℕ → Bool
lit byte k = ltb 0 (bit_and byte (128 / 2 ^ k))

-- One more column of a row.
next_column :
    (x x' k u y' color old before : ℕ) (b b' : Bool)
    → x ≤ k
    → (k ≡ x' → b ≡ b')
    → old ≡ (if ((leb x x' && ltb x' k) && (u == y')) && b' then color else before)
    → (if (k == x' && (u == y')) && b then color else old)
      ≡ (if ((leb x x' && ltb x' (k + 1)) && (u == y')) && b' then color else before)
next_column x x' k u y' color old before true b' low same was = ground (arith, same)
next_column x x' k u y' color old before false b' low same was = ground (arith, same)

-- One more row of a glyph.
next_row :
    (x x' y y' k color old before : ℕ) (b b' : Bool)
    → y ≤ k
    → (k ≡ y' → b ≡ b')
    → old
      ≡ (if ((leb x x' && ltb x' (x + 8)) && (leb y y' && ltb y' k)) && b' then color else before)
    → (if ((leb x x' && ltb x' (x + 8)) && (k == y')) && b then color else old) ≡ (
        if ((leb x x' && ltb x' (x + 8)) && (leb y y' && ltb y' (k + 1))) && b'
        then color
        else before)
next_row x x' y y' k color old before true b' low same was = ground (arith, same)
next_row x x' y y' k color old before false b' low same was = ground (arith, same)

module _ (fb : Framebuffer) (holds : HoldsRows fb) (whole : fb.size % 4 ≡ 0) (color : ℕ)
    (word : color < 2 ^ 32) where
  -- In the grid the two ways to write a pixel are one.
  plot_long-plot_pixel :
      (x y : ℕ) (m : Ram)
      → x < fb.ppsl
      → y < fb.height
      → plot_long fb x y color m ≡ plot_pixel fb x y color m
  unfolding plot_long plot_pixel
  plot_long-plot_pixel x y m hx hy =
      let inside = in_buffer fb holds x y hx hy in
      let same : u64 (x * 4 + y * fb.ppsl * 4) ≡ u32 (x * 4 + y * fb.ppsl * 4) =
        omega (arith, inside, holds.small) in
      ap (λ (n : ℕ). plot_at fb n color m) same

  module _ (x' y' : ℕ) (hx' : x' < fb.ppsl) (hy' : y' < fb.height) where
    pixel-glyph_pixel :
        (row x u c : ℕ) (m : Ram)
        → c < fb.ppsl
        → u < fb.height
        → pixel fb (glyph_pixel fb row x u color c m) x' y'
          ≡ (if (c == x' && (u == y')) && lit (m row) (c - x) then color else pixel fb m x' y')
    unfolding glyph_pixel
    pixel-glyph_pixel row x u c m hc hu = elim (Bool-cases (lit (m row) (c - x))) [
      | inl e ↦
          let drawn = pixel-plot_pixel fb holds color word c u x' y' m hc hu hx' hy' in
          let plot = ap (λ (t : Ram). pixel fb t x' y') (plot_long-plot_pixel c u m hc hu) in
          rw e (plot ∙ ground (arith, drawn))
      | inr e ↦ rw e (ground arith)
    ]

    -- A row of a glyph that stands outside the buffer.
    abbrev pub Outside : ℕ → Type 0
    Outside a = (a < fb.base_addr) ⊎ (fb.base_addr + fb.size ≤ a)

    glyph_row :
        (row x u : ℕ) (m : Ram)
        → Outside row
        → x + 8 ≤ fb.ppsl
        → u < fb.height
        → let t = for_range 8 x (glyph_pixel fb row x u color) m in
          SameOutside fb m t
          × (pixel fb t x' y' ≡ (
              if ((leb x x' && ltb x' (x + 8)) && (u == y')) && lit (m row) (x' - x)
              then color
              else pixel fb m x' y'))
    glyph_row row x u m out wide high =
        for_range_inv
          (λ k t.
            SameOutside fb m t
            × (pixel fb t x' y' ≡ (
                if ((leb x x' && ltb x' k) && (u == y')) && lit (m row) (x' - x)
                then color
                else pixel fb m x' y')))
          (glyph_pixel fb row x u color) 8 x (x + 8) m refl
          (λ k t low below kept.
            let here : k ≡ x' → lit (t row) (k - x) ≡ lit (m row) (x' - x) = λ e.
              ap (λ (b : ℕ). lit b (k - x)) (kept.0 row out)
              ∙ ap (λ (n : ℕ). lit (m row) (n - x)) e in
            (
              λ a away. glyph_pixel-SameOutside fb whole row x u color k t a away ∙ kept.0 a away,
              pixel-glyph_pixel row x u k t (omega arith) high
                  ∙ next_column x x' k u y' color (pixel fb t x' y') (pixel fb m x' y')
                      (lit (t row) (k - x)) (lit (m row) (x' - x)) low here (kept.1),
            ))
          (λ a away. refl, ground arith)

    -- The rows of the glyph, from the first one on.
    glyph_rows :
        (top x y : ℕ) (m : Ram)
        → ((i : ℕ) → i < 16 → Outside (top + i))
        → x + 8 ≤ fb.ppsl
        → y + 16 ≤ fb.height
        → pixel fb
            (for_range 16 y (λ u m'. for_range 8 x (glyph_pixel fb (top + (u - y)) x u color) m') m)
            x'
            y'
          ≡ (if ((leb x x' && ltb x' (x + 8)) && (leb y y' && ltb y' (y + 16)))
                && lit (m (top + (y' - y))) (x' - x)
              then color
              else pixel fb m x' y')
    glyph_rows top x y m out wide high =
        (for_range_inv
          (λ k t.
            SameOutside fb m t
            × (pixel fb t x' y' ≡ (
                if ((leb x x' && ltb x' (x + 8)) && (leb y y' && ltb y' k))
                  && lit (m (top + (y' - y))) (x' - x)
                then color
                else pixel fb m x' y')))
          (λ u m'. for_range 8 x (glyph_pixel fb (top + (u - y)) x u color) m') 16 y (y + 16) m refl
          (λ k t low below kept.
            let away = out (k - y) (omega arith) in
            let row = glyph_row (top + (k - y)) x k t away wide (omega arith) in
            let here : k ≡ y'
                → lit (t (top + (k - y))) (x' - x) ≡ lit (m (top + (y' - y))) (x' - x) =
              λ e.
                ap (λ (b : ℕ). lit b (x' - x)) (kept.0 (top + (k - y)) away)
                ∙ ap (λ (n : ℕ). lit (m (top + (n - y))) (x' - x)) e in
            (
              λ a off. row.0 a off ∙ kept.0 a off,
              row.1
                  ∙ next_row x x' y y' k color (pixel fb t x' y') (pixel fb m x' y')
                      (lit (t (top + (k - y))) (x' - x)) (lit (m (top + (y' - y))) (x' - x)) low
                      here kept.1,
            ))
          (λ a off. refl, ground arith)).1

    -- A character that is not 0, with all its pixels in the grid and its glyph outside of the buffer: `printChar`
    -- gives the color, which has 32 bits, to the pixels of its 8 by 16 block whose bits in the glyph
    -- are set, the highest bit on the left, and leaves all others. The buffer is made of whole pixels,
    -- holds its rows, and its offsets are 32-bit words.
    pub pixel-print_char_at :
        (font : Font) (chr x y : ℕ) (m : Ram)
        → chr ≢ 0
        → ((i : ℕ) → i < 16 → Outside (glyph font chr + i))
        → x + 8 ≤ fb.ppsl
        → y + 16 ≤ fb.height
        → pixel fb (print_char_at fb font chr x y color m) x' y' ≡ (
            if ((leb x x' && ltb x' (x + 8)) && (leb y y' && ltb y' (y + 16)))
              && lit (m (glyph font chr + (y' - y))) (x' - x)
            then color
            else pixel fb m x' y')
    unfolding print_char_at
    pixel-print_char_at font chr x y m not_end out wide high =
        let corner = in_buffer fb holds (x + 7) (y + 15) (omega arith) (omega arith) in
        let columns : x + 8 < 2 ^ 32 = omega (arith, corner, holds.small) in
        let some_width = rows_mono 0 fb.ppsl (y + 15) (omega arith) in
        let rows : y + 16 < 2 ^ 32 = grind (arith, corner, some_width, holds.small) in
        let eight : add32 x 8 - x ≡ 8 = omega (arith, columns) in
        let sixteen : add32 y 16 - y ≡ 16 = omega (arith, rows) in
        let drawn : (chr == 0) ≡ false = ground (arith, not_end) in
        rw (drawn, eight, sixteen) (glyph_rows (glyph font chr) x y m out wide high)
