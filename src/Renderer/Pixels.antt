-- ===== src/Renderer/Pixels.antt =====
-- Which pixels a function sets, and that it leaves the others.
use red_x_os.Common.{ℕ, ◌+◌, ◌-◌, ◌*◌, ◌^◌, ◌≤◌, ◌<◌, ◌≡◌, ◌⊎◌, refl, ap, arith}
use red_x_os.Common.{◌&&◌, leb, ltb, ◌==◌, if◌then◌else◌, inl, inr, u32}
use red_x_os.Common.Ram.{Ram, load32, store32, load32-store32, load32-store32_apart}
use red_x_os.Common.Loops.{for_range, for_range_inv}
use red_x_os.Renderer.{Framebuffer, plot_at, plot_pixel, rect, fill}

-- The buffer holds all rows, and its offsets are 32-bit words.
pub record HoldsRows (fb : Framebuffer) : Type 0 where
  pub rows : fb.height * fb.ppsl * 4 ≤ fb.size
  pub small : fb.size < 2 ^ 32

abbrev pub pixel : Framebuffer → Ram → ℕ → ℕ → ℕ
pixel fb m x y = load32 m (fb.base_addr + (x * 4 + y * fb.ppsl * 4))

pub rows_mono : (a b p : ℕ) → a < b → a * p + p ≤ b * p
rows_mono a b p h = grind arith

module _ (fb : Framebuffer) (holds : HoldsRows fb) (x y : ℕ) (hx : x < fb.ppsl)
    (hy : y < fb.height) where
  pub in_buffer : x * 4 + y * fb.ppsl * 4 + 4 ≤ fb.size
  in_buffer = omega (arith, holds.rows, rows_mono y fb.height fb.ppsl hy)

  offset : u32 (x * 4 + y * fb.ppsl * 4) ≡ x * 4 + y * fb.ppsl * 4
  offset = omega (arith, in_buffer, holds.small)

  plot_stores :
      (color : ℕ) (m : Ram)
      → plot_pixel fb x y color m ≡ store32 (fb.base_addr + (x * 4 + y * fb.ppsl * 4)) color m
  unfolding plot_pixel plot_at
  plot_stores color m = ground (arith, offset, in_buffer)

store_or_apart :
    (a b v : ℕ) (m : Ram)
    → v < 2 ^ 32
    → (a ≡ b) ⊎ ((b + 4 ≤ a) ⊎ (a + 4 ≤ b))
    → load32 (store32 a v m) b ≡ (if a == b then v else load32 m b)
store_or_apart a b v m h (inl e) =
    ground (arith, load32-store32 a v m, ap (load32 (store32 a v m)) e)
store_or_apart a b v m h (inr d) = ground (arith, load32-store32_apart a b v m d)

-- Two pixels of the grid that are not one are four bytes apart.
pixels_apart :
    (p x y x' y' : ℕ)
    → x < p
    → x' < p
    → (x ≡ x' × y ≡ y')
      ⊎ ((x' * 4 + y' * p * 4 + 4 ≤ x * 4 + y * p * 4)
          ⊎ (x * 4 + y * p * 4 + 4 ≤ x' * 4 + y' * p * 4))
pixels_apart p x y x' y' hx hx' = ground (arith, rows_mono y y' p, rows_mono y' y p)

module _ (fb : Framebuffer) (holds : HoldsRows fb) (color : ℕ) (word : color < 2 ^ 32) where
  -- `plotPixel` at a place of the grid sets that pixel and no other, to a 32-bit color, in a buffer that
  -- holds its rows and whose offsets are 32-bit words.
  pub pixel-plot_pixel :
      (x y x' y' : ℕ) (m : Ram)
      → x < fb.ppsl
      → y < fb.height
      → x' < fb.ppsl
      → y' < fb.height
      → pixel fb (plot_pixel fb x y color m) x' y'
        ≡ (if x == x' && (y == y') then color else pixel fb m x' y')
  pixel-plot_pixel x y x' y' m hx hy hx' hy' = ground (
    arith,
    ap (λ m'. pixel fb m' x' y') (plot_stores fb holds x y hx hy color m),
    store_or_apart (fb.base_addr + (x * 4 + y * fb.ppsl * 4))
        (fb.base_addr + (x' * 4 + y' * fb.ppsl * 4)) color m word,
    pixels_apart fb.ppsl x y x' y' hx hx',
  )

  module _ (x' y' : ℕ) (hx' : x' < fb.ppsl) (hy' : y' < fb.height) where
    column_pixel :
        (x y n : ℕ) (m : Ram)
        → x < fb.ppsl
        → y + n ≤ fb.height
        → pixel fb (for_range n y (λ v. plot_pixel fb x v color) m) x' y'
          ≡ (if x == x' && (leb y y' && ltb y' (y + n)) then color else pixel fb m x' y')
    column_pixel x y n m hx fits =
        for_range_inv
          (λ k t.
            pixel fb t x' y'
            ≡ (if x == x' && (leb y y' && ltb y' k) then color else pixel fb m x' y'))
          (λ v. plot_pixel fb x v color) n y (y + n) m refl
          (λ k t low high kept.
            ground (arith, pixel-plot_pixel x k x' y' t hx (omega arith) hx' hy'))
          (ground arith)

    block_pixel :
        (x w y n : ℕ) (m : Ram)
        → x + w ≤ fb.ppsl
        → y + n ≤ fb.height
        → pixel fb (for_range w x (λ u m'. for_range n y (λ v. plot_pixel fb u v color) m') m) x' y'
          ≡ (if (leb x x' && ltb x' (x + w)) && (leb y y' && ltb y' (y + n))
              then color
              else pixel fb m x' y')
    block_pixel x w y n m wide high =
        for_range_inv
          (λ k t. pixel fb t x' y' ≡ (
            if (leb x x' && ltb x' k) && (leb y y' && ltb y' (y + n))
            then color
            else pixel fb m x' y'))
          (λ u m'. for_range n y (λ v. plot_pixel fb u v color) m') w x (x + w) m refl
          (λ k t low below kept. ground (arith, column_pixel k y n t (omega arith) high))
          (ground arith)

    -- `rect` sets the pixels from one corner of the grid to the other, both included, and no others,
    -- to a 32-bit color, in a buffer that holds its rows and whose offsets are 32-bit words.
    pub pixel-rect :
        (x1 y1 x2 y2 : ℕ) (m : Ram)
        → x2 < fb.ppsl
        → y2 < fb.height
        → x1 ≤ x2
        → y1 ≤ y2
        → pixel fb (rect fb x1 y1 x2 y2 color m) x' y' ≡ (
            if (leb x1 x' && leb x' x2) && (leb y1 y' && leb y' y2)
            then color
            else pixel fb m x' y')
    unfolding rect
    pixel-rect x1 y1 x2 y2 m wide high hx hy =
        ground (arith, block_pixel x1 (x2 + 1 - x1) y1 (y2 + 1 - y1) m (omega arith) (omega arith))

    -- `fill` sets every pixel of the visible part of each row, and no others, to a 32-bit color, in a
    -- buffer that holds its rows, none longer than its pitch, and whose offsets are 32-bit words.
    pub pixel-fill :
        (m : Ram)
        → fb.width ≤ fb.ppsl
        → pixel fb (fill fb color m) x' y' ≡ (if ltb x' fb.width then color else pixel fb m x' y')
    unfolding fill
    pixel-fill m wide =
        ground (arith, block_pixel 0 fb.width 0 fb.height m (omega arith) (omega arith))
