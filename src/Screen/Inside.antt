-- ===== src/Screen/Inside.antt =====
-- Where the terminal's renderer writes.
use red_x_os.Common.{ℕ, ◌+◌, ◌-◌, ◌*◌, ◌/◌, ◌%◌, ◌^◌, ◌≤◌, ◌<◌, ◌≡◌, ◌∙◌, refl, arith}
use red_x_os.Common.{bit_and, ltb, ◌==◌, Bool-cases, inl, inr, add32}
use red_x_os.Common.Bits.{bit_or_split, bit_or-zero, zero-bit_or}
use red_x_os.Common.Ram.{Ram, store32_apart}
use red_x_os.Common.Loops.{for_range, for_range_inv}
use red_x_os.Renderer.{Framebuffer, Font, glyph}
use red_x_os.Renderer.Inside.{SameOutside}
use red_x_os.Screen.{pixel, argb, char_pixel, draw_char, text_place, render}

-- A color is its four bytes.
pub argb_lem :
    (a r g b : ℕ)
    → a < 256
    → r < 256
    → g < 256
    → b < 256
    → argb a r g b ≡ a * 2 ^ 24 + r * 2 ^ 16 + g * 2 ^ 8 + b
unfolding argb
argb_lem a r g b ha hr hg hb = ground (
  arith,
  zero-bit_or b,
  bit_or_split 8 0 b g 0,
  zero-bit_or g,
  bit_or-zero b,
  bit_or_split 16 0 (g * 2 ^ 8 + b) r 0,
  zero-bit_or r,
  bit_or-zero (g * 2 ^ 8 + b),
  bit_or_split 24 0 (r * 2 ^ 16 + g * 2 ^ 8 + b) a 0,
  zero-bit_or a,
  bit_or-zero (r * 2 ^ 16 + g * 2 ^ 8 + b),
)

-- Rows that are no longer than the pitch, in a buffer of whole pixels.
pub record HoldsRows (fb : Framebuffer) : Type 0 where
  pub pitch : fb.width ≤ fb.ppsl
  pub whole : fb.size % 4 ≡ 0

mul_mono : (a b c : ℕ) → a ≤ b → a * c ≤ b * c
mul_mono a b c h = grind arith

mul_mono_right : (a b c : ℕ) → a ≤ b → c * a ≤ c * b
mul_mono_right a b c h = grind arith

block_same :
    (n i p j z : ℕ) (body : ℕ → ℕ → Ram → Ram) (m : Ram)
    → ((k l : ℕ) (t : Ram) → k < i + n → l < j + p → body k l t z ≡ t z)
    → for_range n i (λ k. for_range p j (body k)) m z ≡ m z
block_same n i p j z body m one =
    for_range_inv (λ k t. t z ≡ m z) (λ k. for_range p j (body k)) n i (i + n) m refl
      (λ k t low high same.
        for_range_inv (λ l u. u z ≡ t z) (body k) p j (j + p) t refl
          (λ l u low' high' same'. one k l u high high' ∙ same') refl
        ∙ same)
      refl

module _ (fb : Framebuffer) (h : HoldsRows fb) where
  pixel-SameOutside :
      (x y color : ℕ) (m : Ram)
      → x * 4 + y * fb.ppsl * 4 < 2 ^ 32
      → SameOutside fb m (pixel fb x y color m)
  unfolding pixel
  pixel-SameOutside x y color m small z away = ground (
    arith,
    h.pitch,
    h.whole,
    mul_mono_right fb.width fb.ppsl y h.pitch,
    store32_apart (fb.base_addr + (x + y * fb.width) * 4) color m z,
  )

  char_pixel-SameOutside :
      (row x u color c : ℕ) (m : Ram)
      → c * 4 + u * fb.ppsl * 4 < 2 ^ 32
      → SameOutside fb m (char_pixel fb row x u color c m)
  unfolding char_pixel
  char_pixel-SameOutside row x u color c m small =
      elim (Bool-cases (ltb 0 (bit_and (m row) (128 / 2 ^ (c - x))))) [
        | inl e ↦ rw e (pixel-SameOutside c u color m small)
        | inr e ↦ rw e (λ z away. refl)
      ]

  draw_char-SameOutside :
      (font : Font) (chr x y color : ℕ) (m : Ram)
      → (x + 8) * 4 + (y + 16) * fb.ppsl * 4 ≤ 2 ^ 32
      → SameOutside fb m (draw_char fb font chr x y color m)
  unfolding draw_char
  draw_char-SameOutside font chr x y color m small = elim (Bool-cases (chr == 0)) [
    | inl e ↦ rw e (λ z away. refl)
    | inr e ↦ rw e (λ z away.
        block_same (add32 y 16 - y) y (add32 x 8 - x) x z
          (λ u. char_pixel fb (glyph font chr + (u - y)) x u color) m
          (λ u c t high high'.
            char_pixel-SameOutside (glyph font chr + (u - y)) x u color c t
              (omega (arith, mul_mono u (y + 16) fb.ppsl (omega arith))) z away))
  ]

  text_place-SameOutside :
      (font : Font) (text width y x : ℕ) (m : Ram)
      → (x * 8 + 8) * 4 + (y * 16 + 16) * fb.ppsl * 4 ≤ 2 ^ 32
      → SameOutside fb m (text_place fb font text width y x m)
  unfolding text_place
  text_place-SameOutside font text width y x m small =
      elim (Bool-cases (m (text + (x + y * width)) == 10)) [
        | inl e ↦ rw e (λ z away. refl)
        | inr e ↦ rw e (
            draw_char-SameOutside font (m (text + (x + y * width))) (x * 8) (y * 16) 0xFFFFFFFF m
              small)
      ]

  -- `render` writes nothing outside the double buffer, if the buffer is made of whole pixels, its rows
  -- are no longer than its pitch, and the offsets of the text's places are 32-bit words.
  pub render-SameOutside :
      (font : Font) (text width height : ℕ) (m : Ram)
      → width * 8 * 4 + height * 16 * fb.ppsl * 4 ≤ 2 ^ 32
      → SameOutside fb m (render fb font text width height m)
  unfolding render
  render-SameOutside font text width height m small z away =
      block_same height 0 width 0 z (λ y. text_place fb font text width y) m
        (λ y x t high high'.
          text_place-SameOutside font text width y x t
            (omega (arith, mul_mono (y * 16 + 16) (height * 16) fb.ppsl (omega arith))) z away)
