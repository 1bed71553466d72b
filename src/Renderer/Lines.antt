-- ===== src/Renderer/Lines.antt =====
-- The loop of `drawLine`: its counter is a double, and counts like a whole number.
use red_x_os.Common.{
  ℕ, zero, suc, ◌+◌, ◌*◌, ◌^◌, ◌≤◌, ◌<◌, ◌≡◌, refl, ap, ◌∙◌, arith, ltb, true, false, sub32,
}
use native.Mathlib.Decide.{dec_lt}
use native.Mathlib.Nat.{mul-lt-mul_of_pos_right, mul-le-mul_right}
use red_x_os.Common.Ram.{Ram}
use red_x_os.Common.Loops.{for_range}
use red_x_os.Doubles.{Double, finite, one, of_unsigned, less, add, add_finite}
use red_x_os.Doubles.Exact.{part, one_pos, rounded_lem}
use red_x_os.Renderer.{Framebuffer, line_pixel, line_loop, line_rounds, draw_line}

part-zero : part 0 ≡ one
unfolding part one
part-zero = refl

count_up : (k : ℕ) → k < 2 ^ 32 → add (of_unsigned k) (of_unsigned 1) ≡ of_unsigned (k + 1)
unfolding add of_unsigned add_finite
count_up k h =
    rounded_lem 0 (omega arith) false (k * one + 1 * one) 1 (k + 1) (omega arith)
      (grind (arith, part-zero)) (omega arith)
    ∙ ap (λ x. finite false ((k + 1) * x)) part-zero

less-ltb : (k n : ℕ) → less (of_unsigned k) (of_unsigned n) ≡ ltb k n
unfolding less of_unsigned
less-ltb k n = elim (dec_lt k n) [
  | yes p ↦ ground (arith, mul-lt-mul_of_pos_right p one_pos)
  | no p ↦ ground (arith, mul-le-mul_right {m = n} {n = k} one (omega arith))
]

line_loop-for_range :
    (rounds left first n : ℕ) (round : Double → Ram → Ram) (m : Ram)
    → left ≤ rounds
    → first + left ≡ n
    → n < 2 ^ 32
    → line_loop rounds n round (of_unsigned first) m
      ≡ for_range left first (λ i. round (of_unsigned i)) m
unfolding line_loop for_range
line_loop-for_range zero zero first n round m enough e small = refl
line_loop-for_range zero (suc left) first n round m enough e small = absurd (omega arith)
line_loop-for_range (suc rounds) zero first n round m enough e small =
    let done : less (of_unsigned first) (of_unsigned n) ≡ false = less-ltb first n ∙ ground arith in
    rw (line_loop, done) refl
line_loop-for_range (suc rounds) (suc left) first n round m enough e small =
    let more : less (of_unsigned first) (of_unsigned n) ≡ true = less-ltb first n ∙ ground arith in
    rw (line_loop, more, count_up first (omega arith))
      (line_loop-for_range rounds left (first + 1) n round (round (of_unsigned first) m)
        (omega arith) (omega arith) small)

rounds-lt : (a b : ℕ) → line_rounds a b < 2 ^ 32
unfolding line_rounds
rounds-lt a b = omega arith

-- The loop of `drawLine`, whose counter is a double, ends: it has twice as many rounds as the line's length
-- says, with the counter at each whole number from 0 on.
pub draw_line-for_range :
    (fb : Framebuffer) (x1 y1 x2 y2 color : ℕ) (m : Ram)
    → let a = sub32 y2 y1 in
      let b = sub32 x2 x1 in
      let n = line_rounds a b in
      draw_line fb x1 y1 x2 y2 color m
      ≡ for_range n 0 (λ i. line_pixel fb x1 y1 a b n color (of_unsigned i)) m
unfolding draw_line
draw_line-for_range fb x1 y1 x2 y2 color m =
    let a = sub32 y2 y1 in
    let b = sub32 x2 x1 in
    let n = line_rounds a b in
    let small : n < 2 ^ 32 = rounds-lt a b in
    line_loop-for_range (2 ^ 32) n 0 n (line_pixel fb x1 y1 a b n color) m (omega arith)
      (omega arith) small
