-- ===== src/Terminal/Lines.antt =====
-- The end of a line: the text is padded to a whole row.
use red_x_os.Common.Text.{Waits, store8-Waits}
use red_x_os.Common.{
  ℕ, zero, suc, ◌+◌, ◌-◌, ◌%◌, ◌≤◌, ◌<◌, ◌≡◌, ◌≢◌, ◌⊎◌, ◌∙◌, refl, sym, ap, arith, ltb, not, ◌&&◌,
  true, false, ◌==◌, List, [], ◌∷◌, ◌++◌, length, length-append, get_or-append, get_or-append_last,
  inl, inr,
}
use mathlib.Core.List.{append-nil, append_assoc}
use native.Mathlib.Nat.{add-mod, mod-eq_of_lt}
use red_x_os.Common.Ram.{Ram, store8, store8_lem}
use red_x_os.Terminal.{pad, break_line}

abbrev pub spaces : ℕ → List ℕ
spaces zero = []
spaces (suc n) = b' ' ∷ spaces n

length-spaces : (n : ℕ) → length (spaces n) ≡ n
length-spaces zero = refl
length-spaces (suc n) = omega (arith, length-spaces n)

-- The last space.
spaces-last : (n : ℕ) → spaces (suc n) ≡ spaces n ++ b' ' ∷ []
spaces-last zero = refl
spaces-last (suc n) = ap (λ x. b' ' ∷ x) (spaces-last n)

-- In the middle of a row.
inside_row : (ti r width : ℕ) → suc r < width → (ti + suc r) % width ≡ 0 → 0 < ti % width
inside_row ti r width h e =
    let split : (ti % width + suc r) % width ≡ 0 =
      ap (λ x. (ti % width + x) % width) (sym (mod-eq_of_lt h))
      ∙ sym (add-mod ti (suc r) width)
      ∙ e in
    elim (zero_or_more (ti % width)) [
      | inl z ↦
          let plus : suc r ≡ 0 + suc r = omega arith in
          let whole : suc r ≡ 0 =
            sym (mod-eq_of_lt h)
            ∙ ap (λ x. x % width) plus
            ∙ ap (λ x. (x + suc r) % width) (sym z)
            ∙ split in
          absurd (omega (arith, whole))
      | inr more ↦ more
    ]
  where
    zero_or_more : (n : ℕ) → (n ≡ 0) ⊎ (0 < n)
    zero_or_more n = ground arith

pub record Padded (text size r ti : ℕ) (xs : List ℕ) (m : Ram) (out : ℕ × Ram) : Type 0 where
  pub end : out.0 ≡ ti + r
  pub waits : Waits out.1 text size (xs ++ spaces r)
  pub frame : (x : ℕ) → (x < text) ⊎ (text + size ≤ x) → out.1 x ≡ m x

pad-Padded :
    (left r width text size : ℕ) (xs : List ℕ) (m : Ram)
    → r ≤ left
    → r < width
    → (length xs + r) % width ≡ 0
    → length xs + r ≤ size
    → 0 < length xs
    → m (text + length xs - 1) ≢ 10
    → Waits m text size xs
    → Padded text size r (length xs) xs m (pad left width text (length xs) m)
unfolding pad
pad-Padded zero zero width text size xs m enough short row room some_text no_line w = record {
  end = omega arith;
  waits = rw (append-nil xs) w;
  frame = λ x p. refl;
}
pad-Padded zero (suc r) width text size xs m enough short row room some_text no_line w =
    absurd (omega arith)
pad-Padded (suc left) zero width text size xs m enough short row room some_text no_line w =
    let stop : (not (m (text + length xs - 1) == 10) && ltb 0 (length xs % width)) ≡ false =
      ground (arith, row_end) in
    rw (pad, stop) (record { end = omega arith; waits = rw (append-nil xs) w; frame = λ x p. refl })
  where
    row_end : length xs % width ≡ 0
    row_end = ap (λ x. x % width) (omega arith) ∙ row
pad-Padded (suc left) (suc r) width text size xs m enough short row room some_text no_line w =
    let more : (not (m (text + length xs - 1) == 10) && ltb 0 (length xs % width)) ≡ true =
      ground (arith, no_line, inside_row (length xs) r width short row) in
    let m' = store8 (text + length xs) b' ' m in
    let longer : length (xs ++ b' ' ∷ []) ≡ length xs + 1 = length-append xs (b' ' ∷ []) in
    let whole : length (xs ++ b' ' ∷ []) + r ≡ length xs + suc r = omega (arith, longer) in
    let place : text + length (xs ++ b' ' ∷ []) - 1 ≡ text + length xs = omega (arith, longer) in
    let space : m' (text + length xs) ≡ b' ' =
      ground (arith, store8_lem (text + length xs) b' ' m (text + length xs)) in
    let rest : Padded text size r (length (xs ++ b' ' ∷ [])) (xs ++ b' ' ∷ []) m'
        (pad left width text (length (xs ++ b' ' ∷ [])) m') =
      pad-Padded left r width text size (xs ++ b' ' ∷ []) m' (omega arith) (omega arith)
        (ap (λ x. x % width) whole ∙ row) (omega (arith, longer)) (omega (arith, longer))
        (λ e. omega (arith, sym (ap m' place ∙ space) ∙ e))
        (store8-Waits b' ' m text size xs (λ e. omega (arith, e)) (omega arith) w (omega arith)) in
    let next : Padded text size r (length xs + 1) (xs ++ b' ' ∷ []) m'
        (pad left width text (length xs + 1) m') =
      rw longer at rest in
    rw (pad, more)
      (record {
        end = omega (arith, next.end);
        waits = rw (append_assoc xs (b' ' ∷ []) (spaces r)) at next.waits;
        frame = λ x p. next.frame x p ∙ ground (arith, store8_lem (text + length xs) b' ' m x);
      })

-- The last character of a text is another.
relast-Waits :
    (c d : ℕ) (m : Ram) (a size : ℕ) (xs : List ℕ)
    → d ≢ 0
    → d < 256
    → Waits m a size (xs ++ c ∷ [])
    → Waits (store8 (a + length xs) d m) a size (xs ++ d ∷ [])
relast-Waits c d m a size xs ne small w =
    let l = length-append xs (c ∷ []) in
    let l' = length-append xs (d ∷ []) in
    record {
      fits = omega (arith, l, l', w.fits);
      chars = λ i p. ground (
        arith,
        l,
        l',
        store8_lem (a + length xs) d m (a + i),
        w.chars i,
        get_or-append xs i c 0,
        get_or-append xs i d 0,
        get_or-append_last xs d 0,
      );
      nonzero = λ i p. ground (arith, l, l', store8_lem (a + length xs) d m (a + i), w.nonzero i);
      zeros = λ i p q. ground (arith, l, l', store8_lem (a + length xs) d m (a + i), w.zeros i);
    }

-- A text that ends within a row, `r + 1` places before the row's end, is padded with spaces up to the row's
-- last place, where the newline stands, if the text does not end in a newline and the row fits. Memory
-- outside the text stays.
pub break_line-Waits :
    (r width text size : ℕ) (xs : List ℕ) (m : Ram)
    → suc r < width
    → (length xs + suc r) % width ≡ 0
    → length xs + suc r ≤ size
    → 0 < length xs
    → m (text + length xs - 1) ≢ 10
    → Waits m text size xs
    → Waits (break_line width text (length xs) m) text size ((xs ++ spaces r) ++ 10 ∷ [])
      × (length ((xs ++ spaces r) ++ 10 ∷ []) % width ≡ 0)
      × ((x : ℕ) → (x < text) ⊎ (text + size ≤ x) → break_line width text (length xs) m x ≡ m x)
unfolding break_line
break_line-Waits r width text size xs m short row room some_text no_line w =
    let q =
      pad-Padded width (suc r) width text size xs m (omega arith) short row room some_text no_line
        w in
    let padded = (pad width width text (length xs) m).1 in
    let body = length-append xs (spaces r) in
    let count = length-append (xs ++ spaces r) (10 ∷ []) in
    let place : text + (length xs + suc r) - 1 ≡ text + length (xs ++ spaces r) =
      omega (arith, body, length-spaces r) in
    let text_is : xs ++ spaces (suc r) ≡ (xs ++ spaces r) ++ b' ' ∷ [] =
      ap (λ x. xs ++ x) (spaces-last r) ∙ sym (append_assoc xs (spaces r) (b' ' ∷ [])) in
    let all : length ((xs ++ spaces r) ++ 10 ∷ []) ≡ length xs + suc r =
      omega (arith, count, body, length-spaces r) in
    rw (q.end, place)
      (
        relast-Waits b' ' 10 padded text size (xs ++ spaces r) (λ e. omega (arith, e)) (omega arith)
            (rw text_is at q.waits),
        ap (λ x. x % width) all ∙ row,
        λ x p.
            ground (
              arith,
              store8_lem (text + length (xs ++ spaces r)) 10 padded x,
              body,
              length-spaces r,
            )
            ∙ q.frame x p,
      )
