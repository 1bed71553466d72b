-- ===== src/Cursor/Laws.antt =====
-- The cursor stays on the screen, and the steps to the left and to the right undo one another.
use red_x_os.Common.{ℕ, ◌+◌, ◌-◌, ◌*◌, ◌%◌, ◌^◌, ◌≤◌, ◌<◌, ◌≡◌, ◌⊎◌, ◌≢◌, arith}
use red_x_os.Common.{◌==◌, ==_iff, false, ap, inl, inr, Bool-cases, ◌&&◌, leb, if◌then◌else◌}
use red_x_os.Cursor.{Cursor, reset, up, down, new_line, left, right, back, move}

-- Inside the screen, whose last column and row are words below 2 ^ 31.
pub record OnScreen (c : Cursor) : Type 0 where
  pub column : c.x ≤ c.xm
  pub row : c.y ≤ c.ym
  pub columns : c.xm < 2 ^ 31
  pub rows : c.ym < 2 ^ 31

-- Every operation keeps a cursor that is on the screen there.
pub all-OnScreen :
    (dx dy : ℕ) (c : Cursor)
    → OnScreen c
    → OnScreen (reset c)
      × OnScreen (up c)
      × OnScreen (down c)
      × OnScreen (new_line c)
      × OnScreen (left c)
      × OnScreen (right c)
      × OnScreen (back c)
      × OnScreen (move dx dy c)
unfolding reset up down new_line left right back move
all-OnScreen dx dy c h = (
  ground arith,
  ground arith,
  ground arith,
  ground arith,
  ground arith,
  ground arith,
  ground arith,
  ground arith,
)

-- The place of the cursor, counted in characters from the top left.
abbrev pub place : Cursor → ℕ
place c = c.y * (c.xm + 1) + c.x

rows_mono : (a b w : ℕ) → a ≤ b → a * (w + 1) ≤ b * (w + 1)
rows_mono a b w h = grind arith

next_row : (a w : ℕ) → (a + 1) * (w + 1) ≡ a * (w + 1) + w + 1
next_row a w = omega arith

==_ne : (a b : ℕ) → (a == b) ≡ false → a ≢ b
==_ne a b h = ground arith

-- `right` takes a cursor on the screen one character on, but from the end of the screen back to the
-- start of the last line.
pub place-right :
    (c : Cursor)
    → OnScreen c
    → ((place c < c.ym * (c.xm + 1) + c.xm) × (place (right c) ≡ place c + 1))
      ⊎ ((c.x ≡ c.xm) × (c.y ≡ c.ym) × (place (right c) ≡ c.ym * (c.xm + 1)))
unfolding right down
place-right c h = elim (Bool-cases (c.x == c.xm)) [
  | inr inside ↦ inl (
    omega (arith, rows_mono c.y c.ym c.xm h.row, h.column, ==_ne c.x c.xm inside),
    rw inside (omega (arith, h.column, h.columns)),
  )
  | inl edge ↦ elim (Bool-cases (c.y == c.ym)) [
    | inr above ↦ inl (
      omega (
        arith,
        rows_mono (c.y + 1) c.ym c.xm (omega (arith, h.row, ==_ne c.y c.ym above)),
        next_row c.y c.xm,
        h.column,
      ),
      ground (arith, next_row c.y c.xm, edge, above),
    )
    | inl last ↦ inr (
      (==_iff c.x c.xm).0 edge,
      (==_iff c.y c.ym).0 last,
      rw (edge, last) (omega (arith, ap (λ (y : ℕ). y * (c.xm + 1)) ((==_iff c.y c.ym).0 last))),
    )
  ]
]

-- `left` undoes `right` everywhere on the screen but at its end.
pub left-right : (c : Cursor) → OnScreen c → (c.x ≢ c.xm) ⊎ (c.y ≢ c.ym) → left (right c) ≡ c
unfolding left right
left-right c h ne = ground arith

-- One coordinate after a move by `plus - minus`: a move off the screen is not made.
abbrev pub moved : ℕ → ℕ → ℕ → ℕ → ℕ
moved limit plus minus at =
    if leb minus (at + plus) && leb (at + plus - minus) limit then at + plus - minus else at

-- The 32-bit pattern of `plus - minus`.
abbrev pub pattern_of : ℕ → ℕ → ℕ
pattern_of plus minus = (2 ^ 32 + plus - minus) % 2 ^ 32

-- `move` takes its arguments as signed distances, of parts below 2 ^ 31 either way, though it adds
-- them as unsigned numbers. From a place on the screen each coordinate moves on its own, and only if
-- it stays on the screen.
pub move_lem :
    (right_by left_by down_by up_by : ℕ) (c : Cursor)
    → OnScreen c
    → right_by < 2 ^ 31
    → left_by < 2 ^ 31
    → down_by < 2 ^ 31
    → up_by < 2 ^ 31
    → move (pattern_of right_by left_by) (pattern_of down_by up_by) c
      ≡ record c { x = moved c.xm right_by left_by c.x; y = moved c.ym down_by up_by c.y }
unfolding move
move_lem right_by left_by down_by up_by c h p q r s = ground arith
