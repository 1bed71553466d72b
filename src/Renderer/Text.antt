-- ===== src/Renderer/Text.antt =====
-- Where a printed string leaves the cursor.
use red_x_os.Common.{ℕ, zero, suc, ◌+◌, ◌<◌, ◌≡◌, refl, ap, List, [], ◌∷◌, arith}
use red_x_os.Common.{
  ltb, leb, Bool-cases, inl, inr, u8, ◌%◌, ◌∙◌, if◌then◌else◌, false, length, sub32,
}
use red_x_os.Cursor.{Cursor, right, new_line}
use red_x_os.Cursor.Laws.{OnScreen, all-OnScreen}
use red_x_os.Renderer.{BasicRenderer, wrap, print_char, print_string, length8, print}

-- So many steps to the right.
pub rights : ℕ → Cursor → Cursor
rights zero c = c
rights (suc n) c = rights n (right c)

wrap_inside : (c : Cursor) → OnScreen c → wrap c ≡ c
wrap_inside c h = let inside : ltb c.xm c.x ≡ false = ground (arith, h.column) in rw inside refl

right-OnScreen : (c : Cursor) → OnScreen c → OnScreen (right c)
right-OnScreen c h = (all-OnScreen 0 0 c h).5

print_char_cur :
    (chr color : ℕ) (r : BasicRenderer)
    → OnScreen r.cur
    → (print_char chr color (record r { cur = wrap r.cur })).cur ≡ right r.cur
unfolding print_char
print_char_cur chr color r h =
    let twice : wrap (wrap r.cur) ≡ r.cur =
      ap (λ c. wrap c) (wrap_inside r.cur h) ∙ wrap_inside r.cur h in
    ap right twice

-- `printString` takes a cursor that is on the screen to the right once for each character.
pub print_string_cur :
    (str : List ℕ) (color : ℕ) (r : BasicRenderer)
    → OnScreen r.cur
    → (print_string str color r).cur ≡ rights (length str) r.cur
unfolding print_string rights
print_string_cur [] color r h = refl
print_string_cur (chr ∷ str) color r h =
    let step = print_char_cur chr color r h in
    let there : OnScreen (print_char chr color (record r { cur = wrap r.cur })).cur =
      rw step (right-OnScreen r.cur h) in
    print_string_cur str color (print_char chr color (record r { cur = wrap r.cur })) there
    ∙ ap (rights (length str)) step

length8_lem : (str : List ℕ) (n : ℕ) → n < 256 → length8 str n ≡ (n + length str) % 256
unfolding length8
length8_lem [] n h = omega arith
length8_lem (chr ∷ str) n h = omega (arith, length8_lem str (u8 (n + 1)) (omega arith))

abbrev pub line_start : ℕ → Cursor → Cursor
line_start n c = if leb (c.x + n) c.xm then c else new_line c

line_start-OnScreen : (n : ℕ) (c : Cursor) → OnScreen c → OnScreen (line_start n c)
line_start-OnScreen n c h =
    let next = (all-OnScreen 0 0 c h).3 in
    elim (Bool-cases (leb (c.x + n) c.xm)) [ inl fits ↦ rw fits h | inr long ↦ rw long next ]

start_lem :
    (str : List ℕ) (c : Cursor)
    → OnScreen c
    → length str < 256
    → (if ltb (sub32 c.xm c.x) (length8 str 0) then new_line c else c) ≡ line_start (length str) c
start_lem str c h short =
    let counted : length8 str 0 ≡ length str = omega (arith, length8_lem str 0) in
    rw counted (elim (Bool-cases (leb (c.x + length str) c.xm)) [
      | inl fits ↦ ground (arith, h.column, h.columns)
      | inr long ↦ ground (arith, h.column, h.columns)
    ])

-- `print`, of a string of fewer than 256 characters with the cursor on the screen: if the string
-- reaches past the last column, a new line begins; then the cursor goes to the right once for each
-- character.
pub print_cur :
    (str : List ℕ) (color : ℕ) (r : BasicRenderer)
    → OnScreen r.cur
    → length str < 256
    → (print str color r).cur ≡ rights (length str) (line_start (length str) r.cur)
unfolding print
print_cur str color r h short =
    let start = start_lem str r.cur h short in
    print_string_cur str color
      (record r {
        cur = if ltb (sub32 r.cur.xm r.cur.x) (length8 str 0) then new_line r.cur else r.cur;
      })
      (rw start (line_start-OnScreen (length str) r.cur h))
    ∙ ap (rights (length str)) start
