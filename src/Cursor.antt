-- ===== src/Cursor.antt =====
-- kernel/src/basicRenderer.h and basicRenderer.cpp: the text cursor, which the mouse uses too.
-- Every field is an `unsigned int`.
pub mod Laws
mod Tests
use red_x_os.Common.{ℕ, ◌+◌, ◌-◌, ◌%◌, ◌^◌, Bool, not, ◌&&◌}
use red_x_os.Common.{leb, ◌==◌, if◌then◌else◌, add32, sub32}

pub record Cursor : Type 0 where
  pub x : ℕ
  pub y : ℕ
  pub xm : ℕ
  pub ym : ℕ

pub reset : Cursor → Cursor
reset c = record c { x = 0; y = 0 }

pub up : Cursor → Cursor
up c = if c.y == 0 then c else record c { y = sub32 c.y 1 }

pub down : Cursor → Cursor
down c = if c.y == c.ym then c else record c { y = add32 c.y 1 }

pub new_line : Cursor → Cursor
unfolding down
new_line c = if leb c.y c.ym then down (record c { x = 0 }) else c

pub left : Cursor → Cursor
unfolding up
left c =
    if c.x == 0 then (let c' = up c in record c' { x = c'.xm }) else record c { x = sub32 c.x 1 }

pub right : Cursor → Cursor
unfolding down
right c =
    if c.x == c.xm then (let c' = down c in record c' { x = 0 }) else record c { x = add32 c.x 1 }

pub back : Cursor → Cursor
unfolding left up
back c = if c.x == 0 then (if c.y == 0 then c else up c) else left c

-- `this->x + x >= 0` holds of every unsigned number.
unfoldable pub move : ℕ → ℕ → Cursor → Cursor
move x y c =
    let c' =
      if leb (add32 c.x x) c.xm && leb 0 (add32 c.x x) then record c { x = add32 c.x x } else c in
    if leb (add32 c'.y y) c'.ym && leb 0 (add32 c'.y y) then record c' { y = add32 c'.y y } else c'
