-- ===== src/Bitmap/Laws.antt =====
-- `set` against `operator[]`.
use red_x_os.Common.{ℕ, ◌+◌, ◌*◌, ◌/◌, ◌%◌, ◌^◌, ◌≤◌, ◌<◌, ◌≡◌, arith, Bool}
use red_x_os.Common.{◌&&◌, leb, ◌==◌, if◌then◌else◌}
use red_x_os.Common.Ram.{Ram, HoldsBytes, store8, store8_lem, store8-HoldsBytes}
use red_x_os.Bitmap.{Bitmap, byte_clear, byte_raise, test, set}
use red_x_os.Bitmap.Byte.{byte_test-clear, byte_test-raise, byte_bounds}

-- Memory after `set`: one byte is new, on an index that passes the guard.
pub set-byte :
    (b : Bitmap) (i : ℕ) (v : Bool) (m : Ram) (x : ℕ)
    → HoldsBytes m
    → b.size * 8 < 2 ^ 64
    → (set b i v m).1 x ≡ (
        if leb i (b.size * 8) && (b.buffer + i / 8 == x)
        then (if v then byte_raise (byte_clear (m x) (i % 8)) (i % 8) else byte_clear (m x) (i % 8))
        else m x)
unfolding set
set-byte b i v m x bytes small = ground (
  arith,
  bytes x,
  bytes (b.buffer + i / 8),
  byte_bounds (m (b.buffer + i / 8)) (i % 8) 0,
  store8_lem at (byte_clear (m at) (i % 8)) m x,
  store8_lem at (byte_clear (m at) (i % 8)) m at,
  store8_lem at (byte_raise (cleared at) (i % 8)) cleared x,
)
  where
    at : ℕ
    at = b.buffer + i / 8

    cleared : Ram
    cleared = store8 at (byte_clear (m at) (i % 8)) m

pub set-HoldsBytes :
    (b : Bitmap) (i : ℕ) (v : Bool) (m : Ram) → HoldsBytes m → HoldsBytes (set b i v m).1
unfolding set
set-HoldsBytes b i v m h x = ground (
  arith,
  h x,
  store8-HoldsBytes at (byte_clear (m at) (i % 8)) m h x,
  store8-HoldsBytes at (byte_raise (cleared at) (i % 8)) cleared
      (store8-HoldsBytes at (byte_clear (m at) (i % 8)) m h) x,
)
  where
    at : ℕ
    at = b.buffer + i / 8

    cleared : Ram
    cleared = store8 at (byte_clear (m at) (i % 8)) m

-- After `set i v` an index up to `size * 8` reads as `v` if it is `i` and as before if it is not.
-- Memory holds bytes, and `size * 8` is a 64-bit word.
pub test-set :
    (b : Bitmap) (i j : ℕ) (v : Bool) (m : Ram)
    → HoldsBytes m
    → b.size * 8 < 2 ^ 64
    → j ≤ b.size * 8
    → test b (set b i v m).1 j ≡ (if i == j then v else test b m j)
unfolding test
test-set b i j v m bytes small hj = ground (
  arith,
  set-byte b i v m (b.buffer + j / 8) bytes small,
  byte_test-clear (m (b.buffer + j / 8)) (i % 8) (j % 8) (bytes (b.buffer + j / 8)),
  byte_test-raise (m (b.buffer + j / 8)) (i % 8) (j % 8) (bytes (b.buffer + j / 8)),
)
