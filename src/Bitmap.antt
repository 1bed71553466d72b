-- ===== src/Bitmap.antt =====
-- kernel/src/libs/math.h and math.cpp: the class `bitmap`, one bit for each page, over bytes that
-- stand in memory at `buffer`.
pub mod Byte
pub mod Laws
use red_x_os.Common.{ℕ, ◌+◌, ◌*◌, ◌/◌, ◌%◌, ◌^◌, Bool, true, false, ltb, if◌then◌else◌, u64}
use red_x_os.Common.{bit_and, bit_or, bit_xor}
use red_x_os.Common.Ram.{Ram, store8}

pub record Bitmap : Type 0 where
  pub size : ℕ
  pub buffer : ℕ

-- `bitIndexer`: the mask of bit `bitIndex`, counted from the top of the byte.
pub bit_indexer : ℕ → ℕ
bit_indexer bit_index = 128 / 2 ^ bit_index

-- The two updates of a byte in `bitmap::set`. `~bitIndexer` is cut to eight bits by the store.
unfoldable pub byte_clear : ℕ → ℕ → ℕ
unfolding bit_indexer
byte_clear byte bit_index = bit_and byte (bit_xor 255 (bit_indexer bit_index))

unfoldable pub byte_raise : ℕ → ℕ → ℕ
unfolding bit_indexer
byte_raise byte bit_index = bit_or byte (bit_indexer bit_index)

-- The test of a byte in `bitmap::operator[]`.
unfoldable pub byte_test : ℕ → ℕ → Bool
unfolding bit_indexer
byte_test byte bit_index = if ltb 0 (bit_and byte (bit_indexer bit_index)) then true else false

-- `bitmap::operator[]`. An index past the end reads as false; the index `size * 8` itself passes
-- the guard.
unfoldable pub test : Bitmap → Ram → ℕ → Bool
test b m index =
    if ltb (u64 (b.size * 8)) index then false else byte_test (m (b.buffer + index / 8)) (index % 8)

-- `bitmap::set`: whether the index passed the guard, and memory after the two writes.
unfoldable pub set : Bitmap → ℕ → Bool → Ram → Bool × Ram
set b index value m =
    if ltb (u64 (b.size * 8)) index
    then (false, m)
    else let at = b.buffer + index / 8 in
      let cleared = store8 at (byte_clear (m at) (index % 8)) m in
      (true, if value then store8 at (byte_raise (cleared at) (index % 8)) cleared else cleared)
