-- ===== src/Ports.antt =====
-- kernel/src/hid/io.h and io.cpp: the `in` and `out` instructions. What answers at the ports is a
-- parameter: a state and what reads and writes do to it.
use red_x_os.Common.{ℕ, u8}

pub record Ports (D : Type 0) : Type 0 where
  pub read : ℕ → D → ℕ × D
  pub write : ℕ → ℕ → D → D

unfoldable pub outb : {D : Type 0} → Ports D → ℕ → ℕ → D → D
outb p port byte d = p.write port (u8 byte) d

unfoldable pub inb : {D : Type 0} → Ports D → ℕ → D → ℕ × D
inb p port d = let (byte, d') = p.read port d in (u8 byte, d')

unfoldable pub io_wait : {D : Type 0} → Ports D → D → D
io_wait p d = p.write 0x80 0 d
