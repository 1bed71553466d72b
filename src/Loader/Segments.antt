-- ===== src/Loader/Segments.antt =====
-- The kernel's program headers in `efi_main`, and the segments that are loaded by them.
use red_x_os.Common.{ℕ, zero, suc, ◌+◌, ◌*◌, ◌/◌, ◌==◌, ltb, true, false, add64, sub64}
use red_x_os.Common.Ram.{load32, load64}
use red_x_os.Loader.{Act, ◌>>=◌, ◌>>◌, give, peek, Firmware, as_int}
use red_x_os.Loader.Elf.{Ehdr}

abbrev pub pt_load : ℕ
pt_load = 1

-- `int pages`
abbrev pub segment_pages : ℕ → ℕ
segment_pages memsz = as_int (sub64 (add64 memsz 0x1000) 1 / 0x1000)

-- One `PT_LOAD` entry: its pages are allocated, and its bytes of the file read to them.
unfoldable pub load_segment : {F : Type 0} → Firmware F → ℕ → ℕ → Act F (Unit {0})
load_segment f kernel phdr = do
  memsz ← peek load64 (phdr + 40)
  paddr ← peek load64 (phdr + 24)
  segment ← f.allocate_pages_at (segment_pages memsz) paddr
  offset ← peek load64 (phdr + 8)
  f.set_position kernel offset
  size ← peek load64 (phdr + 32)
  f.read kernel size segment

unfoldable pub load_entry : {F : Type 0} → Firmware F → ℕ → ℕ → Act F (Unit {0})
load_entry f kernel phdr = do
  p_type ← peek load32 phdr
  elim (p_type == pt_load) [ true ↦ load_segment f kernel phdr | false ↦ give tt ]

-- `header.e_phnum * header.e_phentsize`, a product of two `int`s.
abbrev pub table_size : Ehdr → ℕ
table_size header = as_int (header.e_phnum * header.e_phentsize)

-- The loop, with at most `left` rounds, from `phdr` on: where it stops.
unfoldable pub segments_loop : {F : Type 0} → Firmware F → ℕ → ℕ → ℕ → ℕ → ℕ → Act F ℕ
segments_loop f kernel entsize limit phdr zero = give phdr
segments_loop f kernel entsize limit phdr (suc left) = elim (ltb phdr limit) [
  | true ↦ (do
    load_entry f kernel phdr
    segments_loop f kernel entsize limit (add64 phdr entsize) left)
  | false ↦ give phdr
]

-- The table of program headers is read, and the loop run on it.
unfoldable pub load_segments : {F : Type 0} → Firmware F → ℕ → Ehdr → Act F ℕ
load_segments f kernel header = do
  f.set_position kernel header.e_phoff
  phdrs ← f.allocate_pool (table_size header)
  f.read kernel (table_size header) phdrs
  segments_loop f kernel header.e_phentsize (add64 phdrs (table_size header)) phdrs header.e_phnum
