-- ===== src/Kernel/OwnRanges.antt =====
-- The ranges of pages that `memoryInit` maps to themselves, and one loop over such a range.
use red_x_os.Common.{
  ℕ, zero, suc, ◌+◌, ◌/◌, ◌^◌, ◌≤◌, ◌<◌, ◌≡◌, refl, Bool, ◌==◌, ◌||◌, ltb, add64, inl, inr,
  Bool-cases,
}
use red_x_os.Bitmap.{Bitmap}
use red_x_os.Paging.Tree.{Tree}
use red_x_os.Paging.Console.{Clear}
use red_x_os.Paging.Identity.{page_number}
use red_x_os.Kernel.{Kernel, KernelParameters}
use red_x_os.Kernel.Pool.{map_at}
use red_x_os.Kernel.Memory.{map_loop, map_range}
use red_x_os.Kernel.Identity.{tables_of, in_range}
use red_x_os.Kernel.Room.{MapsFew, RoomFor, regions, map_range-MapsFew}

-- The five ranges with the pages behind them, and the five single pages.
abbrev pub in_ranges : ℕ → ℕ → KernelParameters → Bitmap → ℕ → Bool
in_ranges start size p b q =
    in_range start (start + size + 4096) q
    || in_range p.stack (p.stack + p.stack_size + 4096) q
    || in_range p.page_directory_address (p.page_directory_address + p.page_directory_size) q
    || in_range b.buffer (b.buffer + b.size + 4096) q
    || in_range p.buffer.base_addr (p.buffer.base_addr + p.buffer.size + 4096) q

abbrev pub in_singles : KernelParameters → ℕ → Bool
in_singles p q =
    q == page_number p.at
    || (q == page_number p.buffer_at)
    || (q == page_number p.font_at)
    || (q == page_number p.font.buffer)
    || (q == page_number p.font_header)

-- The stretches of two megabytes in the five ranges, and the five single pages.
abbrev pub stretches_of : ℕ → ℕ → KernelParameters → Bitmap → ℕ
stretches_of start size p b =
    regions start (start + size + 4096)
    + regions p.stack (p.stack + p.stack_size + 4096)
    + regions p.page_directory_address (p.page_directory_address + p.page_directory_size)
    + regions b.buffer (b.buffer + b.size + 4096)
    + regions p.buffer.base_addr (p.buffer.base_addr + p.buffer.size + 4096)
    + 5

-- The ranges end, and the single pages stand, below 2 ^ 40.
pub record Low (start size : ℕ) (p : KernelParameters) (b : Bitmap) : Type 0 where
  pub kernel : start + size + 4096 ≤ 2 ^ 40
  pub stack : p.stack + p.stack_size + 4096 ≤ 2 ^ 40
  pub directory : p.page_directory_address + p.page_directory_size ≤ 2 ^ 40
  pub bitmap : b.buffer + b.size + 4096 ≤ 2 ^ 40
  pub framebuffer : p.buffer.base_addr + p.buffer.size + 4096 ≤ 2 ^ 40
  pub parameters : p.at < 2 ^ 40
  pub buffer : p.buffer_at < 2 ^ 40
  pub font : p.font_at < 2 ^ 40
  pub glyphs : p.font.buffer < 2 ^ 40
  pub font_header : p.font_header < 2 ^ 40

module _ {D : Type 0} where
  -- The loops change the tables, memory and the renderer, and no other part of the kernel.
  abbrev pub retabled : Kernel D → Kernel D → Kernel D
  retabled k k' = record k { tables = k'.tables; ram = k'.ram; basic_render = k'.basic_render }

  map_loop-retabled :
      (left i limit : ℕ) (k : Kernel D)
      → map_loop left i limit k ≡ retabled k (map_loop left i limit k)
  unfolding map_loop map_at
  map_loop-retabled zero i limit k = refl
  map_loop-retabled (suc left) i limit k = elim (Bool-cases (ltb i limit)) [
    | inl e ↦ rw (map_loop, e) (map_loop-retabled left (add64 i 0x1000) limit (map_at i i k))
    | inr e ↦ rw (map_loop, e) refl
  ]

  pub map_range-retabled :
      (first limit : ℕ) (k : Kernel D)
      → map_range first limit k ≡ retabled k (map_range first limit k)
  unfolding map_range
  map_range-retabled first limit k = map_loop-retabled (limit / 0x1000 + 1) first limit k

  pub range_step :
      (first limit limit' : ℕ) (k : Kernel D)
      → Tree (tables_of k)
      → Clear (tables_of k)
      → limit ≡ limit'
      → limit' ≤ 2 ^ 40
      → RoomFor (regions first limit') (tables_of k)
      → MapsFew
          (in_range first limit')
          (regions first limit')
          (tables_of k)
          (tables_of (map_range first limit k))
  range_step first limit limit' k t c same small room =
      rw same (map_range-MapsFew first limit' k t c small room)
