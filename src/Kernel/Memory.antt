-- ===== src/Kernel/Memory.antt =====
-- `memoryInit`
use red_x_os.Common.{ℕ, zero, suc, ◌+◌, ◌/◌, ltb, true, false, add64, sub64}
use red_x_os.Allocator.{Allocator, read_map, lock, locks, get_memory_size, page_align}
use red_x_os.Paging.{init}
use red_x_os.Kernel.{Kernel, KernelParameters, allocating, tabling}
use red_x_os.Kernel.Pool.{map_at}

-- for (i = first; i < limit; i += 0x1000) map(i, i), with at most `left` rounds.
unfoldable pub map_loop : {D : Type 0} → ℕ → ℕ → ℕ → Kernel D → Kernel D
map_loop zero i limit k = k
map_loop (suc left) i limit k = elim (ltb i limit) [
  | true ↦ map_loop left (add64 i 0x1000) limit (map_at i i k)
  | false ↦ k
]

-- As many rounds as there are pages below `limit`.
unfoldable pub map_range : {D : Type 0} → ℕ → ℕ → Kernel D → Kernel D
map_range first limit k = map_loop (limit / 0x1000 + 1) first limit k

-- `allocator = pageAllocator()`, and `readMap`.
unfoldable pub read_firmware_map : {D : Type 0} → KernelParameters → Kernel D → Kernel D
read_firmware_map p k =
    allocating
      (λ a.
        read_map p.map p.map_size p.desc_size
          (record a { bitmap = record { size = 0; buffer = 0 } }))
      k

-- The locks of what is in use already: the kernel from `_KernelStart` to `_KernelEnd`, its stack, the
-- page directory, the frame buffer and the parameters.
unfoldable pub lock_own : ℕ → ℕ → KernelParameters → Allocator → Allocator
lock_own kernel_start kernel_size p a0 =
    let kernel_pages = add64 (kernel_size / 0x1000) 1 in
    let a1 = locks kernel_start (add64 kernel_pages 1) a0 in
    let a2 = locks p.stack (add64 (p.stack_size / 0x1000) 1) a1 in
    let a3 = locks p.page_directory_address (add64 (p.page_directory_size / 0x1000) 1) a2 in
    let a4 = locks p.buffer.base_addr (add64 (p.buffer.size / 0x1000) 1) a3 in
    lock p.font_header (lock p.font.buffer (lock p.font_at (lock p.buffer_at (lock p.at a4))))

-- `VAI`, behind all memory and as much again as the frame buffer takes.
unfoldable pub place_pools : {D : Type 0} → KernelParameters → Kernel D → Kernel D
place_pools p k =
    let k' = allocating (get_memory_size p.map (p.map_size / p.desc_size) p.desc_size) k in
    record k' { vai = page_align (add64 k'.allocator.mem_size_bytes p.buffer.size) }

-- The five loops and the five single pages, each mapped to itself.
unfoldable pub map_own : {D : Type 0} → ℕ → ℕ → KernelParameters → Kernel D → Kernel D
map_own kernel_start kernel_size p k0 =
    let k1 = map_range kernel_start (add64 (add64 kernel_start kernel_size) 0x1000) k0 in
    let k2 = map_range p.stack (add64 (add64 p.stack p.stack_size) 0x1000) k1 in
    let k3 =
      map_range p.page_directory_address (add64 p.page_directory_address p.page_directory_size)
        k2 in
    let bitmap = k3.allocator.bitmap in
    let k4 = map_range bitmap.buffer (add64 (add64 bitmap.buffer bitmap.size) 0x1000) k3 in
    let k5 =
      map_range p.buffer.base_addr (add64 (add64 p.buffer.base_addr p.buffer.size) 0x1000) k4 in
    let k6 = map_at p.font_at p.font_at (map_at p.buffer_at p.buffer_at (map_at p.at p.at k5)) in
    map_at p.font_header p.font_header (map_at p.font.buffer p.font.buffer k6)

unfoldable pub memory_init : {D : Type 0} → ℕ → ℕ → KernelParameters → Kernel D → Kernel D
memory_init kernel_start kernel_end p k0 =
    let kernel_size = sub64 kernel_end kernel_start in
    let k1 = allocating (lock_own kernel_start kernel_size p) (read_firmware_map p k0) in
    let k2 = tabling (init p.page_directory_address p.page_directory_size) (place_pools p k1) in
    let k3 = map_own kernel_start kernel_size p k2 in
    record k3 { registers = record k3.registers { cr3 = p.page_directory_address } }
