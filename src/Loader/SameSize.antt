-- ===== src/Loader/SameSize.antt =====
-- The loader and the kernel find the same size of memory in the same map.
use red_x_os.Common.{
  ℕ, zero, suc, ◌+◌, ◌*◌, ◌/◌, ◌^◌, ◌<◌, ◌≡◌, refl, arith, false, ltb, u64, add64,
}
use red_x_os.Common.Ram.{Ram}
use red_x_os.Common.Loops.{for_range}
use red_x_os.Allocator.{Allocator, descriptor, desc_pages, get_memory_size}
use red_x_os.Loader.MemoryMap.{MemoryMap, int_quotient, mem_size}

-- The two loops, in step.
loops :
    (m : Ram) (map desc left first size : ℕ) (a : Allocator)
    → a.ram ≡ m
    → a.mem_size_bytes ≡ size
    → (for_range left first
        (λ i t. record t {
          mem_size_bytes = add64 t.mem_size_bytes (desc_pages t.ram (descriptor map i desc) * 4096);
        })
        a).mem_size_bytes
      ≡ for_range left first
          (λ i size. add64 size (u64 (desc_pages m (descriptor map i desc) * 4096)))
          size
unfolding for_range
loops m map desc zero first size a same e = e
loops m map desc (suc left) first size a same e =
    loops m map desc left (first + 1) _ _ same (rw (same, e) (omega arith))

-- `efi_main` and `getMemorySize` add up the same sizes, for a map whose size and whose descriptors' size
-- are below 2 ^ 31, in a kernel that has not asked before.
pub mem_size-get_memory_size :
    (map : MemoryMap) (a : Allocator)
    → map.map_size < 2 ^ 31
    → map.desc_size < 2 ^ 31
    → a.mem_size_bytes ≡ 0
    → (get_memory_size map.map (map.map_size / map.desc_size) map.desc_size a).mem_size_bytes
      ≡ mem_size a.ram map
unfolding mem_size int_quotient get_memory_size
mem_size-get_memory_size map a small small' fresh =
    let rounds : int_quotient map.map_size map.desc_size ≡ map.map_size / map.desc_size =
      ground arith in
    let first_call : ltb 0 a.mem_size_bytes ≡ false = ground arith in
    rw (get_memory_size, first_call, mem_size, rounds)
      (loops a.ram map.map map.desc_size (map.map_size / map.desc_size) 0 0 a refl fresh)
