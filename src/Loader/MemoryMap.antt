-- ===== src/Loader/MemoryMap.antt =====
-- The firmware's memory map in `efi_main`: the size of memory, and of the page directory for it.
use red_x_os.Common.{ℕ, ◌+◌, ◌-◌, ◌*◌, ◌/◌, ◌^◌, ltb, if◌then◌else◌, u32, u64, add64}
use red_x_os.Common.Ram.{Ram}
use red_x_os.Common.Loops.{for_range}
use red_x_os.Allocator.{descriptor, desc_pages}
use red_x_os.Loader.{Act, ◌>>=◌, give, Firmware, null}

-- What `GetMemoryMap` leaves: the map, its size, its key and the size of a descriptor.
pub record MemoryMap : Type 0 where
  pub map : ℕ
  pub map_size : ℕ
  pub map_key : ℕ
  pub desc_size : ℕ

-- The size is asked for, and then the map. `mapSize` is not initialised before the first call.
pub get_map : {F : Type 0} → Firmware F → ℕ → Act F MemoryMap
get_map f unset_size = do
  (needed, key, desc) ← f.get_memory_map unset_size null
  map ← f.allocate_pool needed
  (size, map_key, desc_size) ← f.get_memory_map needed map
  give (record { map = map; map_size = size; map_key = map_key; desc_size = desc_size })

-- How often a loop from 0 runs up to `(int)a / (int)b`, a quotient of signed numbers.
unfoldable pub int_quotient : ℕ → ℕ → ℕ
int_quotient a b =
    let x = u32 a in
    let y = u32 b in
    if ltb x (2 ^ 31)
    then if ltb y (2 ^ 31) then x / y else 0
    else if ltb y (2 ^ 31)
    then 0
    else (2 ^ 32 - x) / (2 ^ 32 - y)

-- `memSize`
unfoldable pub mem_size : Ram → MemoryMap → ℕ
mem_size m map =
    for_range (int_quotient map.map_size map.desc_size) 0
      (λ i size. add64 size (u64 (desc_pages m (descriptor map.map i map.desc_size) * 4096))) 0

-- `pageDirectorySize`
unfoldable pub page_directory_size : ℕ → ℕ
page_directory_size size =
    let pages = size / 0x1000 in
    u64 ((pages / 512 + pages / 512 / 512 + pages / 512 / 512 / 512 + 3) * 0x1000)
