-- ===== src/Allocator.antt =====
-- kernel/src/memory/memory.h and memory.cpp: the class `pageAllocator` with the file's globals.
-- The bitmap's bytes stand in the machine's memory, so each operation works on both.
pub mod Pages
pub mod Books
pub mod Ranges
pub mod GetPage
pub mod Calls
pub mod GiveBack
pub mod ReadMap
pub mod EmptyMap
pub mod FreeMap
pub mod OwnPages
pub mod Statics
mod Tests
use red_x_os.Common.{ℕ, zero, suc, ◌+◌, ◌-◌, ◌*◌, ◌/◌, ◌%◌, ◌^◌, Bool, true, false}
use red_x_os.Common.{ltb, ◌==◌, if◌then◌else◌, u32, u64, add64, sub64}
use red_x_os.Common.Ram.{Ram, store8, load32, load64}
use red_x_os.Common.Loops.{for_range}
use red_x_os.Bitmap
use red_x_os.Bitmap.{Bitmap}

-- `freeMem`, `reservedMem`, `usedMem`, `initialized`, `pageI`, the static `memSizeBytes` of
-- `getMemorySize` and the allocator's `pageBitmap`.
pub record Allocator : Type 0 where
  pub ram : Ram
  pub bitmap : Bitmap
  pub free_mem : ℕ
  pub used_mem : ℕ
  pub reserved_mem : ℕ
  pub page_i : ℕ
  pub initialized : Bool
  pub mem_size_bytes : ℕ

abbrev pub locked : Allocator → ℕ → Bool
locked s index = Bitmap.test s.bitmap s.ram index

-- `pageAlign`
unfoldable pub page_align : ℕ → ℕ
page_align addr = addr / 0x1000 * 0x1000

-- `lock`, `free`, `reserve` and `release` of one page.
pub lock : ℕ → Allocator → Allocator
lock addr s =
    let index = addr / 4096 in
    if locked s index
    then s
    else let (done, m) = Bitmap.set s.bitmap index true s.ram in
      if done
      then record s { ram = m; free_mem = sub64 s.free_mem 4096; used_mem = add64 s.used_mem 4096 }
      else record s { ram = m }

-- `if (pageI > index) pageI = index`
abbrev lower_page_i : ℕ → ℕ → ℕ
lower_page_i page_i index = if ltb index page_i then index else page_i

pub free : ℕ → Allocator → Allocator
free addr s =
    let index = addr / 4096 in
    if locked s index
    then (let (done, m) = Bitmap.set s.bitmap index false s.ram in
        if done
        then record s {
          ram = m;
          page_i = lower_page_i s.page_i index;
          free_mem = add64 s.free_mem 4096;
          used_mem = sub64 s.used_mem 4096;
        }
        else record s { ram = m })
    else s

pub reserve : ℕ → Allocator → Allocator
reserve addr s =
    let index = addr / 4096 in
    if locked s index
    then s
    else let (done, m) = Bitmap.set s.bitmap index true s.ram in
      if done
      then record s {
        ram = m;
        free_mem = sub64 s.free_mem 4096;
        reserved_mem = add64 s.reserved_mem 4096;
      }
      else record s { ram = m }

pub release : ℕ → Allocator → Allocator
release addr s =
    let index = addr / 4096 in
    if locked s index
    then (let (done, m) = Bitmap.set s.bitmap index false s.ram in
        if done
        then record s {
          ram = m;
          page_i = lower_page_i s.page_i index;
          free_mem = add64 s.free_mem 4096;
          reserved_mem = sub64 s.reserved_mem 4096;
        }
        else record s { ram = m })
    else s

-- `locks` counts with a `uint64_t`.
pub locks : ℕ → ℕ → Allocator → Allocator
locks addr count s = for_range count 0 (λ i. lock (add64 addr (i * 4096))) s

-- `i * 4096` with an `int` i, as it is added to an address: 32 bits, then sign-extended. C leaves
-- the product undefined once it passes 2 ^ 31; this is what two's complement gives.
unfoldable pub int_pages : ℕ → ℕ
int_pages i = let w = u32 (i * 4096) in if ltb w (2 ^ 31) then w else w + (2 ^ 64 - 2 ^ 32)

-- The other three count with an `int`. A count stays below 2 ^ 31, or `i` itself would overflow.
pub frees : ℕ → ℕ → Allocator → Allocator
frees addr count s = for_range count 0 (λ i. free (add64 addr (int_pages i))) s

pub releases : ℕ → ℕ → Allocator → Allocator
releases addr count s = for_range count 0 (λ i. release (add64 addr (int_pages i))) s

pub reserves : ℕ → ℕ → Allocator → Allocator
reserves addr count s = for_range count 0 (λ i. reserve (add64 addr (int_pages i))) s

-- `getFreeMem`, `getUsedMem` and `getResdMem`
pub get_free_mem : Allocator → ℕ
get_free_mem s = s.free_mem

pub get_used_mem : Allocator → ℕ
get_used_mem s = s.used_mem

pub get_resd_mem : Allocator → ℕ
get_resd_mem s = s.reserved_mem

-- What `getPage` gives: an address, or the panic at the end, after which the machine halts.
pub data Page : Type 0 where
  page : ℕ → Allocator → Page
  out_of_ram : Allocator → Page

-- `pageBitmap.size * 8 - 1`, where both loops end.
abbrev pub page_limit : Allocator → ℕ
page_limit s = sub64 (u64 (s.bitmap.size * 8)) 1

-- One of the two loops, from `pageI` on, with `left` rounds left: the first page that is not
-- locked is locked and returned, else `otherwise` goes on from where `pageI` stopped.
pub scan : ℕ → (Allocator → Page) → Allocator → Page
scan zero otherwise s = otherwise s
scan (suc left) otherwise s =
    let rest = scan left otherwise (record s { page_i = s.page_i + 1 }) in
    if locked s s.page_i
    then rest
    else page (u64 (s.page_i * 4096)) (lock (u64 (s.page_i * 4096)) s)

pub get_page : Allocator → Page
get_page s =
    scan (page_limit s - s.page_i) (λ t. scan (page_limit t) out_of_ram (record t { page_i = 0 })) s

-- `EFI_MEMORY_DESCRIPTOR` number `i` of the map, and the fields of one that the kernel reads.
abbrev pub descriptor : ℕ → ℕ → ℕ → ℕ
descriptor mem_map i desc_size = add64 mem_map (i * desc_size)

unfoldable pub desc_type : Ram → ℕ → ℕ
desc_type m desc = load32 m desc

unfoldable pub desc_phys_addr : Ram → ℕ → ℕ
desc_phys_addr m desc = load64 m (desc + 8)

unfoldable pub desc_pages : Ram → ℕ → ℕ
desc_pages m desc = load64 m (desc + 24)

-- `getMemorySize`; the result is the static, which the first call fills.
unfoldable pub get_memory_size : ℕ → ℕ → ℕ → Allocator → Allocator
get_memory_size mem_map entries desc_size s =
    if ltb 0 s.mem_size_bytes
    then s
    else for_range entries 0
        (λ i t. record t {
          mem_size_bytes =
              add64 t.mem_size_bytes (desc_pages t.ram (descriptor mem_map i desc_size) * 4096);
        })
        s

-- The first loop of `readMap`: the address and the size of the largest conventional segment.
unfoldable pub largest_segment : Ram → ℕ → ℕ → ℕ → ℕ × ℕ
largest_segment m mem_map entries desc_size =
    for_range entries 0
      (λ i largest.
        let desc = descriptor mem_map i desc_size in
        let bytes = u64 (desc_pages m desc * 4096) in
        if desc_type m desc == 7
        then (if ltb largest.1 bytes then (desc_phys_addr m desc, bytes) else largest)
        else largest)
      (0, 0)

-- `bitmapInit`. Its counter is a `uint32_t`, so `size` is at most 2 ^ 32.
pub bitmap_init : ℕ → ℕ → Allocator → Allocator
bitmap_init size buffer_addr s = record s {
  bitmap = record { size = size; buffer = buffer_addr };
  ram = for_range size 0 (λ i. store8 (buffer_addr + i) 0) s.ram;
}

-- The last loop of `readMap`: the pages of the conventional segments are released.
pub release_entry : ℕ → ℕ → ℕ → Allocator → Allocator
release_entry mem_map desc_size i t =
    let desc = descriptor mem_map i desc_size in
    if desc_type t.ram desc == 7
    then releases (desc_phys_addr t.ram desc) (desc_pages t.ram desc) t
    else t

-- `readMap` up to the call of `bitmapInit`. What `getMemorySize` returns is its static.
pub empty_map : ℕ → ℕ → ℕ → Allocator → Allocator
empty_map mem_map entries desc_size s =
    let largest = largest_segment s.ram mem_map entries desc_size in
    let sized = get_memory_size mem_map entries desc_size (record s { initialized = true }) in
    bitmap_init (sized.mem_size_bytes / 4096 / 8 + 1) largest.0
      (record sized { free_mem = sized.mem_size_bytes })

-- The two calls after it: the bitmap's own pages are locked, then all pages are reserved.
pub reserve_all : Allocator → Allocator
reserve_all s =
    reserves 0 (s.mem_size_bytes / 4096 + 1) (locks s.bitmap.buffer (s.bitmap.size / 4096 + 1) s)

-- `readMap`
pub read_map : ℕ → ℕ → ℕ → Allocator → Allocator
read_map mem_map size desc_size s =
    if s.initialized
    then s
    else let entries = size / desc_size in
      for_range entries 0 (release_entry mem_map desc_size)
        (reserve_all (empty_map mem_map entries desc_size s))
