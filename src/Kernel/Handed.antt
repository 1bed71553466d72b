-- ===== src/Kernel/Handed.antt =====
-- The kernel when `memoryInit` begins to map pages.
use red_x_os.Common.{
  ℕ, ◌+◌, ◌*◌, ◌/◌, ◌≤◌, ◌<◌, ◌≡◌, ◌⊎◌, ◌∙◌, ap, arith, Bool, true, not, ◌||◌, ltb, add64,
}
use red_x_os.Bitmap.{Bitmap}
use red_x_os.Allocator.{Allocator, locked, read_map, page_align}
use red_x_os.Allocator.Pages.{IsSound}
use red_x_os.Allocator.ReadMap.{some_covers}
use red_x_os.Allocator.EmptyMap.{memory_bytes, first_bitmap}
use red_x_os.Allocator.FreeMap.{MapFits, read_map-Keeps, read_map_free}
use red_x_os.Allocator.Statics.{read_map-SameSize, get_memory_size-known}
use red_x_os.Paging.{init}
use red_x_os.Paging.Tree.{Tree}
use red_x_os.Paging.Console.{Clear, Unprinted, printer}
use red_x_os.Paging.Apart.{moved-Tree, translate_same}
use red_x_os.Paging.Walk.{translate}
use red_x_os.Kernel.{Kernel, KernelParameters, allocating, tabling}
use red_x_os.Kernel.Memory.{read_firmware_map, lock_own, place_pools}
use red_x_os.Kernel.Identity.{tables_of}
use red_x_os.Kernel.OwnRanges.{Low, stretches_of}
use red_x_os.Kernel.Locked.{locks_own, lock_own-Locks}
use red_x_os.Kernel.Pooled.{finds, alloc_of}

module _ {D : Type 0} (p : KernelParameters) (k : Kernel D) where
  -- The allocator as `memoryInit` begins with it, what the firmware's map adds up to, and the
  -- bitmap that is laid out for it.
  abbrev pub fresh : Allocator
  fresh = record (alloc_of k) { bitmap = record { size = 0; buffer = 0 } }

  abbrev pub memory : ℕ
  memory = memory_bytes p.map (p.map_size / p.desc_size) p.desc_size fresh

  abbrev pub laid : Bitmap
  laid = first_bitmap p.map (p.map_size / p.desc_size) p.desc_size fresh

-- What the loader has to hand over: a memory map that fits, memory that is not empty, ranges that
-- end below 2 ^ 40, a frame buffer and places of `toHString` apart from the directory and the
-- bitmap, and a directory that holds a tree, keeps apart from the bitmap and has room for three
-- tables for each two megabytes of a range and for each single page.
pub record Bootable {D : Type 0} (start size : ℕ) (p : KernelParameters) (k : Kernel D)
    : Type 0 where
  pub map_fits : MapFits p.map p.map_size p.desc_size (fresh p k)
  pub some_memory : 0 < memory p k
  pub low : Low start size p (laid p k)
  pub tree : Tree (init p.page_directory_address p.page_directory_size (tables_of k))
  pub clear : Clear (init p.page_directory_address p.page_directory_size (tables_of k))
  pub bitmap_clear :
      (x : ℕ)
      → (laid p k).buffer ≤ x
      → x ≤ (laid p k).buffer + (laid p k).size
      → Unprinted (printer (tables_of k)) x
  pub apart :
      ((laid p k).buffer + (laid p k).size < p.page_directory_address)
      ⊎ (p.page_directory_address + p.page_directory_size ≤ (laid p k).buffer)
  pub room :
      (k.tables.pdi + 3 * stretches_of start size p (laid p k) + 4) * 4096 ≤ p.page_directory_size

module _ {D : Type 0} (start size : ℕ) (p : KernelParameters) (k : Kernel D)
    (h : Bootable start size p k) where
  after_map : Allocator
  after_map = read_map p.map p.map_size p.desc_size (fresh p k)

  pub after_locks : Allocator
  unfolding after_map
  after_locks = lock_own start size p after_map

  after_map-bitmap : after_map.bitmap ≡ laid p k
  unfolding after_map
  after_map-bitmap = (read_map-Keeps p.map p.map_size p.desc_size h.map_fits).1

  pub after_locks-bitmap : after_locks.bitmap ≡ laid p k
  unfolding after_locks
  after_locks-bitmap =
      (lock_own-Locks start size p (laid p k)
        (read_map-Keeps p.map p.map_size p.desc_size h.map_fits).0 h.low).books.same_bitmap
      ∙ after_map-bitmap

  -- Memory outside the bitmap is as it was.
  after_locks_frame :
      (x : ℕ)
      → (x < (laid p k).buffer) ⊎ ((laid p k).buffer + (laid p k).size < x)
      → after_locks.ram x ≡ k.ram x
  unfolding after_locks
  after_locks_frame x away =
      let map = read_map-Keeps p.map p.map_size p.desc_size h.map_fits in
      let books = (lock_own-Locks start size p (laid p k) map.0 h.low).books in
      books.frame x (rw after_map-bitmap away) ∙ map.2 x away

  -- Which pages are locked.
  pub after_locks_bits :
      (j : ℕ)
      → j ≤ memory p k / 4096
      → locked after_locks j ≡ (
          locks_own start size p j
          || not (some_covers k.ram p.map p.desc_size (p.map_size / p.desc_size) j))
  unfolding after_locks
  after_locks_bits j inside =
      let map = read_map-Keeps p.map p.map_size p.desc_size h.map_fits in
      let bits = (lock_own-Locks start size p (laid p k) map.0 h.low).bits j in
      let same = ap (λ (b : Bitmap). b.size * 8) after_map-bitmap in
      bits (omega (arith, same, inside))
      ∙ ap (λ (b : Bool). locks_own start size p j || b)
          (read_map_free p.map p.map_size p.desc_size h.map_fits j inside)

  pub after_locks-IsSound : IsSound after_locks
  unfolding after_locks
  after_locks-IsSound =
      (lock_own-Locks start size p (laid p k)
        (read_map-Keeps p.map p.map_size p.desc_size h.map_fits).0 h.low).books.sound

  after_locks_size : after_locks.mem_size_bytes ≡ memory p k
  unfolding after_locks after_map
  after_locks_size =
      (lock_own-Locks start size p (laid p k)
        (read_map-Keeps p.map p.map_size p.desc_size h.map_fits).0 h.low).same_size
      ∙ read_map-SameSize p.map p.map_size p.desc_size h.map_fits

  -- The kernel when the mapping begins.
  abbrev pub unmapped : Kernel D
  unmapped = record k {
    allocator = after_locks;
    ram = after_locks.ram;
    vai = page_align (add64 (memory p k) p.buffer.size);
    tables = record k.tables {
      ram = after_locks.ram;
      dir_addr = p.page_directory_address;
      dir_size = p.page_directory_size;
      screen = k.basic_render;
    };
  }

  pub before_map_own :
      tabling
        (init p.page_directory_address p.page_directory_size)
        (place_pools p (allocating (lock_own start size p) (read_firmware_map p k)))
      ≡ unmapped
  unfolding place_pools read_firmware_map after_locks after_map init
  before_map_own =
      let known : ltb 0 after_locks.mem_size_bytes ≡ true =
        ground (arith, after_locks_size, h.some_memory) in
      let same =
        get_memory_size-known p.map (p.map_size / p.desc_size) p.desc_size after_locks known in
      ap
        (λ (a : Allocator). record k {
          allocator = a;
          ram = a.ram;
          vai = page_align (add64 a.mem_size_bytes p.buffer.size);
          tables = record k.tables {
            ram = a.ram;
            dir_addr = p.page_directory_address;
            dir_size = p.page_directory_size;
            screen = k.basic_render;
          };
        })
        same
      ∙ ap
          (λ (n : ℕ). record k {
            allocator = after_locks;
            ram = after_locks.ram;
            vai = page_align (add64 n p.buffer.size);
            tables = record k.tables {
              ram = after_locks.ram;
              dir_addr = p.page_directory_address;
              dir_size = p.page_directory_size;
              screen = k.basic_render;
            };
          })
          after_locks_size

  pub unmapped-Tree : Tree (tables_of unmapped)
  unfolding init
  unmapped-Tree =
      moved-Tree h.tree after_locks.ram (λ x low high. after_locks_frame x (omega (arith, h.apart)))
        after_locks-IsSound.bytes

  pub unmapped-Clear : Clear (tables_of unmapped)
  unfolding init
  unmapped-Clear = record { printing = h.clear.printing; directory = h.clear.directory }

  pub unmapped-Low : Low start size p unmapped.allocator.bitmap
  unmapped-Low = rw after_locks-bitmap h.low

  -- The pages are still where the loader left them.
  pub unmapped-finds : (v : ℕ) → finds unmapped v ≡ translate k.ram p.page_directory_address v
  unfolding init
  unmapped-finds v =
      translate_same h.tree after_locks.ram
        (λ x low high. after_locks_frame x (omega (arith, h.apart))) v
