-- ===== src/Kernel/Initialised.antt =====
-- The kernel after `memoryInit`.
use red_x_os.Common.{
  ℕ, ◌+◌, ◌*◌, ◌/◌, ◌≤◌, ◌≡◌, ◌∙◌, refl, ap, arith, Bool, not, some, if◌then◌else◌, Option, ◌||◌,
  add64, sub64,
}
use red_x_os.Bitmap
use red_x_os.Bitmap.{Bitmap}
use red_x_os.Allocator.{Allocator, locked, page_align}
use red_x_os.Allocator.Pages.{span}
use red_x_os.Allocator.ReadMap.{some_covers}
use red_x_os.Paging.Walk.{translate}
use red_x_os.Paging.Identity.{IdentityMaps, page_number}
use red_x_os.Kernel.{Kernel, KernelParameters}
use red_x_os.Kernel.Memory.{map_own, memory_init}
use red_x_os.Kernel.Identity.{tables_of}
use red_x_os.Kernel.OwnRanges.{in_ranges, in_singles, stretches_of}
use red_x_os.Kernel.OwnStages.{map_own-retabled}
use red_x_os.Kernel.Own.{map_own-MapsFew}
use red_x_os.Kernel.Room.{MapsFew}
use red_x_os.Kernel.Locked.{locks_own}
use red_x_os.Kernel.Pooled.{finds, alloc_of, is_locked, Works, test_same}
use red_x_os.Kernel.Handed.{
  memory, laid, Bootable, after_locks, after_locks-bitmap, after_locks_bits, after_locks-IsSound,
  before_map_own, unmapped, unmapped-Tree, unmapped-Clear, unmapped-Low, unmapped-finds,
}

-- Free are the pages of memory that a conventional descriptor covers and that `memoryInit` does not
-- lock. Its own ranges and pages are mapped to themselves, the allocator and the tables are sound,
-- the processor has the directory, and `VAI` stands behind memory and the frame buffer.
pub record Initialised {D : Type 0} (start size : ℕ) (p : KernelParameters) (k k' : Kernel D)
    : Type 0 where
  pub locks :
      (j : ℕ)
      → j ≤ memory p k / 4096
      → is_locked k' j ≡ (
          locks_own start size p j
          || not (some_covers k.ram p.map p.desc_size (p.map_size / p.desc_size) j))
  pub maps :
      (v : ℕ)
      → finds k' v ≡ (
          if in_ranges start size p (laid p k) (page_number v) || in_singles p (page_number v)
          then some (page_number v * 4096)
          else translate k.ram p.page_directory_address v)
  pub works : Works k'
  pub bitmap : k'.allocator.bitmap ≡ laid p k
  pub directory : k'.registers.cr3 ≡ p.page_directory_address
  pub pools : k'.vai ≡ page_align (add64 (memory p k) p.buffer.size)
  pub dir_size : k'.tables.dir_size ≡ p.page_directory_size
  pub few_tables : k'.tables.pdi ≤ k.tables.pdi + 3 * stretches_of start size p (laid p k)

module _ {D : Type 0} (start size : ℕ) (p : KernelParameters) (k : Kernel D)
    (h : Bootable start size p k) where
  abbrev begun : Kernel D
  begun = unmapped start size p k h

  abbrev mapped : Kernel D
  mapped = map_own start size p begun

  same_bitmap : begun.allocator.bitmap ≡ laid p k
  same_bitmap = after_locks-bitmap start size p k h

  few :
      MapsFew
        (λ q. in_ranges start size p begun.allocator.bitmap q || in_singles p q)
        (stretches_of start size p begun.allocator.bitmap)
        (tables_of begun)
        (tables_of mapped)
  few =
      map_own-MapsFew start size p begun (unmapped-Low start size p k h)
        (unmapped-Tree start size p k h) (unmapped-Clear start size p k h) (rw same_bitmap h.room)

  identity :
      IdentityMaps
        (λ q. in_ranges start size p begun.allocator.bitmap q || in_singles p q)
        (tables_of begun)
        (tables_of mapped)
  identity = few.maps

  mapped-allocator : mapped.allocator ≡ after_locks start size p k h
  mapped-allocator = ap (λ (j : Kernel D). j.allocator) (map_own-retabled start size p begun)

  -- The lock bits stand outside the directory.
  same_bits :
      (j : ℕ)
      → j ≤ span (alloc_of begun)
      → is_locked mapped j ≡ locked (after_locks start size p k h) j
  same_bits j inside =
      ap (λ (a : Allocator). Bitmap.test a.bitmap mapped.ram j) mapped-allocator
      ∙ test_same begun.allocator.bitmap mapped.ram begun.ram j (
          identity.outside (begun.allocator.bitmap.buffer + j / 8)
            (omega (
              arith,
              inside,
              h.apart,
              ap (λ (b : Bitmap). b.size) same_bitmap,
              ap (λ (b : Bitmap). b.buffer) same_bitmap,
            ))
            (h.bitmap_clear (begun.allocator.bitmap.buffer + j / 8)
              (omega (arith, ap (λ (b : Bitmap). b.buffer) same_bitmap))
              (omega (
                arith,
                inside,
                ap (λ (b : Bitmap). b.size) same_bitmap,
                ap (λ (b : Bitmap). b.buffer) same_bitmap,
              ))))

  mapped-Works : Works mapped
  mapped-Works =
      let sound = after_locks-IsSound start size p k h in
      let bits = ap (λ (b : Bitmap). b.size) same_bitmap in
      let place = ap (λ (b : Bitmap). b.buffer) same_bitmap in
      let still = ap (λ (a : Allocator). a.bitmap.size) mapped-allocator in
      let here = ap (λ (a : Allocator). a.bitmap.buffer) mapped-allocator in
      record {
        sound = record {
          bytes = identity.tree.bytes;
          small = omega (arith, sound.small, still);
          free_word = rw mapped-allocator sound.free_word;
          used_word = rw mapped-allocator sound.used_word;
          reserved_word = rw mapped-allocator sound.reserved_word;
        };
        some_bits = omega (arith, still, bits);
        tree = identity.tree;
        apart =
            omega
              (arith, still, here, bits, place, identity.same_addr, identity.same_size, h.apart);
      }

  abbrev ranges_of : Bitmap → ℕ → Bool
  ranges_of b q = in_ranges start size p b q || in_singles p q

  mapped-finds :
      (v : ℕ)
      → finds mapped v ≡ (
          if ranges_of (laid p k) (page_number v)
          then some (page_number v * 4096)
          else translate k.ram p.page_directory_address v)
  mapped-finds v =
      identity.maps v
      ∙ ap
          (λ (b : Bitmap).
            if ranges_of b (page_number v) then some (page_number v * 4096) else finds begun v)
          same_bitmap
      ∙ ap
          (λ (o : Option ℕ).
            if ranges_of (laid p k) (page_number v) then some (page_number v * 4096) else o)
          (unmapped-finds start size p k h v)

  abbrev ended : Kernel D
  ended = record mapped { registers = record mapped.registers { cr3 = p.page_directory_address } }

  ended-Initialised : Initialised start size p k ended
  ended-Initialised =
      let same = map_own-retabled start size p begun in
      record {
        locks = λ j inside.
            same_bits j (omega (arith, inside, ap (λ (b : Bitmap). b.size) same_bitmap))
            ∙ after_locks_bits start size p k h j inside;
        maps = mapped-finds;
        works = record {
          sound = mapped-Works.sound;
          some_bits = mapped-Works.some_bits;
          tree = mapped-Works.tree;
          apart = mapped-Works.apart;
        };
        bitmap = ap (λ (a : Allocator). a.bitmap) mapped-allocator ∙ same_bitmap;
        directory = refl;
        pools = ap (λ (j : Kernel D). j.vai) same;
        dir_size = identity.same_size;
        few_tables =
            omega (arith, few.few, ap (λ (b : Bitmap). stretches_of start size p b) same_bitmap);
      }

pub memory_init-Initialised :
    {D : Type 0} (kernel_start kernel_end : ℕ) (p : KernelParameters) (k : Kernel D)
    → Bootable kernel_start (sub64 kernel_end kernel_start) p k
    → Initialised kernel_start
        (sub64 kernel_end kernel_start)
        p
        k
        (memory_init kernel_start kernel_end p k)
unfolding memory_init
memory_init-Initialised {D} kernel_start kernel_end p k h =
    let size = sub64 kernel_end kernel_start in
    rw (before_map_own kernel_start size p k h) (ended-Initialised kernel_start size p k h)
