-- ===== src/Kernel/Tests/Boot.antt =====
-- `memoryInit` on a machine of 32 megabytes.
use red_x_os.Common.{
  ℕ, ◌+◌, ◌*◌, ◌/◌, ◌^◌, ◌≤◌, ◌<◌, ◌≡◌, ◌∙◌, ◌⊎◌, refl, sym, ap, arith, false, inl, inr, ◌==◌,
  if◌then◌else◌,
}
use mathlib.Core.Path.{subst}
use native.Mathlib.Decide.{dec_lt}
use red_x_os.Common.Ram.{Ram, load16, load32, load64, load64_same, load64-zero}
use red_x_os.Common.Loops.{for_range}
use red_x_os.Bitmap.{Bitmap}
use red_x_os.Allocator.{
  get_memory_size, largest_segment, desc_pages, desc_type, desc_phys_addr, descriptor,
}
use red_x_os.Allocator.ReadMap.{Fits}
use red_x_os.Allocator.FreeMap.{MapFits}
use red_x_os.Paging.{init, entry_at}
use red_x_os.Paging.Walk.{target}
use red_x_os.Paging.Tree.{Tree}
use red_x_os.Paging.Console.{Clear}
use red_x_os.Paging.NewTable.{target-zero}
use red_x_os.Kernel.{Kernel}
use red_x_os.Kernel.Memory.{memory_init}
use red_x_os.Kernel.Identity.{tables_of}
use red_x_os.Kernel.OwnRanges.{Low, stretches_of}
use red_x_os.Kernel.Handed.{fresh, memory, laid, Bootable}
use red_x_os.Kernel.Initialised.{Initialised, memory_init-Initialised}
use red_x_os.Allocator.{page_align}
use red_x_os.Kernel.Pool.{get_pool}
use red_x_os.Kernel.Safe.{SafePool, first, get_pool-SafePool}
use red_x_os.Kernel.Tests.{blank_kernel, parameters}

-- The firmware's map at 0x73000: the first two megabytes are the loader's, the other thirty are free.
abbrev map_ram : Ram
map_ram a =
    if a == 0x73000
    then 2
    else if a == 0x73019
    then 2
    else if a == 0x73030
    then 7
    else if a == 0x7303a
    then 0x20
    else if a == 0x73049
    then 0x1e
    else 0

abbrev booting : Kernel (Unit {0})
booting = record blank_kernel {
  ram = map_ram;
  allocator = record blank_kernel.allocator { initialized = false; mem_size_bytes = 0 };
}

abbrev first_laid : Bitmap
first_laid = record { size = 0x401; buffer = 0x200000 }

memory_lem : memory parameters booting ≡ 0x2000000
unfolding get_memory_size desc_pages load64 load32 load16 for_range
memory_lem = refl

laid_lem : laid parameters booting ≡ first_laid
unfolding get_memory_size largest_segment desc_pages desc_type desc_phys_addr load64 load32 load16
    for_range
laid_lem = refl

descriptors-Fits : (i : ℕ) → i < 96 / 48 → Fits map_ram first_laid (descriptor 0x73000 i 48)
unfolding desc_pages desc_phys_addr load64 load32 load16
descriptors-Fits i h = elim (dec_lt i 1) [
  | yes p ↦
      let e : i ≡ 0 = omega arith in
      rw e (record { apart = inl (omega arith); few = omega arith; top = omega arith })
  | no p ↦
      let e : i ≡ 1 = omega arith in
      rw e (record { apart = inl (omega arith); few = omega arith; top = omega arith })
]

booting-MapFits : MapFits 0x73000 96 48 (fresh parameters booting)
booting-MapFits = record {
  fresh = refl;
  bytes = λ a. ground arith;
  used_word = omega arith;
  reserved_word = omega arith;
  few = omega (arith, memory_lem);
  top =
      subst (λ (b : Bitmap). b.buffer + (b.size / 4096 + 1) * 4096 ≤ 2 ^ 64) (sym laid_lem)
        (omega arith);
  fits = λ i h.
      subst (λ (b : Bitmap). Fits map_ram b (descriptor 0x73000 i 48)) (sym laid_lem)
        (descriptors-Fits i h);
}

booting-Tree : Tree (init 0x100000 0x100000 (tables_of booting))
unfolding init
booting-Tree = record {
  bytes = λ a. ground arith;
  aligned = refl;
  top = omega arith;
  small = omega arith;
  inside = omega arith;
  level = λ n. 0;
  parent = λ n. 0;
  slot = λ n. 0;
  root = refl;
  children = λ n i h hi up. inl (
      ap (λ (w : ℕ). target w)
        (load64_same (entry_at (0x100000 + n * 4096) i) map_ram (λ a. 0)
            (λ x low high. ground (arith, h, hi, low, high))
          ∙ load64-zero (entry_at (0x100000 + n * 4096) i))
      ∙ target-zero);
}

booting-Clear : Clear (init 0x100000 0x100000 (tables_of booting))
unfolding init
booting-Clear = record {
  printing = record { whole = refl; low = omega arith };
  directory = λ x low high. (inl (omega arith), inr (omega arith), inr (omega arith));
}

booting-Bootable : Bootable 0x40000 0x8000 parameters booting
booting-Bootable = record {
  map_fits = booting-MapFits;
  some_memory = omega (arith, memory_lem);
  low = subst (Low 0x40000 0x8000 parameters) (sym laid_lem) (record {
    kernel = omega arith;
    stack = omega arith;
    directory = omega arith;
    bitmap = omega arith;
    framebuffer = omega arith;
    parameters = omega arith;
    buffer = omega arith;
    font = omega arith;
    glyphs = omega arith;
    font_header = omega arith;
  });
  tree = booting-Tree;
  clear = booting-Clear;
  bitmap_clear = λ x low high.
      let size = ap (λ (b : Bitmap). b.size) laid_lem in
      let place = ap (λ (b : Bitmap). b.buffer) laid_lem in
      (
        inl (omega (arith, low, high, size, place)),
        inr (omega (arith, low, place)),
        inr (omega (arith, low, place)),
      );
  apart =
      subst (λ (b : Bitmap). (b.buffer + b.size < 0x100000) ⊎ (0x100000 + 0x100000 ≤ b.buffer))
        (sym laid_lem) (inr (omega arith));
  room =
      subst
        (λ (b : Bitmap). (0 + 3 * stretches_of 0x40000 0x8000 parameters b + 4) * 4096 ≤ 0x100000)
        (sym laid_lem) (omega arith);
}

few_stretches : stretches_of 0x40000 0x8000 parameters (laid parameters booting) ≤ 10
few_stretches =
    subst (λ (b : Bitmap). stretches_of 0x40000 0x8000 parameters b ≤ 10) (sym laid_lem)
      (omega arith)

booting-Initialised :
    Initialised 0x40000 0x8000 parameters booting (memory_init 0x40000 0x48000 parameters booting)
booting-Initialised = memory_init-Initialised 0x40000 0x48000 parameters booting booting-Bootable

abbrev booted : Kernel (Unit {0})
booted = memory_init 0x40000 0x48000 parameters booting

get_pool-SafePool_example :
    SafePool 0x40000 0x8000 parameters booting booted (get_pool 0x2800 booted)
unfolding page_align
get_pool-SafePool_example =
    let init = booting-Initialised in
    get_pool-SafePool 0x40000 0x48000 parameters booting booting-Bootable first 0x2800
      (omega (arith, init.pools, memory_lem))
      (omega (arith, init.few_tables, init.dir_size, few_stretches))
