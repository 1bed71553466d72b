-- ===== src/Allocator/Tests.antt =====
-- The bitmap and the page allocator at concrete inputs.
use red_x_os.Common.{ℕ, ◌+◌, ◌*◌, ◌/◌, ◌^◌, ◌≤◌, ◌<◌, ◌≡◌, ◌⊎◌, inl, refl, arith}
use red_x_os.Common.{List, [], ◌∷◌, true, false, not, ◌==◌, if◌then◌else◌}
use red_x_os.Common.Ram.{Ram, HoldsBytes, load64, load32, load16}
use red_x_os.Bitmap
use red_x_os.Bitmap.{Bitmap}
use red_x_os.Bitmap.Laws.{test-set}
use red_x_os.Allocator.{
  Allocator, locked, lock, scan, free, page, get_page, read_map, largest_segment, get_memory_size,
  desc_pages, desc_type, desc_phys_addr, descriptor,
}
use native.Mathlib.Decide.{dec_lt}
use red_x_os.Common.Loops.{for_range}
use red_x_os.Allocator.Pages.{IsSound, span}
use red_x_os.Allocator.Books.{Keeps}
use red_x_os.Allocator.GetPage.{GivesPage, OutOfRam, get_page_lem}
use red_x_os.Allocator.Calls.{
  Call, lock_page, lock_pages, free_page, free_pages, get, running, run, state, run-Keeps,
}
use red_x_os.Allocator.GiveBack.{get_page-free}
use red_x_os.Allocator.ReadMap.{some_covers, Fits}
use red_x_os.Allocator.EmptyMap.{memory_bytes, first_bitmap}
use red_x_os.Allocator.FreeMap.{MapFits, read_map_free}
use red_x_os.Allocator.OwnPages.{own_page_free}

-- Sixteen pages, of which those numbered 0 and 3 are locked.
abbrev two_locked : Ram
two_locked a = if a == 100 then 0b10010000 else 0

abbrev sixteen : Bitmap
sixteen = record { size = 2; buffer = 100 }

abbrev small_machine : Allocator
small_machine = record {
  ram = two_locked;
  bitmap = sixteen;
  free_mem = 57344;
  used_mem = 8192;
  reserved_mem = 0;
  page_i = 0;
  initialized = true;
  mem_size_bytes = 65536;
}

two_locked-HoldsBytes : HoldsBytes two_locked
two_locked-HoldsBytes a = ground arith

small_machine-IsSound : IsSound small_machine
small_machine-IsSound = record {
  bytes = two_locked-HoldsBytes;
  small = omega arith;
  free_word = omega arith;
  used_word = omega arith;
  reserved_word = omega arith;
}

test-set_example :
    Bitmap.test sixteen (Bitmap.set sixteen 5 true two_locked).1 3
    ≡ (if 5 == 3 then true else Bitmap.test sixteen two_locked 3)
test-set_example =
    test-set sixteen 5 3 true two_locked two_locked-HoldsBytes (omega arith) (omega arith)

get_page_example : ((p : ℕ) × GivesPage small_machine p) ⊎ OutOfRam small_machine
get_page_example = get_page_lem small_machine-IsSound (omega arith)

abbrev some_calls : List Call
some_calls = get ∷ lock_pages 20480 4 ∷ free_page 12288 ∷ get ∷ free_pages 0 8 ∷ lock_page 4096 ∷ []

run_example : Keeps small_machine (state (run some_calls (running small_machine)))
run_example = run-Keeps some_calls small_machine-IsSound (omega arith)

gives_page_1 : get_page small_machine ≡ page 4096 (lock 4096 (record small_machine { page_i = 1 }))
unfolding get_page scan lock Bitmap.test Bitmap.set Bitmap.byte_test
gives_page_1 = refl

get_page-free_example :
    (u : Allocator) × (get_page (free 4096 (lock 4096 (record small_machine { page_i = 1 })))
      ≡ page 4096 u)
    × ((j : ℕ)
        → j ≤ span (lock 4096 (record small_machine { page_i = 1 }))
        → locked u j ≡ locked (lock 4096 (record small_machine { page_i = 1 })) j)
get_page-free_example =
    get_page-free 4096 (lock 4096 (record small_machine { page_i = 1 })) small_machine-IsSound
      (omega arith) gives_page_1

-- A memory map of two descriptors at 1000: six pages of conventional memory from page 2 on, and two
-- pages of another type from page 0 on.
abbrev two_segments : Ram
two_segments a =
    if a == 1000
    then 7
    else if a == 1009
    then 0x20
    else if a == 1024
    then 6
    else if a == 1040
    then 4
    else if a == 1064
    then 2
    else 0

abbrev at_boot : Allocator
at_boot = record {
  ram = two_segments;
  bitmap = record { size = 0; buffer = 0 };
  free_mem = 0;
  used_mem = 0;
  reserved_mem = 0;
  page_i = 0;
  initialized = false;
  mem_size_bytes = 0;
}

eight_pages : memory_bytes 1000 (80 / 40) 40 at_boot ≡ 32768
unfolding get_memory_size desc_pages load64 load32 load16 for_range
eight_pages = refl

first-Fits : Fits two_segments (record { size = 2; buffer = 8192 }) (descriptor 1000 0 40)
unfolding desc_pages desc_phys_addr load64 load32 load16
first-Fits = record { apart = inl (omega arith); few = omega arith; top = omega arith }

second-Fits : Fits two_segments (record { size = 2; buffer = 8192 }) (descriptor 1000 1 40)
unfolding desc_pages desc_phys_addr load64 load32 load16
second-Fits = record { apart = inl (omega arith); few = omega arith; top = omega arith }

both_fit :
    (i : ℕ)
    → i < 80 / 40
    → Fits two_segments (record { size = 2; buffer = 8192 }) (descriptor 1000 i 40)
both_fit i h = elim (dec_lt i 1) [
  | yes p ↦ let e : i ≡ 0 = omega arith in rw e first-Fits
  | no p ↦ let e : i ≡ 1 = omega arith in rw e second-Fits
]

all_fit :
    (i : ℕ)
    → i < 80 / 40
    → Fits two_segments (first_bitmap 1000 (80 / 40) 40 at_boot) (descriptor 1000 i 40)
unfolding get_memory_size largest_segment desc_pages desc_type desc_phys_addr load64 load32 load16
    for_range
all_fit i h = both_fit i h

below_top :
    let b = first_bitmap 1000 (80 / 40) 40 at_boot in b.buffer + (b.size / 4096 + 1) * 4096 ≤ 2 ^ 64
unfolding get_memory_size largest_segment desc_pages desc_type desc_phys_addr load64 load32 load16
    for_range
below_top = omega arith

at_boot-MapFits : MapFits 1000 80 40 at_boot
at_boot-MapFits = record {
  fresh = refl;
  bytes = λ a. ground arith;
  used_word = omega arith;
  reserved_word = omega arith;
  few = omega (arith, eight_pages);
  top = below_top;
  fits = all_fit;
}

read_map_free_example :
    locked (read_map 1000 80 40 at_boot) 4 ≡ not (some_covers two_segments 1000 40 2 4)
read_map_free_example = read_map_free 1000 80 40 at_boot-MapFits 4 (omega (arith, eight_pages))

six_pages : largest_segment two_segments 1000 (80 / 40) 40 ≡ (8192, 24576)
unfolding largest_segment desc_pages desc_type desc_phys_addr load64 load32 load16 for_range
six_pages = refl

own_page_free_example :
    locked (read_map 1000 80 40 at_boot) ((first_bitmap 1000 (80 / 40) 40 at_boot).buffer / 4096)
    ≡ false
own_page_free_example =
    own_page_free 1000 80 40 at_boot-MapFits (rw six_pages (omega arith))
      (rw six_pages (omega (arith, eight_pages)))
