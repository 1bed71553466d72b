-- ===== src/Loader/Tests/Segments.antt =====
-- The kernel's segments on the firmware of the tests.
use red_x_os.Common.{ℕ, ◌+◌, ◌≤◌, ◌≡◌, ◌⊎◌, refl, arith, ◌<◌}
use red_x_os.Loader.Segments.{load_segments}
use red_x_os.Loader.Entries.{DocumentedPages, paddr, filesz, offset, Loadable}
use red_x_os.Loader.Placed.{Placed, Outside, load_segments-Placed}
use red_x_os.Common.{inl, inr}
use red_x_os.Common.Ram.{load16, load32, load64}
use native.Mathlib.Decide.{dec_lt}
use red_x_os.Loader.Tests.{pool_firmware, documented_pool, kernel_file, two_segments, at_rest}

documented_pages : DocumentedPages pool_firmware
documented_pages = record {
  at_address = λ pages address s. refl;
  pages_ram = λ pages address s. refl;
}

-- What the two program headers say.
kernel_fields :
    (paddr kernel_file two_segments 0 ≡ 0x100000)
    × (filesz kernel_file two_segments 0 ≡ 3)
    × (offset kernel_file two_segments 0 ≡ 200)
    × (paddr kernel_file two_segments 1 ≡ 0x200000)
    × (filesz kernel_file two_segments 1 ≡ 4)
    × (offset kernel_file two_segments 1 ≡ 203)
unfolding load64 load32 load16
kernel_fields = (refl, refl, refl, refl, refl, refl)

two_segments-Loadable : Loadable kernel_file 260 two_segments 4097
two_segments-Loadable = record {
  entry_size = omega arith;
  small = omega arith;
  fits = omega arith;
  table_inside = omega arith;
  inside = λ i p ld. elim (dec_lt i 1) [
    | yes q ↦ let e : i ≡ 0 = omega arith in rw e (omega (arith, kernel_fields))
    | no q ↦ let e : i ≡ 1 = omega arith in rw e (omega (arith, kernel_fields))
  ];
  apart = λ i j p q li lj.
      let e : i ≡ 0 = omega arith in
      let g : j ≡ 1 = omega arith in rw (e, g) (inl (omega (arith, kernel_fields)));
  off_table = λ i p ld. elim (dec_lt i 1) [
    | yes q ↦ let e : i ≡ 0 = omega arith in rw e (inr (omega (arith, kernel_fields)))
    | no q ↦ let e : i ≡ 1 = omega arith in rw e (inr (omega (arith, kernel_fields)))
  ];
}

load_segments-Placed_example :
    let m = (load_segments pool_firmware 7 two_segments at_rest).1.ram in
    Placed kernel_file two_segments 2 m
    × ((x : ℕ) → Outside kernel_file two_segments x → (x < 4097) ⊎ (4097 + 112 ≤ x) → m x ≡ 0)
unfolding documented_pool
load_segments-Placed_example =
    load_segments-Placed documented_pool documented_pages 7 two_segments at_rest
      two_segments-Loadable
