-- ===== src/Allocator/EmptyMap.antt =====
-- The first stages of `readMap`: the sizes, the empty bitmap, and all pages reserved.
use red_x_os.Common.{ℕ, ◌+◌, ◌*◌, ◌/◌, ◌^◌, ◌≤◌, ◌<◌, ◌≡◌, ◌⊎◌, refl, ap, arith}
use red_x_os.Common.{inl, inr, Bool-cases, true, ltb, add64}
use red_x_os.Common.Ram.{Ram, HoldsBytes, store8, store8_lem, store8-HoldsBytes}
use red_x_os.Common.Loops.{for_range, for_range_inv}
use red_x_os.Bitmap.{Bitmap}
use red_x_os.Allocator.{Allocator, locked, locks, reserves, descriptor, desc_pages}
use red_x_os.Allocator.{get_memory_size, largest_segment, bitmap_init}
use red_x_os.Allocator.{empty_map, reserve_all}
use red_x_os.Allocator.Pages.{span, IsSound}
use red_x_os.Allocator.Books.{Keeps, Keeps-trans}
use red_x_os.Allocator.Ranges.{AssignsRange, locks-AssignsRange, reserves-AssignsRange}

-- `getMemorySize` changes its static and nothing else.
get_memory_size_only :
    (mem_map entries desc_size : ℕ) (s : Allocator)
    → get_memory_size mem_map entries desc_size s
      ≡ record s { mem_size_bytes = (get_memory_size mem_map entries desc_size s).mem_size_bytes }
unfolding get_memory_size
get_memory_size_only mem_map entries desc_size s = elim (Bool-cases (ltb 0 s.mem_size_bytes)) [
  | inl e ↦ rw e
  | inr e ↦ rw e (
      for_range_inv (λ k t. t ≡ record s { mem_size_bytes = t.mem_size_bytes })
        (λ i t. record t {
          mem_size_bytes =
              add64 t.mem_size_bytes (desc_pages t.ram (descriptor mem_map i desc_size) * 4096);
        })
        entries 0 entries s (omega arith)
        (λ k t p q h.
          ap
            (λ (u : Allocator). record u {
              mem_size_bytes =
                  add64 t.mem_size_bytes (desc_pages t.ram (descriptor mem_map k desc_size) * 4096);
            })
            h)
        refl)
]

-- Memory after `bitmapInit`: bytes, and the same outside the bitmap.
pub zeroed : ℕ → ℕ → Ram → Ram
zeroed buffer size m = for_range size 0 (λ i. store8 (buffer + i) 0) m

module _ (buffer size : ℕ) (m : Ram) (h : HoldsBytes m) where
  pub zeroed-HoldsBytes : HoldsBytes (zeroed buffer size m)
  unfolding zeroed
  zeroed-HoldsBytes =
      for_range_inv (λ k t. HoldsBytes t) (λ i. store8 (buffer + i) 0) size 0 size m (omega arith)
        (λ k t p q r. store8-HoldsBytes (buffer + k) 0 t r) h

  pub zeroed_frame : (x : ℕ) → (x < buffer) ⊎ (buffer + size < x) → zeroed buffer size m x ≡ m x
  unfolding zeroed
  zeroed_frame x away =
      for_range_inv (λ k t. t x ≡ m x) (λ i. store8 (buffer + i) 0) size 0 size m (omega arith)
        (λ k t p q r. ground (arith, store8_lem (buffer + k) 0 t x)) refl

-- All pages up to the last one of memory are locked.
pub record AllLocked (e r : Allocator) : Type 0 where
  pub books : Keeps e r
  pub bits : (j : ℕ) → j ≤ e.mem_size_bytes / 4096 → locked r j ≡ true

module _ {e : Allocator} (sound : IsSound e) (reaches : e.mem_size_bytes / 4096 ≤ span e)
    (few : e.mem_size_bytes / 4096 < 2 ^ 19)
    (top : e.bitmap.buffer + (e.bitmap.size / 4096 + 1) * 4096 ≤ 2 ^ 64) where
  own :
      AssignsRange true
        (e.bitmap.buffer / 4096)
        (e.bitmap.size / 4096 + 1)
        e
        (locks e.bitmap.buffer (e.bitmap.size / 4096 + 1) e)
  own = locks-AssignsRange e.bitmap.buffer (e.bitmap.size / 4096 + 1) sound top

  pub reserve_all_lem : AllLocked e (reserve_all e)
  unfolding reserve_all
  reserve_all_lem = record {
    books = Keeps-trans own.books all.books;
    bits = λ j p. ground (arith, all.bits j (rw same (omega (arith, reaches, p))));
  }
    where
      t : Allocator
      t = locks e.bitmap.buffer (e.bitmap.size / 4096 + 1) e

      all :
          AssignsRange true 0
            (e.mem_size_bytes / 4096 + 1)
            t
            (reserves 0 (e.mem_size_bytes / 4096 + 1) t)
      all =
          reserves-AssignsRange 0 (e.mem_size_bytes / 4096 + 1) own.books.sound (omega arith)
            (omega arith)

      same : span t ≡ span e
      same = ap (λ (b : Bitmap). b.size * 8) own.books.same_bitmap

module _ (mem_map entries desc_size : ℕ) (s : Allocator) where
  -- What the map adds up to, and the bitmap that is laid out for it.
  abbrev pub memory_bytes : ℕ
  memory_bytes =
      (get_memory_size mem_map entries desc_size (record s { initialized = true })).mem_size_bytes

  abbrev pub first_bitmap : Bitmap
  first_bitmap = record {
    size = memory_bytes / 4096 / 8 + 1;
    buffer = (largest_segment s.ram mem_map entries desc_size).0;
  }

  pub empty_map_lem : empty_map mem_map entries desc_size s ≡ record s {
    initialized = true;
    mem_size_bytes = memory_bytes;
    free_mem = memory_bytes;
    bitmap = first_bitmap;
    ram = zeroed first_bitmap.buffer first_bitmap.size s.ram;
  }
  unfolding empty_map bitmap_init zeroed
  empty_map_lem =
      ap
        (λ (t : Allocator).
          bitmap_init (t.mem_size_bytes / 4096 / 8 + 1)
            (largest_segment s.ram mem_map entries desc_size).0
            (record t { free_mem = t.mem_size_bytes }))
        (get_memory_size_only mem_map entries desc_size (record s { initialized = true }))
