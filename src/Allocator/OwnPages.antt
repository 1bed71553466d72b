-- ===== src/Allocator/OwnPages.antt =====
-- The bitmap is laid out in the largest conventional segment, whose pages `readMap` frees last.
use red_x_os.Common.{ℕ, suc, ◌*◌, ◌/◌, ◌≤◌, ◌<◌, ◌≡◌, arith, true, false}
use red_x_os.Common.{ltb, ◌==◌, if◌then◌else◌, u64}
use native.Mathlib.Numerals.{add-one}
use red_x_os.Common.Ram.{Ram}
use red_x_os.Common.Loops.{for_range_inv}
use red_x_os.Allocator.{Allocator, locked, descriptor, desc_type, desc_phys_addr, desc_pages}
use red_x_os.Allocator.{largest_segment, read_map}
use red_x_os.Allocator.ReadMap.{some_covers}
use red_x_os.Allocator.EmptyMap.{memory_bytes, first_bitmap}
use red_x_os.Allocator.FreeMap.{MapFits, read_map_free}

module _ (m : Ram) (mem_map desc_size : ℕ) where
  abbrev candidate : ℕ → ℕ × ℕ → ℕ × ℕ
  candidate i largest =
      let desc = descriptor mem_map i desc_size in
      let bytes = u64 (desc_pages m desc * 4096) in
      if desc_type m desc == 7
      then (if ltb largest.1 bytes then (desc_phys_addr m desc, bytes) else largest)
      else largest

  candidate_covered :
      (k : ℕ) (l : ℕ × ℕ)
      → (0 < l.1 → some_covers m mem_map desc_size k (l.0 / 4096) ≡ true)
      → 0 < (candidate k l).1
      → some_covers m mem_map desc_size (suc k) ((candidate k l).0 / 4096) ≡ true
  candidate_covered k l h p = ground (arith, h)

  largest_covered :
      (n : ℕ)
      → 0 < (largest_segment m mem_map n desc_size).1
      → some_covers m mem_map desc_size n ((largest_segment m mem_map n desc_size).0 / 4096) ≡ true
  unfolding largest_segment
  largest_covered n =
      for_range_inv (λ k l. 0 < l.1 → some_covers m mem_map desc_size k (l.0 / 4096) ≡ true)
        candidate n 0 n (0, 0) (omega arith) (λ k l p q h. rw add-one (candidate_covered k l h))
        (λ p. absurd (omega arith))

-- The first page of the bitmap is not locked when `readMap` returns, if the map has a conventional
-- segment that is not empty, the page lies in memory, and the conditions on the map of
-- `read_map_free` hold.
pub own_page_free :
    (mem_map size desc_size : ℕ) {s : Allocator}
    → MapFits mem_map size desc_size s
    → 0 < (largest_segment s.ram mem_map (size / desc_size) desc_size).1
    → (first_bitmap mem_map (size / desc_size) desc_size s).buffer / 4096
      ≤ memory_bytes mem_map (size / desc_size) desc_size s / 4096
    → locked
        (read_map mem_map size desc_size s)
        ((first_bitmap mem_map (size / desc_size) desc_size s).buffer / 4096)
      ≡ false
own_page_free mem_map size desc_size {s} h p q =
    rw (read_map_free mem_map size desc_size h _ q)
      (rw (largest_covered s.ram mem_map desc_size (size / desc_size) p))
