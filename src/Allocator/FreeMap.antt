-- ===== src/Allocator/FreeMap.antt =====
-- `readMap` from a fresh allocator: the pages that are free when it returns.
use red_x_os.Common.{ℕ, zero, suc, ◌+◌, ◌*◌, ◌/◌, ◌^◌, ◌≤◌, ◌<◌, ◌⊎◌, ◌≡◌, refl, ap, ◌∙◌, arith}
use red_x_os.Common.{true, false, not}
use red_x_os.Common.Ram.{Ram, HoldsBytes}
use red_x_os.Common.Loops.{for_range}
use red_x_os.Bitmap.{Bitmap}
use red_x_os.Allocator.{Allocator, locked, descriptor}
use red_x_os.Allocator.{reserve_all, release_entry, read_map}
use red_x_os.Allocator.Pages.{span, IsSound}
use red_x_os.Allocator.Books.{Keeps-trans}
use red_x_os.Allocator.ReadMap.{
  Fits, Fits-same, covers, covers_same, some_covers, Released, release_loop,
}
use red_x_os.Allocator.EmptyMap.{
  memory_bytes, first_bitmap, empty_map_lem, zeroed, zeroed-HoldsBytes, zeroed_frame, AllLocked,
  reserve_all_lem,
}

-- A fresh allocator, less than two gigabytes of memory, and descriptors that stand outside the
-- bitmap which `readMap` lays out.
pub record MapFits (mem_map size desc_size : ℕ) (s : Allocator) : Type 0 where
  pub fresh : s.initialized ≡ false
  pub bytes : HoldsBytes s.ram
  pub used_word : s.used_mem < 2 ^ 64
  pub reserved_word : s.reserved_mem < 2 ^ 64
  pub few : memory_bytes mem_map (size / desc_size) desc_size s < 2 ^ 31
  pub top :
      let b = first_bitmap mem_map (size / desc_size) desc_size s in
      b.buffer + (b.size / 4096 + 1) * 4096 ≤ 2 ^ 64
  pub fits :
      (i : ℕ)
      → i < size / desc_size
      → Fits s.ram
          (first_bitmap mem_map (size / desc_size) desc_size s)
          (descriptor mem_map i desc_size)

some_covers_same :
    (m m' : Ram) (mem_map desc_size n j : ℕ)
    → ((i : ℕ)
        → i < n
        → covers m' (descriptor mem_map i desc_size) j
          ≡ covers m (descriptor mem_map i desc_size) j)
    → some_covers m' mem_map desc_size n j ≡ some_covers m mem_map desc_size n j
some_covers_same m m' mem_map desc_size zero j h = refl
some_covers_same m m' mem_map desc_size (suc n) j h =
    rw (h n (omega arith), some_covers_same m m' mem_map desc_size n j (λ i p. h i (omega arith)))

module _ (mem_map size desc_size : ℕ) {s : Allocator} (h : MapFits mem_map size desc_size s) where
  pub bitmap_here : Bitmap
  bitmap_here = first_bitmap mem_map (size / desc_size) desc_size s

  pub emptied : Allocator
  emptied = record s {
    initialized = true;
    mem_size_bytes = memory_bytes mem_map (size / desc_size) desc_size s;
    free_mem = memory_bytes mem_map (size / desc_size) desc_size s;
    bitmap = bitmap_here;
    ram = zeroed bitmap_here.buffer bitmap_here.size s.ram;
  }

  emptied-IsSound : IsSound emptied
  unfolding emptied bitmap_here
  emptied-IsSound = record {
    bytes = zeroed-HoldsBytes bitmap_here.buffer bitmap_here.size s.ram h.bytes;
    small = omega (arith, h.few);
    free_word = omega (arith, h.few);
    used_word = h.used_word;
    reserved_word = h.reserved_word;
  }

  all_locked : AllLocked emptied (reserve_all emptied)
  unfolding emptied bitmap_here
  all_locked = reserve_all_lem emptied-IsSound (omega arith) (omega (arith, h.few)) h.top

  -- The descriptors still read as they did.
  same_bytes :
      (i : ℕ)
      → i < size / desc_size
      → (x : ℕ) → descriptor mem_map i desc_size ≤ x
      → x < descriptor mem_map i desc_size + 32
      → (reserve_all emptied).ram x ≡ s.ram x
  unfolding emptied bitmap_here
  same_bytes i p x q r =
      all_locked.books.frame x (omega (arith, (h.fits i p).apart))
      ∙ zeroed_frame bitmap_here.buffer bitmap_here.size s.ram h.bytes x
          (omega (arith, (h.fits i p).apart))

  released :
      Released mem_map desc_size
        (size / desc_size)
        (reserve_all emptied)
        (for_range (size / desc_size) 0 (release_entry mem_map desc_size) (reserve_all emptied))
  unfolding emptied bitmap_here
  released =
      release_loop mem_map desc_size (size / desc_size) (reserve_all emptied) all_locked.books.sound
        (λ i p. rw all_locked.books.same_bitmap (
          Fits-same s.ram (reserve_all emptied).ram (descriptor mem_map i desc_size)
            (same_bytes i p) bitmap_here (h.fits i p)))

  pub emptied_size : emptied.mem_size_bytes ≡ memory_bytes mem_map (size / desc_size) desc_size s
  unfolding emptied
  emptied_size = refl

  pub read_map_stages :
      read_map mem_map size desc_size s
      ≡ for_range (size / desc_size) 0 (release_entry mem_map desc_size) (reserve_all emptied)
  unfolding read_map emptied bitmap_here
  read_map_stages = simp (h.fresh, empty_map_lem mem_map (size / desc_size) desc_size s)

  -- What `readMap` leaves besides: a sound allocator with its bitmap in the largest segment, and all other
  -- memory as it was.
  pub read_map-Keeps :
      IsSound (read_map mem_map size desc_size s)
      × ((read_map mem_map size desc_size s).bitmap
          ≡ first_bitmap mem_map (size / desc_size) desc_size s)
      × ((x : ℕ)
          → (x < (first_bitmap mem_map (size / desc_size) desc_size s).buffer)
            ⊎ ((first_bitmap mem_map (size / desc_size) desc_size s).buffer
                  + (first_bitmap mem_map (size / desc_size) desc_size s).size
                < x)
          → (read_map mem_map size desc_size s).ram x ≡ s.ram x)
  unfolding emptied bitmap_here
  read_map-Keeps =
      let books = Keeps-trans all_locked.books released.books in
      rw read_map_stages (
        books.sound,
        books.same_bitmap,
        λ x away.
            books.frame x away
            ∙ zeroed_frame bitmap_here.buffer bitmap_here.size s.ram h.bytes x away,
      )

  -- After `readMap` on a fresh allocator a page of memory is free exactly if a conventional
  -- descriptor covers it, the pages of the bitmap itself not excepted. Memory is less than two
  -- gigabytes, and the descriptors stand outside the bitmap that is laid out and describe ranges of
  -- at most 2 ^ 19 pages below 2 ^ 64.
  pub read_map_free :
      (j : ℕ)
      → j ≤ memory_bytes mem_map (size / desc_size) desc_size s / 4096
      → locked (read_map mem_map size desc_size s) j
        ≡ not (some_covers s.ram mem_map desc_size (size / desc_size) j)
  unfolding emptied bitmap_here
  read_map_free j p = rw read_map_stages (
      ground (
        arith,
        released.bits j (rw span_same (omega arith)),
        all_locked.bits j p,
        some_covers_same s.ram (reserve_all emptied).ram mem_map desc_size (size / desc_size) j
            (λ i q.
              covers_same s.ram (reserve_all emptied).ram (descriptor mem_map i desc_size)
                (same_bytes i q) j),
      ))
    where
      span_same : span (reserve_all emptied) ≡ span emptied
      span_same = ap (λ (b : Bitmap). b.size * 8) all_locked.books.same_bitmap
