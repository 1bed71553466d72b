-- ===== src/Allocator/ReadMap.antt =====
-- `readMap`: which pages are free once the firmware's memory map has been read.
use red_x_os.Common.{ℕ, zero, suc, ◌+◌, ◌*◌, ◌/◌, ◌^◌, ◌≤◌, ◌<◌, ◌≡◌, ◌⊎◌, refl, ap, arith}
use native.Mathlib.Numerals.{add-one}
use red_x_os.Common.{inl, inr, Bool-cases, Bool, false, ◌&&◌, ◌||◌, leb, ltb, ◌==◌, if◌then◌else◌}
use red_x_os.Common.Ram.{Ram, load32_same}
use red_x_os.Common.Ram.{load64_same}
use red_x_os.Common.Loops.{for_range, for_range_inv}
use red_x_os.Bitmap.{Bitmap}
use red_x_os.Allocator.{Allocator, locked, releases, descriptor, desc_type}
use red_x_os.Allocator.{desc_phys_addr, desc_pages}
use red_x_os.Allocator.{release_entry}
use red_x_os.Allocator.Pages.{span, IsSound}
use red_x_os.Allocator.Books.{Keeps, Keeps-refl, Keeps-trans}
use red_x_os.Allocator.Ranges.{AssignsRange}
use red_x_os.Allocator.Ranges.{releases-AssignsRange}

-- Descriptor `desc` is of conventional memory, and page `j` lies in its range.
abbrev pub covers : Ram → ℕ → ℕ → Bool
covers m desc j =
    (desc_type m desc == 7)
    && (leb (desc_phys_addr m desc / 4096) j
        && ltb j (desc_phys_addr m desc / 4096 + desc_pages m desc))

-- One of the first `n` descriptors covers page `j`.
abbrev pub some_covers : Ram → ℕ → ℕ → ℕ → ℕ → Bool
some_covers m mem_map desc_size zero j = false
some_covers m mem_map desc_size (suc n) j =
    covers m (descriptor mem_map n desc_size) j || some_covers m mem_map desc_size n j

-- The descriptor at `desc` stands outside the bitmap, with one byte to spare, and the range that
-- it describes is one that `releases` counts through.
pub record Fits (m : Ram) (b : Bitmap) (desc : ℕ) : Type 0 where
  pub apart : (desc + 32 ≤ b.buffer) ⊎ (b.buffer + b.size < desc)
  pub few : desc_pages m desc ≤ 2 ^ 19
  pub top : desc_phys_addr m desc + desc_pages m desc * 4096 ≤ 2 ^ 64

-- A descriptor outside the bitmap reads the same before and after.
module _ (m m' : Ram) (desc : ℕ) (same : (x : ℕ) → desc ≤ x → x < desc + 32 → m' x ≡ m x) where
  same_type : desc_type m' desc ≡ desc_type m desc
  unfolding desc_type
  same_type = load32_same desc m' m (λ x p q. same x p (omega arith))

  same_phys_addr : desc_phys_addr m' desc ≡ desc_phys_addr m desc
  unfolding desc_phys_addr
  same_phys_addr = load64_same (desc + 8) m' m (λ x p q. same x (omega arith) (omega arith))

  same_pages : desc_pages m' desc ≡ desc_pages m desc
  unfolding desc_pages
  same_pages = load64_same (desc + 24) m' m (λ x p q. same x (omega arith) (omega arith))

  pub covers_same : (j : ℕ) → covers m' desc j ≡ covers m desc j
  covers_same j = rw (same_type, same_phys_addr, same_pages)

  pub Fits-same : (b : Bitmap) → Fits m b desc → Fits m' b desc
  Fits-same b f = record {
    apart = f.apart;
    few = omega (arith, same_pages, f.few);
    top = omega (arith, same_pages, same_phys_addr, f.top);
  }

-- After the loop over the first `k` descriptors exactly the pages that they cover are free, of
-- those that were locked, and the books are kept.
pub record Released (mem_map desc_size k : ℕ) (r t : Allocator) : Type 0 where
  pub books : Keeps r t
  pub bits :
      (j : ℕ)
      → j ≤ span r
      → locked t j ≡ (if some_covers r.ram mem_map desc_size k j then false else locked r j)

module _ (mem_map desc_size i : ℕ) {t : Allocator} (sound : IsSound t)
    (few : desc_pages t.ram (descriptor mem_map i desc_size) ≤ 2 ^ 19)
    (top : desc_phys_addr t.ram (descriptor mem_map i desc_size)
        + desc_pages t.ram (descriptor mem_map i desc_size) * 4096
      ≤ 2 ^ 64) where
  range_released :
      let desc = descriptor mem_map i desc_size in
      AssignsRange false
        (desc_phys_addr t.ram desc / 4096)
        (desc_pages t.ram desc)
        t
        (releases (desc_phys_addr t.ram desc) (desc_pages t.ram desc) t)
  range_released =
      let desc = descriptor mem_map i desc_size in
      releases-AssignsRange (desc_phys_addr t.ram desc) (desc_pages t.ram desc) sound top few

  entry-Keeps : Keeps t (release_entry mem_map desc_size i t)
  unfolding release_entry
  entry-Keeps = elim (Bool-cases (desc_type t.ram (descriptor mem_map i desc_size) == 7)) [
    | inl e ↦ rw e range_released.books
    | inr e ↦ rw e (Keeps-refl sound)
  ]

  entry_bits :
      (j : ℕ)
      → j ≤ span t
      → locked (release_entry mem_map desc_size i t) j
        ≡ (if covers t.ram (descriptor mem_map i desc_size) j then false else locked t j)
  unfolding release_entry
  entry_bits j p = ground (arith, range_released.bits j p)

-- One more round of the loop.
module _ (mem_map desc_size k : ℕ) {r t : Allocator} (h : Released mem_map desc_size k r t)
    (fits : Fits r.ram r.bitmap (descriptor mem_map k desc_size)) where
  same_bytes :
      (x : ℕ)
      → descriptor mem_map k desc_size ≤ x
      → x < descriptor mem_map k desc_size + 32
      → t.ram x ≡ r.ram x
  same_bytes x p q = h.books.frame x (omega (arith, fits.apart))

  Fits-now : Fits t.ram r.bitmap (descriptor mem_map k desc_size)
  Fits-now = Fits-same r.ram t.ram (descriptor mem_map k desc_size) same_bytes r.bitmap fits

  span_now : span t ≡ span r
  span_now = ap (λ (b : Bitmap). b.size * 8) h.books.same_bitmap

  Released-suc : Released mem_map desc_size (suc k) r (release_entry mem_map desc_size k t)
  Released-suc = record {
    books =
        Keeps-trans h.books
          (entry-Keeps mem_map desc_size k h.books.sound Fits-now.few Fits-now.top);
    bits = λ j p. ground (
      arith,
      entry_bits mem_map desc_size k h.books.sound Fits-now.few Fits-now.top j (rw span_now p),
      covers_same r.ram t.ram (descriptor mem_map k desc_size) same_bytes j,
      h.bits j p,
    );
  }

-- The last loop of `readMap` frees exactly the pages that a conventional descriptor covers.
pub release_loop :
    (mem_map desc_size n : ℕ) (r : Allocator)
    → IsSound r
    → ((i : ℕ) → i < n → Fits r.ram r.bitmap (descriptor mem_map i desc_size))
    → Released mem_map desc_size n r (for_range n 0 (release_entry mem_map desc_size) r)
release_loop mem_map desc_size n r sound fits =
    for_range_inv (λ k t. Released mem_map desc_size k r t) (release_entry mem_map desc_size) n 0 n
      r (omega arith) (λ k t p q h. rw add-one (Released-suc mem_map desc_size k h (fits k q)))
      (record { books = Keeps-refl sound; bits = λ j p. refl })
