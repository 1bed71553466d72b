-- ===== src/Allocator/Statics.antt =====
-- The static `memSizeBytes`, which the operations on pages leave alone.
use red_x_os.Common.{
  ℕ, ◌+◌, ◌*◌, ◌/◌, ◌≡◌, ◌∙◌, refl, arith, add64, ltb, true, inl, inr, Bool-cases, ◌==◌,
}
use red_x_os.Common.Loops.{for_range, for_range_inv}
use red_x_os.Allocator.{
  Allocator, lock, reserve, release, locks, int_pages, reserves, releases, descriptor, desc_type,
  desc_phys_addr, desc_pages, get_memory_size, reserve_all, release_entry, read_map,
}
use red_x_os.Allocator.EmptyMap.{memory_bytes}
use red_x_os.Allocator.FreeMap.{MapFits, emptied, emptied_size, read_map_stages}

-- Each keeps the size that was found.
abbrev pub SameSize : Allocator → Allocator → Type 0
SameSize s t = t.mem_size_bytes ≡ s.mem_size_bytes

pub lock-SameSize : (a : ℕ) (s : Allocator) → SameSize s (lock a s)
unfolding lock
lock-SameSize a s = ground arith

reserve-SameSize : (a : ℕ) (s : Allocator) → SameSize s (reserve a s)
unfolding reserve
reserve-SameSize a s = ground arith

release-SameSize : (a : ℕ) (s : Allocator) → SameSize s (release a s)
unfolding release
release-SameSize a s = ground arith

loop-SameSize :
    (n : ℕ) (body : ℕ → Allocator → Allocator) (s : Allocator)
    → ((k : ℕ) (t : Allocator) → SameSize t (body k t))
    → SameSize s (for_range n 0 body s)
loop-SameSize n body s one =
    for_range_inv (λ k t. SameSize s t) body n 0 n s (omega arith) (λ k t p q r. one k t ∙ r) refl

pub locks-SameSize : (a n : ℕ) (s : Allocator) → SameSize s (locks a n s)
unfolding locks
locks-SameSize a n s =
    loop-SameSize n (λ i. lock (add64 a (i * 4096))) s (λ k t. lock-SameSize (add64 a (k * 4096)) t)

reserves-SameSize : (a n : ℕ) (s : Allocator) → SameSize s (reserves a n s)
unfolding reserves
reserves-SameSize a n s =
    loop-SameSize n (λ i. reserve (add64 a (int_pages i))) s
      (λ k t. reserve-SameSize (add64 a (int_pages k)) t)

releases-SameSize : (a n : ℕ) (s : Allocator) → SameSize s (releases a n s)
unfolding releases
releases-SameSize a n s =
    loop-SameSize n (λ i. release (add64 a (int_pages i))) s
      (λ k t. release-SameSize (add64 a (int_pages k)) t)

entry-SameSize :
    (mem_map desc_size i : ℕ) (t : Allocator) → SameSize t (release_entry mem_map desc_size i t)
unfolding release_entry
entry-SameSize mem_map desc_size i t =
    let desc = descriptor mem_map i desc_size in
    elim (Bool-cases (desc_type t.ram desc == 7)) [
      | inl e ↦ rw e (releases-SameSize (desc_phys_addr t.ram desc) (desc_pages t.ram desc) t)
      | inr e ↦ rw e refl
    ]

-- After `readMap` the static is what the map adds up to.
pub read_map-SameSize :
    (mem_map size desc_size : ℕ) {s : Allocator}
    → MapFits mem_map size desc_size s
    → (read_map mem_map size desc_size s).mem_size_bytes
      ≡ memory_bytes mem_map (size / desc_size) desc_size s
unfolding reserve_all
read_map-SameSize mem_map size desc_size h =
    let e = emptied mem_map size desc_size h in
    let own = locks e.bitmap.buffer (e.bitmap.size / 4096 + 1) e in
    rw (read_map_stages mem_map size desc_size h) (
      loop-SameSize (size / desc_size) (release_entry mem_map desc_size)
        (reserves 0 (e.mem_size_bytes / 4096 + 1) own) (λ k t. entry-SameSize mem_map desc_size k t)
      ∙ reserves-SameSize 0 (e.mem_size_bytes / 4096 + 1) own
      ∙ locks-SameSize e.bitmap.buffer (e.bitmap.size / 4096 + 1) e
      ∙ emptied_size mem_map size desc_size h)

-- `getMemorySize` of a size that is known changes nothing.
pub get_memory_size-known :
    (mem_map entries desc_size : ℕ) (s : Allocator)
    → ltb 0 s.mem_size_bytes ≡ true
    → get_memory_size mem_map entries desc_size s ≡ s
unfolding get_memory_size
get_memory_size-known mem_map entries desc_size s known = rw known refl
