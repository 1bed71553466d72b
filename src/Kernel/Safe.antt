-- ===== src/Kernel/Safe.antt =====
-- No pool is given a page that `memoryInit` locks.
use red_x_os.Common.{
  ℕ, ◌+◌, ◌*◌, ◌/◌, ◌^◌, ◌≤◌, ◌<◌, ◌≡◌, ◌∙◌, refl, sym, ap, arith, Bool, true, false, not, ◌||◌,
  inl, inr, Bool-cases, sub64,
}
use red_x_os.Bitmap.{Bitmap}
use red_x_os.Allocator.{page_limit}
use red_x_os.Allocator.ReadMap.{some_covers}
use red_x_os.Kernel.{Kernel, KernelParameters, Ended, running, halted}
use red_x_os.Kernel.Pool.{skip_page, get_pool, pool_pages}
use red_x_os.Kernel.Locked.{locks_own}
use red_x_os.Kernel.Handed.{memory, Bootable}
use red_x_os.Kernel.Initialised.{Initialised, memory_init-Initialised}
use red_x_os.Kernel.Memory.{memory_init}
use red_x_os.Kernel.Pooled.{alloc_of, is_locked, Works}
use red_x_os.Kernel.PoolPages.{Pooled}
use red_x_os.Kernel.PoolEnds.{PoolGiven, given, none_left, AllLocked, get_pool-PoolGiven}

clash : {b : Bool} → b ≡ true → b ≡ false → ⊥
clash e f = cc

-- A page that is not locked is not one that `memoryInit` locks, and is covered.
open_page : (own covered : Bool) → (own || not covered) ≡ false → (own ≡ false) × (covered ≡ true)
open_page true covered e = cc
open_page false true e = (refl, refl)
open_page false false e = cc

module _ {D : Type 0} where
  -- Any number of calls of `getPool` that came back, one behind the other.
  pub data Pools (k : Kernel D) : Kernel D → Type 0 where
    first : Pools k k
    another : {n : ℕ} {k' m : Kernel D} → Pools k k' → Pooled n k' m → Pools k (skip_page m)

  -- The bitmap stays where it is, and what is locked stays locked.
  record StillLocked (k k' : Kernel D) : Type 0 where
    same_bitmap : k'.allocator.bitmap ≡ k.allocator.bitmap
    keeps : (q : ℕ) → q < page_limit (alloc_of k) → is_locked k q ≡ true → is_locked k' q ≡ true

  same_limit :
      (k k' : Kernel D)
      → k'.allocator.bitmap ≡ k.allocator.bitmap
      → page_limit (alloc_of k') ≡ page_limit (alloc_of k)
  same_limit k k' same = ap (λ (b : Bitmap). page_limit (record (alloc_of k) { bitmap = b })) same

  -- A pool leaves the allocator and the tables in order.
  Pools-Works : {k k' : Kernel D} → Works k → Pools k k' → Works k'
  Pools-Works w first = w
  Pools-Works w (another before pool) = record {
    sound = pool.works.sound;
    some_bits = pool.works.some_bits;
    tree = pool.works.tree;
    apart = pool.works.apart;
  }

  Pools-StillLocked : {k k' : Kernel D} → Pools k k' → StillLocked k k'
  Pools-StillLocked first = record { same_bitmap = refl; keeps = λ q h e. e }
  Pools-StillLocked {k} (another {n} {k'} {m} before pool) =
      let still = Pools-StillLocked before in
      record {
        same_bitmap = pool.same_bitmap ∙ still.same_bitmap;
        keeps = λ q h e.
            pool.keeps q (omega (arith, h, same_limit k k' still.same_bitmap)) (still.keeps q h e);
      }

  -- A pool whose pages, as far as they lie in memory, are the firmware's free memory and none that
  -- `memoryInit` locks; or no page was left.
  pub data SafePool (start size : ℕ) (p : KernelParameters) (k0 k : Kernel D)
      : Ended D ℕ → Type 0 where
    safe_pool :
        {n : ℕ} {m : Kernel D} (pool : Pooled n k m)
        → ((i : ℕ)
            → i < n
            → pool.frames i ≤ memory p k0 / 4096
            → (locks_own start size p (pool.frames i) ≡ false)
              × (some_covers k0.ram p.map p.desc_size (p.map_size / p.desc_size) (pool.frames i)
                  ≡ true))
        → SafePool start size p k0 k (running k.vai (skip_page m))
    no_pool : {m : Kernel D} → AllLocked m → SafePool start size p k0 k (halted m)

  module _ {start size : ℕ} {p : KernelParameters} {k0 k k' : Kernel D}
      (init : Initialised start size p k0 k) (before : Pools k k') where
    -- What was given was free all the way.
    never_locked :
        (q : ℕ) → q < page_limit (alloc_of k') → is_locked k' q ≡ false → is_locked k q ≡ false
    never_locked q below free =
        let still = Pools-StillLocked before in
        elim (Bool-cases (is_locked k q)) [
          | inl e ↦ absurd (
              clash (still.keeps q (omega (arith, below, same_limit k k' still.same_bitmap)) e)
                free)
          | inr e ↦ e
        ]

    ends-SafePool : {n : ℕ} (r : Ended D ℕ) → PoolGiven n k' r → SafePool start size p k0 k' r
    ends-SafePool r (given pool) = safe_pool pool (λ i h inside.
        open_page (locks_own start size p (pool.frames i))
          (some_covers k0.ram p.map p.desc_size (p.map_size / p.desc_size) (pool.frames i))
          (sym (init.locks (pool.frames i) inside)
            ∙ never_locked (pool.frames i) (pool.below i h) (pool.were_free i h)))
    ends-SafePool r (none_left all) = no_pool all

-- From a kernel that `memoryInit` left, on what the loader has to hand over, and after any number
-- of pools: the next pool's pages, as far as they lie in memory, are pages that a conventional
-- descriptor covers and none that `memoryInit` locks for the kernel, the stack, the directory, the
-- frame buffer and the parameters, though a page of the bitmap can be among them; or no page is
-- left. The tables have room, and the pool ends below 2 ^ 48.
pub get_pool-SafePool :
    {D : Type 0} (kernel_start kernel_end : ℕ) (p : KernelParameters) (k0 : Kernel D)
    {k' : Kernel D}
    → Bootable kernel_start (sub64 kernel_end kernel_start) p k0
    → Pools (memory_init kernel_start kernel_end p k0) k'
    → (bytes : ℕ) → k'.vai + pool_pages bytes * 4096 ≤ 2 ^ 48
    → (k'.tables.pdi + 3 * pool_pages bytes + 1) * 4096 ≤ k'.tables.dir_size
    → SafePool kernel_start (sub64 kernel_end kernel_start) p k0 k' (get_pool bytes k')
get_pool-SafePool kernel_start kernel_end p k0 {k'} boot before bytes high room =
    let init = memory_init-Initialised kernel_start kernel_end p k0 boot in
    ends-SafePool init before (get_pool bytes k')
      (get_pool-PoolGiven bytes k' (Pools-Works init.works before) high room)
