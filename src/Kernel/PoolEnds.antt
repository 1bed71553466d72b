-- ===== src/Kernel/PoolEnds.antt =====
-- What `getPool` gives: free pages, one behind the other from `VAI` on.
use red_x_os.Common.{
  ℕ, zero, suc, ◌+◌, ◌*◌, ◌%◌, ◌^◌, ◌≤◌, ◌<◌, ◌≡◌, refl, sym, ap, arith, some, Bool, true, false,
  if◌then◌else◌, inl, inr,
}
use red_x_os.Allocator.{page_limit}
use red_x_os.Allocator.GetPage.{OutOfRam, get_page_lem}
use red_x_os.Paging.Identity.{page_number}
use red_x_os.Kernel.{Kernel, Ended, running, halted, then_run}
use red_x_os.Kernel.Pool.{take_page, skip_page, pool_round, pool_rounds, get_pool, pool_pages}
use red_x_os.Kernel.Pooled.{
  alloc_of, is_locked, finds, Works, OnePage, k3, round-k3, pool_round-OnePage,
}
use red_x_os.Kernel.PoolPages.{Pooled, in_pool, extend}

-- Every page that `getPage` could give was given.
pub AllLocked : {D : Type 0} → Kernel D → Type 0
AllLocked k = (q : ℕ) → q < page_limit (alloc_of k) → is_locked k q ≡ true

pub data PoolEnds {D : Type 0} (n : ℕ) (k : Kernel D) : Ended D (Unit {0}) → Type 0 where
  pooled : {k' : Kernel D} → Pooled n k k' → PoolEnds n k (running tt k')
  no_page : {k' : Kernel D} → AllLocked k' → PoolEnds n k (halted k')

module _ {D : Type 0} where
  frozen :
      (k : Kernel D)
      → OutOfRam (alloc_of k)
      → pool_round k
        ≡ halted (record k { allocator = record (alloc_of k) { page_i = page_limit (alloc_of k) } })
  unfolding pool_round take_page
  frozen k out = rw (pool_round, take_page, out.panics) refl

  rounds_more :
      (n : ℕ) (k : Kernel D) → pool_rounds (suc n) k ≡ then_run (λ _. pool_rounds n) (pool_round k)
  unfolding pool_rounds
  rounds_more n k = refl

  extend_ends :
      {n p : ℕ} {k m : Kernel D} {r : Ended D (Unit {0})}
      → OnePage k m p
      → k.vai + suc n * 4096 ≤ 2 ^ 48
      → PoolEnds n m r
      → PoolEnds (suc n) k r
  extend_ends first high (pooled rest) = pooled (extend first rest high)
  extend_ends first high (no_page all) = no_page all

  pool_rounds-PoolEnds :
      (n : ℕ) (k : Kernel D)
      → Works k
      → k.vai + n * 4096 ≤ 2 ^ 48
      → (k.tables.pdi + 3 * n + 1) * 4096 ≤ k.tables.dir_size
      → PoolEnds n k (pool_rounds n k)
  unfolding pool_rounds AllLocked
  pool_rounds-PoolEnds zero k w high room = pooled (record {
    frames = λ i. 0;
    were_free = λ i h. absurd (omega arith);
    are_locked = λ i h. absurd (omega arith);
    distinct = λ i j h h'. absurd (omega arith);
    below = λ i h. absurd (omega arith);
    keeps = λ q h e. e;
    maps = λ v.
        let away : in_pool k 0 (page_number v) ≡ false = ground arith in
        sym (ap (λ (b : Bool). if b then some (0 * 4096 % 2 ^ 40) else finds k v) away);
    works = w;
    moves = omega arith;
    same_bitmap = refl;
    same_ports = refl;
    same_registers = refl;
  })
  pool_rounds-PoolEnds (suc n) k w high room = elim (get_page_lem w.sound w.some_bits) [
    | inr out ↦ rw (rounds_more n k, frozen k out) (no_page out.all_locked)
    | inl (p, g) ↦
        let r = pool_round-OnePage k w p g (omega arith) in
        rw (rounds_more n k, round-k3 k w p g)
          (extend_ends r high (
            pool_rounds-PoolEnds n (k3 k w p g) r.works (omega (arith, r.moves))
              (omega (arith, r.three, r.same_size))))
  ]

  -- How `getPool` ends: with the old `VAI`, a pool of `n` pages there, and `VAI` one page behind it; or
  -- in the panic, when no page is left.
  pub data PoolGiven (n : ℕ) (k : Kernel D) : Ended D ℕ → Type 0 where
    given : {m : Kernel D} → Pooled n k m → PoolGiven n k (running k.vai (skip_page m))
    none_left : {m : Kernel D} → AllLocked m → PoolGiven n k (halted m)

  ends-PoolGiven :
      (n : ℕ) (k : Kernel D) (r : Ended D (Unit {0}))
      → PoolEnds n k r
      → PoolGiven n k (then_run (λ _ m. running k.vai (skip_page m)) r)
  ends-PoolGiven n k r (pooled h) = given h
  ends-PoolGiven n k r (no_page h) = none_left h

  -- If the allocator is sound, the tables form a tree, the two keep apart, the pool ends below 2 ^ 48 and
  -- the directory has room for three tables for each page, then `getPool` gives the old `VAI`, from which
  -- on stand as many pages as the size asks for: each was free, is locked now, and is mapped once in
  -- the pool; pages outside the pool stay where they were. Or no page was left, and the kernel
  -- panics.
  pub get_pool-PoolGiven :
      (size : ℕ) (k : Kernel D)
      → Works k
      → k.vai + pool_pages size * 4096 ≤ 2 ^ 48
      → (k.tables.pdi + 3 * pool_pages size + 1) * 4096 ≤ k.tables.dir_size
      → PoolGiven (pool_pages size) k (get_pool size k)
  unfolding get_pool
  get_pool-PoolGiven size k w high room =
      ends-PoolGiven (pool_pages size) k (pool_rounds (pool_pages size) k)
        (pool_rounds-PoolEnds (pool_pages size) k w high room)
