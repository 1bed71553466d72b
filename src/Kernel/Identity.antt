-- ===== src/Kernel/Identity.antt =====
-- A page that `memoryInit` maps to itself, and the rounds of its loops.
use red_x_os.Common.{
  ℕ, suc, ◌+◌, ◌-◌, ◌*◌, ◌/◌, ◌≤◌, ◌<◌, ◌^◌, ◌≡◌, refl, Bool, true, false, ◌==◌, ◌&&◌, ltb, leb,
  add64,
}
use red_x_os.Paging.{TableMan}
use red_x_os.Paging.Tree.{Tree}
use red_x_os.Paging.Console.{Clear}
use red_x_os.Paging.Identity.{IdentityMaps, map_page-IdentityMaps, page_number}
use red_x_os.Kernel.{Kernel}
use red_x_os.Kernel.Pool.{map_at}
use red_x_os.Kernel.Memory.{map_loop}

-- The page tables, in the kernel's memory, with its renderer.
abbrev pub tables_of : {D : Type 0} → Kernel D → TableMan
tables_of k = record k.tables { ram = k.ram; screen = k.basic_render }

-- The pages from that of `first` on, up to `limit`.
abbrev pub in_range : ℕ → ℕ → ℕ → Bool
in_range first limit q =
    leb (first / 4096) q && ltb q (first / 4096 + (limit + 4095 - first) / 4096)

module _ {D : Type 0} where
  abbrev pub HasRoom : Kernel D → Type 0
  HasRoom k = (k.tables.pdi + 4) * 4096 ≤ k.tables.dir_size

  pub map_at-IdentityMaps :
      (v : ℕ) (k : Kernel D)
      → Tree (tables_of k)
      → Clear (tables_of k)
      → v < 2 ^ 40
      → HasRoom k
      → IdentityMaps (λ q. q == page_number v) (tables_of k) (tables_of (map_at v v k))
  unfolding map_at
  map_at-IdentityMaps v k t c low room = map_page-IdentityMaps k.allocator.bitmap v t c low room

  pub round :
      (left i limit : ℕ) (k : Kernel D)
      → ltb i limit ≡ true
      → map_loop (suc left) i limit k ≡ map_loop left (add64 i 0x1000) limit (map_at i i k)
  unfolding map_loop
  round left i limit k e = rw (map_loop, e) refl

  pub done :
      (left i limit : ℕ) (k : Kernel D) → ltb i limit ≡ false → map_loop (suc left) i limit k ≡ k
  unfolding map_loop
  done left i limit k e = rw (map_loop, e) refl
