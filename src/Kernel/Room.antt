-- ===== src/Kernel/Room.antt =====
-- How many tables the loops of `memoryInit` ask for: at most three for each two megabytes.
use red_x_os.Common.{
  ℕ, zero, suc, ◌+◌, ◌-◌, ◌*◌, ◌/◌, ◌^◌, ◌≤◌, ◌<◌, ◌≡◌, ◌⊎◌, ◌∙◌, refl, ap, arith, Bool, true, some,
  ◌==◌, ltb, ◌||◌, add64, if◌then◌else◌, inl, inr, Bool-cases,
}
use native.Mathlib.Decide.{ℕ_discrete}
use red_x_os.Paging.{TableMan}
use red_x_os.Paging.Tree.{Tree}
use red_x_os.Paging.Console.{Clear}
use red_x_os.Paging.Walk.{translate}
use red_x_os.Paging.Grows.{map_page-three}
use red_x_os.Paging.Shared.{map_page-shared}
use red_x_os.Paging.Identity.{
  IdentityMaps, IdentityMaps-trans, IdentityMaps-same, IdentityMaps-none, maps_in, page_number,
}
use red_x_os.Kernel.{Kernel}
use red_x_os.Kernel.Pool.{map_at}
use red_x_os.Kernel.Memory.{map_loop, map_range}
use red_x_os.Kernel.Identity.{tables_of, in_range, map_at-IdentityMaps, round, done}

-- Pages were mapped to themselves, with no more than three tables for each of `n` stretches.
pub record MapsFew (test : ℕ → Bool) (n : ℕ) (s t : TableMan) : Type 0 where
  pub maps : IdentityMaps test s t
  pub few : t.pdi ≤ s.pdi + 3 * n

pub MapsFew-trans :
    {P Q : ℕ → Bool} {n m : ℕ} {s t u : TableMan}
    → MapsFew P n s t
    → MapsFew Q m t u
    → MapsFew (λ q. P q || Q q) (n + m) s u
MapsFew-trans f g = record {
  maps = IdentityMaps-trans f.maps g.maps;
  few = omega (arith, f.few, g.few);
}

-- The directory has room for three tables in each of `n` stretches.
abbrev pub RoomFor : ℕ → TableMan → Type 0
RoomFor n s = (s.pdi + 3 * n + 4) * 4096 ≤ s.dir_size

-- The stretches of two megabytes from `i` to `limit`, the first one not counted if it has its tables.
abbrev stretches : ℕ → ℕ → ℕ → ℕ
stretches new i limit = if ltb i limit then (limit - 1) / 2 ^ 21 - i / 2 ^ 21 + new else 0

abbrev pub regions : ℕ → ℕ → ℕ
regions first limit = stretches 1 first limit

-- A round in front of the others.
extended :
    (new i limit : ℕ) {n : ℕ} {s m u : TableMan}
    → IdentityMaps (λ q. q == page_number i) s m
    → m.pdi ≤ s.pdi + 3 * new
    → MapsFew (in_range (i + 4096) limit) n m u
    → new + n ≤ stretches new i limit
    → i < limit
    → limit ≤ 2 ^ 40
    → MapsFew (in_range i limit) (stretches new i limit) s u
extended new i limit first few rest count below small = record {
  maps = IdentityMaps-same (λ q. ground (arith, below)) (IdentityMaps-trans first rest.maps);
  few = omega (arith, few, rest.few, count);
}

module _ {D : Type 0} where
  -- A page in the two megabytes around `i` is mapped.
  abbrev Near : ℕ → Kernel D → Type 0
  Near i k =
      (v : ℕ) × (x : ℕ) × (v / 2 ^ 21 ≡ i / 2 ^ 21) × (translate k.ram k.tables.dir_addr v ≡ some x)

  map_at-three : (v p : ℕ) (k : Kernel D) → (map_at v p k).tables.pdi ≤ k.tables.pdi + 3
  unfolding map_at
  map_at-three v p k = map_page-three k.allocator.bitmap v p (tables_of k)

  map_at-Near :
      (v p : ℕ) (k : Kernel D)
      → Tree (tables_of k)
      → Clear (tables_of k)
      → Near v k
      → (map_at v p k).tables.pdi ≡ k.tables.pdi
  unfolding map_at
  map_at-Near v p k t c (w, x, near, there) =
      map_page-shared k.allocator.bitmap w v p x (tables_of k) t (inr c) there near

  -- One page needs three tables, or none.
  step_few :
      (new i : ℕ) (k : Kernel D)
      → Tree (tables_of k)
      → Clear (tables_of k)
      → (new ≡ 1) ⊎ ((new ≡ 0) × Near i k)
      → (map_at i i k).tables.pdi ≤ k.tables.pdi + 3 * new
  step_few new i k t c (inl e) = omega (arith, e, map_at-three i i k)
  step_few new i k t c (inr (e, near)) = omega (arith, e, map_at-Near i i k t c near)

  map_loop-MapsFew :
      (left new i limit : ℕ) (k : Kernel D)
      → Tree (tables_of k)
      → Clear (tables_of k)
      → limit ≤ 2 ^ 40
      → limit ≤ i + left * 4096
      → (new ≡ 1) ⊎ ((new ≡ 0) × Near i k)
      → RoomFor (stretches new i limit) (tables_of k)
      → MapsFew
          (in_range i limit)
          (stretches new i limit)
          (tables_of k)
          (tables_of (map_loop left i limit k))
  unfolding map_loop
  map_loop-MapsFew zero new i limit k t c small enough start room = record {
    maps = IdentityMaps-same (λ q. ground arith) (IdentityMaps-none t c);
    few = omega arith;
  }
  map_loop-MapsFew (suc left) new i limit k t c small enough start room =
      elim (Bool-cases (ltb i limit)) [
        | inr e ↦ rw (done left i limit k e) (record {
          maps = IdentityMaps-same (λ q. ground (arith, e)) (IdentityMaps-none t c);
          few = omega arith;
        })
        | inl e ↦
            let below : i < limit = ground (arith, e) in
            let next : add64 i 0x1000 ≡ i + 4096 = omega (arith, below, small) in
            let same =
              round left i limit k e ∙ ap (λ (j : ℕ). map_loop left j limit (map_at i i k)) next in
            let first =
              map_at-IdentityMaps i k t c (omega (arith, below, small)) (omega (arith, room)) in
            let few = step_few new i k t c start in
            elim (ℕ_discrete ((i + 4096) / 2 ^ 21) (i / 2 ^ 21)) [
              | yes near ↦
                  let here : (page_number i == page_number i) ≡ true = ground arith in
                  let count : new + stretches 0 (i + 4096) limit ≤ stretches new i limit =
                    ground (arith, below, near) in
                  let rest =
                    map_loop-MapsFew left 0 (i + 4096) limit (map_at i i k) first.tree first.clear
                      small (omega arith)
                      (inr (
                        refl,
                        (i, page_number i * 4096, omega (arith, near), maps_in first i here),
                      ))
                      (omega (arith, few, first.same_size, count, room)) in
                  rw same (extended new i limit first few rest count below small)
              | no far ↦
                  let count : new + stretches 1 (i + 4096) limit ≤ stretches new i limit =
                    ground (arith, below, far) in
                  let rest =
                    map_loop-MapsFew left 1 (i + 4096) limit (map_at i i k) first.tree first.clear
                      small (omega arith) (inl refl)
                      (omega (arith, few, first.same_size, count, room)) in
                  rw same (extended new i limit first few rest count below small)
            ]
      ]

  -- One of the loops of `memoryInit`.
  pub map_range-MapsFew :
      (first limit : ℕ) (k : Kernel D)
      → Tree (tables_of k)
      → Clear (tables_of k)
      → limit ≤ 2 ^ 40
      → RoomFor (regions first limit) (tables_of k)
      → MapsFew
          (in_range first limit)
          (regions first limit)
          (tables_of k)
          (tables_of (map_range first limit k))
  unfolding map_range
  map_range-MapsFew first limit k t c small room =
      map_loop-MapsFew (limit / 0x1000 + 1) 1 first limit k t c small (omega arith) (inl refl) room

  pub map_at-MapsFew :
      (v : ℕ) (k : Kernel D)
      → Tree (tables_of k)
      → Clear (tables_of k)
      → v < 2 ^ 40
      → RoomFor 1 (tables_of k)
      → MapsFew (λ q. q == page_number v) 1 (tables_of k) (tables_of (map_at v v k))
  map_at-MapsFew v k t c low room = record {
    maps = map_at-IdentityMaps v k t c low (omega (arith, room));
    few = omega (arith, map_at-three v v k);
  }
