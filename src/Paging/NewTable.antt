-- ===== src/Paging/NewTable.antt =====
-- One level of `map`: the tree before and after.
use red_x_os.Common.{
  ℕ, ◌+◌, ◌*◌, ◌%◌, ◌^◌, ◌≤◌, ◌<◌, ◌≡◌, ◌⊎◌, ◌∙◌, refl, ap, arith, none, some, true, false, ◌==◌,
  ◌&&◌, if◌then◌else◌, inl, inr, Bool-cases,
}
use red_x_os.Common.Ram.{
  Ram, HoldsBytes, load64, store64, load64-lt, load64-store64, load64-store64_apart,
  store64-HoldsBytes,
}
use red_x_os.Paging.{TableMan, p_flag, get, get_addr, entry_at, set_bytes, next_table}
use red_x_os.Paging.Entry.{get_lem}
use red_x_os.Paging.Entered.{entered, entered-lt, get-entered, get_addr-entered}
use red_x_os.Paging.Walk.{target, follow}
use red_x_os.Paging.Tree.{
  Tree, table_at, set_bytes_lem, set_bytes-HoldsBytes, load64-set_bytes_inside,
  load64-set_bytes_apart, allocate_entry_lem,
}
use red_x_os.Common.Ram.{store64_apart}
use red_x_os.Paging.Tree.{set_bytes_lem}
use red_x_os.Common.{◌⊎◌}

-- A word that is stored into one entry, read at any other.
pub load64-entry :
    (dir n i n' i' w : ℕ) (m : Ram)
    → i < 512
    → i' < 512
    → w < 2 ^ 64
    → load64 (store64 (entry_at (dir + n * 4096) i) w m) (entry_at (dir + n' * 4096) i')
      ≡ (if n == n' && (i == i') then w else load64 m (entry_at (dir + n' * 4096) i'))
load64-entry dir n i n' i' w m h h' word = elim (Bool-cases (n == n' && (i == i'))) [
  | inl e ↦
      let same_n : n ≡ n' = ground (arith, e) in
      let same_i : i ≡ i' = ground (arith, e) in
      rw (same_n, same_i) (ground (arith, load64-store64 (entry_at (dir + n' * 4096) i') w m word))
  | inr e ↦ rw e (
      load64-store64_apart (entry_at (dir + n * 4096) i) (entry_at (dir + n' * 4096) i') w m
        (ground (arith, e)))
]

pub target_present : (w : ℕ) → get p_flag w ≡ true → target w ≡ some (get_addr w)
target_present w h = rw (target, h) refl

pub target_absent : (w : ℕ) → get p_flag w ≡ false → target w ≡ none
target_absent w h = rw (target, h) refl

-- An entry of `map` leads to the table whose address it was given.
pub target-entered :
    (a pde : ℕ) → pde < 2 ^ 64 → a % 4096 ≡ 0 → a < 2 ^ 40 → target (entered a pde) ≡ some a
target-entered a pde word aligned top =
    let address : get_addr (entered a pde) ≡ a = omega (arith, get_addr-entered a pde word) in
    target_present (entered a pde) (get-entered a pde word) ∙ ap (λ (x : ℕ). some x) address

pub target-zero : target 0 ≡ none
target-zero = target_absent 0 (get_lem p_flag 0)

module _ {s : TableMan} (t : Tree s) (n i : ℕ) (used : n ≤ s.pdi) (hi : i < 512)
    (high : t.level n < 3) (room : (s.pdi + 2) * 4096 ≤ s.dir_size) where
  pde : ℕ
  pde = load64 s.ram (entry_at (table_at s n) i)

  new : ℕ
  new = table_at s (s.pdi + 1)

  -- Memory and the manager with a new table in entry `i` of table `n`.
  pub with_table : Ram
  with_table = store64 (entry_at (table_at s n) i) (entered new pde) (set_bytes new 0 0x1000 s.ram)

  abbrev pub grown : TableMan
  grown = record s { pdi = s.pdi + 1; ram = with_table }

  word : pde < 2 ^ 64
  unfolding pde
  word = load64-lt s.ram (entry_at (table_at s n) i) t.bytes

  pub with_table-HoldsBytes : HoldsBytes with_table
  unfolding with_table
  with_table-HoldsBytes =
      store64-HoldsBytes (entry_at (table_at s n) i) (entered new pde)
        (set_bytes new 0 0x1000 s.ram)
        (set_bytes-HoldsBytes new 0 0x1000 s.ram (omega arith) t.bytes)

  new_aligned : new % 4096 ≡ 0
  unfolding new
  new_aligned = omega (arith, t.aligned)

  new_below : new < 2 ^ 40
  unfolding new
  new_below = omega (arith, t.top, t.inside, room)

  pub next_table-absent :
      get p_flag (load64 s.ram (entry_at (table_at s n) i)) ≡ false
      → next_table (table_at s n) i s ≡ (table_at s (s.pdi + 1), grown)
  unfolding next_table with_table pde new
  next_table-absent absent = rw (absent, allocate_entry_lem s t.top t.small room) refl

  entry_now :
      (n' i' : ℕ)
      → n' ≤ s.pdi
      → i' < 512
      → load64 with_table (entry_at (table_at s n') i') ≡ (
          if n == n' && (i == i')
          then entered new pde
          else load64 s.ram (entry_at (table_at s n') i'))
  unfolding with_table new
  entry_now n' i' h h' =
      load64-entry s.dir_addr n i n' i' (entered new pde) (set_bytes new 0 0x1000 s.ram) hi h'
        (entered-lt new pde word)
      ∙ ap (λ (w : ℕ). if n == n' && (i == i') then entered new pde else w)
          (load64-set_bytes_apart new 0x1000 s.ram (entry_at (table_at s n') i')
            (inl (omega arith)))

  -- What was there stays, but for the one entry.
  pub follow_now :
      (n' i' : ℕ)
      → n' ≤ s.pdi
      → i' < 512
      → follow with_table (table_at s n') i' ≡ (
          if n == n' && (i == i')
          then some (table_at s (s.pdi + 1))
          else follow s.ram (table_at s n') i')
  unfolding new
  follow_now n' i' h h' = elim (Bool-cases (n == n' && (i == i'))) [
    | inl e ↦ rw e (
        ap (λ (w : ℕ). target w) (entry_now n' i' h h' ∙ rw e refl)
        ∙ target-entered new pde word new_aligned new_below)
    | inr e ↦ rw e (ap (λ (w : ℕ). target w) (entry_now n' i' h h' ∙ rw e refl))
  ]

  -- The new table leads nowhere.
  pub follow_new : (j : ℕ) → j < 512 → follow with_table (table_at s (s.pdi + 1)) j ≡ none
  unfolding with_table new
  follow_new j h =
      ap (λ (w : ℕ). target w)
        (load64-entry s.dir_addr n i (s.pdi + 1) j (entered new pde) (set_bytes new 0 0x1000 s.ram)
            hi h (entered-lt new pde word)
          ∙ ground (
            arith,
            load64-set_bytes_inside new 0x1000 s.ram (entry_at new j) (omega arith) (omega arith),
          ))
      ∙ target-zero

  -- Memory outside the directory.
  pub with_table_outside :
      (x : ℕ) → (x < s.dir_addr) ⊎ (s.dir_addr + s.dir_size ≤ x) → with_table x ≡ s.ram x
  unfolding with_table new
  with_table_outside x away =
      store64_apart (entry_at (table_at s n) i) (entered new pde) (set_bytes new 0 0x1000 s.ram) x
        (omega (arith, t.inside))
      ∙ ground (arith, t.inside, set_bytes_lem new 0 0x1000 s.ram x)
