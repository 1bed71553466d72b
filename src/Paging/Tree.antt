-- ===== src/Paging/Tree.antt =====
-- The tables form a tree of four levels: the directory, and the tables that `allocateEntry` gave.
use red_x_os.Common.{
  ℕ, suc, ◌+◌, ◌*◌, ◌%◌, ◌^◌, ◌≤◌, ◌<◌, ◌≡◌, ◌⊎◌, ◌∙◌, not, arith, none, some, ◌&&◌, if◌then◌else◌,
}
use red_x_os.Common.{ltb}
use red_x_os.Common.Ram.{Ram, HoldsBytes, store8, store8_lem, load64, load64_same, load64-zero}
use red_x_os.Common.Loops.{for_range_inv}
use red_x_os.Allocator.{int_pages}
use red_x_os.Paging.{TableMan, set_bytes, allocate_entry}
use red_x_os.Paging.Walk.{follow}

-- Table number `n`; the directory is number 0.
abbrev pub table_at : TableMan → ℕ → ℕ
table_at s n = s.dir_addr + n * 4096

-- Entry `i` of table `n` leads nowhere, or to a table one level below that no other entry leads to.
pub record Child (s : TableMan) (level parent slot : ℕ → ℕ) (n i : ℕ) : Type 0 where
  pub c : ℕ
  pub used : c ≤ s.pdi
  pub below : level c ≡ suc (level n)
  pub from : parent c ≡ n
  pub place : slot c ≡ i
  pub leads : follow s.ram (table_at s n) i ≡ some (table_at s c)

-- The directory's memory is aligned and lies below 2 ^ 40, and the tables in use lie inside it.
pub record Tree (s : TableMan) : Type 0 where
  pub bytes : HoldsBytes s.ram
  pub aligned : s.dir_addr % 4096 ≡ 0
  pub top : s.dir_addr + s.dir_size ≤ 2 ^ 40
  pub small : s.dir_size ≤ 2 ^ 31
  pub inside : (s.pdi + 1) * 4096 ≤ s.dir_size
  pub level : ℕ → ℕ
  pub parent : ℕ → ℕ
  pub slot : ℕ → ℕ
  pub root : level 0 ≡ 0
  pub children :
      (n i : ℕ)
      → n ≤ s.pdi
      → i < 512
      → level n < 3
      → (follow s.ram (table_at s n) i ≡ none) ⊎ Child s level parent slot n i

-- Memory after `set`.
pub set_bytes_lem :
    (a v c : ℕ) (m : Ram) (x : ℕ)
    → v < 256
    → set_bytes a v c m x ≡ (if not (ltb x a) && ltb x (a + c) then v else m x)
unfolding set_bytes
set_bytes_lem a v c m x h =
    for_range_inv (λ k t. t x ≡ (if not (ltb x a) && ltb x (a + k) then v else m x))
      (λ i. store8 (a + i) v) c 0 c m (omega arith)
      (λ k t p q r. ground (arith, store8_lem (a + k) v t x)) (ground arith)

pub set_bytes-HoldsBytes :
    (a v c : ℕ) (m : Ram) → v < 256 → HoldsBytes m → HoldsBytes (set_bytes a v c m)
set_bytes-HoldsBytes a v c m h b x = ground (arith, set_bytes_lem a v c m x h, b x)

-- A word of zeros.
pub load64-set_bytes_inside :
    (a c : ℕ) (m : Ram) (x : ℕ) → a ≤ x → x + 8 ≤ a + c → load64 (set_bytes a 0 c m) x ≡ 0
load64-set_bytes_inside a c m x p q =
    load64_same x (set_bytes a 0 c m) (λ y. 0) (λ y r s. ground (arith, set_bytes_lem a 0 c m y))
    ∙ load64-zero x

pub load64-set_bytes_apart :
    (a c : ℕ) (m : Ram) (x : ℕ)
    → (x + 8 ≤ a) ⊎ (a + c ≤ x)
    → load64 (set_bytes a 0 c m) x ≡ load64 m x
load64-set_bytes_apart a c m x away =
    load64_same x (set_bytes a 0 c m) m (λ y r s. ground (arith, set_bytes_lem a 0 c m y))

-- `allocateEntry` gives the next table, as long as the directory has room for it.
pub allocate_entry_lem :
    (s : TableMan)
    → s.dir_addr + s.dir_size ≤ 2 ^ 40
    → s.dir_size ≤ 2 ^ 31
    → (s.pdi + 2) * 4096 ≤ s.dir_size
    → allocate_entry s ≡ (table_at s (s.pdi + 1), record s { pdi = s.pdi + 1 })
unfolding allocate_entry int_pages
allocate_entry_lem s top small room = ground arith
