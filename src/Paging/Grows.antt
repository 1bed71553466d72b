-- ===== src/Paging/Grows.antt =====
-- What every call of `map` leaves: the directory's place, and a count of tables that does not fall.
use red_x_os.Common.{ℕ, ◌+◌, ◌≤◌, ◌≡◌, refl, ◌∙◌, ap, arith}
use red_x_os.Paging.Console.{check_locked-showing}
use red_x_os.Bitmap.{Bitmap}
use red_x_os.Paging.{
  TableMan, indexer, allocate_entry, next_table, set_page, check_locked, map_page,
}

pub record Grows (s t : TableMan) : Type 0 where
  pub same_addr : t.dir_addr ≡ s.dir_addr
  pub same_size : t.dir_size ≡ s.dir_size
  pub more : s.pdi ≤ t.pdi

pub Grows-refl : (s : TableMan) → Grows s s
Grows-refl s = record { same_addr = refl; same_size = refl; more = omega arith }

pub Grows-trans : {s t u : TableMan} → Grows s t → Grows t u → Grows s u
Grows-trans g h = record {
  same_addr = h.same_addr ∙ g.same_addr;
  same_size = h.same_size ∙ g.same_size;
  more = omega (arith, g.more, h.more);
}

next_table-Grows : (table index : ℕ) (s : TableMan) → Grows s ((next_table table index s).1)
unfolding next_table allocate_entry
next_table-Grows table index s = record {
  same_addr = ground arith;
  same_size = ground arith;
  more = ground arith;
}

check_locked-Grows : (b : Bitmap) (v p : ℕ) (s : TableMan) → Grows s (check_locked b v p s)
check_locked-Grows b v p s =
    let same = check_locked-showing b v p s in
    record {
      same_addr = ap (λ (t : TableMan). t.dir_addr) same;
      same_size = ap (λ (t : TableMan). t.dir_size) same;
      more = omega (arith, ap (λ (t : TableMan). t.pdi) same);
    }

pub map_page-Grows : (b : Bitmap) (v p : ℕ) (s : TableMan) → Grows s (map_page b v p s)
unfolding map_page set_page
map_page-Grows b v p s =
    let i = indexer v in
    let s0 = check_locked b v p s in
    let n1 = next_table s0.dir_addr i.pdp_i s0 in
    let n2 = next_table n1.0 i.pd_i n1.1 in
    let g3 = Grows-trans (next_table-Grows n1.0 i.pd_i n1.1) (next_table-Grows n2.0 i.pt_i n2.1) in
    let g =
      Grows-trans (check_locked-Grows b v p s)
        (Grows-trans (next_table-Grows s0.dir_addr i.pdp_i s0) g3) in
    record { same_addr = g.same_addr; same_size = g.same_size; more = g.more }

next_table-one : (table index : ℕ) (s : TableMan) → ((next_table table index s).1).pdi ≤ s.pdi + 1
unfolding next_table allocate_entry
next_table-one table index s = ground arith

-- `map` asks for three tables at most.
pub map_page-three : (b : Bitmap) (v p : ℕ) (s : TableMan) → (map_page b v p s).pdi ≤ s.pdi + 3
unfolding map_page set_page
map_page-three b v p s =
    let i = indexer v in
    let s0 = check_locked b v p s in
    let n1 = next_table s0.dir_addr i.pdp_i s0 in
    let n2 = next_table n1.0 i.pd_i n1.1 in
    let same : s0.pdi ≡ s.pdi = ap (λ (t : TableMan). t.pdi) (check_locked-showing b v p s) in
    omega (
      arith,
      same,
      next_table-one s0.dir_addr i.pdp_i s0,
      next_table-one n1.0 i.pd_i n1.1,
      next_table-one n2.0 i.pt_i n2.1,
    )
