-- ===== src/Kernel/Pool.antt =====
-- `pTableMan::getPool`: pages from the allocator, mapped one behind the other.
use red_x_os.Common.{ℕ, zero, suc, ◌+◌, ◌/◌, u32, add64}
use red_x_os.Cursor
use red_x_os.Allocator.{get_page, page, out_of_ram}
use red_x_os.Paging.{map_page}
use red_x_os.Kernel.{Kernel, running, halted, Run, ◌>>=◌, ◌>>◌, give, get, modify, tabling, drawing}

-- `pageTableMan.map`, with the allocator's bitmap.
unfoldable pub map_at : {D : Type 0} → ℕ → ℕ → Kernel D → Kernel D
map_at virtual_memory physical_memory k =
    tabling (map_page k.allocator.bitmap virtual_memory physical_memory) k

-- `allocator.getPage`, which halts the kernel if there is no page.
unfoldable pub take_page : {D : Type 0} → Run D ℕ
take_page k = elim (get_page (record k.allocator { ram = k.ram })) [
  | page addr a ↦ running addr (record k { allocator = a; ram = a.ram })
  | out_of_ram a ↦ halted (record k { allocator = a; ram = a.ram })
]

-- `cur.newLine()`
abbrev pub next_line : {D : Type 0} → Kernel D → Kernel D
next_line k = drawing (λ r. record r { cur = Cursor.new_line r.cur }) k

abbrev pub skip_page : {D : Type 0} → Kernel D → Kernel D
skip_page k = record k { vai = add64 k.vai 0x1000 }

-- One round: a page at `VAI`, which goes on behind it.
unfoldable pub pool_round : {D : Type 0} → Run D (Unit {0})
pool_round = do
  addr ← take_page
  vai ← get (λ k. k.vai)
  modify (map_at vai addr)
  modify next_line
  modify skip_page

unfoldable pub pool_rounds : {D : Type 0} → ℕ → Run D (Unit {0})
pool_rounds zero = give tt
pool_rounds (suc left) = do pool_round; pool_rounds left

-- `uint32_t pages`
abbrev pub pool_pages : ℕ → ℕ
pool_pages size = u32 (size / 0x1000 + 1)

unfoldable pub get_pool : {D : Type 0} → ℕ → Run D ℕ
get_pool size = do
  start ← get (λ k. k.vai)
  pool_rounds (pool_pages size)
  modify skip_page
  give start
