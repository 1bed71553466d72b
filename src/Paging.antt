-- ===== src/Paging.antt =====
-- kernel/src/memory/paging.h and paging.cpp: entries of page tables, the indices of an address, and
-- `pTableMan`, which maps pages. Tables stand in the machine's memory, 512 entries of 8 bytes each.
pub mod Entry
pub mod Console
pub mod Index
pub mod Entered
pub mod Walk
pub mod Tree
pub mod NewTable
pub mod Grown
pub mod Descend
pub mod SetPage
pub mod MapPage
pub mod Translate
pub mod Grows
pub mod Apart
pub mod Identity
pub mod Shared
mod Tests
use red_x_os.Common.{ℕ, ◌+◌, ◌-◌, ◌*◌, ◌/◌, ◌%◌, ◌^◌, Bool, true, false, List, [], ◌∷◌}
use red_x_os.Common.{ltb, if◌then◌else◌, bit_and, bit_or, add64, u32}
use red_x_os.Common.Ram.{Ram, store8, load64, store64}
use red_x_os.Common.Loops.{for_range}
use red_x_os.Strings.{string_at, to_h_string64}
use red_x_os.Renderer
use red_x_os.Renderer.{BasicRenderer}
use red_x_os.Bitmap
use red_x_os.Bitmap.{Bitmap}
use red_x_os.Allocator.{Allocator, Page, page, out_of_ram, page_align, int_pages, get_page}

-- `enum PTF`; the value of a flag is the number of its bit.
pub data Ptf : Type 0 where
  p_flag rw_flag us_flag wt_flag cd_flag a_flag lp_flag av0_flag av1_flag av2_flag nx_flag : Ptf

abbrev pub flag_bit : Ptf → ℕ
flag_bit p_flag = 0
flag_bit rw_flag = 1
flag_bit us_flag = 2
flag_bit wt_flag = 3
flag_bit cd_flag = 4
flag_bit a_flag = 5
flag_bit lp_flag = 7
flag_bit av0_flag = 9
flag_bit av1_flag = 10
flag_bit av2_flag = 11
flag_bit nx_flag = 63

-- `dirEntry::set` of the entry `v`. `~bit` of a 64-bit word is `2 ^ 64 - 1 - bit`.
pub set : Ptf → Bool → ℕ → ℕ
set flag b v =
    let bit = 2 ^ flag_bit flag in
    let cleared = bit_and v (2 ^ 64 - 1 - bit) in if b then bit_or cleared bit else cleared

-- `dirEntry::get`. C reads `V & bit > 0` as `V & (bit > 0)`.
pub get : Ptf → ℕ → Bool
get flag v =
    let positive : ℕ = if ltb 0 (2 ^ flag_bit flag) then 1 else 0 in
    if ltb 0 (bit_and v positive) then true else false

-- `dirEntry::setAddr`
pub set_addr : ℕ → ℕ → ℕ
set_addr address v = bit_or (bit_and v 0xfff0000000000fff) (bit_and address 0x000000fffffff000)

-- `dirEntry::getAddr`
pub get_addr : ℕ → ℕ
get_addr v = bit_and v 0x000ffffffffff000

pub record PMapIndexer : Type 0 where
  pub pdp_i : ℕ
  pub pd_i : ℕ
  pub pt_i : ℕ
  pub p_i : ℕ

-- The constructor of `pMapIndexer`.
pub indexer : ℕ → PMapIndexer
indexer virt_addr =
    let page_number = page_align virt_addr / 2 ^ 12 in
    record {
      p_i = bit_and page_number 0x1ff;
      pt_i = bit_and (page_number / 2 ^ 9) 0x1ff;
      pd_i = bit_and (page_number / 2 ^ 9 / 2 ^ 9) 0x1ff;
      pdp_i = bit_and (page_number / 2 ^ 9 / 2 ^ 9 / 2 ^ 9) 0x1ff;
    }

-- `pTableMan` with the global `PDI`, the memory that it writes to, and what `map` prints with: the
-- renderer with its cursor, the static buffer of `toHString` and the place of its argument. Memory
-- stands in `ram`; the renderer works on it in its turn.
pub record TableMan : Type 0 where
  pub ram : Ram
  pub dir_addr : ℕ
  pub dir_size : ℕ
  pub pdi : ℕ
  pub screen : BasicRenderer
  pub hex_output64 : ℕ
  pub number : ℕ

-- `pTableMan::init`
unfoldable pub init : ℕ → ℕ → TableMan → TableMan
init directory_address directory_size s = record s {
  dir_addr = directory_address;
  dir_size = directory_size;
}

-- `set` of memory.cpp.
pub set_bytes : ℕ → ℕ → ℕ → Ram → Ram
set_bytes a v c m = for_range c 0 (λ i. store8 (a + i) v) m

-- `allocateEntry`: the address of the next table, or 0.
pub allocate_entry : TableMan → ℕ × TableMan
allocate_entry s =
    let next = s.pdi + 1 in
    let s' = record s { pdi = next } in
    if ltb (add64 s.dir_addr s.dir_size / 0x1000) next
    then (0, s')
    else (add64 s.dir_addr (int_pages next), s')

abbrev pub entry_at : ℕ → ℕ → ℕ
entry_at table index = table + 8 * index

-- One of the three levels of `map`: the table that entry `index` of `table` points to, which is
-- allocated, cleared and entered if there is none.
pub next_table : ℕ → ℕ → TableMan → ℕ × TableMan
next_table table index s =
    let pde = load64 s.ram (entry_at table index) in
    if get p_flag pde
    then (get_addr pde, s)
    else let (new, s') = allocate_entry s in
      let cleared = set_bytes new 0 0x1000 s'.ram in
      let entered = set rw_flag true (set p_flag true (set_addr new pde)) in
      (new, record s' { ram = store64 (entry_at table index) entered cleared })

-- The end of `map`: the page's own entry.
pub set_page : ℕ → ℕ → ℕ → TableMan → TableMan
set_page table index physical_memory s =
    let pde = load64 s.ram (entry_at table index) in
    let entered = set rw_flag true (set p_flag true (set_addr physical_memory pde)) in
    record s { ram = store64 (entry_at table index) entered s.ram }

-- `basicRender.print`, of a string and of what `toHString` makes of a number.
pub print_text : List ℕ → ℕ → TableMan → TableMan
print_text text color s =
    let r = Renderer.print text color (record s.screen { ram = s.ram }) in
    record s { ram = r.ram; screen = r }

pub print_hex : ℕ → ℕ → TableMan → TableMan
print_hex number color s =
    let m = to_h_string64 s.hex_output64 s.number (store64 s.number number s.ram) in
    print_text (string_at (2 ^ 64) m s.hex_output64) color (record s { ram = m })

-- "Mapped unlocked page "
abbrev pub unlocked_text : List ℕ
unlocked_text =
    b'M' ∷ b'a' ∷ b'p' ∷ b'p' ∷ b'e' ∷ b'd' ∷ b' ' ∷ b'u' ∷ b'n' ∷ b'l' ∷ b'o' ∷ b'c' ∷ b'k' ∷ b'e'
    ∷ b'd' ∷ b' ' ∷ b'p' ∷ b'a' ∷ b'g' ∷ b'e' ∷ b' ' ∷ []

-- The first block of `map`, which prints a warning for a page that is not locked.
pub warn : ℕ → ℕ → TableMan → TableMan
warn virtual_memory physical_memory s0 =
    let s1 = print_text unlocked_text 0xFFFFFFFF s0 in
    let s2 = print_hex physical_memory 0xFFFFFFFF s1 in
    let s3 = print_text (b' ' ∷ b't' ∷ b'o' ∷ b' ' ∷ []) 0xFFFFFFFF s2 in
    print_text (b',' ∷ []) 0xFF0000FF (print_hex virtual_memory 0xFFFFFFFF s3)

pub check_locked : Bitmap → ℕ → ℕ → TableMan → TableMan
check_locked b virtual_memory physical_memory s =
    if Bitmap.test b s.ram (page_align physical_memory / 0x1000)
    then s
    else warn virtual_memory physical_memory s

-- `pTableMan::map`
pub map_page : Bitmap → ℕ → ℕ → TableMan → TableMan
map_page b virtual_memory physical_memory s =
    let i = indexer virtual_memory in
    let s0 = check_locked b virtual_memory physical_memory s in
    let (pdp, s1) = next_table s0.dir_addr i.pdp_i s0 in
    let (pd, s2) = next_table pdp i.pd_i s1 in
    let (pt, s3) = next_table pd i.pt_i s2 in set_page pt i.p_i physical_memory s3
