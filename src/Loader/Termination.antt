-- ===== src/Loader/Termination.antt =====
-- The loop over the program headers: which entries it visits, and that it ends.
use red_x_os.Common.{ℕ, zero, suc, ◌+◌, ◌-◌, ◌*◌, ◌^◌, ◌≤◌, ◌<◌, ◌≡◌, refl, arith, ltb, true, add64}
use red_x_os.Common.Loops.{for_range}
use red_x_os.Loader.{Machine, Firmware}
use red_x_os.Loader.Elf.{Ehdr}
use red_x_os.Loader.Segments.{segment_pages, load_entry, table_size, segments_loop, load_segments}

-- Every entry in its turn.
abbrev pub each_entry : {F : Type 0} → Firmware F → ℕ → ℕ → ℕ → ℕ → Machine F → Machine F
each_entry f kernel phdrs entsize count s =
    for_range count 0 (λ i t. (load_entry f kernel (phdrs + i * entsize) t).1) s

-- A segment's pages hold its bytes, with less than a page to spare, if they are fewer than 2 ^ 31.
pub segment_pages_lem :
    (memsz : ℕ)
    → memsz < 2 ^ 43 - 2 ^ 12
    → (memsz ≤ segment_pages memsz * 4096) × (segment_pages memsz * 4096 < memsz + 4096)
segment_pages_lem memsz h = (ground arith, ground arith)

loop_lem :
    {F : Type 0} (f : Firmware F) (kernel phdrs entsize limit i left : ℕ) (s : Machine F)
    → 0 < entsize
    → limit ≡ phdrs + (i * entsize + left * entsize)
    → limit < 2 ^ 64
    → segments_loop f kernel entsize limit (phdrs + i * entsize) left s
      ≡ (limit, for_range left i (λ j t. (load_entry f kernel (phdrs + j * entsize) t).1) s)
unfolding segments_loop for_range
loop_lem f kernel phdrs entsize limit i zero s some_size e fits =
    let stops : phdrs + i * entsize ≡ limit = omega (arith, e) in rw stops refl
loop_lem f kernel phdrs entsize limit i (suc left) s some_size e fits =
    let more : (i + 1) * entsize ≡ i * entsize + entsize = grind arith in
    let total : suc left * entsize ≡ left * entsize + entsize = grind arith in
    let below : ltb (phdrs + i * entsize) limit ≡ true = ground (arith, e, total) in
    let next : add64 (phdrs + i * entsize) entsize ≡ phdrs + (i + 1) * entsize =
      omega (arith, e, total, more, fits) in
    rw (segments_loop, below, next)
      (loop_lem f kernel phdrs entsize limit (i + 1) left
        ((load_entry f kernel (phdrs + i * entsize) s).1) some_size (omega (arith, e, total, more))
        fits)

-- If the table of program headers is smaller than 2 ^ 31 bytes and its entries are not empty, then the
-- loop ends by its own test, at the end of the table, after it has visited each entry once, in their
-- order: its `e_phnum` rounds are enough.
pub load_segments-each_entry :
    {F : Type 0} (f : Firmware F) (kernel : ℕ) (header : Ehdr) (s : Machine F)
    → 0 < header.e_phentsize
    → header.e_phnum * header.e_phentsize < 2 ^ 31
    → (f.allocate_pool
          (header.e_phnum * header.e_phentsize)
          ((f.set_position kernel header.e_phoff s).1)).0
        + header.e_phnum * header.e_phentsize
      < 2 ^ 64
    → let size = header.e_phnum * header.e_phentsize in
      let (phdrs, s2) = f.allocate_pool size ((f.set_position kernel header.e_phoff s).1) in
      load_segments f kernel header s ≡ (
        phdrs + size,
        each_entry f kernel phdrs header.e_phentsize header.e_phnum
            ((f.read kernel size phdrs s2).1),
      )
unfolding load_segments
load_segments-each_entry f kernel header s some_size small fits =
    let size = header.e_phnum * header.e_phentsize in
    let same : table_size header ≡ header.e_phnum * header.e_phentsize = ground arith in
    let pool = f.allocate_pool size ((f.set_position kernel header.e_phoff s).1) in
    let start : pool.0 + 0 * header.e_phentsize ≡ pool.0 = omega arith in
    let stop : add64 pool.0 size ≡ pool.0 + size = omega (arith, fits) in
    let loop =
      loop_lem f kernel pool.0 header.e_phentsize (pool.0 + size) 0 header.e_phnum
        ((f.read kernel size pool.0 pool.1).1) some_size (omega arith) fits in
    rw (load_segments, same, stop) (rw start at loop)
