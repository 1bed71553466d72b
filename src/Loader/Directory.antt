-- ===== src/Loader/Directory.antt =====
-- The size of the page directory that the loader allocates, against what the kernel's tables need.
use red_x_os.Common.{ℕ, ◌+◌, ◌/◌, ◌%◌, ◌^◌, ◌≤◌, ◌<◌, ◌≡◌, ◌≢◌, arith}
use red_x_os.Loader.MemoryMap.{page_directory_size}

-- The tables that map the first `n` pages of memory: one for each 512 pages, one for each 512 of these,
-- one for each 512 of those, and the directory itself.
abbrev pub tables_needed : ℕ → ℕ
tables_needed n = (n + 511) / 512 + (n + 262143) / 262144 + (n + 134217727) / 134217728 + 1

-- For a memory below 2 ^ 60 the loader allocates enough pages for the tables of all of it if its size
-- is a multiple of two megabytes, and else one page too few.
pub page_directory_size-tables_needed :
    (size : ℕ)
    → size < 2 ^ 60
    → let n = size / 4096 in
      let pages = page_directory_size size / 4096 in
      (n % 512 ≡ 0 → tables_needed n ≤ pages) × (n % 512 ≢ 0 → tables_needed n ≡ pages + 1)
unfolding page_directory_size
page_directory_size-tables_needed size h = (λ e. omega arith, λ e. omega arith)
