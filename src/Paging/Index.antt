-- ===== src/Paging/Index.antt =====
-- The four indices are the digits of the page's number to the base 512.
use red_x_os.Common.{ℕ, ◌+◌, ◌*◌, ◌/◌, ◌%◌, ◌^◌, ◌<◌, ◌≡◌, arith}
use red_x_os.Common.Bits.{bit_and_low}
use red_x_os.Allocator.{page_align}
use red_x_os.Paging.{indexer}

pub indexer_digits :
    (v : ℕ)
    → let i = indexer v in
      (i.p_i ≡ v / 4096 % 512)
      × (i.pt_i ≡ v / 4096 / 512 % 512)
      × (i.pd_i ≡ v / 4096 / 512 / 512 % 512)
      × (i.pdp_i ≡ v / 4096 / 512 / 512 / 512 % 512)
unfolding indexer page_align
indexer_digits v = (
  omega (arith, bit_and_low 9 (v / 4096 * 4096 / 2 ^ 12)),
  omega (arith, bit_and_low 9 (v / 4096 * 4096 / 2 ^ 12 / 2 ^ 9)),
  omega (arith, bit_and_low 9 (v / 4096 * 4096 / 2 ^ 12 / 2 ^ 9 / 2 ^ 9)),
  omega (arith, bit_and_low 9 (v / 4096 * 4096 / 2 ^ 12 / 2 ^ 9 / 2 ^ 9 / 2 ^ 9)),
)

-- The four indices make up the number of the page, in 36 bits: addresses that share them lie in
-- one page, or differ by a multiple of 2 ^ 48.
pub indexer_page :
    (v : ℕ)
    → let i = indexer v in
      ((i.pdp_i * 512 + i.pd_i) * 512 + i.pt_i) * 512 + i.p_i ≡ v / 4096 % 2 ^ 36
indexer_page v = omega (arith, indexer_digits v)

pub indexer_bounds :
    (v : ℕ) → let i = indexer v in (i.pdp_i < 512) × (i.pd_i < 512) × (i.pt_i < 512) × (i.p_i < 512)
indexer_bounds v = omega (arith, indexer_digits v)
