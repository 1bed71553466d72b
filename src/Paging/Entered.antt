-- ===== src/Paging/Entered.antt =====
-- The entries that `map` writes: present, writable, and with the address of a page.
use red_x_os.Common.{ℕ, ◌*◌, ◌/◌, ◌%◌, ◌^◌, ◌<◌, ◌≡◌, arith, true, bit_and}
use red_x_os.Common.Bits.{bit_and-div, bit_or-div, bit_and_low, bit_or-zero}
use red_x_os.Paging.{p_flag, rw_flag, set, get, set_addr, get_addr}
use red_x_os.Paging.Entry.{set_addr_fields, get_addr_fields, set_bits, get_lem}

-- A flag among the low twelve bits leaves the rest of the entry.
set-div :
    (v : ℕ)
    → v < 2 ^ 64
    → (set p_flag true v / 4096 ≡ v / 4096) × (set rw_flag true v / 4096 ≡ v / 4096)
unfolding set
set-div v h = (
  ground (
    arith,
    bit_or-div 12 (bit_and v 0xfffffffffffffffe) 1,
    bit_and-div 12 v 0xfffffffffffffffe,
    bit_and_low 52 (v / 4096),
    bit_or-zero (v / 4096),
  ),
  ground (
    arith,
    bit_or-div 12 (bit_and v 0xfffffffffffffffd) 2,
    bit_and-div 12 v 0xfffffffffffffffd,
    bit_and_low 52 (v / 4096),
    bit_or-zero (v / 4096),
  ),
)

abbrev pub entered : ℕ → ℕ → ℕ
entered address pde = set rw_flag true (set p_flag true (set_addr address pde))

module _ (address pde : ℕ) (word : pde < 2 ^ 64) where
  entered-div : entered address pde / 4096 ≡ set_addr address pde / 4096
  entered-div =
      let fields = set_addr_fields address pde word in
      let first = (set-div (set_addr address pde) (omega (arith, fields))).0 in
      omega (
        arith,
        fields,
        first,
        (set-div (set p_flag true (set_addr address pde)) (omega (arith, fields, first))).1,
      )

  pub entered-lt : entered address pde < 2 ^ 64
  entered-lt = omega (arith, entered-div, set_addr_fields address pde word)

  pub get-entered : get p_flag (entered address pde) ≡ true
  get-entered = ground (
    arith,
    get_lem p_flag (entered address pde),
    set_bits rw_flag true (set p_flag true (set_addr address pde)) 0,
    set_bits p_flag true (set_addr address pde) 0,
  )

  pub get_addr-entered : get_addr (entered address pde) ≡ address / 4096 * 4096 % 2 ^ 40
  get_addr-entered =
      omega (
        arith,
        entered-div,
        set_addr_fields address pde word,
        get_addr_fields (entered address pde),
      )
