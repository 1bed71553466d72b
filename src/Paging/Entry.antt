-- ===== src/Paging/Entry.antt =====
-- The fields of a table entry: flags, and the address of a page.
use red_x_os.Common.{ℕ, ◌+◌, ◌-◌, ◌*◌, ◌/◌, ◌%◌, ◌^◌, ◌<◌, ◌≡◌, refl, arith}
use red_x_os.Common.{Bool, true, ◌==◌, if◌then◌else◌, bit_and, bit_or}
use red_x_os.Common.{all_below, all_below_sound, ==_iff}
use native.Mathlib.Nat.{one-le-pow}
use red_x_os.Common.Bits.{bit, bit-bit_and, bit-bit_or, bit_and_split, bit_or_split, bit_and_low}
use red_x_os.Common.Bits.{bit_and-zero, bit_or-zero, zero-bit_or}
use red_x_os.Paging.{Ptf, flag_bit, set, get, set_addr, get_addr}

-- The bits of `~(1 << k)` and of `1 << k`.
mask_table :
    all_below 64 (λ k. all_below 64 (λ j. bit (2 ^ 64 - 1 - 2 ^ k) j == (if k == j then 0 else 1)))
    ≡ true
unfolding all_below
mask_table = refl

one_table :
    all_below 64 (λ k. all_below 64 (λ j. bit (2 ^ k) j == (if k == j then 1 else 0))) ≡ true
unfolding all_below
one_table = refl

mask_bits : (k j : ℕ) → k < 64 → j < 64 → bit (2 ^ 64 - 1 - 2 ^ k) j ≡ (if k == j then 0 else 1)
mask_bits k j hk hj = (==_iff _ _).0 (
    all_below_sound 64 (λ i. bit (2 ^ 64 - 1 - 2 ^ k) i == (if k == i then 0 else 1)) j
      (all_below_sound 64
        (λ l. all_below 64 (λ i. bit (2 ^ 64 - 1 - 2 ^ l) i == (if l == i then 0 else 1))) k
        mask_table hk)
      hj)

one_bits : (k j : ℕ) → k < 64 → j < 64 → bit (2 ^ k) j ≡ (if k == j then 1 else 0)
one_bits k j hk hj = (==_iff _ _).0 (
    all_below_sound 64 (λ i. bit (2 ^ k) i == (if k == i then 1 else 0)) j
      (all_below_sound 64 (λ l. all_below 64 (λ i. bit (2 ^ l) i == (if l == i then 1 else 0))) k
        one_table hk)
      hj)

-- The mask of `setAddr` keeps the low and the high twelve bits.
kept : (v : ℕ) → v < 2 ^ 64 → bit_and v 0xfff0000000000fff ≡ v / 2 ^ 52 * 2 ^ 52 + v % 4096
kept v h = ground (
  arith,
  bit_and_split 52 (v / 2 ^ 52) (v % 2 ^ 52) 0xfff 0xfff,
  bit_and_low 12 (v / 2 ^ 52),
  bit_and_low 12 (v % 2 ^ 52),
)

-- A mask of `n` bits from bit 12 on.
page_bits : (n a : ℕ) → bit_and a ((2 ^ n - 1) * 2 ^ 12) ≡ a / 4096 % 2 ^ n * 4096
page_bits n a = ground (
  arith,
  bit_and_split 12 (a / 4096) (a % 4096) (2 ^ n - 1) 0,
  bit_and_low n (a / 4096),
  bit_and-zero (a % 4096),
)

disjoint_or :
    (q p r : ℕ)
    → p < 2 ^ 40
    → r < 2 ^ 12
    → bit_or (q * 2 ^ 52 + r) (p * 2 ^ 12) ≡ q * 2 ^ 52 + p * 2 ^ 12 + r
disjoint_or q p r hp hr = ground (
  arith,
  bit_or_split 52 q r 0 (p * 2 ^ 12),
  bit_or-zero q,
  bit_or_split 12 0 r p 0,
  zero-bit_or p,
  bit_or-zero r,
)

-- The low twelve bits, the address in 28 bits, and the high twelve bits.
pub set_addr_fields :
    (a v : ℕ)
    → v < 2 ^ 64
    → set_addr a v ≡ v / 2 ^ 52 * 2 ^ 52 + a / 4096 % 2 ^ 28 * 4096 + v % 4096
unfolding set_addr
set_addr_fields a v h =
    ground
      (arith, kept v h, page_bits 28 a, disjoint_or (v / 2 ^ 52) (a / 4096 % 2 ^ 28) (v % 4096))

pub get_addr_fields : (v : ℕ) → get_addr v ≡ v / 4096 % 2 ^ 40 * 4096
unfolding get_addr
get_addr_fields v = page_bits 40 v

-- `getAddr` after `setAddr` on a 64-bit entry gives the address of the page back, cut to 40 bits; the low twelve
-- bits of the entry, where most flags are, and the high twelve stay.
pub get_addr-set_addr :
    (a v : ℕ)
    → v < 2 ^ 64
    → (get_addr (set_addr a v) ≡ a / 4096 * 4096 % 2 ^ 40)
      × (set_addr a v % 4096 ≡ v % 4096)
      × (set_addr a v / 2 ^ 52 ≡ v / 2 ^ 52)
get_addr-set_addr a v h = omega (arith, set_addr_fields a v h, get_addr_fields (set_addr a v))

flag_bit-lt : (f : Ptf) → flag_bit f < 64
flag_bit-lt f = ground arith

-- `set` gives the bit of its flag the value asked for, and leaves every other bit of the entry.
pub set_bits :
    (f : Ptf) (b : Bool) (v j : ℕ)
    → j < 64
    → bit (set f b v) j ≡ (if flag_bit f == j then (if b then 1 else 0) else bit v j)
unfolding set
set_bits f b v j h = ground (
  arith,
  bit-bit_and j v (2 ^ 64 - 1 - 2 ^ flag_bit f),
  bit-bit_or j (bit_and v (2 ^ 64 - 1 - 2 ^ flag_bit f)) (2 ^ flag_bit f),
  mask_bits (flag_bit f) j (flag_bit-lt f) h,
  one_bits (flag_bit f) j (flag_bit-lt f) h,
)

-- Whatever flag it is asked for, `get` tells whether bit 0 is set, the flag P.
pub get_lem : (f : Ptf) (v : ℕ) → get f v ≡ (bit v 0 == 1)
unfolding get
get_lem f v = ground (arith, one-le-pow (flag_bit f) 2, bit_and_low 1 v)
