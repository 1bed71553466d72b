-- ===== src/Loader/Documented.antt =====
-- What the UEFI specification says of the services that files are read with.
use red_x_os.Common.{
  ℕ, ◌+◌, ◌-◌, ◌^◌, ◌≤◌, ◌<◌, ◌≡◌, Bool, true, false, ◌&&◌, leb, ltb, if◌then◌else◌,
}
use red_x_os.Loader.{Machine, Firmware}

-- The bytes that a read of `n` bytes gets, of a file of `length` bytes that is read from `position` on.
abbrev pub got : ℕ → ℕ → ℕ → ℕ
got n length position = if leb n (length - position) then n else length - position

-- Files have bytes and a position each. The pool has memory left; what it gave is in use.
pub record Documented {F : Type 0} (f : Firmware F) : Type 0 where
  pub content : ℕ → ℕ → ℕ
  pub length : ℕ → ℕ
  pub position : F → ℕ → ℕ
  pub in_use : F → ℕ → Bool
  pub pool_left : F → ℕ
  -- `Read` copies bytes of the file to the buffer.
  pub read_bytes :
      (file n buffer : ℕ) (s : Machine F) (x : ℕ)
      → (f.read file n buffer s).1.ram x ≡ (
          if leb buffer x && ltb x (buffer + got n (length file) (position s.firmware file))
          then content file (position s.firmware file + (x - buffer))
          else s.ram x)
  pub read_in_use :
      (file n buffer : ℕ) (s : Machine F) (x : ℕ)
      → in_use ((f.read file n buffer s).1.firmware) x ≡ in_use s.firmware x
  pub read_pool :
      (file n buffer : ℕ) (s : Machine F)
      → pool_left ((f.read file n buffer s).1.firmware) ≡ pool_left s.firmware
  -- `SetPosition`
  pub set_position_ram : (file p : ℕ) (s : Machine F) → (f.set_position file p s).1.ram ≡ s.ram
  pub set_position_moves :
      (file p : ℕ) (s : Machine F) → position ((f.set_position file p s).1.firmware) file ≡ p
  pub set_position_in_use :
      (file p : ℕ) (s : Machine F) (x : ℕ)
      → in_use ((f.set_position file p s).1.firmware) x ≡ in_use s.firmware x
  pub set_position_pool :
      (file p : ℕ) (s : Machine F)
      → pool_left ((f.set_position file p s).1.firmware) ≡ pool_left s.firmware
  -- `AllocatePool` of no more than is left gives memory that was not in use.
  pub pool_ram : (n : ℕ) (s : Machine F) → (f.allocate_pool n s).1.ram ≡ s.ram
  pub pool_position :
      (n : ℕ) (s : Machine F) (file : ℕ)
      → position ((f.allocate_pool n s).1.firmware) file ≡ position s.firmware file
  pub pool_fresh :
      (n : ℕ) (s : Machine F) (x : ℕ)
      → n ≤ pool_left s.firmware
      → (f.allocate_pool n s).0 ≤ x
      → x < (f.allocate_pool n s).0 + n
      → in_use s.firmware x ≡ false
  pub pool_taken :
      (n : ℕ) (s : Machine F) (x : ℕ)
      → n ≤ pool_left s.firmware
      → (f.allocate_pool n s).0 ≤ x
      → x < (f.allocate_pool n s).0 + n
      → in_use ((f.allocate_pool n s).1.firmware) x ≡ true
  pub pool_keeps :
      (n : ℕ) (s : Machine F) (x : ℕ)
      → in_use s.firmware x ≡ true
      → in_use ((f.allocate_pool n s).1.firmware) x ≡ true
  pub pool_pays :
      (n : ℕ) (s : Machine F)
      → n ≤ pool_left s.firmware
      → pool_left s.firmware ≤ pool_left ((f.allocate_pool n s).1.firmware) + n
  pub pool_address :
      (n : ℕ) (s : Machine F)
      → n ≤ pool_left s.firmware
      → (0 < (f.allocate_pool n s).0) × ((f.allocate_pool n s).0 < 2 ^ 64)
