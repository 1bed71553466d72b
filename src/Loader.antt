-- ===== src/Loader.antt =====
-- gnu-efi/bootloader/main.c: the UEFI loader. What the firmware and the gnu-efi library do is a
-- parameter: operations on a state of their own and on the machine's memory.
pub mod Memcmp
pub mod Files
pub mod Font
pub mod Graphics
pub mod Elf
pub mod Segments
pub mod MemoryMap
pub mod Main
pub mod Outcome
pub mod Directory
pub mod SameSize
pub mod Termination
pub mod Documented
pub mod LoadsFont
pub mod Entries
pub mod Rounds
pub mod Placed
mod Tests
use red_x_os.Common.{ℕ, Bool, ltb, if◌then◌else◌, ◌+◌, ◌-◌, ◌^◌, u32}
use red_x_os.Common.Ram.{Ram, load32, load64, store32, store64}

-- The firmware's state, and memory.
pub record Machine (F : Type 0) : Type 0 where
  pub firmware : F
  pub ram : Ram

abbrev pub Act : Type 0 → Type 0 → Type 0
Act F A = Machine F → A × Machine F

infixl 5 ◌>>=◌ ◌>>◌
abbrev pub ◌>>=◌ : {F A B : Type 0} → Act F A → (A → Act F B) → Act F B
(act >>= next) s = let (a, t) = act s in next a t

abbrev pub ◌>>◌ : {F B : Type 0} → Act F (Unit {0}) → Act F B → Act F B
(act >> next) s = let (a, t) = act s in next t

abbrev pub give : {F A : Type 0} → A → Act F A
give a s = (a, s)

-- What stands in memory, and stores into it.
abbrev pub peek : {F A : Type 0} → (Ram → ℕ → A) → ℕ → Act F A
peek load a s = (load s.ram a, s)

abbrev pub poke : {F : Type 0} → (ℕ → ℕ → Ram → Ram) → ℕ → ℕ → Act F (Unit {0})
poke store a v s = (tt, record s { ram = store a v s.ram })

-- The texts that the loader prints, with the values in them.
pub data Message : Type 0 where
  loading_kernel kernel_not_found kernel_found bad_kernel kernel_verified kernel_loaded : Message
  font_invalid no_gop gop_located no_native_mode : Message
  font_loaded stack_at : ℕ → Message
  framebuffer_at : ℕ → ℕ → ℕ → ℕ → ℕ → Message

pub data FilePath : Type 0 where
  kernel_path font_path : FilePath

pub data Protocol : Type 0 where
  loaded_image simple_file_system : Protocol

-- The services that the loader calls. A service that stores a result through a pointer gives what the
-- variable holds afterwards, which is what it held before if the service failed.
pub record Firmware (F : Type 0) : Type 0 where
  pub initialize_lib : ℕ → ℕ → Act F (Unit {0})
  pub print : Message → Act F (Unit {0})
  pub handle_protocol : ℕ → Protocol → Act F ℕ
  pub open_volume : ℕ → Act F ℕ
  -- The status, and the file.
  pub open_file : ℕ → FilePath → Act F (ℕ × ℕ)
  pub get_info : ℕ → ℕ → ℕ → Act F ℕ
  pub set_position : ℕ → ℕ → Act F (Unit {0})
  -- The file, the number of bytes and the buffer.
  pub read : ℕ → ℕ → ℕ → Act F (Unit {0})
  pub allocate_pool : ℕ → Act F ℕ
  -- The number of pages, at a given address or at any.
  pub allocate_pages_at : ℕ → ℕ → Act F ℕ
  pub allocate_any_pages : ℕ → Act F ℕ
  -- The status, and the protocol.
  pub locate_gop : Act F (ℕ × ℕ)
  pub query_mode : ℕ → ℕ → Act F ℕ
  pub set_mode : ℕ → ℕ → Act F ℕ
  -- The map's size, its key and the size of a descriptor.
  pub get_memory_map : ℕ → ℕ → Act F (ℕ × ℕ × ℕ)
  pub exit_boot_services : ℕ → ℕ → Act F (Unit {0})

-- `NULL` and `EFI_SUCCESS`
abbrev pub null : ℕ
null = 0

abbrev pub efi_success : ℕ
efi_success = 0

-- `EFI_ERROR`: the status is negative as a signed number.
abbrev pub efi_error : ℕ → Bool
efi_error status = if ltb status (2 ^ 63) then Bool.false else Bool.true

-- A value as an `int` that is widened to 64 bits again.
abbrev pub as_int : ℕ → ℕ
as_int n = let w = u32 n in if ltb w (2 ^ 31) then w else w + (2 ^ 64 - 2 ^ 32)
