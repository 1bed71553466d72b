-- ===== src/Loader/Main.antt =====
-- `efi_main`
use red_x_os.Common.{ℕ, ◌+◌, ◌-◌, ◌/◌, ◌==◌, if◌then◌else◌, true, false, Option, none, some}
use red_x_os.Common.Ram.{load32, load64}
use red_x_os.Loader.{
  Act, ◌>>=◌, ◌>>◌, give, peek, Firmware, null, kernel_path, font_path, loading_kernel,
  kernel_not_found, kernel_found, bad_kernel, kernel_verified, kernel_loaded, font_invalid,
  font_loaded, framebuffer_at, stack_at,
}
use red_x_os.Loader.Files.{load_file}
use red_x_os.Loader.Font.{load_psf_font, byte, charsize_at}
use red_x_os.Loader.Graphics.{gop_init}
use red_x_os.Loader.Elf.{Ehdr, is_bad, read_header}
use red_x_os.Loader.Segments.{load_segments}
use red_x_os.Loader.MemoryMap.{MemoryMap, get_map, mem_size, page_directory_size}

pub record KernelParameters : Type 0 where
  pub buffer : ℕ
  pub font : ℕ
  pub map : ℕ
  pub map_size : ℕ
  pub desc_size : ℕ
  pub stack : ℕ
  pub stack_size : ℕ
  pub page_directory_address : ℕ
  pub page_directory_size : ℕ

-- Where the variables of `efi_main` stand whose addresses the loader passes on, the global
-- `framebuffer` among them, and what two of them hold before they are set.
pub record Variables : Type 0 where
  pub header : ℕ
  pub file_info : ℕ
  pub framebuffer : ℕ
  pub unset_file_info_size : ℕ
  pub unset_map_size : ℕ

-- How `efi_main` ends: in the kernel, at an address, with a stack pointer and the parameters; back
-- in the firmware with `EFI_SUCCESS`; or in a call through the null pointer `Kernel`.
pub data Outcome : Type 0 where
  kernel_main : ℕ → ℕ → KernelParameters → Outcome
  back_in_firmware : Outcome
  null_call : Outcome

-- From the header that was read to "Kernel Loaded". The second test sets `error` to 0, too.
unfoldable pub load_verified :
    {F : Type 0} → Firmware F → ℕ → ℕ → Option Ehdr → Act F (Option (Ehdr × ℕ))
load_verified f kernel found_error none = give none
load_verified f kernel found_error (some header) = do
  let error = if is_bad header then 0 else found_error
  f.print (if is_bad header then bad_kernel else kernel_verified)
  phdr ← load_segments f kernel header
  f.print kernel_loaded
  give (some (header, error))

-- Up to "Kernel Loaded": the header, and `error`, which each of the two tests sets to 0; or nothing
-- after a call through a null `Kernel`.
unfoldable pub load_kernel : {F : Type 0} → Firmware F → Variables → ℕ → Act F (Option (Ehdr × ℕ))
load_kernel f v image_handle = do
  f.print loading_kernel
  kernel ← load_file f null kernel_path image_handle
  let found_error = if kernel == null then 0 else 0
  f.print (if kernel == null then kernel_not_found else kernel_found)
  read ← read_header f kernel v.header v.unset_file_info_size v.file_info
  load_verified f kernel found_error read

-- The font, or null, and what is printed of it.
unfoldable pub pre_font : {F : Type 0} → Firmware F → ℕ → Act F ℕ
pre_font f image_handle = do
  font ← load_psf_font f null font_path image_handle
  elim (font == null) [
    | true ↦ f.print font_invalid
    | false ↦ (do
      header ← peek load64 font
      charsize ← peek byte (charsize_at header)
      f.print (font_loaded charsize))
  ]
  give font

unfoldable pub pre_graphics : {F : Type 0} → Firmware F → ℕ → Act F ℕ
pre_graphics f framebuffer = do
  buffer ← gop_init f framebuffer
  elim (buffer == null) [
    | true ↦ give tt
    | false ↦ (do
      base_addr ← peek load64 buffer
      size ← peek load64 (buffer + 8)
      width ← peek load32 (buffer + 16)
      height ← peek load32 (buffer + 20)
      ppsl ← peek load32 (buffer + 24)
      f.print (framebuffer_at base_addr size width height ppsl))
  ]
  give buffer

abbrev pub stack_size : ℕ
stack_size = 32000

-- From the new stack on: the page directory and the parameters.
unfoldable pub prepare : {F : Type 0} → Firmware F → ℕ → ℕ → MemoryMap → Act F KernelParameters
prepare f buffer font map = do
  stack ← f.allocate_any_pages (stack_size / 0x1000)
  f.print (stack_at stack)
  size ← (λ s. (mem_size s.ram map, s))
  directory ← f.allocate_any_pages (page_directory_size size / 0x1000)
  give (record {
    buffer = buffer;
    font = font;
    map = map.map;
    map_size = map.map_size;
    desc_size = map.desc_size;
    stack = stack;
    stack_size = stack_size;
    page_directory_address = directory;
    page_directory_size = page_directory_size size;
  })

-- From the loaded kernel on, with its `error`.
unfoldable pub enter_kernel :
    {F : Type 0} → Firmware F → Variables → ℕ → Option (Ehdr × ℕ) → Act F Outcome
enter_kernel f v image_handle none = give null_call
enter_kernel f v image_handle (some (header, error)) = do
  font ← pre_font f image_handle
  let font_error = if font == null then 1 else error
  buffer ← pre_graphics f v.framebuffer
  let last_error = if buffer == null then 1 else font_error
  map ← get_map f v.unset_map_size
  params ← prepare f buffer font map
  elim (last_error == 0) [
    | true ↦ (do
      f.exit_boot_services image_handle map.map_key
      give (kernel_main header.e_entry (params.stack + (stack_size - 1)) params))
    | false ↦ give back_in_firmware
  ]

unfoldable pub efi_main : {F : Type 0} → Firmware F → Variables → ℕ → ℕ → Act F Outcome
efi_main f v image_handle system_table = do
  f.initialize_lib image_handle system_table
  loaded ← load_kernel f v image_handle
  enter_kernel f v image_handle loaded
