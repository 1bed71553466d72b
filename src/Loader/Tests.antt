-- ===== src/Loader/Tests.antt =====
-- The loader on a firmware with two files and a pool that gives memory in ascending order.
mod Segments
use red_x_os.Common.{
  ℕ, ◌+◌, ◌-◌, ◌/◌, ◌%◌, ◌^◌, ◌≤◌, ◌≡◌, ◌≢◌, ◌⊎◌, ◌↔◌, refl, arith, false, [], ◌∷◌, get_or, ◌&&◌,
  ◌||◌, ◌∙◌, ap, ◌<◌, true, leb, ltb, if◌then◌else◌,
}
use red_x_os.Allocator.{Allocator, get_memory_size}
use red_x_os.Loader.{Machine, Firmware, null, give}
use red_x_os.Loader.Memcmp.{Order, memcmp, memcmp-Order}
use red_x_os.Loader.Elf.{Ehdr}
use red_x_os.Loader.Segments.{load_segments}
use red_x_os.Loader.MemoryMap.{MemoryMap, mem_size, page_directory_size}
use red_x_os.Loader.Main.{
  Variables, back_in_firmware, null_call, load_kernel, pre_font, pre_graphics, efi_main,
}
use red_x_os.Loader.Outcome
use red_x_os.Loader.Outcome.{efi_main-back_in_firmware}
use red_x_os.Loader.Directory.{tables_needed, page_directory_size-tables_needed}
use red_x_os.Loader.SameSize.{mem_size-get_memory_size}
use red_x_os.Loader.Termination.{each_entry, load_segments-each_entry}
use red_x_os.Loader.Entries.{DocumentedPages, paddr, filesz, offset, Loadable}
use red_x_os.Loader.Placed.{Placed, Outside, load_segments-Placed}
use red_x_os.Common.{inl, inr, ◌==◌}
use red_x_os.Common.Ram.{load16, load32, load64}
use native.Mathlib.Decide.{dec_lt}
use red_x_os.Loader.Documented.{Documented, got}

-- How much of the pool is given away, and the file's position.
record Pool : Type 0 where
  next : ℕ
  place : ℕ

-- A kernel of two segments: three bytes for 0x100000, and four for 0x200000.
abbrev kernel_file : ℕ → ℕ
kernel_file i =
    if i == 64 || (i == 120)
    then 1
    else if i == 72
    then 200
    else if i == 128
    then 203
    else if i == 90
    then 0x10
    else if i == 146
    then 0x20
    else if i == 96
    then 3
    else if i == 152
    then 4
    else if ltb i 200
    then 0
    else i - 190

-- The kernel is file 7; all others are a font of 256 glyphs of one byte each.
abbrev file_byte : ℕ → ℕ → ℕ
file_byte file i = if file == 7 then kernel_file i else get_or (0x36 ∷ 0x04 ∷ 0 ∷ 1 ∷ []) i 0xff

abbrev pool_end : ℕ
pool_end = 2 ^ 40

abbrev read_file : ℕ → ℕ → ℕ → Machine Pool → Machine Pool
read_file file n buffer s = record s {
  ram = λ x.
      if leb buffer x && ltb x (buffer + got n 260 s.firmware.place)
      then file_byte file (s.firmware.place + (x - buffer))
      else s.ram x;
}

abbrev pool_firmware : Firmware Pool
pool_firmware = record {
  initialize_lib = λ image system_table. give tt;
  print = λ message. give tt;
  handle_protocol = λ handle protocol. give 0;
  open_volume = λ file_system. give 1;
  open_file = λ directory path. give (0, 2);
  get_info = λ file size buffer. give 80;
  set_position = λ file p s. (tt, record s { firmware = record s.firmware { place = p } });
  read = λ file n buffer s. (tt, read_file file n buffer s);
  allocate_pool = λ n s. (
    if leb s.firmware.next pool_end then s.firmware.next + 1 else 1,
    record s {
      firmware = record s.firmware {
        next = if leb n (pool_end - s.firmware.next) then s.firmware.next + n else s.firmware.next;
      };
    },
  );
  allocate_pages_at = λ pages address. give address;
  allocate_any_pages = λ pages. give 0x100000;
  locate_gop = give (2 ^ 63 + 14, 0);
  query_mode = λ gop mode. give 0;
  set_mode = λ gop mode. give 0;
  get_memory_map = λ size map. give (96, 7, 48);
  exit_boot_services = λ image key. give tt;
}

documented_pool : Documented pool_firmware
documented_pool = record {
  content = file_byte;
  length = λ file. 260;
  position = λ s file. s.place;
  in_use = λ s x. ltb x (s.next + 1);
  pool_left = λ s. pool_end - s.next;
  read_bytes = λ file n buffer s x. refl;
  read_in_use = λ file n buffer s x. refl;
  read_pool = λ file n buffer s. refl;
  set_position_ram = λ file p s. refl;
  set_position_moves = λ file p s. refl;
  set_position_in_use = λ file p s x. refl;
  set_position_pool = λ file p s. refl;
  pool_ram = λ n s. refl;
  pool_position = λ n s file. refl;
  pool_fresh = λ n s x room low high. ground arith;
  pool_taken = λ n s x room low high. ground arith;
  pool_keeps = λ n s x used. ground (arith, used);
  pool_pays = λ n s room. ground arith;
  pool_address = λ n s room. ground arith;
}

abbrev at_rest : Machine Pool
at_rest = record { firmware = record { next = 4096; place = 0 }; ram = λ a. 0 }

memcmp-Order_example :
    Order
      (λ i. 7)
      (λ i. if ltb i 3 then 7 else 5)
      4
      (memcmp (λ i. 7) (λ i. if ltb i 3 then 7 else 5) 4)
memcmp-Order_example = memcmp-Order (λ i. 7) (λ i. if ltb i 3 then 7 else 5) 4

abbrev variables : Variables
variables = record {
  header = 0x2000;
  file_info = 0x2100;
  framebuffer = 0x3000;
  unset_file_info_size = 0;
  unset_map_size = 0;
}

efi_main-back_in_firmware_example :
    let outcome = (efi_main pool_firmware variables 9 10 at_rest).0 in
    let s2 = (load_kernel pool_firmware variables 9 at_rest).1 in
    let (font, s3) = pre_font pool_firmware 9 s2 in
    let buffer = (pre_graphics pool_firmware 0x3000 s3).0 in
    (Outcome.kernel_file pool_firmware variables 9 at_rest ≡ null → outcome ≡ null_call)
    × (Outcome.kernel_file pool_firmware variables 9 at_rest ≢ null
        → (outcome ≡ back_in_firmware) ↔ ((font ≡ null) ⊎ (buffer ≡ null)))
efi_main-back_in_firmware_example = efi_main-back_in_firmware pool_firmware variables 9 10 at_rest

page_directory_size-tables_needed_example :
    (0x2001000 / 4096 % 512 ≡ 0
      → tables_needed (0x2001000 / 4096) ≤ page_directory_size 0x2001000 / 4096)
    × (0x2001000 / 4096 % 512 ≢ 0
        → tables_needed (0x2001000 / 4096) ≡ page_directory_size 0x2001000 / 4096 + 1)
page_directory_size-tables_needed_example =
    page_directory_size-tables_needed 0x2001000 (omega arith)

abbrev fresh_allocator : Allocator
fresh_allocator = record {
  ram = λ a. if ltb a 0x4000 then 0 else 1;
  bitmap = record { size = 0; buffer = 0 };
  free_mem = 0;
  used_mem = 0;
  reserved_mem = 0;
  page_i = 0;
  initialized = false;
  mem_size_bytes = 0;
}

abbrev two_entries : MemoryMap
two_entries = record { map = 0x5000; map_size = 96; map_key = 7; desc_size = 48 }

mem_size-get_memory_size_example :
    (get_memory_size 0x5000 (96 / 48) 48 fresh_allocator).mem_size_bytes
    ≡ mem_size (λ a. if ltb a 0x4000 then 0 else 1) two_entries
mem_size-get_memory_size_example =
    mem_size-get_memory_size two_entries fresh_allocator (omega arith) (omega arith) refl

abbrev two_segments : Ehdr
two_segments = record {
  e_ident = λ i. 0;
  e_type = 2;
  e_machine = 62;
  e_version = 1;
  e_entry = 0x100000;
  e_phoff = 64;
  e_phentsize = 56;
  e_phnum = 2;
}

load_segments-each_entry_example :
    let s1 = (pool_firmware.set_position 2 64 at_rest).1 in
    let (phdrs, s2) = pool_firmware.allocate_pool 112 s1 in
    load_segments pool_firmware 2 two_segments at_rest
    ≡ (phdrs + 112, each_entry pool_firmware 2 phdrs 56 2 ((pool_firmware.read 2 112 phdrs s2).1))
load_segments-each_entry_example =
    load_segments-each_entry pool_firmware 2 two_segments at_rest (omega arith) (omega arith)
      (omega arith)
