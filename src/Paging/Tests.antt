-- ===== src/Paging/Tests.antt =====
-- Table entries and addresses at concrete inputs.
use red_x_os.Common.{◌/◌, ◌%◌, ◌^◌, ◌≡◌, arith}
use red_x_os.Bitmap.{Bitmap}
use red_x_os.Paging.{TableMan}
use red_x_os.Paging.Tree.{Tree}
use red_x_os.Paging.{set_addr, get_addr}
use red_x_os.Paging.Entry.{get_addr-set_addr}

get_addr-set_addr_example :
    (get_addr (set_addr 0x123456789abc 0x8000000000000063) ≡ 0x3456789000)
    × (set_addr 0x123456789abc 0x8000000000000063 % 4096 ≡ 0x63)
    × (set_addr 0x123456789abc 0x8000000000000063 / 2 ^ 52 ≡ 0x800)
get_addr-set_addr_example = get_addr-set_addr 0x123456789abc 0x8000000000000063 (omega arith)

-- A directory of eight pages at 0x100000, in memory that is all zeros.
abbrev blank_manager : TableMan
blank_manager = record {
  ram = λ a. 0;
  dir_addr = 0x100000;
  dir_size = 0x8000;
  pdi = 0;
  screen = record {
    buffer = record { base_addr = 0x80000000; size = 0x3000; width = 64; height = 48; ppsl = 64 };
    font = record { buffer = 0x72000; charsize = 16 };
    cur = record { x = 0; y = 0; xm = 7; ym = 2 };
    ram = λ a. 0;
  };
  hex_output64 = 0x47000;
  number = 0x57000;
}

abbrev no_locks : Bitmap
no_locks = record { size = 0; buffer = 0 }
