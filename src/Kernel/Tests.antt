-- ===== src/Kernel/Tests.antt =====
-- The kernel's set-up at concrete inputs.
mod Boot
mod Typed
use red_x_os.Common.{ℕ, refl, ap, inl, inr, ◌∙◌, arith, true, false, [], ◌||◌}
use red_x_os.Common.Ram.{load64-zero}
use red_x_os.Bitmap.{Bitmap}
use red_x_os.Paging.{entry_at}
use red_x_os.Paging.Walk.{target}
use red_x_os.Paging.Tree.{Tree, table_at}
use red_x_os.Paging.NewTable.{target-zero}
use red_x_os.Paging.Identity.{IdentityMaps}
use red_x_os.Renderer.{Framebuffer, Font, BasicRenderer}
use red_x_os.Paging.Console.{Clear}
use red_x_os.Kernel.{Kernel, KernelParameters}
use red_x_os.Kernel.Memory.{map_own}
use red_x_os.Kernel.Identity.{tables_of}
use red_x_os.Kernel.Pool.{get_pool}
use red_x_os.Kernel.Pooled.{Works}
use red_x_os.Kernel.PoolEnds.{PoolGiven, get_pool-PoolGiven}
use red_x_os.Kernel.OwnRanges.{in_ranges, in_singles, stretches_of}
use red_x_os.Kernel.Own.{map_own-MapsFew}
use red_x_os.Kernel.Room.{MapsFew}
use red_x_os.Ports.{Ports}
use red_x_os.Kernel.Interrupts.{Handlers}

abbrev small_bitmap : Bitmap
small_bitmap = record { size = 0x400; buffer = 0x60000 }

abbrev small_screen : Framebuffer
small_screen = record { base_addr = 0x80000000; size = 0x3000; width = 64; height = 48; ppsl = 64 }

abbrev small_font : Font
small_font = record { buffer = 0x72000; charsize = 16 }

abbrev blank_screen : BasicRenderer
blank_screen = record {
  buffer = small_screen;
  font = small_font;
  cur = record { x = 0; y = 0; xm = 7; ym = 2 };
  ram = λ a. 0;
}

-- The kernel before its tables hold anything, in memory that is all zeros; nothing stands behind the
-- ports.
abbrev blank_kernel : Kernel (Unit {0})
blank_kernel = record {
  ram = λ a. 0;
  allocator = record {
    ram = λ a. 0;
    bitmap = small_bitmap;
    free_mem = 0;
    used_mem = 0;
    reserved_mem = 0;
    page_i = 0;
    initialized = true;
    mem_size_bytes = 0x2000000;
  };
  tables = record {
    ram = λ a. 0;
    dir_addr = 0x100000;
    dir_size = 0x100000;
    pdi = 0;
    screen = blank_screen;
    hex_output64 = 0x47000;
    number = 0x57000;
  };
  vai = 0x2003000;
  registers = record {
    cr3 = 0;
    gdt_size = 0;
    gdt_offset = 0;
    idt_limit = 0;
    idt_offset = 0;
    interrupts = false;
  };
  basic_render = blank_screen;
  double_buffer = small_screen;
  terminal = record {
    ram = λ a. 0;
    text_buffer = 0;
    command_buffer = 0;
    in_buffer = 0;
    out_buffer = 0;
    buffer_size = 0;
    width = 0;
    height = 0;
    ii = 0;
    io = 0;
    work = false;
    scheduler_work = false;
  };
  terminal_font = small_font;
  ports = tt;
}

abbrev parameters : KernelParameters
parameters = record {
  at = 0x70000;
  buffer_at = 0x70100;
  buffer = small_screen;
  font_at = 0x71000;
  font_header = 0x71100;
  font = small_font;
  map = 0x73000;
  map_size = 96;
  desc_size = 48;
  stack = 0x50000;
  stack_size = 32000;
  page_directory_address = 0x100000;
  page_directory_size = 0x100000;
}

blank_kernel-Tree : Tree (tables_of blank_kernel)
blank_kernel-Tree = record {
  bytes = λ a. omega arith;
  aligned = refl;
  top = omega arith;
  small = omega arith;
  inside = omega arith;
  level = λ n. 0;
  parent = λ n. 0;
  slot = λ n. 0;
  root = refl;
  children = λ n i h hi up. inl (
      ap (λ (w : ℕ). target w) (load64-zero (entry_at (table_at (tables_of blank_kernel) n) i))
      ∙ target-zero);
}

blank_kernel-Clear : Clear (tables_of blank_kernel)
blank_kernel-Clear = record {
  printing = record { whole = refl; low = omega arith };
  directory = λ x low high. (inl (omega arith), inr (omega arith), inr (omega arith));
}

map_own-MapsFew_example :
    MapsFew
      (λ q. in_ranges 0x40000 0x8000 parameters small_bitmap q || in_singles parameters q)
      (stretches_of 0x40000 0x8000 parameters small_bitmap)
      (tables_of blank_kernel)
      (tables_of (map_own 0x40000 0x8000 parameters blank_kernel))
map_own-MapsFew_example =
    map_own-MapsFew 0x40000 0x8000 parameters blank_kernel
      (record {
        kernel = omega arith;
        stack = omega arith;
        directory = omega arith;
        bitmap = omega arith;
        framebuffer = omega arith;
        parameters = omega arith;
        buffer = omega arith;
        font = omega arith;
        glyphs = omega arith;
        font_header = omega arith;
      })
      blank_kernel-Tree blank_kernel-Clear (omega arith)

blank_kernel-Works : Works blank_kernel
blank_kernel-Works = record {
  sound = record {
    bytes = λ a. omega arith;
    small = omega arith;
    free_word = omega arith;
    used_word = omega arith;
    reserved_word = omega arith;
  };
  some_bits = omega arith;
  tree = blank_kernel-Tree;
  apart = inl (omega arith);
}

get_pool-PoolGiven_example : PoolGiven 3 blank_kernel (get_pool 0x2800 blank_kernel)
get_pool-PoolGiven_example =
    get_pool-PoolGiven 0x2800 blank_kernel blank_kernel-Works (omega arith) (omega arith)

abbrev no_ports : Ports (Unit {0})
no_ports = record { read = λ port d. (0, d); write = λ port byte d. d }

abbrev handlers : Handlers
handlers = record {
  page_fault_handler = 0x41000;
  double_fault_handler = 0x41100;
  gen_proc_fault_handler = 0x41200;
  keyboard_handler = 0x41300;
}
