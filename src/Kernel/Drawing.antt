-- ===== src/Kernel/Drawing.antt =====
-- `welcome`, the two `panic`s, the text that `_start` prints, and `Terminal::init`.
use red_x_os.Common.{ℕ, ◌+◌, ◌*◌, ◌/◌, List, [], ◌∷◌, get_or, add32, sub32, u64, sub64}
use red_x_os.Common.Ram.{Ram, store8, store64}
use red_x_os.Common.Loops.{for_range}
use red_x_os.Cursor
use red_x_os.Allocator.{descriptor, desc_type, desc_pages}
use red_x_os.Strings.{string_at, to_string, to_h_string64}
use red_x_os.Renderer
use red_x_os.Renderer.{Framebuffer, BasicRenderer, rect, print_string}
use red_x_os.Screen
use red_x_os.Terminal.{Terminal, all_addresses}
use red_x_os.Kernel.{Kernel, KernelParameters, halted, Run, ◌>>=◌, ◌>>◌, get, modify, drawing}
use red_x_os.Kernel.MemoryTypes.{efi_memory_type_strings}
use red_x_os.Kernel.Pool.{get_pool}

-- `basicRender.print` and `printString`.
abbrev pub say : {D : Type 0} → List ℕ → ℕ → Kernel D → Kernel D
say text color k = drawing (Renderer.print text color) k

abbrev pub say_string : {D : Type 0} → List ℕ → ℕ → Kernel D → Kernel D
say_string text color k = drawing (print_string text color) k

-- The static buffers of the two number printers, and where the argument of the second one stands.
pub record Statics : Type 0 where
  pub uint_output : ℕ
  pub hex_output64 : ℕ
  pub number : ℕ

pub say_number : {D : Type 0} → Statics → ℕ → ℕ → Kernel D → Kernel D
say_number at number color k =
    let m = to_string at.uint_output number k.ram in
    say (string_at all_addresses m at.uint_output) color (record k { ram = m })

pub say_hex : {D : Type 0} → Statics → ℕ → ℕ → Kernel D → Kernel D
say_hex at number color k =
    let m = to_h_string64 at.hex_output64 at.number (store64 at.number number k.ram) in
    say_string (string_at all_addresses m at.hex_output64) color (record k { ram = m })

-- `EFI_MEMORY_TYPE_STRINGS`; what stands behind the table is a parameter.
pub type_string : (ℕ → List ℕ) → ℕ → List ℕ
type_string beyond type = get_or efi_memory_type_strings type (beyond type)

-- One line of the memory map, as `_start` prints it.
pub say_entry : {D : Type 0} → Statics → (ℕ → List ℕ) → KernelParameters → ℕ → Kernel D → Kernel D
say_entry at beyond p i k0 =
    let desc = descriptor p.map i p.desc_size in
    let k1 = say (b',' ∷ b' ' ∷ []) 0xFF0000FF (say_number at i 0xFFFFFFFF k0) in
    let k2 = say (type_string beyond (desc_type k1.ram desc)) 0xFFFFFFFF k1 in
    let k3 = say (b',' ∷ b' ' ∷ []) 0xFF0000FF k2 in
    say (b' ' ∷ b'|' ∷ b' ' ∷ []) 0xFFFF0000 (say_number at (desc_pages k3.ram desc) 0xFFFFFFFF k3)

-- `welcome`
pub welcome : {D : Type 0} → Kernel D → Kernel D
welcome k =
    let k' = say (b'W' ∷ b'e' ∷ b'l' ∷ b'c' ∷ b'o' ∷ b'm' ∷ b'e' ∷ b'!' ∷ []) 0xFFFFFFFF k in
    let fb = k'.double_buffer in
    let down =
      for_range 51 0 (λ i. Screen.pixel fb (sub32 (add32 fb.width i) 50) i 0xFFFF0000) k'.ram in
    record k' { ram = for_range 51 0 (λ i. Screen.pixel fb (sub32 fb.width i) i 0xFFFF0000) down }

-- `panic` of a `const char*` clears 200 pixels of the first row, `panic` of a `char*` 800.
pub panic_screen : List ℕ → ℕ → BasicRenderer → BasicRenderer
panic_screen message width r0 =
    let m = rect r0.buffer 0 0 width 16 0x00000000 r0.ram in
    let r1 = record r0 { ram = m; cur = Cursor.reset r0.cur } in
    let r2 = print_string (b'[' ∷ b' ' ∷ []) 0xffffffff r1 in
    let r3 = print_string (b'P' ∷ b'A' ∷ b'N' ∷ b'I' ∷ b'C' ∷ []) 0xffff0000 r2 in
    print_string message 0xffffffff (print_string (b' ' ∷ b']' ∷ b' ' ∷ []) 0xffffffff r3)

pub panic_const : {D A : Type 0} → List ℕ → Run D A
panic_const message k = halted (drawing (panic_screen message 200) k)

pub panic : {D A : Type 0} → List ℕ → Run D A
panic message k = halted (drawing (panic_screen message 800) k)

-- The size of the terminal in characters, from the size of the screen in pixels.
pub size_terminal : Framebuffer → Terminal → Terminal
size_terminal fb t =
    let width = sub32 (fb.width / 8) 1 in
    let height = sub32 (fb.height / 16) 1 in
    record t { width = width; height = height; buffer_size = u64 (width * height) }

-- for (i = 0; i < bufferSize - 1; i++) buffer[i] = 0
pub clear_buffer : ℕ → ℕ → Ram → Ram
clear_buffer size buffer m = for_range (sub64 size 1) 0 (λ i. store8 (buffer + i) 0) m

-- `Terminal::init`
pub terminal_init : {D : Type 0} → Framebuffer → Run D (Unit {0})
terminal_init fb = do
  modify (λ k. record k { terminal = size_terminal fb k.terminal })
  size ← get (λ k. k.terminal.buffer_size)
  text ← get_pool size
  command ← get_pool size
  in_pool ← get_pool size
  out_pool ← get_pool size
  modify (λ k. record k {
    terminal = record k.terminal {
      text_buffer = text;
      command_buffer = command;
      in_buffer = in_pool;
      out_buffer = out_pool;
    };
    ram =
        clear_buffer size out_pool
          (clear_buffer size in_pool (clear_buffer size command (clear_buffer size text k.ram)));
  })
