-- ===== src/Kernel/Start.antt =====
-- `_start`, and one round of its loop.
use red_x_os.Common.{ℕ, ◌/◌, List, [], ◌∷◌, Bool, not, sub32}
use red_x_os.Common.Loops.{for_range}
use red_x_os.Doubles.{of_unsigned}
use red_x_os.Math.{roundd}
use red_x_os.Cursor
use red_x_os.Cursor.{Cursor}
use red_x_os.Ports.{Ports}
use red_x_os.Renderer.{cls}
use red_x_os.Screen.{render}
use red_x_os.Terminal.{handler}
use red_x_os.Kernel.{Kernel, KernelParameters, Run, ◌>>◌, modify, drawing}
use red_x_os.Kernel.Pool.{next_line}
use red_x_os.Kernel.Memory.{memory_init}
use red_x_os.Kernel.Interrupts.{Handlers, gdt_init, interupt_init}
use red_x_os.Kernel.Drawing.{Statics, say_string, say_hex, say_entry, welcome, terminal_init}

-- The addresses of what the linker and the compiler place, and what stands behind the table of names.
pub record Image : Type 0 where
  pub kernel_start : ℕ
  pub kernel_end : ℕ
  pub global_descriptor_table : ℕ
  pub handlers : Handlers
  pub statics : Statics
  pub beyond_type_strings : ℕ → List ℕ

-- The cursor's bounds, in characters.
pub cursor_bounds : KernelParameters → Cursor → Cursor
cursor_bounds p c = record c {
  xm = sub32 (roundd (of_unsigned (p.buffer.ppsl / 8))) 1;
  ym = sub32 (roundd (of_unsigned (p.buffer.height / 16))) 1;
}

pub first_screen : {D : Type 0} → KernelParameters → Kernel D → Kernel D
first_screen p k = record k {
  double_buffer = p.buffer;
  basic_render = record k.basic_render {
    cur = cursor_bounds p k.basic_render.cur;
    font = p.font;
    buffer = p.buffer;
  };
}

-- The memory map and the stack's address are printed.
pub say_parameters : {D : Type 0} → Image → KernelParameters → Kernel D → Kernel D
say_parameters image p k0 =
    let k1 =
      for_range (p.map_size / p.desc_size) 0 (say_entry image.statics image.beyond_type_strings p)
        k0 in
    let k2 =
      say_string
        (b'S' ∷ b't' ∷ b'a' ∷ b'c' ∷ b'k' ∷ b' ' ∷ b'a' ∷ b'd' ∷ b'd' ∷ b'r' ∷ b':' ∷ b' ' ∷ [])
        0xFFFFFFFF (next_line k1) in
    next_line (say_hex image.statics p.stack 0xFFFFFFFF k2)

-- `_start` up to its loop.
pub start : {D : Type 0} → Ports D → Image → KernelParameters → Run D (Unit {0})
start ports image p = do
  modify (first_screen p)
  modify (say_parameters image p)
  modify (gdt_init image.global_descriptor_table)
  modify (memory_init image.kernel_start image.kernel_end p)
  interupt_init ports image.handlers
  modify welcome
  modify (drawing (λ r. record r { cur = Cursor.reset r.cur }))
  modify (λ k. record k { terminal_font = p.font })
  terminal_init p.buffer
  modify (drawing (λ r. record r { ram = cls r.buffer r.ram }))

-- One round of the loop, and whether the processor waits for an interrupt after it.
unfoldable pub main_round : {D : Type 0} → Kernel D → Bool × Kernel D
main_round k =
    let t = handler (record k.terminal { ram = k.ram }) in
    let m = render k.double_buffer k.terminal_font t.text_buffer t.width t.height t.ram in
    (not t.scheduler_work, record k { terminal = record t { ram = m }; ram = m })
