-- ===== src/Kernel.antt =====
-- kernel/src/kernelFunc.h, kernelFunc.cpp, main.cpp and `pTableMan::getPool`: the parts of the kernel
-- together, over one memory, and how they are set up.
pub mod Pool
pub mod Memory
pub mod Interrupts
pub mod Identity
pub mod Own
pub mod Locked
pub mod Handed
pub mod Initialised
pub mod Safe
pub mod OwnRanges
pub mod OwnStages
pub mod Room
pub mod Pooled
pub mod PoolPages
pub mod PoolEnds
pub mod MemoryTypes
pub mod Drawing
pub mod Start
pub mod Gates
pub mod Machine
pub mod Typing
pub mod Keys
mod Tests
use red_x_os.Common.{ℕ, Bool}
use red_x_os.Common.Ram.{Ram}
use red_x_os.Allocator.{Allocator}
use red_x_os.Paging.{TableMan}
use red_x_os.Renderer.{Framebuffer, Font, BasicRenderer}
use red_x_os.Terminal.{Terminal}

-- `KernelParameters` and the structs that it points to, with the addresses of each.
pub record KernelParameters : Type 0 where
  pub at : ℕ
  pub buffer_at : ℕ
  pub buffer : Framebuffer
  pub font_at : ℕ
  pub font_header : ℕ
  pub font : Font
  pub map : ℕ
  pub map_size : ℕ
  pub desc_size : ℕ
  pub stack : ℕ
  pub stack_size : ℕ
  pub page_directory_address : ℕ
  pub page_directory_size : ℕ

-- What the processor is told: the page directory, the two tables, and whether interrupts are on.
pub record Registers : Type 0 where
  pub cr3 : ℕ
  pub gdt_size : ℕ
  pub gdt_offset : ℕ
  pub idt_limit : ℕ
  pub idt_offset : ℕ
  pub interrupts : Bool

-- The globals of the kernel. Memory stands once, in `ram`: a part works on it in its turn. The state
-- behind the ports is a parameter.
pub record Kernel (D : Type 0) : Type 0 where
  pub ram : Ram
  pub allocator : Allocator
  pub tables : TableMan
  pub vai : ℕ
  pub registers : Registers
  pub basic_render : BasicRenderer
  pub double_buffer : Framebuffer
  pub terminal : Terminal
  pub terminal_font : Font
  pub ports : D

-- A routine ends with a result, or the kernel panics and halts.
pub data Ended (D A : Type 0) : Type 0 where
  running : A → Kernel D → Ended D A
  halted : Kernel D → Ended D A

abbrev pub Run : Type 0 → Type 0 → Type 0
Run D A = Kernel D → Ended D A

abbrev pub then_run : {D A B : Type 0} → (A → Run D B) → Ended D A → Ended D B
then_run next (running a k) = next a k
then_run next (halted k) = halted k

infixl 5 ◌>>=◌ ◌>>◌
abbrev pub ◌>>=◌ : {D A B : Type 0} → Run D A → (A → Run D B) → Run D B
(act >>= next) k = then_run next (act k)

abbrev pub ◌>>◌ : {D B : Type 0} → Run D (Unit {0}) → Run D B → Run D B
(act >> next) k = then_run (λ _. next) (act k)

abbrev pub give : {D A : Type 0} → A → Run D A
give a k = running a k

abbrev pub get : {D A : Type 0} → (Kernel D → A) → Run D A
get f k = running (f k) k

abbrev pub modify : {D : Type 0} → (Kernel D → Kernel D) → Run D (Unit {0})
modify f k = running tt (f k)

-- A part's operation, on the kernel's memory.
abbrev pub allocating : {D : Type 0} → (Allocator → Allocator) → Kernel D → Kernel D
allocating f k =
    let a = f (record k.allocator { ram = k.ram }) in record k { allocator = a; ram = a.ram }

abbrev pub tabling : {D : Type 0} → (TableMan → TableMan) → Kernel D → Kernel D
tabling f k =
    let t = f (record k.tables { ram = k.ram; screen = k.basic_render }) in
    record k { tables = t; ram = t.ram; basic_render = t.screen }

abbrev pub drawing : {D : Type 0} → (BasicRenderer → BasicRenderer) → Kernel D → Kernel D
drawing f k =
    let r = f (record k.basic_render { ram = k.ram }) in record k { basic_render = r; ram = r.ram }
