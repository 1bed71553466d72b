-- ===== src/Kernel/Interrupts.antt =====
-- `gdtInit` and `interuptInit`
use red_x_os.Common.{ℕ, ◌-◌, true}
use red_x_os.Ports.{Ports, outb}
use red_x_os.Idt.{intr, set_gate}
use red_x_os.Pic.{pic1_data, pic2_data, remap_pic}
use red_x_os.Kernel.{Kernel, Run, ◌>>=◌, ◌>>◌, modify}
use red_x_os.Kernel.Pool.{get_pool}

-- `gdtInit`. `GDT` is aligned to a page, and so its size is one.
pub gdt_init : {D : Type 0} → ℕ → Kernel D → Kernel D
gdt_init global_descriptor_table k = record k {
  registers = record k.registers { gdt_size = 0x1000 - 1; gdt_offset = global_descriptor_table };
}

-- The addresses of the four handlers.
pub record Handlers : Type 0 where
  pub page_fault_handler : ℕ
  pub double_fault_handler : ℕ
  pub gen_proc_fault_handler : ℕ
  pub keyboard_handler : ℕ

-- The four calls of `setGate`, for the table at `idtr.offset`. The two pages that `getPool` gave stand
-- in memory at the addresses at which the kernel sees them.
unfoldable pub set_gates : {D : Type 0} → Handlers → Kernel D → Kernel D
set_gates h k =
    let idt = k.registers.idt_offset in
    let m1 = set_gate h.page_fault_handler 0xe intr 0x08 idt k.ram in
    let m2 = set_gate h.double_fault_handler 0x8 intr 0x08 idt m1 in
    let m3 = set_gate h.gen_proc_fault_handler 0xd intr 0x08 idt m2 in
    record k { ram = set_gate h.keyboard_handler 0x21 intr 0x08 idt m3 }

-- `remapPIC`, and the masks behind it.
unfoldable pub unmask : {D : Type 0} → Ports D → Kernel D → Kernel D
unmask p k =
    let d = remap_pic p k.ports in
    record k { ports = outb p pic2_data 0b11101111 (outb p pic1_data 0b11111001 d) }

unfoldable pub interupt_init : {D : Type 0} → Ports D → Handlers → Run D (Unit {0})
interupt_init p h = do
  modify (λ k. record k { registers = record k.registers { idt_limit = 0x0fff } })
  offset ← get_pool 0x1000
  modify (λ k. record k { registers = record k.registers { idt_offset = offset } })
  modify (set_gates h)
  modify (unmask p)
  modify (λ k. record k { registers = record k.registers { interrupts = true } })
