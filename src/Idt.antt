-- ===== src/Idt.antt =====
-- kernel/src/interrupts/interrupts.h and interrupts.cpp: the entries of the interrupt table.
pub mod Laws
use red_x_os.Common.{ℕ, ◌+◌, ◌*◌, ◌/◌, ◌%◌, ◌^◌}
use red_x_os.Common.{◌==◌, if◌then◌else◌, bit_and, bit_or, u16, u32, add64}
use red_x_os.Common.Ram.{Ram, load16, load32, store8, store16, store32}

pub record IdtEntry : Type 0 where
  pub offset0 : ℕ
  pub selector : ℕ
  pub ist : ℕ
  pub type_attr : ℕ
  pub offset1 : ℕ
  pub offset2 : ℕ
  pub ignore : ℕ

-- `IDTEntry::setOffset`
pub set_offset : ℕ → IdtEntry → IdtEntry
set_offset offset e = record e {
  offset0 = u16 (bit_and offset 0x000000000000ffff);
  offset1 = u16 (bit_and offset 0x00000000ffff0000 / 2 ^ 16);
  offset2 = u32 (bit_and offset 0xffffffff00000000 / 2 ^ 32);
}

-- `IDTEntry::getOffset`
pub get_offset : IdtEntry → ℕ
get_offset e = bit_or (bit_or (bit_or 0 e.offset0) (e.offset1 * 2 ^ 16)) (e.offset2 * 2 ^ 32)

abbrev pub intr : ℕ
intr = 0b10001110

-- The entry that stands at `a`.
abbrev pub idt_entry : Ram → ℕ → IdtEntry
idt_entry m a = record {
  offset0 = load16 m a;
  selector = load16 m (a + 2);
  ist = m (a + 4);
  type_attr = m (a + 5);
  offset1 = load16 m (a + 6);
  offset2 = load32 m (a + 8);
  ignore = load32 m (a + 12);
}

-- `setGate`: the entry in the table that `idtr.offset` points to. It passes over its arguments
-- `type_attr` and `selector`.
pub set_gate : ℕ → ℕ → ℕ → ℕ → ℕ → Ram → Ram
set_gate handler offset type_attr selector idtr_offset m =
    let a = add64 idtr_offset (offset * 16) in
    let e = set_offset handler (idt_entry m a) in
    let m' = store32 (a + 8) e.offset2 (store16 (a + 6) e.offset1 (store16 a e.offset0 m)) in
    store16 (a + 2) 0x08 (store8 (a + 5) intr m')
