-- ===== src/Kernel/Gates.antt =====
-- The interrupt table after `interuptInit`.
use red_x_os.Common.{ℕ, ◌+◌, ◌*◌, ◌^◌, ◌<◌, ◌≡◌, true}
use red_x_os.Common.Ram.{Ram}
use red_x_os.Ports.{Ports, outb}
use red_x_os.Pic.{pic1_data, pic2_data, remap_pic}
use red_x_os.Idt.{idt_entry}
use red_x_os.Idt.Laws.{IsGate, Unset}
use red_x_os.Kernel.{Kernel, Ended, running, halted}
use red_x_os.Kernel.Interrupts.{Handlers, set_gates, unmask}
use red_x_os.Kernel.PoolPages.{Pooled}
use red_x_os.Kernel.PoolEnds.{AllLocked}

-- The handlers' addresses have 64 bits.
pub record Words (h : Handlers) : Type 0 where
  pub page : h.page_fault_handler < 2 ^ 64
  pub double : h.double_fault_handler < 2 ^ 64
  pub general : h.gen_proc_fault_handler < 2 ^ 64
  pub keyboard : h.keyboard_handler < 2 ^ 64

-- A gate's place in the table at `t`.
abbrev pub gate_at : ℕ → ℕ → ℕ
gate_at t n = t + n * 16

-- From `m` to `m'` the four gates of the table at `t` were set to the handlers, and no other byte
-- was changed.
pub record FourGates (h : Handlers) (t : ℕ) (m m' : Ram) : Type 0 where
  pub page : IsGate h.page_fault_handler (idt_entry m' (gate_at t 0xe))
  pub double : IsGate h.double_fault_handler (idt_entry m' (gate_at t 0x8))
  pub general : IsGate h.gen_proc_fault_handler (idt_entry m' (gate_at t 0xd))
  pub keyboard : IsGate h.keyboard_handler (idt_entry m' (gate_at t 0x21))
  pub others :
      (x : ℕ)
      → Unset (gate_at t 0xe) x
      → Unset (gate_at t 0x8) x
      → Unset (gate_at t 0xd) x
      → Unset (gate_at t 0x21) x
      → m' x ≡ m x

module _ {D : Type 0} where
  -- What `interuptInit` does before its pool, and after it.
  abbrev pub limited : Kernel D → Kernel D
  limited k = record k { registers = record k.registers { idt_limit = 0x0fff } }

  abbrev listening : Ports D → Handlers → ℕ → Kernel D → Kernel D
  listening p h offset m =
      let m1 = record m { registers = record m.registers { idt_offset = offset } } in
      let m2 = unmask p (set_gates h m1) in
      record m2 { registers = record m2.registers { interrupts = true } }

  -- The table stands where `VAI` was, the processor knows it, the two interrupt controllers are
  -- remapped and masked, and interrupts are on. `m` is the kernel when the pool was given.
  pub record Listens (p : Ports D) (h : Handlers) (k m k' : Kernel D) : Type 0 where
    pub gates : FourGates h k.vai m.ram k'.ram
    pub place : k'.registers.idt_offset ≡ k.vai
    pub limit : k'.registers.idt_limit ≡ 0x0fff
    pub on : k'.registers.interrupts ≡ true
    pub controllers :
        k'.ports ≡ outb p pic2_data 0b11101111 (outb p pic1_data 0b11111001 (remap_pic p k.ports))

  pub data Started (p : Ports D) (h : Handlers) (k : Kernel D) : Ended D (Unit {0}) → Type 0 where
    started :
        {m k' : Kernel D}
        → Pooled 2 (limited k) m
        → Listens p h k m k'
        → Started p h k (running tt k')
    no_table : {k' : Kernel D} → AllLocked k' → Started p h k (halted k')
