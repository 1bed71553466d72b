-- ===== src/Ps2.antt =====
-- kernel/src/hid/mouse.h and mouse.cpp: the traffic with the PS/2 controller that sets the mouse up.
pub mod Controller
pub mod Laws
mod Tests
use red_x_os.Common.{ℕ, zero, suc, ◌+◌, Bool, true, false, ltb, ◌==◌, bit_and, bit_or}
use red_x_os.Ports.{Ports, outb, inb}

-- while (timeout--): each of the two waits gives up after 100000 reads of the status.
abbrev pub timeout : ℕ
timeout = 100000

pub wait_loop : {D : Type 0} → Ports D → ℕ → D → D
wait_loop p zero d = d
wait_loop p (suc left) d =
    let (status, d') = inb p 0x64 d in
    elim (bit_and status 0b10 == 0) [ true ↦ d' | false ↦ wait_loop p left d' ]

pub wait_in_loop : {D : Type 0} → Ports D → ℕ → D → D
wait_in_loop p zero d = d
wait_in_loop p (suc left) d =
    let (status, d') = inb p 0x64 d in
    elim (ltb 0 (bit_and status 0b1)) [ true ↦ d' | false ↦ wait_in_loop p left d' ]

-- `mWait`, `mWaitIn`, `mWrite` and `mRead`
pub m_wait : {D : Type 0} → Ports D → D → D
m_wait p d = wait_loop p timeout d

pub m_wait_in : {D : Type 0} → Ports D → D → D
m_wait_in p d = wait_in_loop p timeout d

pub m_write : {D : Type 0} → Ports D → ℕ → D → D
m_write p v d = outb p 0x60 v (m_wait p (outb p 0x64 0xd4 (m_wait p d)))

pub m_read : {D : Type 0} → Ports D → D → ℕ × D
m_read p d = inb p 0x60 (m_wait_in p d)

-- `ps2MouseInit`: the mouse is enabled and the configuration read, the configuration goes back with
-- one bit more, and the mouse gets two orders, each of which it answers.
pub read_config : {D : Type 0} → Ports D → D → ℕ × D
read_config p d0 =
    let d1 = outb p 0x64 0xa8 d0 in inb p 0x60 (m_wait_in p (outb p 0x64 0x20 (m_wait p d1)))

pub write_config : {D : Type 0} → Ports D → ℕ → D → D
write_config p stat d = outb p 0x60 stat (m_wait p (outb p 0x64 0x60 (m_wait p d)))

pub order : {D : Type 0} → Ports D → ℕ → D → D
order p v d = (m_read p (m_write p v d)).1

pub ps2_mouse_init : {D : Type 0} → Ports D → D → D
ps2_mouse_init p d =
    let (stat, d1) = read_config p d in
    order p 0xf4 (order p 0xf6 (write_config p (bit_or stat 0b10) d1))
