-- ===== src/Ps2/Laws.antt =====
-- The set-up of the mouse against the controller.
use red_x_os.Common.{
  ℕ, zero, suc, ◌+◌, ◌-◌, ◌<◌, ◌≡◌, ◌∙◌, refl, ap, arith, bit_or, bit_and, u8, List, [], Bool, not,
  ◌&&◌, Bool-cases, inl, inr, all_below, all_below_sound, ◌∷◌, ◌++◌, true, false, ltb, ◌==◌,
  if◌then◌else◌,
}
use red_x_os.Ports.{outb, inb}
use red_x_os.Ps2.{
  wait_loop, wait_in_loop, m_wait, m_wait_in, m_write, m_read, read_config, write_config, order,
  ps2_mouse_init, timeout,
}
use red_x_os.Ps2.Controller.{Controller, controller, keyboard, configuration, mouse, mouse_on}

-- The two bits of the status.
free_bit :
    (b : Bool) (xs : List ℕ)
    → (bit_and (u8 ((if b then 0b10 else 0) + elim xs [ [] ↦ 0 | x ∷ ys ↦ 1 ])) 0b10 == 0) ≡ not b
free_bit true [] = refl
free_bit true (x ∷ xs) = refl
free_bit false [] = refl
free_bit false (x ∷ xs) = refl

answer_bit :
    (b : Bool) (x : ℕ) (xs : List ℕ)
    → ltb 0 (bit_and (u8 ((if b then 0b10 else 0) + elim (x ∷ xs) [ [] ↦ 0 | y ∷ ys ↦ 1 ])) 0b1)
      ≡ true
answer_bit true x xs = refl
answer_bit false x xs = refl

wait_step :
    (left : ℕ) (c : Controller)
    → let next = record c { busy = c.busy - 1 } in
      wait_loop controller (suc left) c
      ≡ (elim (not (ltb 0 c.busy)) [ true ↦ next | false ↦ wait_loop controller left next ])
unfolding wait_loop inb
wait_step left c =
    let next = record c { busy = c.busy - 1 } in
    ap (λ (free : Bool). elim free [ true ↦ next | false ↦ wait_loop controller left next ])
      (free_bit (ltb 0 c.busy) c.answers)

-- While the controller is busy for less reads than there are rounds, the wait ends with it ready.
wait_loop_lem :
    (left : ℕ) (c : Controller)
    → c.busy < left
    → wait_loop controller left c ≡ record c { busy = 0 }
wait_loop_lem zero c h = absurd (omega arith)
wait_loop_lem (suc left) c h = wait_step left c ∙ elim (Bool-cases (ltb 0 c.busy)) [
  | inl e ↦ rw e (wait_loop_lem left (record c { busy = c.busy - 1 }) (ground (arith, e)))
  | inr e ↦ rw e (ap (λ (n : ℕ). record c { busy = n }) (ground (arith, e)))
]

module _ (c : Controller) where
  m_wait_lem : c.busy < timeout → m_wait controller c ≡ record c { busy = 0 }
  unfolding m_wait
  m_wait_lem h = wait_loop_lem timeout c h

  -- An answer that waits is seen at once.
  m_wait_in_lem :
      (x : ℕ) (xs : List ℕ)
      → m_wait_in controller (record c { answers = x ∷ xs })
        ≡ record c { answers = x ∷ xs; busy = c.busy - 1 }
  unfolding m_wait_in wait_in_loop inb
  m_wait_in_lem x xs =
      let next = record c { answers = x ∷ xs; busy = c.busy - 1 } in
      ap (λ (there : Bool). elim there [ true ↦ next | false ↦ wait_in_loop controller 99999 next ])
        (answer_bit (ltb 0 c.busy) x xs)

-- A byte is written to the mouse, and its answer is read.
module _ (c : Controller) (free : c.busy < timeout) (quick : c.delay < timeout) (v : ℕ)
    (byte : v < 256) (quiet : c.answers ≡ []) where
  m_write_lem : m_write controller v c ≡ record c {
    target = keyboard;
    answers = 0xfa ∷ [];
    orders = c.orders ++ v ∷ [];
    busy = c.delay;
  }
  unfolding m_write outb
  m_write_lem =
      ap (λ d. outb controller 0x60 v (m_wait controller (outb controller 0x64 0xd4 d)))
        (m_wait_lem c free)
      ∙ ap (λ d. outb controller 0x60 v d)
          (m_wait_lem (record c { target = mouse; busy = c.delay }) quick)
      ∙ (let same : u8 v ≡ v = omega arith in rw (same, quiet) refl)

  order_lem : order controller v c ≡ record c {
    target = keyboard;
    answers = [];
    orders = c.orders ++ v ∷ [];
    busy = c.delay - 1;
  }
  unfolding order m_read inb
  order_lem =
      ap (λ d. (m_read controller d).1) m_write_lem
      ∙ ap (λ d. (inb controller 0x60 d).1)
          (m_wait_in_lem
            (record c { target = keyboard; orders = c.orders ++ v ∷ []; busy = c.delay }) 0xfa [])

-- The configuration with the mouse enabled, and with its interrupt too.
abbrev enabled : ℕ → ℕ
enabled config = bit_and config 0b11011111

abbrev configured : ℕ → ℕ
configured config = bit_or (enabled config) 0b10

-- Both are bytes, and the mouse is enabled in the second.
abbrev fits : ℕ → Bool
fits k = ltb (enabled k) 256 && ltb (configured k) 256 && (bit_and (configured k) 0b100000 == 0)

fits_table : all_below 256 fits ≡ true
unfolding all_below
fits_table = refl

fits_byte :
    (k : ℕ)
    → k < 256
    → (enabled k < 256) × (configured k < 256) × ((bit_and (configured k) 0b100000 == 0) ≡ true)
fits_byte k h =
    let e = all_below_sound 256 fits k fits_table h in
    (ground (arith, e), ground (arith, e), ground (arith, e))

module _ (c : Controller) (quick : c.delay < timeout) where
  read_config_lem :
      c.busy ≡ 0
      → c.answers ≡ []
      → c.config < 256
      → read_config controller c ≡ (
        enabled c.config,
        record c { config = enabled c.config; answers = []; busy = c.delay - 1 },
      )
  unfolding read_config outb inb
  read_config_lem free quiet byte =
      let same : u8 (enabled c.config) ≡ enabled c.config =
        omega (arith, (fits_byte c.config byte).0) in
      rw (free, quiet)
        (ap (λ d. inb controller 0x60 (m_wait_in controller (outb controller 0x64 0x20 d)))
            (m_wait_lem (record c { config = enabled c.config; answers = []; busy = c.delay })
              quick)
          ∙ ap (λ d. inb controller 0x60 d)
              (m_wait_in_lem (record c { config = enabled c.config; busy = c.delay })
                (enabled c.config) [])
          ∙ rw same refl)

  write_config_lem :
      (v : ℕ)
      → c.busy < timeout
      → v < 256
      → write_config controller v c ≡ record c { target = keyboard; config = v; busy = c.delay }
  unfolding write_config outb
  write_config_lem v free byte =
      let same : u8 v ≡ v = omega arith in
      ap (λ d. outb controller 0x60 v (m_wait controller (outb controller 0x64 0x60 d)))
        (m_wait_lem c free)
      ∙ ap (λ d. outb controller 0x60 v d)
          (m_wait_lem (record c { target = configuration; busy = c.delay }) quick)
      ∙ rw same refl

mouse_init_steps :
    (c : Controller)
    → c.delay < timeout
    → c.busy ≡ 0
    → c.answers ≡ []
    → c.config < 256
    → ps2_mouse_init controller c ≡ record c {
      target = keyboard;
      config = configured c.config;
      answers = [];
      orders = (c.orders ++ 0xf6 ∷ []) ++ 0xf4 ∷ [];
      busy = c.delay - 1;
    }
unfolding ps2_mouse_init
mouse_init_steps c quick free quiet byte =
    let c1 = record c { config = enabled c.config; answers = []; busy = c.delay - 1 } in
    let c2 = record c1 { target = keyboard; config = configured c.config; busy = c.delay } in
    let c3 = record c2 { orders = c.orders ++ 0xf6 ∷ []; busy = c.delay - 1 } in
    ap
      (λ (r : ℕ × Controller).
        order controller 0xf4
          (order controller 0xf6 (write_config controller (bit_or r.0 0b10) r.1)))
      (read_config_lem c quick free quiet byte)
    ∙ ap (λ d. order controller 0xf4 (order controller 0xf6 d))
        (write_config_lem c1 quick (configured c.config) (omega arith) (fits_byte c.config byte).1)
    ∙ ap (λ d. order controller 0xf4 d) (order_lem c2 quick quick 0xf6 (omega arith) refl)
    ∙ order_lem c3 (omega arith) quick 0xf4 (omega arith) refl

-- `ps2MouseInit` with a controller that is ready, has no answer waiting and is never busy for
-- 100000 reads of its status: of the configuration bit 5 is clear, which enables the mouse, bit 1
-- is set, and the other bits stay; the mouse has got the orders 0xf6 and 0xf4, its answers are
-- read, and no byte was lost.
pub ps2_mouse_init_lem :
    (c : Controller)
    → c.delay < timeout
    → c.busy ≡ 0
    → c.answers ≡ []
    → c.config < 256
    → (mouse_on (ps2_mouse_init controller c) ≡ true)
      × (ps2_mouse_init controller c ≡ record c {
        target = keyboard;
        config = bit_or (bit_and c.config 0b11011111) 0b10;
        answers = [];
        orders = (c.orders ++ 0xf6 ∷ []) ++ 0xf4 ∷ [];
        busy = c.delay - 1;
      })
ps2_mouse_init_lem c quick free quiet byte =
    let same = mouse_init_steps c quick free quiet byte in
    (ap mouse_on same ∙ (fits_byte c.config byte).2, same)
