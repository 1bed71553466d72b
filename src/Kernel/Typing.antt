-- ===== src/Kernel/Typing.antt =====
-- Keys that are pressed while the loop of `_start` runs.
use red_x_os.Common.Text.{Waits}
use red_x_os.Common.{
  ℕ, ◌+◌, ◌*◌, ◌^◌, ◌≤◌, ◌<◌, ◌≡◌, ◌⊎◌, ◌∙◌, refl, arith, ◌||◌, Bool, List, [], ◌∷◌, ◌++◌, true,
  false,
}
use red_x_os.Common.Ram.{Ram}
use red_x_os.Renderer.{Framebuffer}
use red_x_os.Screen.Inside.{HoldsRows, render-SameOutside}
use red_x_os.Screen.{render}
use red_x_os.Terminal.{Terminal, handler}
use red_x_os.Terminal.Typed.Rounds.{Empty, moved, Agrees, moved-Empty, handler_idle, next-Empty}
use red_x_os.Terminal.Typed.Drain.{Pending, next, handler-next}
use red_x_os.Kernel.{Kernel}
use red_x_os.Kernel.Start.{main_round}

-- The range of `size` bytes at `a` is not in the frame buffer.
abbrev Off : Framebuffer → ℕ → ℕ → Type 0
Off fb a size = (a + size ≤ fb.base_addr) ⊎ (fb.base_addr + fb.size ≤ a)

module _ {D : Type 0} where
  -- The terminal, over the kernel's memory.
  abbrev pub screen_terminal : Kernel D → Terminal
  screen_terminal k = record k.terminal { ram = k.ram }

  -- The screen is large enough for the terminal, and its double buffer and the terminal's buffers stand
  -- apart.
  pub record Screened (k : Kernel D) : Type 0 where
    pub rows : HoldsRows k.double_buffer
    pub fits : k.terminal.width * 8 * 4 + k.terminal.height * 16 * k.double_buffer.ppsl * 4 ≤ 2 ^ 32
    pub off_text : Off k.double_buffer k.terminal.text_buffer k.terminal.buffer_size
    pub off_command : Off k.double_buffer k.terminal.command_buffer k.terminal.buffer_size
    pub off_in : Off k.double_buffer k.terminal.in_buffer k.terminal.buffer_size
    pub off_out : Off k.double_buffer k.terminal.out_buffer k.terminal.buffer_size

  pub record Steady (k : Kernel D) (text command : List ℕ) : Type 0 where
    pub empty : Empty (screen_terminal k) text command
    pub screened : Screened k

  -- After a round the terminal is as its handler leaves it, but for what is drawn.
  module _ (k : Kernel D) (m : Ram) (i : ℕ) (w v : Bool) where
    abbrev after : Terminal
    after = moved (screen_terminal k) m i 0 w v

    drawn : Ram
    drawn = render k.double_buffer k.terminal_font after.text_buffer after.width after.height m

    round-moved :
        handler (screen_terminal k) ≡ after
        → (main_round k).1 ≡ record k { terminal = record after { ram = drawn }; ram = drawn }
    unfolding main_round drawn
    round-moved e = rw e refl

    round-Steady :
        (text command : List ℕ)
        → Screened k
        → handler (screen_terminal k) ≡ after
        → Empty after text command
        → i < k.terminal.buffer_size
        → Steady (main_round k).1 text command
    unfolding drawn
    round-Steady text command s e empty place =
        let same =
          render-SameOutside k.double_buffer s.rows k.terminal_font after.text_buffer after.width
            after.height m s.fits in
        let agrees : (a : ℕ) → Off k.double_buffer a k.terminal.buffer_size → Agrees after drawn a =
          λ a off x low high. same x (omega (arith, off)) in
        rw (round-moved e) (record {
          empty =
              moved-Empty after text command drawn i 0 w v empty place refl
                (agrees after.text_buffer s.off_text) (agrees after.command_buffer s.off_command)
                (agrees after.in_buffer s.off_in) (agrees after.out_buffer s.off_out);
          screened = record {
            rows = s.rows;
            fits = s.fits;
            off_text = s.off_text;
            off_command = s.off_command;
            off_in = s.off_in;
            off_out = s.off_out;
          };
        })

  -- The buffers are where they were.
  pub record Alike (k k' : Kernel D) : Type 0 where
    pub text_place : k'.terminal.text_buffer ≡ k.terminal.text_buffer
    pub command_place : k'.terminal.command_buffer ≡ k.terminal.command_buffer
    pub size : k'.terminal.buffer_size ≡ k.terminal.buffer_size

  pub Alike-trans : {k l m : Kernel D} → Alike k l → Alike l m → Alike k m
  Alike-trans a b = record {
    text_place = b.text_place ∙ a.text_place;
    command_place = b.command_place ∙ a.command_place;
    size = b.size ∙ a.size;
  }

  round-Alike :
      (k : Kernel D) (m : Ram) (i : ℕ) (w v : Bool)
      → handler (screen_terminal k) ≡ after k m i w v
      → Alike k (main_round k).1 × ((main_round k).1.terminal.ii ≡ i)
  round-Alike k m i w v e =
      rw (round-moved k m i w v e)
        (record { text_place = refl; command_place = refl; size = refl }, refl)

  -- A round with nothing to do.
  pub idle-Steady :
      (k : Kernel D) (text command : List ℕ)
      → Steady k text command
      → Steady (main_round k).1 text command
        × Alike k (main_round k).1
        × ((main_round k).1.terminal.ii ≡ 0)
  idle-Steady k text command s =
      let t = screen_terminal k in
      let v = t.scheduler_work || false in
      let e = handler_idle t text command s.empty in
      let still : (a : ℕ) → Agrees t k.ram a = λ a x low high. refl in
      let empty =
        moved-Empty t text command k.ram 0 0 false v s.empty (omega (arith, s.empty.ready.in_place))
          refl (still t.text_buffer) (still t.command_buffer) (still t.in_buffer)
          (still t.out_buffer) in
      (
        round-Steady k k.ram 0 false v text command s.screened e empty
            (omega (arith, s.empty.ready.in_place)),
        (round-Alike k k.ram 0 false v e).0,
        (round-Alike k k.ram 0 false v e).1,
      )

  -- A round that takes the character that waits.
  pub typed-Steady :
      (k : Kernel D) (text command : List ℕ) (c : ℕ)
      (p : Pending (screen_terminal k) text command (c ∷ []))
      → k.terminal.ii ≡ 0
      → Waits k.ram k.terminal.in_buffer k.terminal.buffer_size (c ∷ [])
      → Screened k
      → Steady (main_round k).1 (text ++ c ∷ []) (command ++ c ∷ []) × Alike k (main_round k).1
  typed-Steady k text command c p start w s =
      let t = screen_terminal k in
      let n = next t text command c [] p in
      let e = handler-next t text command c [] p in
      let empty = next-Empty t text command c p start w in
      (
        round-Steady k n.ram n.ii true n.scheduler_work (text ++ c ∷ []) (command ++ c ∷ []) s e
            empty p.in_room,
        (round-Alike k n.ram n.ii true n.scheduler_work e).0,
      )
