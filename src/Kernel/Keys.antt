-- ===== src/Kernel/Keys.antt =====
-- From the key to the screen's text.
use red_x_os.Common.Text.{Waits}
use red_x_os.Common.{
  ℕ, ◌+◌, ◌<◌, ◌≡◌, ◌≢◌, ◌⊎◌, ◌∙◌, refl, ap, arith, List, [], ◌∷◌, ◌++◌, length, inl, inr, Option,
  none, some, length-append,
}
use red_x_os.Common.Ram.{Ram}
use red_x_os.Ports.{Ports, inb}
use red_x_os.Keyboard.{handle_keyboard}
use red_x_os.Keyboard.Typing.{
  typed, text_of, handle_ram, written, typed_char, handle_keyboard-Waits, handle_keyboard_frame,
}
use red_x_os.Pic
use red_x_os.Terminal.{Terminal}
use red_x_os.Terminal.Typed.{Distinct}
use red_x_os.Terminal.Typed.Drain.{Pending}
use red_x_os.Terminal.Typed.Rounds.{Agrees, moved-Ready, moved-Empty}
use red_x_os.Kernel.{Kernel}
use mathlib.Core.List.{append-nil, append_assoc}
use red_x_os.Kernel.Start.{main_round}
use red_x_os.Kernel.Machine.{Machine, keyboard_of, keyboard_interrupt, loop_round}
use red_x_os.Kernel.Typing.{
  screen_terminal, Screened, Steady, Alike, Alike-trans, idle-Steady, typed-Steady,
}

Option-cases : (o : Option ℕ) → (o ≡ none) ⊎ ((c : ℕ) × (o ≡ some c))
Option-cases none = inl refl
Option-cases (some c) = inr (c, refl)

module _ {D : Type 0} (p : Ports D) (beyond : ℕ) where
  -- The scan code that the keyboard's handler reads, and the character that it types, if any.
  abbrev pub code : Machine D → ℕ
  code s = (inb p 0x60 s.kernel.ports).0

  abbrev pub key : Machine D → Option ℕ
  key s = typed beyond (code s) (keyboard_of s)

  -- Ready for a key: all that was typed is on the screen.
  pub record Waiting (s : Machine D) (text command : List ℕ) : Type 0 where
    pub steady : Steady s.kernel text command
    pub start : s.kernel.terminal.ii ≡ 0

  abbrev pressed : Machine D → Kernel D
  pressed s = (keyboard_interrupt p beyond s).kernel

  -- A key and two rounds of the loop.
  abbrev pub settled : Machine D → Machine D
  settled s = loop_round (loop_round (keyboard_interrupt p beyond s))

  module _ (s : Machine D) (text command : List ℕ) (small : beyond < 256)
      (h : Waiting s text command) where
    abbrev before : Terminal
    before = screen_terminal s.kernel

    abbrev typed_ram : Ram
    typed_ram = (handle_keyboard beyond (code s) (keyboard_of s)).ram

    room : 0 < before.buffer_size
    room = omega (arith, h.steady.empty.ready.in_place)

    pressed-screen : screen_terminal (pressed s) ≡ record before { ram = typed_ram }
    unfolding keyboard_interrupt Pic.keyboard_handler
    pressed-screen = refl

    waits : Waits typed_ram before.in_buffer before.buffer_size (text_of (key s))
    unfolding keyboard_of
    waits =
        handle_keyboard-Waits beyond (code s) (keyboard_of s) [] small h.steady.empty.nothing room

    away : (a : ℕ) → Distinct a before.in_buffer before.buffer_size → Agrees before typed_ram a
    unfolding keyboard_of
    away a apart x low high =
        handle_keyboard_frame beyond (code s) (keyboard_of s) [] h.steady.empty.nothing room x
          (omega (arith, apart))

    pressed-Screened : Screened (pressed s)
    unfolding keyboard_interrupt Pic.keyboard_handler
    pressed-Screened =
        let k = h.steady.screened in
        record {
          rows = k.rows;
          fits = k.fits;
          off_text = k.off_text;
          off_command = k.off_command;
          off_in = k.off_in;
          off_out = k.off_out;
        }

    -- A key that types nothing leaves the terminal as it was.
    silent-Steady : key s ≡ none → Steady (pressed s) text command
    unfolding keyboard_interrupt Pic.keyboard_handler keyboard_of
    silent-Steady e =
        let same : typed_ram ≡ before.ram =
          handle_ram beyond (code s) (keyboard_of s) ∙ ap (λ o. written o (keyboard_of s)) e in
        let agrees : (a : ℕ) → Agrees before typed_ram a =
          λ a x low high. ap (λ (m : Ram). m x) same in
        record {
          empty =
              moved-Empty before text command typed_ram before.ii before.io before.work
                before.scheduler_work h.steady.empty h.steady.empty.ready.in_place
                h.steady.empty.from_start (agrees before.text_buffer) (agrees before.command_buffer)
                (agrees before.in_buffer) (agrees before.out_buffer);
          screened = pressed-Screened;
        }

    -- A key that types a character makes it wait in `in`.
    pressed-Pending :
        (c : ℕ)
        → key s ≡ some c
        → c ≢ 10
        → length text + 1 < before.buffer_size
        → length command + 1 < before.buffer_size
        → Pending (screen_terminal (pressed s)) text command (c ∷ [])
    unfolding keyboard_interrupt Pic.keyboard_handler
    pressed-Pending c e line text_room command_room =
        let r = h.steady.empty.ready in
        let char = typed_char beyond (code s) (keyboard_of s) c small e in
        let w : Waits typed_ram before.in_buffer before.buffer_size (c ∷ []) =
          rw (ap text_of e) at waits in
        record {
          ready =
              moved-Ready before text command typed_ram before.ii before.io before.work
                before.scheduler_work r r.in_place h.steady.empty.from_start
                (away before.text_buffer r.text_in) (away before.command_buffer r.command_in);
          chars = λ i q.
              let place : before.in_buffer + before.ii + i ≡ before.in_buffer + i =
                omega (arith, h.start) in
              ap typed_ram place ∙ w.chars i q;
          typed = λ i q.
              let first : i ≡ 0 = omega arith in rw first (omega (arith, char), char.1, line);
          in_room = omega (arith, h.start, text_room);
          text_room = text_room;
          command_room = command_room;
          quiet =
              away before.out_buffer (omega (arith, r.in_out)) before.out_buffer (omega arith)
                (omega (arith, room))
              ∙ h.steady.empty.quiet;
          from_start = h.steady.empty.from_start;
        }

    pressed-Alike : Alike s.kernel (pressed s)
    unfolding keyboard_interrupt Pic.keyboard_handler
    pressed-Alike = record { text_place = refl; command_place = refl; size = refl }

    pressed_start : (pressed s).terminal.ii ≡ 0
    unfolding keyboard_interrupt Pic.keyboard_handler
    pressed_start = h.start

    pressed-Waits :
        (c : ℕ)
        → key s ≡ some c
        → Waits
            (pressed s).ram
            (pressed s).terminal.in_buffer
            (pressed s).terminal.buffer_size
            (c ∷ [])
    unfolding keyboard_interrupt Pic.keyboard_handler
    pressed-Waits c e = rw (ap text_of e) at waits

    settled-Waiting :
        key s ≢ some 10
        → length text + length (text_of (key s)) < before.buffer_size
        → length command + length (text_of (key s)) < before.buffer_size
        → Waiting (settled s) (text ++ text_of (key s)) (command ++ text_of (key s))
          × Alike s.kernel (settled s).kernel
    unfolding loop_round
    settled-Waiting line text_room command_room = elim (Option-cases (key s)) [
      | inl e ↦
          let (s1, a1, i1) = idle-Steady (pressed s) text command (silent-Steady e) in
          let (s2, a2, i2) = idle-Steady (main_round (pressed s)).1 text command s1 in
          rw (e, append-nil text, append-nil command)
            (record { steady = s2; start = i2 }, Alike-trans pressed-Alike (Alike-trans a1 a2))
      | inr (c, e) ↦
          let one_char : length (text_of (key s)) ≡ 1 = ap (λ o. length (text_of o)) e in
          let no_line : c ≢ 10 = λ q. line (e ∙ ap (λ x. some x) q) in
          let (s1, a1) =
            typed-Steady (pressed s) text command c
              (pressed-Pending c e no_line (omega (arith, one_char, text_room))
                (omega (arith, one_char, command_room)))
              pressed_start (pressed-Waits c e) pressed-Screened in
          let (s2, a2, i2) =
            idle-Steady (main_round (pressed s)).1 (text ++ c ∷ []) (command ++ c ∷ []) s1 in
          rw e (record { steady = s2; start = i2 }, Alike-trans pressed-Alike (Alike-trans a1 a2))
    ]

  -- Keys are pressed, each with two rounds of the loop after it, and none of them is Enter. The characters
  -- are those that the keys type.
  pub data Types : Machine D → List ℕ → Machine D → Type 0 where
    rest : (s : Machine D) → Types s [] s
    press :
        (s : Machine D) {t : Machine D} {cs : List ℕ}
        → key s ≢ some 10
        → Types (settled s) cs t
        → Types s (text_of (key s) ++ cs) t

  -- If keys are pressed while the loop of `_start` runs, each with two rounds of the loop after it, and
  -- none of them is Enter, then all characters that they type stand behind the text that is
  -- rendered and behind the command, in their order, and `in` is empty again. The buffers have room
  -- for them and stand apart from one another and from the double buffer, into which each round draws.
  pub Types-Waiting :
      {s t : Machine D} {cs : List ℕ} (text command : List ℕ)
      → Types s cs t
      → beyond < 256
      → Waiting s text command
      → length text + length cs < s.kernel.terminal.buffer_size
      → length command + length cs < s.kernel.terminal.buffer_size
      → Waiting t (text ++ cs) (command ++ cs) × Alike s.kernel t.kernel
  Types-Waiting text command (rest s) small h text_room command_room =
      rw (append-nil text, append-nil command)
        (h, record { text_place = refl; command_place = refl; size = refl })
  Types-Waiting text command (press s {t} {cs} line after) small h text_room command_room =
      let xs = text_of (key s) in
      let longer = length-append xs cs in
      let text_longer = length-append text xs in
      let command_longer = length-append command xs in
      let (w, a) =
        settled-Waiting s text command small h line (omega (arith, longer))
          (omega (arith, longer)) in
      let (w', a') =
        Types-Waiting (text ++ xs) (command ++ xs) after small w
          (omega (arith, longer, text_longer, a.size))
          (omega (arith, longer, command_longer, a.size)) in
      (rw (append_assoc text xs cs, append_assoc command xs cs) at w', Alike-trans a a')
