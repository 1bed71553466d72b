-- ===== src/Terminal/Typed/Rounds.antt =====
-- Rounds of the terminal with nothing in `in`, and with one character in it.
use red_x_os.Common.Text.{Waits, Waits-same}
use red_x_os.Common.{
  ℕ, ◌+◌, ◌≤◌, ◌<◌, ◌≡◌, ◌∙◌, refl, ap, arith, ◌||◌, Bool, List, [], ◌∷◌, ◌++◌, false, inl, inr,
}
use native.Mathlib.Decide.{dec_lt}
use red_x_os.Common.Ram.{Ram}
use red_x_os.Terminal.{Terminal, take_in, take_out, handler}
use red_x_os.Terminal.Typed.{Ready}
use red_x_os.Terminal.Typed.Drain.{Pending, next, next-Pending, elsewhere, next_freed}

-- Nothing waits in `in` and nothing in `out`.
pub record Empty (s : Terminal) (text command : List ℕ) : Type 0 where
  pub ready : Ready s text command
  pub nothing : Waits s.ram s.in_buffer s.buffer_size []
  pub quiet : s.ram s.out_buffer ≡ 0
  pub from_start : s.io ≡ 0

-- The terminal elsewhere in `in`, with other flags and another memory.
abbrev pub moved : Terminal → Ram → ℕ → ℕ → Bool → Bool → Terminal
moved s m i o w v = record s { ram = m; ii = i; io = o; work = w; scheduler_work = v }

abbrev pub Agrees : Terminal → Ram → ℕ → Type 0
Agrees s m a = (x : ℕ) → a ≤ x → x < a + s.buffer_size → m x ≡ s.ram x

pub moved-Ready :
    (s : Terminal) (text command : List ℕ) (m : Ram) (i o : ℕ) (w v : Bool)
    → Ready s text command
    → i < s.buffer_size
    → o ≡ 0
    → Agrees s m s.text_buffer
    → Agrees s m s.command_buffer
    → Ready (moved s m i o w v) text command
moved-Ready s text command m i o w v r place start on_text on_command = record {
  text_waits = Waits-same s.ram m s.text_buffer s.buffer_size text on_text r.text_waits;
  command_waits =
      Waits-same s.ram m s.command_buffer s.buffer_size command on_command r.command_waits;
  text_room = r.text_room;
  command_room = r.command_room;
  small = r.small;
  text_command = r.text_command;
  text_in = r.text_in;
  command_in = r.command_in;
  text_out = r.text_out;
  command_out = r.command_out;
  in_out = r.in_out;
  in_place = place;
  out_place = omega (arith, start);
}

pub moved-Empty :
    (s : Terminal) (text command : List ℕ) (m : Ram) (i o : ℕ) (w v : Bool)
    → Empty s text command
    → i < s.buffer_size
    → o ≡ 0
    → Agrees s m s.text_buffer
    → Agrees s m s.command_buffer
    → Agrees s m s.in_buffer
    → Agrees s m s.out_buffer
    → Empty (moved s m i o w v) text command
moved-Empty s text command m i o w v e place start on_text on_command on_in on_out = record {
  ready = moved-Ready s text command m i o w v e.ready place start on_text on_command;
  nothing = Waits-same s.ram m s.in_buffer s.buffer_size [] on_in e.nothing;
  quiet = on_out s.out_buffer (omega arith) (omega arith) ∙ e.quiet;
  from_start = start;
}

-- With nothing to do the terminal goes back to the first place of `in`.
pub handler_idle :
    (s : Terminal) (text command : List ℕ)
    → Empty s text command
    → handler s ≡ moved s s.ram 0 0 false (s.scheduler_work || false)
unfolding handler take_in take_out
handler_idle s text command e =
    let nothing_in : s.ram (s.in_buffer + s.ii) ≡ 0 =
      e.nothing.zeros s.ii (omega arith) e.ready.in_place in
    let place : s.out_buffer + s.io ≡ s.out_buffer = omega (arith, e.from_start) in
    rw (nothing_in, place, e.quiet) refl

-- The one character that waits is taken.
pub next-Empty :
    (s : Terminal) (text command : List ℕ) (c : ℕ) (p : Pending s text command (c ∷ []))
    → s.ii ≡ 0
    → Waits s.ram s.in_buffer s.buffer_size (c ∷ [])
    → Empty (next s text command c [] p) (text ++ c ∷ []) (command ++ c ∷ [])
next-Empty s text command c p start w =
    let rest = next-Pending s text command c [] p in
    record {
      ready = rest.ready;
      nothing = record {
        fits = omega arith;
        chars = λ i h. absurd (omega arith);
        nonzero = λ i h. absurd (omega arith);
        zeros = λ i h h'. elim (dec_lt i 1) [
          | yes first ↦
              let here : s.in_buffer + i ≡ s.in_buffer + s.ii = omega (arith, start) in
              ap (next s text command c [] p).ram here ∙ next_freed s text command c [] p
          | no later ↦
              elsewhere s text command c [] p (s.in_buffer + i)
                (inl (omega arith, omega arith, inr (omega (arith, start))))
              ∙ w.zeros i (omega arith) h'
        ];
      };
      quiet = rest.quiet;
      from_start = refl;
    }
