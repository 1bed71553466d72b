-- ===== src/Terminal/Typed/Drain.antt =====
-- All characters that wait in `in` reach the text, one in each step of the terminal.
use red_x_os.Common.Text.{Waits}
use red_x_os.Common.{
  ℕ, zero, suc, ◌+◌, ◌-◌, ◌≤◌, ◌<◌, ◌≡◌, ◌≢◌, ◌⊎◌, ◌∙◌, refl, sym, ap, arith, ◌||◌, List, [], ◌∷◌,
  ◌++◌, length, get_or, length-append, true, false, inl, inr,
}
use native.Mathlib.Decide.{dec_lt}
use mathlib.Core.List.{append-nil, append_assoc}
use red_x_os.Common.Ram.{Ram, store8, store8_lem}
use red_x_os.Terminal.{Terminal, take_out, handler}
use red_x_os.Terminal.Typed.{
  Ready, Ready-idle, taken, after_type, taken_text, taken_in, taken-command, taken_out, take_in_lem,
}

-- A character of a line.
abbrev pub Typed : ℕ → Type 0
Typed chr = (0 < chr) × (chr < 256) × (chr ≢ 10)

-- `xs` waits in `in` from `ii` on, and nothing in `out`; the buffers have room for all of it.
pub record Pending (s : Terminal) (text command xs : List ℕ) : Type 0 where
  pub ready : Ready s text command
  pub chars : (i : ℕ) → i < length xs → s.ram (s.in_buffer + s.ii + i) ≡ get_or xs i 0
  pub typed : (i : ℕ) → i < length xs → Typed (get_or xs i 0)
  pub in_room : s.ii + length xs < s.buffer_size
  pub text_room : length text + length xs < s.buffer_size
  pub command_room : length command + length xs < s.buffer_size
  pub quiet : s.ram s.out_buffer ≡ 0
  pub from_start : s.io ≡ 0

module _ (s : Terminal) (text command : List ℕ) (x : ℕ) (xs : List ℕ)
    (p : Pending s text command (x ∷ xs)) where
  abbrev s0 : Terminal
  s0 = record s { work = false }

  h0 : Ready s0 text command
  h0 = Ready-idle p.ready

  pub here : s.ram (s.in_buffer + s.ii) ≡ x
  here =
      let e : s.in_buffer + s.ii + 0 ≡ s.in_buffer + s.ii = omega arith in
      rw e at (p.chars 0 (omega arith))

  pub nonzero : x ≢ 0
  nonzero = λ e. omega (arith, (p.typed 0 (omega arith)).0, e)

  pub word : x < 256
  word = (p.typed 0 (omega arith)).1

  pub m : Ram
  m = taken s0 text command x h0 here nonzero word

  abbrev pub next : Terminal
  next = record s {
    ram = m;
    ii = s.ii + 1;
    io = 0;
    work = true;
    scheduler_work = s.scheduler_work || true;
  }

  pub handler-next : handler s ≡ next
  unfolding handler take_out m
  handler-next =
      let first = take_in_lem s0 text command x h0 here nonzero word (p.typed 0 (omega arith)).2 in
      let place : s.out_buffer + s.io ≡ s.out_buffer = omega (arith, p.from_start) in
      let nothing : taken s0 text command x h0 here nonzero word (s.out_buffer + s.io) ≡ 0 =
        taken_out s0 text command x h0 here nonzero word ∙ ap s.ram place ∙ p.quiet in
      rw (handler, first, take_out, nothing) refl

  -- Memory of `in` and `out` but for the place that was read.
  pub elsewhere :
      (a : ℕ)
      → (s.in_buffer ≤ a)
          × (a < s.in_buffer + s.buffer_size)
          × ((a < s.in_buffer + s.ii) ⊎ (s.in_buffer + s.ii < a))
        ⊎ (a ≡ s.out_buffer)
      → m a ≡ s.ram a
  unfolding m taken after_type
  elsewhere a there = ground (
    arith,
    store8_lem (s.in_buffer + s.ii) 0 (after_type s0 text command x h0 here nonzero word) a,
    store8_lem (s.command_buffer + length command) x (store8 (s.text_buffer + length text) x s.ram)
        a,
    store8_lem (s.text_buffer + length text) x s.ram a,
    p.ready.text_room,
    p.ready.command_room,
    p.ready.in_place,
    p.ready.out_place,
    p.ready.text_in,
    p.ready.command_in,
    p.ready.text_out,
    p.ready.command_out,
    p.ready.in_out,
  )

  pub next_freed : m (s.in_buffer + s.ii) ≡ 0
  unfolding m
  next_freed = taken_in s0 text command x h0 here nonzero word

  pub next-Pending : Pending next (text ++ x ∷ []) (command ++ x ∷ []) xs
  unfolding m
  next-Pending =
      let longer = length-append text (x ∷ []) in
      let longer' = length-append command (x ∷ []) in
      record {
        ready = record {
          text_waits = taken_text s0 text command x h0 here nonzero word;
          command_waits = taken-command s0 text command x h0 here nonzero word;
          text_room = omega (arith, longer, p.text_room);
          command_room = omega (arith, longer', p.command_room);
          small = p.ready.small;
          text_command = p.ready.text_command;
          text_in = p.ready.text_in;
          command_in = p.ready.command_in;
          text_out = p.ready.text_out;
          command_out = p.ready.command_out;
          in_out = p.ready.in_out;
          in_place = omega (arith, p.in_room);
          out_place = omega (arith, p.in_room);
        };
        chars = λ i h.
            let place : s.in_buffer + (s.ii + 1) + i ≡ s.in_buffer + s.ii + suc i = omega arith in
            elsewhere (s.in_buffer + (s.ii + 1) + i)
              (inl (omega arith, omega (arith, h, p.in_room), inr (omega arith)))
            ∙ ap s.ram place
            ∙ p.chars (suc i) (omega arith);
        typed = λ i h. p.typed (suc i) (omega arith);
        in_room = omega (arith, p.in_room);
        text_room = omega (arith, longer, p.text_room);
        command_room = omega (arith, longer', p.command_room);
        quiet = elsewhere s.out_buffer (inr refl) ∙ p.quiet;
        from_start = refl;
      }

-- As many steps of the terminal.
abbrev pub steps : ℕ → Terminal → Terminal
steps zero s = s
steps (suc n) s = steps n (handler s)

-- Where the steps end: text and command have grown by `xs`, its places in `in` are free and those before
-- them as they were, and `ii` stands behind it.
pub record Drained (s t : Terminal) (text command xs : List ℕ) : Type 0 where
  pub shown : Waits t.ram s.text_buffer s.buffer_size (text ++ xs)
  pub ordered : Waits t.ram s.command_buffer s.buffer_size (command ++ xs)
  pub freed : (i : ℕ) → i < length xs → t.ram (s.in_buffer + s.ii + i) ≡ 0
  pub before : (a : ℕ) → s.in_buffer ≤ a → a < s.in_buffer + s.ii → t.ram a ≡ s.ram a
  pub place : t.ii ≡ s.ii + length xs
  pub empty : t.ram t.out_buffer ≡ 0

-- If a line's characters wait in `in` and nothing in `out`, and the buffers have room, then after as many
-- steps of the terminal as there are characters all of them stand behind the text and behind the
-- command, in their order, and their places in `in` are free.
pub steps-Drained :
    (xs : List ℕ) (s : Terminal) (text command : List ℕ)
    → Pending s text command xs
    → Drained s (steps (length xs) s) text command xs
steps-Drained [] s text command p = record {
  shown = rw (append-nil text) p.ready.text_waits;
  ordered = rw (append-nil command) p.ready.command_waits;
  freed = λ i h. absurd (omega arith);
  before = λ a h below. refl;
  place = omega arith;
  empty = p.quiet;
}
steps-Drained (x ∷ xs) s text command p =
    let rest =
      steps-Drained xs (next s text command x xs p) (text ++ x ∷ []) (command ++ x ∷ [])
        (next-Pending s text command x xs p) in
    rw (steps, handler-next s text command x xs p)
      (record {
        shown = rw (append_assoc text (x ∷ []) xs) at rest.shown;
        ordered = rw (append_assoc command (x ∷ []) xs) at rest.ordered;
        freed = λ i h. elim (dec_lt i 1) [
          | yes first ↦
              let here : s.in_buffer + s.ii + i ≡ s.in_buffer + s.ii = omega arith in
              rw here (
                rest.before (s.in_buffer + s.ii) (omega arith) (omega arith)
                ∙ next_freed s text command x xs p)
          | no later ↦
              let there : s.in_buffer + (s.ii + 1) + (i - 1) ≡ s.in_buffer + s.ii + i =
                omega arith in
              ap (steps (length xs) (next s text command x xs p)).ram (sym there)
              ∙ rest.freed (i - 1) (omega (arith, h))
        ];
        before = λ a h below.
            rest.before a h (omega arith)
            ∙ elsewhere s text command x xs p a
                (inl (h, omega (arith, below, p.in_room), inl below));
        place = omega (arith, rest.place);
        empty = rest.empty;
      })
