-- ===== src/Terminal/Typed.antt =====
-- A character on its way from `in` to the text.
pub mod Drain
pub mod Rounds
use red_x_os.Common.Text.{Waits, store8-Waits, store8-Waits_apart}
use red_x_os.Common.{ℕ, zero, suc, ◌+◌, ◌^◌, ◌≤◌, ◌<◌, ◌≡◌, ◌≢◌, ◌⊎◌, ◌∙◌, refl, arith}
use red_x_os.Common.{List, [], ◌∷◌, ◌++◌, length, true, false, Bool-cases, inl, inr, ◌==◌}
use red_x_os.Common.Ram.{Ram, store8, store8_lem}
use red_x_os.Terminal.{Terminal, all_addresses, end_of, type_char, take_in, take_out, handler}

-- The loop stops at the end of the text, if there is room behind it.
end_of_lem :
    (left i n : ℕ) (m : Ram) (a : ℕ)
    → i ≤ n
    → n < i + left
    → ((j : ℕ) → j < n → m (a + j) ≢ 0)
    → m (a + n) ≡ 0
    → end_of left i m a ≡ n
unfolding end_of
end_of_lem zero i n m a p q full stop = absurd (omega arith)
end_of_lem (suc left) i n m a p q full stop = elim (Bool-cases (m (a + i) == 0)) [
  | inl z ↦ rw (end_of, z) (ground (arith, full i))
  | inr nz ↦
      rw (end_of, nz) (end_of_lem left (i + 1) n m a (ground (arith, stop)) (omega arith) full stop)
]

pub end_of-Waits :
    {m : Ram} {a size : ℕ} {xs : List ℕ}
    → Waits m a size xs
    → length xs < size
    → size ≤ 2 ^ 64
    → end_of all_addresses 0 m a ≡ length xs
end_of-Waits {m} {a} {size} {xs} w room small =
    end_of_lem all_addresses 0 (length xs) m a (omega arith) (omega arith) w.nonzero
      (w.zeros (length xs) (omega arith) room)

-- Two ranges of memory that do not meet.
abbrev pub Distinct : ℕ → ℕ → ℕ → Type 0
Distinct a b size = (a + size ≤ b) ⊎ (b + size ≤ a)

-- The terminal's buffers stand apart, text and command have room, and `ii` and `io` are places of
-- `in` and `out`.
pub record Ready (s : Terminal) (text command : List ℕ) : Type 0 where
  pub text_waits : Waits s.ram s.text_buffer s.buffer_size text
  pub command_waits : Waits s.ram s.command_buffer s.buffer_size command
  pub text_room : length text < s.buffer_size
  pub command_room : length command < s.buffer_size
  pub small : s.buffer_size ≤ 2 ^ 64
  pub text_command : Distinct s.text_buffer s.command_buffer s.buffer_size
  pub text_in : Distinct s.text_buffer s.in_buffer s.buffer_size
  pub command_in : Distinct s.command_buffer s.in_buffer s.buffer_size
  pub text_out : Distinct s.text_buffer s.out_buffer s.buffer_size
  pub command_out : Distinct s.command_buffer s.out_buffer s.buffer_size
  pub in_out : Distinct s.in_buffer s.out_buffer s.buffer_size
  pub in_place : s.ii < s.buffer_size
  pub out_place : s.io < s.buffer_size

Ready-idle :
    {s : Terminal} {text command : List ℕ}
    → Ready s text command
    → Ready (record s { work = false }) text command
Ready-idle h = record {
  text_waits = h.text_waits;
  command_waits = h.command_waits;
  text_room = h.text_room;
  command_room = h.command_room;
  small = h.small;
  text_command = h.text_command;
  text_in = h.text_in;
  command_in = h.command_in;
  text_out = h.text_out;
  command_out = h.command_out;
  in_out = h.in_out;
  in_place = h.in_place;
  out_place = h.out_place;
}

module _ (s : Terminal) (text command : List ℕ) (chr : ℕ) (h : Ready s text command)
    (here : s.ram (s.in_buffer + s.ii) ≡ chr) (ne : chr ≢ 0) (small : chr < 256) where
  after_type : Ram
  after_type =
      store8 (s.command_buffer + length command) chr
        (store8 (s.text_buffer + length text) chr s.ram)

  still_here : store8 (s.text_buffer + length text) chr s.ram (s.in_buffer + s.ii) ≡ chr
  still_here = ground (
    arith,
    here,
    store8_lem (s.text_buffer + length text) chr s.ram (s.in_buffer + s.ii),
    h.text_room,
    h.in_place,
    h.text_in,
  )

  type_char_lem : type_char s ≡ record s { ram = after_type }
  unfolding type_char after_type
  type_char_lem =
      rw
        (
          end_of-Waits h.text_waits h.text_room h.small,
          end_of-Waits h.command_waits h.command_room h.small,
        )
        (rw (here, still_here) refl)

  -- Both texts grow by the character, and its place in `in` is cleared.
  taken : Ram
  taken = store8 (s.in_buffer + s.ii) 0 after_type

  taken_text : Waits taken s.text_buffer s.buffer_size (text ++ chr ∷ [])
  unfolding taken after_type
  taken_text =
      store8-Waits_apart (s.in_buffer + s.ii) 0 after_type s.text_buffer s.buffer_size _
        (omega (arith, h.in_place, h.text_in))
        (store8-Waits_apart (s.command_buffer + length command) chr _ s.text_buffer s.buffer_size _
          (omega (arith, h.command_room, h.text_command))
          (store8-Waits chr s.ram s.text_buffer s.buffer_size text ne small h.text_waits
            h.text_room))

  taken-command : Waits taken s.command_buffer s.buffer_size (command ++ chr ∷ [])
  unfolding taken after_type
  taken-command =
      store8-Waits_apart (s.in_buffer + s.ii) 0 after_type s.command_buffer s.buffer_size _
        (omega (arith, h.in_place, h.command_in))
        (store8-Waits chr _ s.command_buffer s.buffer_size command ne small
          (store8-Waits_apart (s.text_buffer + length text) chr s.ram s.command_buffer s.buffer_size
            command (omega (arith, h.text_room, h.text_command)) h.command_waits)
          h.command_room)

  taken_in : taken (s.in_buffer + s.ii) ≡ 0
  unfolding taken
  taken_in = ground (arith, store8_lem (s.in_buffer + s.ii) 0 after_type (s.in_buffer + s.ii))

  -- What waits in `out` is untouched.
  taken_out : taken (s.out_buffer + s.io) ≡ s.ram (s.out_buffer + s.io)
  unfolding taken after_type
  taken_out = ground (
    arith,
    store8_lem (s.in_buffer + s.ii) 0 after_type (s.out_buffer + s.io),
    store8_lem (s.command_buffer + length command) chr
        (store8 (s.text_buffer + length text) chr s.ram) (s.out_buffer + s.io),
    store8_lem (s.text_buffer + length text) chr s.ram (s.out_buffer + s.io),
    h.text_room,
    h.command_room,
    h.in_place,
    h.out_place,
    h.text_out,
    h.command_out,
    h.in_out,
  )

  take_in_lem : chr ≢ 10 → take_in s ≡ record s { ram = taken; ii = s.ii + 1; work = true }
  unfolding take_in taken
  take_in_lem no_line =
      let zero_test : (chr == 0) ≡ false = ground arith in
      let line_test : (chr == 10) ≡ false = ground arith in
      rw (here, zero_test, line_test, type_char_lem) refl
