-- ===== src/Terminal/Enter.antt =====
-- Enter: the line ends and the command is cleared.
use red_x_os.Common.Text.{Waits, Waits-same}
use red_x_os.Common.{
  ℕ, zero, suc, ◌+◌, ◌-◌, ◌%◌, ◌^◌, ◌≤◌, ◌<◌, ◌≡◌, ◌≢◌, ◌⊎◌, ◌∙◌, refl, arith, ltb, not, ◌||◌, true,
  false, ◌==◌, List, [], ◌∷◌, ◌++◌, length, inl,
}
use native.Mathlib.Decide.{dec_lt}
use red_x_os.Common.Ram.{Ram, store8, store8_lem}
use red_x_os.Terminal.{
  Terminal, all_addresses, break_line, copy_loop, print, run_command, no_such_command,
  clear_command, enter_line,
}
use red_x_os.Terminal.Typed.{Ready, end_of-Waits}
use red_x_os.Terminal.Lines.{spaces, break_line-Waits}

-- The loop clears the buffer, and stops behind it at a 0.
record Cleared (command size i : ℕ) (m t : Ram) : Type 0 where
  zeros : (j : ℕ) → i ≤ j → j < size → t (command + j) ≡ 0
  frame : (x : ℕ) → (x < command + i) ⊎ (command + size ≤ x) → t x ≡ m x

clear_command-Cleared :
    (left size command i : ℕ) (m : Ram)
    → i ≤ size
    → size < i + left
    → m (command + size) ≡ 0
    → Cleared command size i m (clear_command left size command i m)
unfolding clear_command
clear_command-Cleared zero size command i m h enough stop = absurd (omega arith)
clear_command-Cleared (suc left) size command i m h enough stop = elim (dec_lt i size) [
  | yes more ↦
      let m' = store8 (command + i) 0 m in
      let e : (ltb i size || not (m (command + i) == 0)) ≡ true = ground arith in
      let rest =
        clear_command-Cleared left size command (i + 1) m' (omega arith) (omega arith)
          (ground (arith, stop, store8_lem (command + i) 0 m (command + size))) in
      rw (clear_command, e)
        (record {
          zeros = λ j low high. elim (dec_lt i j) [
            | yes later ↦ rest.zeros j (omega arith) high
            | no first ↦
                let here : command + j ≡ command + i = omega arith in
                rw here (
                  rest.frame (command + i) (inl (omega arith))
                  ∙ ground (arith, store8_lem (command + i) 0 m (command + i)))
          ];
          frame = λ x p. ground (arith, rest.frame x, store8_lem (command + i) 0 m x);
        })
  | no done ↦
      let last : i ≡ size = omega arith in
      let e : (ltb i size || not (m (command + i) == 0)) ≡ false = ground (arith, stop, last) in
      rw (clear_command, e)
        (record { zeros = λ j low high. absurd (omega arith); frame = λ x p. refl })
]

-- `print` copies nothing of the message.
print-nothing : (s : Terminal) → print no_such_command s ≡ s
unfolding print copy_loop
print-nothing s = refl

-- Enter behind a text that ends within a row, `r + 1` places before the row's end, and not in a newline, pads
-- it with spaces up to the row's last place, which gets the newline, and empties the command. The row
-- fits into the buffer, the buffers stand apart, and the byte behind the command's buffer is 0.
pub enter_line-Waits :
    (r : ℕ) (s : Terminal) (text command : List ℕ)
    → Ready s text command
    → s.buffer_size < 2 ^ 64
    → suc r < s.width
    → (length text + suc r) % s.width ≡ 0
    → length text + suc r ≤ s.buffer_size
    → 0 < length text
    → s.ram (s.text_buffer + length text - 1) ≢ 10
    → s.ram (s.command_buffer + s.buffer_size) ≡ 0
    → (s.command_buffer + s.buffer_size < s.text_buffer)
      ⊎ (s.text_buffer + s.buffer_size ≤ s.command_buffer + s.buffer_size)
    → let t = enter_line s in
      Waits t.ram s.text_buffer s.buffer_size ((text ++ spaces r) ++ 10 ∷ [])
      × Waits t.ram s.command_buffer s.buffer_size []
      × (length ((text ++ spaces r) ++ 10 ∷ []) % s.width ≡ 0)
unfolding enter_line run_command
enter_line-Waits r s text command ready small short row room some_text no_line stop apart =
    let (w, whole, frame) =
      break_line-Waits r s.width s.text_buffer s.buffer_size text s.ram short row room some_text
        no_line ready.text_waits in
    let b = break_line s.width s.text_buffer (length text) s.ram in
    let c =
      clear_command-Cleared all_addresses s.buffer_size s.command_buffer 0 b (omega arith)
        (omega (arith, small)) (frame (s.command_buffer + s.buffer_size) apart ∙ stop) in
    let cleared = clear_command all_addresses s.buffer_size s.command_buffer 0 b in
    rw
      (
        end_of-Waits ready.text_waits ready.text_room ready.small,
        print-nothing (record s { ram = b }),
      )
      (
        Waits-same b cleared s.text_buffer s.buffer_size _
            (λ x low high. c.frame x (omega (arith, ready.text_command))) w,
        record {
          fits = omega arith;
          chars = λ i p. absurd (omega arith);
          nonzero = λ i p. absurd (omega arith);
          zeros = λ i p q. c.zeros i (omega arith) q;
        },
        whole,
      )
