-- ===== src/Terminal.antt =====
-- kernel/src/terminal/terminal.h and terminal.cpp, kernel/src/libs/io.cpp and the flag of
-- kernel/src/scheduler: the terminal's four buffers, which stand in memory, and the step that moves
-- one character from `in` and one from `out` to the text.
pub mod Typed
pub mod Lines
pub mod Enter
mod Tests
use red_x_os.Common.{ℕ, zero, suc, ◌+◌, ◌-◌, ◌*◌, ◌/◌, ◌%◌, ◌^◌, Bool, true, false, not, ◌&&◌, ◌||◌}
use red_x_os.Common.{List, [], ◌∷◌, get_or, ltb, ◌==◌, if◌then◌else◌}
use red_x_os.Common.Ram.{Ram, store8}

-- The class `Terminal`, the globals `ii` and `io`, and `scheduler.work`.
pub record Terminal : Type 0 where
  pub ram : Ram
  pub text_buffer : ℕ
  pub command_buffer : ℕ
  pub in_buffer : ℕ
  pub out_buffer : ℕ
  pub buffer_size : ℕ
  pub width : ℕ
  pub height : ℕ
  pub ii : ℕ
  pub io : ℕ
  pub work : Bool
  pub scheduler_work : Bool

-- The loops that have no bound of their own get as many rounds as there are addresses.
abbrev pub all_addresses : ℕ
all_addresses = 2 ^ 64

-- for (i = 0; buffer[i] != NULL; i++)
pub end_of : ℕ → ℕ → Ram → ℕ → ℕ
end_of zero i m buffer = i
end_of (suc left) i m buffer = elim (m (buffer + i) == 0) [
  | true ↦ i
  | false ↦ end_of left (i + 1) m buffer
]

-- for (; textBuffer[ti - 1] != '\n' && ti % width; ti++) textBuffer[ti] = ' ', of a terminal whose
-- width is not 0: it ends at the next multiple of the width. The result is `ti` with the memory.
pub pad : ℕ → ℕ → ℕ → ℕ → Ram → ℕ × Ram
pad zero width text ti m = (ti, m)
pad (suc left) width text ti m = elim (not (m (text + ti - 1) == 10) && ltb 0 (ti % width)) [
  | true ↦ pad left width text (ti + 1) (store8 (text + ti) b' ' m)
  | false ↦ (ti, m)
]

-- The padding, and textBuffer[ti - 1] = '\n'.
pub break_line : ℕ → ℕ → ℕ → Ram → Ram
break_line width text ti m =
    let (end, padded) = pad width width text ti m in store8 (text + end - 1) 10 padded

-- `print` of libs/io.cpp, with the characters of its string by their index: it goes on while they
-- are 0.
pub copy_loop : ℕ → (ℕ → ℕ) → ℕ → ℕ → Ram → Ram
copy_loop zero string i out m = m
copy_loop (suc left) string i out m = elim (string i == 0) [
  | true ↦ copy_loop left string (i + 1) out (store8 (out + i) (string i) m)
  | false ↦ m
]

-- for (o = 0; out[o] != NULL && o < bufferSize; o++)
pub end_within : ℕ → ℕ → Ram → ℕ → ℕ
end_within zero o m out = o
end_within (suc left) o m out = elim (m (out + o) == 0) [
  | true ↦ o
  | false ↦ end_within left (o + 1) m out
]

pub print : (ℕ → ℕ) → Terminal → Terminal
print string s =
    let o = end_within s.buffer_size 0 s.ram s.out_buffer in
    record s { ram = copy_loop all_addresses string 0 (s.out_buffer + o) s.ram }

-- `runCommand`
pub run_command : Terminal → ℕ
run_command s = 2

-- "Shell: error, no such file or command\n"
abbrev pub no_such_command_text : List ℕ
no_such_command_text =
    b'S' ∷ b'h' ∷ b'e' ∷ b'l' ∷ b'l' ∷ b':' ∷ b' ' ∷ b'e' ∷ b'r' ∷ b'r' ∷ b'o' ∷ b'r' ∷ b',' ∷ b' '
    ∷ b'n' ∷ b'o' ∷ b' ' ∷ b's' ∷ b'u' ∷ b'c' ∷ b'h' ∷ b' ' ∷ b'f' ∷ b'i' ∷ b'l' ∷ b'e' ∷ b' '
    ∷ b'o' ∷ b'r' ∷ b' ' ∷ b'c' ∷ b'o' ∷ b'm' ∷ b'm' ∷ b'a' ∷ b'n' ∷ b'd' ∷ 10 ∷ []

abbrev pub no_such_command : ℕ → ℕ
no_such_command i = get_or no_such_command_text i 0

-- for (i = 0; i < bufferSize || commandBuffer[i] != NULL; i++) commandBuffer[i] = NULL
pub clear_command : ℕ → ℕ → ℕ → ℕ → Ram → Ram
clear_command zero size command i m = m
clear_command (suc left) size command i m = elim (ltb i size || not (m (command + i) == 0)) [
  | true ↦ clear_command left size command (i + 1) (store8 (command + i) 0 m)
  | false ↦ m
]

-- The two branches of the handler's first half: a line ends, or a character is typed.
pub enter_line : Terminal → Terminal
enter_line s =
    let ti = end_of all_addresses 0 s.ram s.text_buffer in
    let broken = record s { ram = break_line s.width s.text_buffer ti s.ram } in
    let told = if run_command broken == 2 then print no_such_command broken else broken in
    record told { ram = clear_command all_addresses s.buffer_size s.command_buffer 0 told.ram }

pub type_char : Terminal → Terminal
type_char s =
    let ti = end_of all_addresses 0 s.ram s.text_buffer in
    let ci = end_of all_addresses 0 s.ram s.command_buffer in
    let m = store8 (s.text_buffer + ti) (s.ram (s.in_buffer + s.ii)) s.ram in
    record s { ram = store8 (s.command_buffer + ci) (m (s.in_buffer + s.ii)) m }

-- The half that takes a character from `in`.
pub take_in : Terminal → Terminal
take_in s =
    let chr = s.ram (s.in_buffer + s.ii) in
    if chr == 0
    then record s { ii = 0 }
    else let done = if chr == 10 then enter_line s else type_char s in
      record done { ram = store8 (s.in_buffer + s.ii) 0 done.ram; ii = s.ii + 1; work = true }

-- The half that takes a character from `out`.
pub take_out : Terminal → Terminal
take_out s =
    let chr = s.ram (s.out_buffer + s.io) in
    if chr == 0
    then record s { io = 0 }
    else let ti = end_of all_addresses 0 s.ram s.text_buffer in
      let shown =
        if chr == 10
        then break_line s.width s.text_buffer ti s.ram
        else store8 (s.text_buffer + ti) chr s.ram in
      record s { ram = store8 (s.out_buffer + s.io) 0 shown; io = s.io + 1; work = true }

-- `Terminal::handler`
pub handler : Terminal → Terminal
handler s =
    let t = take_out (take_in (record s { work = false })) in
    record t { scheduler_work = t.scheduler_work || t.work }
