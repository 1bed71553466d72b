-- ===== src/Terminal/Tests.antt =====
-- The terminal at a concrete input.
use red_x_os.Common.{
  ◌≡◌, ◌%◌, ◌++◌, length, refl, arith, [], ◌∷◌, inl, inr, false, ◌==◌, if◌then◌else◌,
}
use native.Mathlib.Decide.{dec_lt}
use red_x_os.Common.Ram.{Ram}
use red_x_os.Common.Text.{Waits}
use red_x_os.Terminal.{Terminal, enter_line}
use red_x_os.Terminal.Lines.{spaces}
use red_x_os.Terminal.Enter.{enter_line-Waits}
use red_x_os.Terminal.Typed.{Ready}
use red_x_os.Terminal.Typed.Drain.{Pending, Drained, steps, steps-Drained}

-- The text "ab" is shown, "b" is the command, and "c" was typed.
abbrev typed_c : Ram
typed_c a =
    if a == 1000
    then b'a'
    else if a == 1001
    then b'b'
    else if a == 2000
    then b'b'
    else if a == 3005
    then b'c'
    else 0

abbrev small_terminal : Terminal
small_terminal = record {
  ram = typed_c;
  text_buffer = 1000;
  command_buffer = 2000;
  in_buffer = 3000;
  out_buffer = 4000;
  buffer_size = 100;
  width = 20;
  height = 5;
  ii = 5;
  io = 0;
  work = false;
  scheduler_work = false;
}

ab-Waits : Waits typed_c 1000 100 (b'a' ∷ b'b' ∷ [])
ab-Waits = record {
  fits = omega arith;
  chars = λ i p. elim (dec_lt i 1) [
    | yes q ↦ let e : i ≡ 0 = omega arith in rw e refl
    | no q ↦ let e : i ≡ 1 = omega arith in rw e refl
  ];
  nonzero = λ i p. ground arith;
  zeros = λ i p q. ground arith;
}

b-Waits : Waits typed_c 2000 100 (b'b' ∷ [])
b-Waits = record {
  fits = omega arith;
  chars = λ i p. let e : i ≡ 0 = omega arith in rw e refl;
  nonzero = λ i p. ground arith;
  zeros = λ i p q. ground arith;
}

small_terminal-Ready : Ready small_terminal (b'a' ∷ b'b' ∷ []) (b'b' ∷ [])
small_terminal-Ready = record {
  text_waits = ab-Waits;
  command_waits = b-Waits;
  text_room = omega arith;
  command_room = omega arith;
  small = omega arith;
  text_command = inl (omega arith);
  text_in = inl (omega arith);
  command_in = inl (omega arith);
  text_out = inl (omega arith);
  command_out = inl (omega arith);
  in_out = inl (omega arith);
  in_place = omega arith;
  out_place = omega arith;
}

-- "c" waits at place 5, and "d" behind it.
abbrev typed_cd : Ram
typed_cd a = if a == 3006 then b'd' else typed_c a

abbrev two_typed : Terminal
two_typed = record small_terminal { ram = typed_cd }

two_typed-Pending : Pending two_typed (b'a' ∷ b'b' ∷ []) (b'b' ∷ []) (b'c' ∷ b'd' ∷ [])
two_typed-Pending = record {
  ready = record {
    text_waits = record {
      fits = omega arith;
      chars = λ i p. ground (arith, ab-Waits.chars i p);
      nonzero = λ i p. ground arith;
      zeros = λ i p q. ground arith;
    };
    command_waits = record {
      fits = omega arith;
      chars = λ i p. ground (arith, b-Waits.chars i p);
      nonzero = λ i p. ground arith;
      zeros = λ i p q. ground arith;
    };
    text_room = omega arith;
    command_room = omega arith;
    small = omega arith;
    text_command = inl (omega arith);
    text_in = inl (omega arith);
    command_in = inl (omega arith);
    text_out = inl (omega arith);
    command_out = inl (omega arith);
    in_out = inl (omega arith);
    in_place = omega arith;
    out_place = omega arith;
  };
  chars = λ i p. elim (dec_lt i 1) [
    | yes q ↦ let e : i ≡ 0 = omega arith in rw e refl
    | no q ↦ let e : i ≡ 1 = omega arith in rw e refl
  ];
  typed = λ i p. elim (dec_lt i 1) [
    | yes q ↦ let e : i ≡ 0 = omega arith in rw e (omega arith, omega arith, λ f. omega (arith, f))
    | no q ↦ let e : i ≡ 1 = omega arith in rw e (omega arith, omega arith, λ f. omega (arith, f))
  ];
  in_room = omega arith;
  text_room = omega arith;
  command_room = omega arith;
  quiet = refl;
  from_start = refl;
}

steps-Drained_example :
    Drained two_typed (steps 2 two_typed) (b'a' ∷ b'b' ∷ []) (b'b' ∷ []) (b'c' ∷ b'd' ∷ [])
steps-Drained_example =
    steps-Drained (b'c' ∷ b'd' ∷ []) two_typed (b'a' ∷ b'b' ∷ []) (b'b' ∷ []) two_typed-Pending

enter_line-Waits_example :
    let t = enter_line small_terminal in
    Waits t.ram 1000 100 ((b'a' ∷ b'b' ∷ [] ++ spaces 17) ++ 10 ∷ [])
    × Waits t.ram 2000 100 []
    × (length ((b'a' ∷ b'b' ∷ [] ++ spaces 17) ++ 10 ∷ []) % 20 ≡ 0)
enter_line-Waits_example =
    enter_line-Waits 17 small_terminal (b'a' ∷ b'b' ∷ []) (b'b' ∷ []) small_terminal-Ready
      (omega arith) (omega arith) refl (omega arith) (omega arith) (λ e. omega (arith, e)) refl
      (inr (omega arith))
