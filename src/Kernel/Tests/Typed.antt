-- ===== src/Kernel/Tests/Typed.antt =====
-- Two keys, pressed on a machine with a small screen.
use red_x_os.Common.{ℕ, ◌+◌, ◌≡◌, refl, arith, [], ◌++◌, false, inl, some, ◌==◌, if◌then◌else◌}
use red_x_os.Ports.{Ports, inb, outb}
use red_x_os.Keyboard.{lookup, upper, handle_keyboard, type_key, put}
use red_x_os.Keyboard.Typing.{text_of}
use red_x_os.Pic
use red_x_os.Pic.{end_master}
use red_x_os.Kernel.Start.{main_round}
use red_x_os.Kernel.{Kernel}
use red_x_os.Kernel.Machine.{Machine, keyboard_of, keyboard_interrupt, loop_round}
use red_x_os.Kernel.Typing.{Alike}
use red_x_os.Kernel.Keys.{key, Waiting, settled, rest, press, Types-Waiting}
use red_x_os.Kernel.Tests.{blank_kernel}

-- The keyboard gives the codes of a and b in turn.
abbrev two_keys : Ports ℕ
two_keys = record {
  read = λ port d. (if d == 0 then 0x1e else 0x30, d + 1);
  write = λ port byte d. d;
}

abbrev small_kernel : Kernel ℕ
small_kernel = record {
  ram = λ a. 0;
  allocator = blank_kernel.allocator;
  tables = blank_kernel.tables;
  vai = blank_kernel.vai;
  registers = blank_kernel.registers;
  basic_render = blank_kernel.basic_render;
  double_buffer = record { base_addr = 0x5000; size = 0x1000; width = 16; height = 32; ppsl = 16 };
  terminal = record {
    ram = λ a. 0;
    text_buffer = 0x1000;
    command_buffer = 0x1100;
    in_buffer = 0x1200;
    out_buffer = 0x1300;
    buffer_size = 4;
    width = 2;
    height = 2;
    ii = 0;
    io = 0;
    work = false;
    scheduler_work = false;
  };
  terminal_font = record { buffer = 0x9000; charsize = 16 };
  ports = 0;
}

abbrev small_machine : Machine ℕ
small_machine = record {
  kernel = small_kernel;
  scancode = 0;
  left_shift_down = false;
  right_shift_down = false;
  mod_down = false;
}

small_machine-Waiting : Waiting two_keys 0 small_machine [] []
small_machine-Waiting = record {
  steady = record {
    empty = record {
      ready = record {
        text_waits = record {
          fits = omega arith;
          chars = λ i p. absurd (omega arith);
          nonzero = λ i p. absurd (omega arith);
          zeros = λ i p q. refl;
        };
        command_waits = record {
          fits = omega arith;
          chars = λ i p. absurd (omega arith);
          nonzero = λ i p. absurd (omega arith);
          zeros = λ i p q. refl;
        };
        text_room = omega arith;
        command_room = omega arith;
        small = omega arith;
        text_command = inl (omega arith);
        text_in = inl (omega arith);
        command_in = inl (omega arith);
        text_out = inl (omega arith);
        command_out = inl (omega arith);
        in_out = inl (omega arith);
        in_place = omega arith;
        out_place = omega arith;
      };
      nothing = record {
        fits = omega arith;
        chars = λ i p. absurd (omega arith);
        nonzero = λ i p. absurd (omega arith);
        zeros = λ i p q. refl;
      };
      quiet = refl;
      from_start = refl;
    };
    screened = record {
      rows = record { pitch = omega arith; whole = refl };
      fits = omega arith;
      off_text = inl (omega arith);
      off_command = inl (omega arith);
      off_in = inl (omega arith);
      off_out = inl (omega arith);
    };
  };
  start = refl;
}

-- After the two keys.
abbrev one_typed : Machine ℕ
one_typed = settled two_keys 0 small_machine

abbrev both_typed : Machine ℕ
both_typed = settled two_keys 0 one_typed

first_key : key two_keys 0 small_machine ≡ some b'a'
unfolding inb keyboard_of lookup upper
first_key = refl

second_key : key two_keys 0 one_typed ≡ some b'b'
unfolding inb outb keyboard_of lookup upper handle_keyboard type_key put keyboard_interrupt
    Pic.keyboard_handler end_master loop_round main_round
second_key = refl

Types-Waiting_example :
    let cs = text_of (key two_keys 0 small_machine) ++ (text_of (key two_keys 0 one_typed) ++ []) in
    Waiting two_keys 0 both_typed ([] ++ cs) ([] ++ cs)
    × Alike small_machine.kernel both_typed.kernel
Types-Waiting_example =
    Types-Waiting two_keys 0 [] []
      (press small_machine (λ e. ground (arith, e, first_key))
        (press one_typed (λ e. ground (arith, e, second_key)) (rest both_typed)))
      (omega arith) small_machine-Waiting (ground (arith, first_key, second_key))
      (ground (arith, first_key, second_key))
