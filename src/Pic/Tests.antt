-- ===== src/Pic/Tests.antt =====
-- The controllers and the keyboard's handler at concrete inputs.
use red_x_os.Common.Text.{Waits}
use red_x_os.Common.{◌≡◌, refl, arith, [], ◌∷◌, false, true, ◌==◌, if◌then◌else◌}
use red_x_os.Common.Ram.{Ram}
use red_x_os.Pic.{remap_pic, Handler}
use red_x_os.Pic.Chips.{Pair, pair, masks, icw3}
use red_x_os.Pic.Laws.{remap_pic_lem}

-- The first controller was left in the middle of its words.
abbrev started : Pair
started = record {
  master = record {
    phase = icw3;
    single = true;
    fourth = false;
    offset = 8;
    wiring = 0;
    mode = 0;
    mask = 0xb8;
    ended = 2;
  };
  slave = record {
    phase = masks;
    single = false;
    fourth = true;
    offset = 0x70;
    wiring = 2;
    mode = 0;
    mask = 0x8e;
    ended = 0;
  };
  key = 0x1e;
}

remap_pic_example : remap_pic pair started ≡ record started {
  master = record (started.master) {
    phase = masks;
    single = false;
    fourth = true;
    offset = 0x20;
    wiring = 4;
    mode = 1;
  };
  slave = record (started.slave) {
    phase = masks;
    single = false;
    fourth = true;
    offset = 0x28;
    wiring = 2;
    mode = 1;
  };
}
remap_pic_example = remap_pic_lem started (omega arith) (omega arith)

-- One character waits in a buffer of eight.
abbrev one_waits : Ram
one_waits a = if a == 1000 then b'x' else 0

abbrev key_down : Handler Pair
key_down = record {
  ports = started;
  scancode = 0;
  keyboard = record {
    left_shift_down = false;
    right_shift_down = false;
    mod_down = false;
    ram = one_waits;
    term_in = 1000;
    buffer_size = 8;
  };
}

one-Waits : Waits one_waits 1000 8 (b'x' ∷ [])
one-Waits = record {
  fits = omega arith;
  chars = λ i p. let e : i ≡ 0 = omega arith in rw e refl;
  nonzero = λ i p. ground arith;
  zeros = λ i p q. ground arith;
}
