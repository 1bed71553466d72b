-- ===== src/Ps2/Tests.antt =====
-- The set-up at a concrete controller.
use red_x_os.Common.{◌++◌, ◌-◌, ◌≡◌, refl, arith, [], ◌∷◌, true, bit_and, bit_or}
use red_x_os.Ps2.{ps2_mouse_init}
use red_x_os.Ps2.Controller.{Controller, controller, keyboard, mouse_on}
use red_x_os.Ps2.Laws.{ps2_mouse_init_lem}

abbrev slow : Controller
slow = record {
  target = keyboard;
  config = 0x61;
  answers = [];
  orders = [];
  busy = 0;
  delay = 4000;
  lost = 0;
}

ps2_mouse_init_example :
    (mouse_on (ps2_mouse_init controller slow) ≡ true)
    × (ps2_mouse_init controller slow ≡ record slow {
      target = keyboard;
      config = bit_or (bit_and 0x61 0b11011111) 0b10;
      answers = [];
      orders = ([] ++ 0xf6 ∷ []) ++ 0xf4 ∷ [];
      busy = 4000 - 1;
    })
ps2_mouse_init_example = ps2_mouse_init_lem slow (omega arith) refl refl (omega arith)
