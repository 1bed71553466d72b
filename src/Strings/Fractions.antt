-- ===== src/Strings/Fractions.antt =====
-- `toString` of a `double`, with the decimals that are asked for.
use red_x_os.Common.{ℕ, zero, suc, ◌+◌, ◌-◌, ◌^◌, true, false, ◌==◌, if◌then◌else◌}
use red_x_os.Common.Ram.{Ram, store8}
use red_x_os.Common.Loops.{for_range}
use red_x_os.Doubles.{Double, of_int, less, mul, sub, to_int, to_int64}
use red_x_os.Strings.{to_string_signed}

-- while (*intPtr != 0), with a round for each address. The result is where `doubPtr` stands afterwards.
unfoldable pub copy_chars : ℕ → ℕ → ℕ → Ram → ℕ × Ram
copy_chars zero doub_ptr int_ptr m = (doub_ptr, m)
copy_chars (suc left) doub_ptr int_ptr m = elim (m int_ptr == 0) [
  | true ↦ (doub_ptr, m)
  | false ↦ copy_chars left (doub_ptr + 1) (int_ptr + 1) (store8 doub_ptr (m int_ptr) m)
]

-- What the loop over the decimals changes.
pub record Decimals : Type 0 where
  pub deci : Double
  pub doub_ptr : ℕ
  pub ram : Ram

unfoldable pub decimal : ℕ → Decimals → Decimals
decimal i d =
    let deci = mul d.deci (of_int 10) in
    record {
      deci = sub deci (of_int (to_int deci));
      doub_ptr = d.doub_ptr + 1;
      ram = store8 d.doub_ptr (to_int deci + b'0') d.ram;
    }

-- `if (number < 0) number *= -1`
unfoldable pub absolute : Double → Double
absolute number = if less number (of_int 0) then mul number (of_int (2 ^ 32 - 1)) else number

unfoldable pub to_string_double : ℕ → ℕ → Double → ℕ → Ram → Ram
to_string_double double_output int_output number deci_places m =
    let (doub_ptr, m') =
      copy_chars (2 ^ 64) double_output int_output
        (to_string_signed int_output (to_int64 number) m) in
    let number' = absolute number in
    let d = for_range deci_places 0 decimal (record {
      deci = sub number' (of_int (to_int number'));
      doub_ptr = doub_ptr + 1;
      ram = store8 doub_ptr b'.' m';
    }) in
    store8 d.doub_ptr 0 d.ram
