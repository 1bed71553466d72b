-- ===== src/Strings/Cat.antt =====
-- `cat`: one string behind the other.
use red_x_os.Common.Text.{Waits, store8-Waits}
use red_x_os.Common.{
  ℕ, zero, suc, ◌+◌, ◌^◌, ◌≤◌, ◌<◌, ◌≡◌, ◌≢◌, ◌⊎◌, ◌∙◌, refl, arith, List, [], ◌∷◌, ◌++◌, length,
  true, false, ◌==◌, u8, inl, inr, Bool-cases,
}
use red_x_os.Common.Ram.{Ram, store8, store8_lem}
use mathlib.Core.List.{append-nil, append_assoc}
use red_x_os.Common.{length-append}
use red_x_os.Strings.{clear_loop, copy_string, cat}

-- The string `xs` stands at `a`, with a 0 behind it.
pub data IsString (m : Ram) : ℕ → List ℕ → Type 0 where
  ends : {a : ℕ} → m a ≡ 0 → IsString m a []
  goes :
      {a x : ℕ} {xs : List ℕ}
      → m a ≡ x
      → x ≢ 0
      → x < 256
      → IsString m (a + 1) xs
      → IsString m a (x ∷ xs)

-- A store outside a string.
store8-IsString :
    (b v : ℕ) (m : Ram) (a : ℕ) (xs : List ℕ)
    → (b < a) ⊎ (a + length xs < b)
    → IsString m a xs
    → IsString (store8 b v m) a xs
store8-IsString b v m a [] away (ends e) = ends (ground (arith, store8_lem b v m a))
store8-IsString b v m a (x ∷ xs) away (goes e ne small rest) =
    goes (ground (arith, store8_lem b v m a)) ne small
      (store8-IsString b v m (a + 1) xs (omega arith) rest)

-- Memory where a loop of `cat` leaves it alone.
abbrev SameOutside : ℕ → ℕ → Ram → Ram → Type 0
SameOutside output size m m' = (x : ℕ) → (x < output) ⊎ (output + size ≤ x) → m' x ≡ m x

-- The first loop clears the text that stands in the buffer, up to the 0 behind it.
clear_loop-Waits :
    (left i n output size : ℕ) (m : Ram)
    → i ≤ n
    → n < i + left
    → n < size
    → ((j : ℕ) → j < i → m (output + j) ≡ 0)
    → ((j : ℕ) → i ≤ j → j < n → m (output + j) ≢ 0)
    → ((j : ℕ) → n ≤ j → j < size → m (output + j) ≡ 0)
    → ((j : ℕ) → j < size → clear_loop left output i m (output + j) ≡ 0)
      × SameOutside output size m (clear_loop left output i m)
unfolding clear_loop
clear_loop-Waits zero i n output size m h enough room before text behind = absurd (omega arith)
clear_loop-Waits (suc left) i n output size m h enough room before text behind =
    elim (Bool-cases (m (output + i) == 0)) [
      | inl e ↦
          let stop : i ≡ n = ground (arith, e, text i) in
          rw (clear_loop, e) ((λ j p. ground (arith, before j, behind j, stop)), λ x away. refl)
      | inr e ↦
          let m1 = store8 (output + i) 0 m in
          let inside : i < n = ground (arith, e, behind i) in
          let rest =
            clear_loop-Waits left (i + 1) n output size m1 (omega arith) (omega arith) room
              (λ j p. ground (arith, before j, store8_lem (output + i) 0 m (output + j)))
              (λ j p q. ground (arith, text j, store8_lem (output + i) 0 m (output + j)))
              (λ j p q. ground (arith, behind j, store8_lem (output + i) 0 m (output + j))) in
          rw (clear_loop, e)
            (rest.0, λ x away. rest.1 x away ∙ ground (arith, store8_lem (output + i) 0 m x))
    ]

-- A string is copied behind the text that stands in the buffer.
record Copied (m : Ram) (output size : ℕ) (xs : List ℕ) (result : ℕ × Ram) : Type 0 where
  index : result.0 ≡ length xs
  waits : Waits result.1 output size xs
  same : SameOutside output size m result.1

copy_string-Copied :
    (left chr index output size : ℕ) (m : Ram) (xs ys : List ℕ)
    → IsString m chr ys
    → Waits m output size xs
    → index ≡ length xs
    → length xs + length ys < size
    → size ≤ 256
    → (chr + length ys < output) ⊎ (output + size ≤ chr)
    → length ys < left
    → Copied m output size (xs ++ ys) (copy_string left output chr index m)
unfolding copy_string
copy_string-Copied zero chr index output size m xs ys string w at room small away enough =
    absurd (omega arith)
copy_string-Copied (suc left) chr index output size m xs [] (ends e) w at room small away enough =
    let stop : (m chr == 0) ≡ true = ground (arith, e) in
    rw (copy_string, stop, append-nil xs) (record { index = at; waits = w; same = λ x away. refl })
copy_string-Copied (suc left) chr index output size m xs (y ∷ ys) (goes e ne word rest) w at room
      small away enough =
    let more : (m chr == 0) ≡ false = ground (arith, e, ne) in
    let place : store8 (output + index) (m chr) m ≡ store8 (output + length xs) y m =
      rw (at, e) refl in
    let next : u8 (index + 1) ≡ length xs + 1 = omega (arith, at, room, small) in
    let count : length (xs ++ y ∷ []) ≡ length xs + 1 = length-append xs (y ∷ []) in
    let m1 = store8 (output + length xs) y m in
    let copied =
      copy_string-Copied left (chr + 1) (length xs + 1) output size m1 (xs ++ y ∷ []) ys
        (store8-IsString (output + length xs) y m (chr + 1) ys (omega (arith, away, room)) rest)
        (store8-Waits y m output size xs ne word w (omega arith)) (omega (arith, count))
        (omega (arith, count, room)) small (omega (arith, away)) (omega arith) in
    rw (copy_string, more, place, next, ← append_assoc xs (y ∷ []) ys)
      (record {
        index = copied.index;
        waits = copied.waits;
        same = λ x out.
            copied.same x out ∙ ground (arith, room, store8_lem (output + length xs) y m x);
      })

IsString-same :
    (m m' : Ram) (a : ℕ) (xs : List ℕ)
    → ((x : ℕ) → a ≤ x → x ≤ a + length xs → m' x ≡ m x)
    → IsString m a xs
    → IsString m' a xs
IsString-same m m' a [] same (ends e) = ends (same a (omega arith) (omega arith) ∙ e)
IsString-same m m' a (x ∷ xs) same (goes e ne small rest) =
    goes (same a (omega arith) (omega arith) ∙ e) ne small
      (IsString-same m m' (a + 1) xs (λ y p q. same y (omega arith) (omega arith)) rest)

-- Two strings that stand outside the buffer and have no more than 127 characters together: `cat` leaves
-- the one behind the other in its buffer, zeros behind them, and no other memory changed. The buffer
-- holds a text with zeros behind it before, as it does after.
pub cat-Waits :
    (output so st : ℕ) (m : Ram) (old xs ys : List ℕ)
    → Waits m output 128 old
    → length old < 128
    → IsString m so xs
    → IsString m st ys
    → (so + length xs < output) ⊎ (output + 128 ≤ so)
    → (st + length ys < output) ⊎ (output + 128 ≤ st)
    → length xs + length ys < 128
    → Waits (cat output so st m) output 128 (xs ++ ys)
      × ((x : ℕ) → (x < output) ⊎ (output + 128 ≤ x) → cat output so st m x ≡ m x)
unfolding cat
cat-Waits output so st m old xs ys w some_room first second away away' room =
    let cleared =
      clear_loop-Waits (2 ^ 64) 0 (length old) output 128 m (omega arith) (omega arith) some_room
        (λ j p. absurd (omega arith)) (λ j p q. w.nonzero j q) w.zeros in
    let m1 = clear_loop (2 ^ 64) output 0 m in
    let nothing : Waits m1 output 128 [] = record {
      fits = omega arith;
      chars = λ i p. absurd (omega arith);
      nonzero = λ i p. absurd (omega arith);
      zeros = λ i p q. cleared.0 i q;
    } in
    let one =
      copy_string-Copied (2 ^ 64) so 0 output 128 m1 [] xs
        (IsString-same m m1 so xs (λ x p q. cleared.1 x (omega (arith, away))) first) nothing refl
        (omega arith) (omega arith) away (omega arith) in
    let c1 = copy_string (2 ^ 64) output so 0 m1 in
    let two =
      copy_string-Copied (2 ^ 64) st c1.0 output 128 c1.1 xs ys
        (IsString-same m c1.1 st ys
          (λ x p q. one.same x (omega (arith, away')) ∙ cleared.1 x (omega (arith, away'))) second)
        one.waits one.index room (omega arith) away' (omega arith) in
    (two.waits, λ x out. two.same x out ∙ one.same x out ∙ cleared.1 x out)
