-- ===== src/Strings/Decimal.antt =====
-- `toString` of an unsigned number: the decimal digits, and the end of the string.
use red_x_os.Common.{ℕ, zero, suc, ◌+◌, ◌-◌, ◌/◌, ◌%◌, ◌^◌, ◌≤◌, ◌<◌, ◌≡◌, ◌⊎◌, arith}
use red_x_os.Common.{ltb, false, true, Bool-cases, inl, inr, u8}
use red_x_os.Common.Ram.{Ram, store8, store8_lem}
use red_x_os.Strings.{rounds, size_loop, digit_loop, last_digit, to_string}
use native.Mathlib.Nat.{pow-suc}

-- The characters from `a` to `a + k` are the decimal digits of `n`, with no zero in front.
abbrev pub Spells : Ram → ℕ → ℕ → ℕ → Type 0
Spells m a zero n = (n < 10) × (m a ≡ n + b'0')
Spells m a (suc k) n = (0 < n / 10) × (m (a + suc k) ≡ n % 10 + b'0') × Spells m a k (n / 10)

Spells-same :
    (m m' : Ram) (a k n : ℕ)
    → ((x : ℕ) → a ≤ x → x ≤ a + k → m' x ≡ m x)
    → Spells m a k n
    → Spells m' a k n
Spells-same m m' a zero n h s = (s.0, ground (arith, h a, s.1))
Spells-same m m' a (suc k) n h s = (
  s.0,
  ground (arith, h (a + suc k), s.1),
  Spells-same m m' a k (n / 10) (λ x p q. h x p (omega arith)) s.2,
)

-- `n` has `k + 1` decimal digits.
abbrev pub HasSize : ℕ → ℕ → Type 0
HasSize zero n = n < 10
HasSize (suc k) n = (0 < n / 10) × HasSize k (n / 10)

-- The first loop counts the digits after the first, if its rounds are enough.
size_loop_lem :
    (fuel n size : ℕ)
    → n < 10 ^ suc fuel
    → size + fuel < 256
    → (k : ℕ) × (size_loop fuel n size ≡ size + k) × HasSize k n × (k ≤ fuel)
unfolding size_loop
size_loop_lem zero n size h small = (0, omega arith, omega arith, omega arith)
size_loop_lem (suc fuel) n size h small = elim (Bool-cases (ltb 0 (n / 10))) [
  | inl more ↦
      let (k, e, s, p) =
        size_loop_lem fuel (n / 10) (u8 (size + 1)) (omega (arith, pow-suc 10 (suc fuel)))
          (omega arith) in
      (suc k, rw more (omega (arith, e)), (ground (arith, more), s), omega (arith, p))
  | inr done ↦ (0, rw done (omega arith), ground (arith, done), omega arith)
]

-- What the digits are when the second loop has ended and the last one is written.
record Ends (base k n : ℕ) (m t : Ram) : Type 0 where
  spells : Spells t base k n
  frame : (x : ℕ) → (x < base) ⊎ (base + k < x) → t x ≡ m x

last_lem :
    (base size n index : ℕ) (m : Ram)
    → n < 10
    → index + 0 ≡ size
    → Ends base 0 n m (last_digit base size (record { number = n; index = index; ram = m }))
unfolding last_digit
last_lem base size n index m h e =
    let place : base + (size - index) ≡ base = omega arith in
    rw place (record {
      spells = (h, ground (arith, store8_lem base (u8 (n % 10) + b'0') m base));
      frame = λ x p. ground (arith, store8_lem base (u8 (n % 10) + b'0') m x);
    })

-- A digit is written behind the place where the rest will end.
Ends-suc :
    (base k n : ℕ) (m t : Ram)
    → 0 < n / 10
    → Ends base k (n / 10) (store8 (base + suc k) (u8 (n % 10) + b'0') m) t
    → Ends base (suc k) n m t
Ends-suc base k n m t more h = record {
  spells = (
    more,
    ground (
      arith,
      h.frame (base + suc k),
      store8_lem (base + suc k) (u8 (n % 10) + b'0') m (base + suc k),
    ),
    h.spells,
  );
  frame = λ x p. ground (arith, h.frame x, store8_lem (base + suc k) (u8 (n % 10) + b'0') m x);
}

-- The second loop from the number `n` with `k + 1` digits, with the digits behind it written.
digit_loop_lem :
    (fuel base size k n index : ℕ) (m : Ram)
    → HasSize k n
    → k ≤ fuel
    → index + k ≡ size
    → size < 255
    → Ends base k n m (
        last_digit base size
          (digit_loop fuel base size (record { number = n; index = index; ram = m })))
unfolding digit_loop
digit_loop_lem zero base size zero n index m h p e q = last_lem base size n index m h e
digit_loop_lem zero base size (suc k) n index m h p e q = absurd (omega arith)
digit_loop_lem (suc fuel) base size zero n index m h p e q =
    let done : ltb 0 (n / 10) ≡ false = ground arith in rw done (last_lem base size n index m h e)
digit_loop_lem (suc fuel) base size (suc k) n index m h p e q =
    let more : ltb 0 (n / 10) ≡ true = ground (arith, h.0) in
    let next : u8 (index + 1) ≡ index + 1 = omega arith in
    let place : size - index ≡ suc k = omega arith in
    rw (more, next, place)
      (Ends-suc base k n m _ h.0
        (digit_loop_lem fuel base size k (n / 10) (index + 1) _ h.1 (omega arith) (omega arith) q))

size_below : (j k n : ℕ) → HasSize k n → n < 10 ^ suc j → k ≤ j
size_below j zero n h p = omega arith
size_below zero (suc k) n h p = absurd (omega (arith, h.0))
size_below (suc j) (suc k) n h p =
    omega (arith, size_below j k (n / 10) h.1 (omega (arith, pow-suc 10 (suc j))))

-- `toString` of a 64-bit number leaves the decimal digits of the number, without a zero in front, from the start of
-- the buffer on, then the zero that ends the string, and changes nothing outside the buffer's
-- first 21 places.
pub to_string-Spells :
    (uint_output number : ℕ) (m : Ram)
    → number < 2 ^ 64
    → let t = to_string uint_output number m in
      (k : ℕ) × (k < 20)
      × Spells t uint_output k number
      × (t (uint_output + (k + 1)) ≡ 0)
      × ((x : ℕ) → (x < uint_output) ⊎ (uint_output + 20 < x) → t x ≡ m x)
unfolding to_string
to_string-Spells out n m h =
    let (k, e, sized, p) = size_loop_lem rounds n 0 (omega arith) (omega arith) in
    let size_is : size_loop rounds n 0 ≡ k = omega (arith, e) in
    let short : k ≤ 19 = size_below 19 k n sized (omega arith) in
    let d = digit_loop rounds out k (record { number = n; index = 0; ram = m }) in
    let ends : Ends out k n m (last_digit out k d) =
      digit_loop_lem rounds out k k n 0 m sized p (omega arith) (omega arith) in
    rw size_is (
      k,
      omega arith,
      Spells-same (last_digit out k d) (store8 (out + (k + 1)) 0 (last_digit out k d)) out k n
          (λ x q r. ground (arith, store8_lem (out + (k + 1)) 0 (last_digit out k d) x))
          ends.spells,
      ground (arith, store8_lem (out + (k + 1)) 0 (last_digit out k d) (out + (k + 1))),
      λ x q. ground (arith, ends.frame x, store8_lem (out + (k + 1)) 0 (last_digit out k d) x),
    )
