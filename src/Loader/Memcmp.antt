-- ===== src/Loader/Memcmp.antt =====
-- `memcmp` of the loader.
use red_x_os.Common.{ℕ, zero, suc, ◌+◌, ◌-◌, ◌^◌, ◌<◌, ◌≡◌, arith, ltb, if◌then◌else◌, true, false}
use native.Mathlib.Decide.{dec_lt}

-- A pointer to bytes is the sequence of the bytes. The loop, from place `i` on, with `left` places left. -1 is its two's complement pattern.
unfoldable pub compare_from : (ℕ → ℕ) → (ℕ → ℕ) → ℕ → ℕ → ℕ
compare_from a b i zero = 0
compare_from a b i (suc left) =
    let rest = compare_from a b (i + 1) left in
    if ltb (a i) (b i) then 2 ^ 32 - 1 else if ltb (b i) (a i) then 1 else rest

unfoldable pub memcmp : (ℕ → ℕ) → (ℕ → ℕ) → ℕ → ℕ
memcmp a b n = compare_from a b 0 n

-- Which of two sequences comes first, by the first place where they differ.
pub data Order (a b : ℕ → ℕ) : ℕ → ℕ → Type 0 where
  same : {n : ℕ} → ((k : ℕ) → k < n → a k ≡ b k) → Order a b n 0
  less :
      {n : ℕ} (d : ℕ) → d < n → ((k : ℕ) → k < d → a k ≡ b k) → a d < b d → Order a b n (2 ^ 32 - 1)
  greater : {n : ℕ} (d : ℕ) → d < n → ((k : ℕ) → k < d → a k ≡ b k) → b d < a d → Order a b n 1

module _ (a b : ℕ → ℕ) where
  one_more : (i : ℕ) → ((k : ℕ) → k < i → a k ≡ b k) → a i ≡ b i → (k : ℕ) → k < i + 1 → a k ≡ b k
  one_more i before here k h = elim (dec_lt k i) [
    | yes p ↦ before k p
    | no p ↦ let last : k ≡ i = omega arith in rw last here
  ]

  compare_from-Order :
      (left i n : ℕ)
      → i + left ≡ n
      → ((k : ℕ) → k < i → a k ≡ b k)
      → Order a b n (compare_from a b i left)
  unfolding compare_from
  compare_from-Order zero i n e before = same (λ k h. before k (omega arith))
  compare_from-Order (suc left) i n e before = elim (dec_lt (a i) (b i)) [
    | yes p ↦ let t : ltb (a i) (b i) ≡ true = ground arith in rw t (less i (omega arith) before p)
    | no p ↦
        let t : ltb (a i) (b i) ≡ false = ground arith in
        rw t (elim (dec_lt (b i) (a i)) [
          | yes q ↦
              let u : ltb (b i) (a i) ≡ true = ground arith in
              rw u (greater i (omega arith) before q)
          | no q ↦
              let u : ltb (b i) (a i) ≡ false = ground arith in
              rw u
                (compare_from-Order left (i + 1) n (omega arith) (one_more i before (omega arith)))
        ])
  ]

-- `memcmp` gives the order of the first `n` bytes of two sequences: 0 if they are the same, else -1 or
-- 1 by the first place where they differ.
pub memcmp-Order : (a b : ℕ → ℕ) (n : ℕ) → Order a b n (memcmp a b n)
unfolding memcmp
memcmp-Order a b n = compare_from-Order a b n 0 n (omega arith) (λ k h. absurd (omega arith))
