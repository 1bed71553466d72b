-- ===== src/Strings/Copied.antt =====
-- A string that `toString` of a double copies, and the digits of a copy.
use red_x_os.Common.{ℕ, zero, suc, ◌+◌, ◌/◌, ◌≤◌, ◌<◌, ◌≡◌, ◌≢◌, ◌⊎◌, refl, arith, inl, inr}
use red_x_os.Common.{◌==◌, true, false}
use native.Mathlib.Decide.{dec_lt}
use red_x_os.Common.Ram.{Ram, store8, store8_lem}
use red_x_os.Strings.Decimal.{Spells}
use red_x_os.Strings.Fractions.{copy_chars}
use red_x_os.Strings.Expansion.{zero_or_suc}

-- The `n` characters at `from` stand at `to` as well, and the rest of memory is `m`.
pub record Copied (to from n : ℕ) (m t : Ram) : Type 0 where
  pub chars : (i : ℕ) → i < n → t (to + i) ≡ m (from + i)
  pub frame : (x : ℕ) → (x < to) ⊎ (to + n ≤ x) → t x ≡ m x

pub copy_chars-Copied :
    (left n to from : ℕ) (m : Ram)
    → n < left
    → ((i : ℕ) → i < n → (m (from + i) ≢ 0) × (m (from + i) < 256))
    → m (from + n) ≡ 0
    → (to + n ≤ from) ⊎ (from + n < to)
    → let (p, t) = copy_chars left to from m in (p ≡ to + n) × Copied to from n m t
unfolding copy_chars
copy_chars-Copied zero n to from m enough text ends apart = absurd (omega arith)
copy_chars-Copied (suc left) zero to from m enough text ends apart =
    let e : (m from == 0) ≡ true = ground (arith, ends) in
    rw (copy_chars, e)
      (omega arith, record { chars = λ i p. absurd (omega arith); frame = λ x p. refl })
copy_chars-Copied (suc left) (suc n) to from m enough text ends apart =
    let e : (m from == 0) ≡ false = ground (arith, text 0 (omega arith)) in
    let m' = store8 to (m from) m in
    let (p, c) =
      copy_chars-Copied left n (to + 1) (from + 1) m' (omega arith)
        (λ i q. ground (arith, text (suc i), store8_lem to (m from) m (from + 1 + i)))
        (ground (arith, ends, store8_lem to (m from) m (from + 1 + n))) (omega arith) in
    rw (copy_chars, e)
      (
        omega (arith, p),
        record {
          chars = λ i q. elim (zero_or_suc i) [
            | inl e ↦ ground (arith, c.frame to, store8_lem to (m from) m to, text 0, e)
            | inr (j, e) ↦ ground (arith, c.chars j, store8_lem to (m from) m (from + 1 + j), e)
          ];
          frame = λ x q. ground (arith, c.frame x, store8_lem to (m from) m x);
        },
      )

pub Spells-text :
    (m : Ram) (a k n i : ℕ) → Spells m a k n → i ≤ k → (m (a + i) ≢ 0) × (m (a + i) < 256)
Spells-text m a zero n i s p = ground (arith, s.1)
Spells-text m a (suc k) n i s p = elim (dec_lt i (suc k)) [
  | yes q ↦ Spells-text m a k (n / 10) i s.2 (omega arith)
  | no q ↦ let last : i ≡ suc k = omega arith in rw last (ground (arith, s.1))
]

pub Spells-copied :
    (m t : Ram) (a b k n : ℕ)
    → ((i : ℕ) → i ≤ k → t (b + i) ≡ m (a + i))
    → Spells m a k n
    → Spells t b k n
Spells-copied m t a b zero n h s = (s.0, ground (arith, h 0, s.1))
Spells-copied m t a b (suc k) n h s = (
  s.0,
  ground (arith, h (suc k), s.1),
  Spells-copied m t a b k (n / 10) (λ i p. h i (omega arith)) s.2,
)
