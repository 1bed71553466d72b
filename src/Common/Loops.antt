-- ===== src/Common/Loops.antt =====
-- Counted loops: recursion on the rounds that are left.
use Prim.Native.Nat.{ℕ, zero, suc, ◌+◌, ◌≤◌, ◌<◌}
use mathlib.Core.Path.{◌≡◌}
use native.Mathlib.Omega.{arith}

-- for (k = first; k < first + left; k++) state = round k state
unfoldable pub for_range {ℓ} : {State : Type ℓ} → ℕ → ℕ → (ℕ → State → State) → State → State
for_range zero first round state = state
for_range (suc left) first round state = for_range left (first + 1) round (round first state)

-- What each round keeps, the loop keeps. A round may use where it stands in the range.
pub for_range_inv {ℓ κ} :
    {State : Type ℓ} (Kept : ℕ → State → Type κ) (round : ℕ → State → State) (left first stop : ℕ)
    (state : State)
    → first + left ≡ stop
    → ((k : ℕ) (t : State) → first ≤ k → k < stop → Kept k t → Kept (k + 1) (round k t))
    → Kept first state
    → Kept stop (for_range left first round state)
unfolding for_range
for_range_inv Kept round zero first stop state all keep start =
    let here : first ≡ stop = omega arith in rw (← here) start
for_range_inv Kept round (suc left) first stop state all keep start =
    for_range_inv Kept round left (first + 1) stop (round first state) (omega arith)
      (λ k t low high. keep k t (omega arith) high)
      (keep first state (omega arith) (omega arith) start)
