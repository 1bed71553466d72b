-- ===== src/Common/Text.antt =====
-- Text in a buffer of fixed size: its characters, and zeros behind them.
use Prim.Native.Nat.{ℕ, ◌+◌, ◌≤◌, ◌<◌}
use mathlib.Core.Path.{◌≡◌, sym, ◌∙◌}
use mathlib.Core.Logic.{◌≢◌, ◌⊎◌}
use mathlib.Core.List.{List, [], ◌∷◌, ◌++◌}
use native.Mathlib.Omega.{arith}
use red_x_os.Common.Lists.{length, get_or, length-append, get_or-append, get_or-append_last}
use red_x_os.Common.Ram.{Ram, store8, store8_lem}

-- The buffer of `size` places at `a` holds the characters `xs` and zeros behind them.
pub record Waits (m : Ram) (a size : ℕ) (xs : List ℕ) : Type 0 where
  pub fits : length xs ≤ size
  pub chars : (i : ℕ) → i < length xs → m (a + i) ≡ get_or xs i 0
  pub nonzero : (i : ℕ) → i < length xs → m (a + i) ≢ 0
  pub zeros : (i : ℕ) → length xs ≤ i → i < size → m (a + i) ≡ 0

-- A character that is stored behind the text.
pub store8-Waits :
    (chr : ℕ) (m : Ram) (a size : ℕ) (xs : List ℕ)
    → chr ≢ 0
    → chr < 256
    → Waits m a size xs
    → length xs < size
    → Waits (store8 (a + length xs) chr m) a size (xs ++ chr ∷ [])
store8-Waits chr m a size xs ne small w room = record {
  fits = omega (arith, length-append xs (chr ∷ []));
  chars = λ i p. ground (
    arith,
    length-append xs (chr ∷ []),
    store8_lem (a + length xs) chr m (a + i),
    w.chars i,
    get_or-append xs i chr 0,
    get_or-append_last xs chr 0,
  );
  nonzero = λ i p.
      ground
        (arith, length-append xs (chr ∷ []), store8_lem (a + length xs) chr m (a + i), w.nonzero i);
  zeros = λ i p q.
      ground
        (arith, length-append xs (chr ∷ []), store8_lem (a + length xs) chr m (a + i), w.zeros i);
}

-- A store outside the buffer leaves the text.
pub store8-Waits_apart :
    (x v : ℕ) (m : Ram) (a size : ℕ) (xs : List ℕ)
    → (x < a) ⊎ (a + size ≤ x)
    → Waits m a size xs
    → Waits (store8 x v m) a size xs
store8-Waits_apart x v m a size xs away w = record {
  fits = w.fits;
  chars = λ i p. ground (arith, store8_lem x v m (a + i), w.chars i, w.fits);
  nonzero = λ i p. ground (arith, store8_lem x v m (a + i), w.nonzero i, w.fits);
  zeros = λ i p q. ground (arith, store8_lem x v m (a + i), w.zeros i);
}

-- The text depends on the buffer alone.
pub Waits-same :
    (m m' : Ram) (a size : ℕ) (xs : List ℕ)
    → ((x : ℕ) → a ≤ x → x < a + size → m' x ≡ m x)
    → Waits m a size xs
    → Waits m' a size xs
Waits-same m m' a size xs same w = record {
  fits = w.fits;
  chars = λ i p. same (a + i) (omega arith) (omega (arith, w.fits)) ∙ w.chars i p;
  nonzero = λ i p e. w.nonzero i p (sym (same (a + i) (omega arith) (omega (arith, w.fits))) ∙ e);
  zeros = λ i p q. same (a + i) (omega arith) (omega arith) ∙ w.zeros i p q;
}
