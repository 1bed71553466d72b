-- ===== src/Common/Ram.antt =====
-- The machine's memory as a byte at each address. Words of 16, 32 and 64 bits are little-endian.
use Prim.Native.Nat.{ℕ, ◌+◌, ◌*◌, ◌/◌, ◌%◌, ◌^◌, ◌≤◌, ◌<◌}
use mathlib.Core.Path.{◌≡◌, refl}
use mathlib.Core.Logic.{◌⊎◌, inl}
use native.Mathlib.Omega.{arith}
use red_x_os.Common.Tests.{◌==◌, if◌then◌else◌}
use red_x_os.Common.Words.{u8}

abbrev pub Ram : Type 0
Ram = ℕ → ℕ

abbrev pub HoldsBytes : Ram → Type 0
HoldsBytes m = (a : ℕ) → m a < 256

unfoldable pub store8 : ℕ → ℕ → Ram → Ram
store8 a v m x = if a == x then u8 v else m x

pub store8_lem : (a v : ℕ) (m : Ram) (x : ℕ) → store8 a v m x ≡ (if a == x then u8 v else m x)
unfolding store8
store8_lem a v m x = ground arith

pub store8-HoldsBytes : (a v : ℕ) (m : Ram) → HoldsBytes m → HoldsBytes (store8 a v m)
unfolding store8
store8-HoldsBytes a v m h x = ground (arith, h x)

unfoldable pub load16 : Ram → ℕ → ℕ
load16 m a = m a + 256 * m (a + 1)

unfoldable pub store16 : ℕ → ℕ → Ram → Ram
store16 a v m = store8 (a + 1) (v / 256) (store8 a v m)

unfoldable pub load32 : Ram → ℕ → ℕ
load32 m a = load16 m a + 2 ^ 16 * load16 m (a + 2)

unfoldable pub store32 : ℕ → ℕ → Ram → Ram
store32 a v m = store16 (a + 2) (v / 2 ^ 16) (store16 a v m)

unfoldable pub load64 : Ram → ℕ → ℕ
load64 m a = load32 m a + 2 ^ 32 * load32 m (a + 4)

unfoldable pub store64 : ℕ → ℕ → Ram → Ram
store64 a v m = store32 (a + 4) (v / 2 ^ 32) (store32 a v m)

-- A store changes the bytes of its own word alone.
pub store16_apart : (a v : ℕ) (m : Ram) (x : ℕ) → (x < a) ⊎ (a + 2 ≤ x) → store16 a v m x ≡ m x
unfolding store16 store8
store16_apart a v m x h = ground arith

pub store32_apart : (a v : ℕ) (m : Ram) (x : ℕ) → (x < a) ⊎ (a + 4 ≤ x) → store32 a v m x ≡ m x
unfolding store32
store32_apart a v m x h =
    ground (arith, store16_apart (a + 2) (v / 2 ^ 16) (store16 a v m) x, store16_apart a v m x)

pub store64_apart : (a v : ℕ) (m : Ram) (x : ℕ) → (x < a) ⊎ (a + 8 ≤ x) → store64 a v m x ≡ m x
unfolding store64
store64_apart a v m x h =
    ground (arith, store32_apart (a + 4) (v / 2 ^ 32) (store32 a v m) x, store32_apart a v m x)

pub load16-store16 : (a v : ℕ) (m : Ram) → load16 (store16 a v m) a ≡ v % 2 ^ 16
unfolding load16 store16 store8
load16-store16 a v m = ground arith

-- A load depends on the bytes of its own word alone.
pub load16_same :
    (a : ℕ) (m m' : Ram) → m a ≡ m' a → m (a + 1) ≡ m' (a + 1) → load16 m a ≡ load16 m' a
unfolding load16
load16_same a m m' p q = ground arith

pub load32_same :
    (a : ℕ) (m m' : Ram) → ((x : ℕ) → a ≤ x → x < a + 4 → m x ≡ m' x) → load32 m a ≡ load32 m' a
unfolding load32 load16
load32_same a m m' h = ground (arith, h a, h (a + 1), h (a + 2), h (a + 2 + 1))

pub load64_same :
    (a : ℕ) (m m' : Ram) → ((x : ℕ) → a ≤ x → x < a + 8 → m x ≡ m' x) → load64 m a ≡ load64 m' a
unfolding load64
load64_same a m m' h = ground (
  arith,
  load32_same a m m' (λ x p q. h x p (omega arith)),
  load32_same (a + 4) m m' (λ x p q. h x (omega arith) (omega arith)),
)

pub load32-store32 : (a v : ℕ) (m : Ram) → load32 (store32 a v m) a ≡ v % 2 ^ 32
unfolding load32 store32
load32-store32 a v m = ground (
  arith,
  load16-store16 (a + 2) (v / 2 ^ 16) (store16 a v m),
  load16-store16 a v m,
  load16_same a (store32 a v m) (store16 a v m)
      (store16_apart (a + 2) (v / 2 ^ 16) (store16 a v m) a (inl (omega arith)))
      (store16_apart (a + 2) (v / 2 ^ 16) (store16 a v m) (a + 1) (inl (omega arith))),
)

-- A word reads back as it was stored.
pub load64-store64 : (a v : ℕ) (m : Ram) → v < 2 ^ 64 → load64 (store64 a v m) a ≡ v
unfolding load64 store64
load64-store64 a v m h = ground (
  arith,
  load32-store32 (a + 4) (v / 2 ^ 32) (store32 a v m),
  load32-store32 a v m,
  load32_same a (store64 a v m) (store32 a v m)
      (λ x p q. store32_apart (a + 4) (v / 2 ^ 32) (store32 a v m) x (inl q)),
)

-- Words that do not overlap do not disturb one another.
pub load64-store64_apart :
    (a b v : ℕ) (m : Ram) → (b + 8 ≤ a) ⊎ (a + 8 ≤ b) → load64 (store64 a v m) b ≡ load64 m b
load64-store64_apart a b v m h =
    load64_same b (store64 a v m) m (λ x p q. store64_apart a v m x (omega arith))

load16-lt : (m : Ram) (a : ℕ) → HoldsBytes m → load16 m a < 2 ^ 16
unfolding load16
load16-lt m a h = ground (arith, h a, h (a + 1))

pub load64-lt : (m : Ram) (a : ℕ) → HoldsBytes m → load64 m a < 2 ^ 64
unfolding load64 load32
load64-lt m a h = ground (
  arith,
  load16-lt m a h,
  load16-lt m (a + 2) h,
  load16-lt m (a + 4) h,
  load16-lt m (a + 4 + 2) h,
)

pub store64-HoldsBytes : (a v : ℕ) (m : Ram) → HoldsBytes m → HoldsBytes (store64 a v m)
unfolding store64 store32 store16
store64-HoldsBytes a v m h = search (store8-HoldsBytes, h) depth 10

pub store32-HoldsBytes : (a v : ℕ) (m : Ram) → HoldsBytes m → HoldsBytes (store32 a v m)
unfolding store32 store16
store32-HoldsBytes a v m h = search (store8-HoldsBytes, h) depth 10

pub load32-store32_apart :
    (a b v : ℕ) (m : Ram) → (b + 4 ≤ a) ⊎ (a + 4 ≤ b) → load32 (store32 a v m) b ≡ load32 m b
load32-store32_apart a b v m h =
    load32_same b (store32 a v m) m (λ x p q. store32_apart a v m x (omega arith))

pub load64-zero : (a : ℕ) → load64 (λ x. 0) a ≡ 0
unfolding load64 load32 load16
load64-zero a = refl
