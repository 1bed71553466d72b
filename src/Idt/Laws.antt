-- ===== src/Idt/Laws.antt =====
-- Offsets go into an entry and come back.
use red_x_os.Common.{
  ℕ, ◌+◌, ◌-◌, ◌*◌, ◌/◌, ◌%◌, ◌^◌, ◌≤◌, ◌<◌, ◌≡◌, ◌≢◌, ◌⊎◌, ◌∙◌, refl, arith, inl, inr, add64,
}
use red_x_os.Common.Ram.{
  Ram, load16, load32, store8, store8_lem, store16, store32, store16_apart, store32_apart,
  load16_same, load32_same, load16-store16, load32-store32,
}
use red_x_os.Common.{bit_and, bit_or}
use red_x_os.Common.Bits.{
  bit_and_split, bit_or_split, bit_and_low, bit_and-zero, bit_or-zero, zero-bit_or,
}
use native.Mathlib.Nat.{one-le-pow}
use red_x_os.Idt.{IdtEntry, idt_entry, set_offset, get_offset, set_gate, intr}

-- A field of `n` bits from bit `k` on.
field : (k n a : ℕ) → bit_and a ((2 ^ n - 1) * 2 ^ k) ≡ a / 2 ^ k % 2 ^ n * 2 ^ k
field k n a = ground (
  arith,
  one-le-pow k 2,
  bit_and_split k (a / 2 ^ k) (a % 2 ^ k) (2 ^ n - 1) 0,
  bit_and_low n (a / 2 ^ k),
  bit_and-zero (a % 2 ^ k),
)

-- Fields that do not overlap are added by `|`.
above : (k low high : ℕ) → low < 2 ^ k → bit_or low (high * 2 ^ k) ≡ high * 2 ^ k + low
above k low high h =
    ground (arith, one-le-pow k 2, bit_or_split k 0 low high 0, zero-bit_or high, bit_or-zero low)

-- A 64-bit handler's address that is put into an entry by `setOffset` is what `getOffset` gives,
-- and the selector, the IST and the type stay.
pub get_offset-set_offset :
    (offset : ℕ) (e : IdtEntry)
    → offset < 2 ^ 64
    → (get_offset (set_offset offset e) ≡ offset)
      × ((set_offset offset e).selector ≡ e.selector)
      × ((set_offset offset e).ist ≡ e.ist)
      × ((set_offset offset e).type_attr ≡ e.type_attr)
unfolding get_offset set_offset
get_offset-set_offset offset e h = (
  ground (
    arith,
    bit_and_low 16 offset,
    field 16 16 offset,
    field 32 32 offset,
    zero-bit_or (offset % 2 ^ 16),
    above 16 (offset % 2 ^ 16) (offset / 2 ^ 16 % 2 ^ 16),
    above 32 (offset / 2 ^ 16 % 2 ^ 16 * 2 ^ 16 + offset % 2 ^ 16) (offset / 2 ^ 32),
  ),
  refl,
  refl,
  refl,
)

-- Where `setGate` writes to the entry at `a`.
abbrev pub Unset : ℕ → ℕ → Type 0
Unset a x = (x < a) ⊎ (x ≡ a + 4) ⊎ (a + 12 ≤ x)

-- An entry depends on its sixteen bytes.
pub idt_entry_same :
    (m m' : Ram) (a : ℕ)
    → ((x : ℕ) → a ≤ x → x < a + 16 → m x ≡ m' x)
    → idt_entry m a ≡ idt_entry m' a
idt_entry_same m m' a h =
    let e0 =
      load16_same a m m' (h a (omega arith) (omega arith))
        (h (a + 1) (omega arith) (omega arith)) in
    let e1 =
      load16_same (a + 2) m m' (h (a + 2) (omega arith) (omega arith))
        (h (a + 2 + 1) (omega arith) (omega arith)) in
    let e2 = h (a + 4) (omega arith) (omega arith) in
    let e3 = h (a + 5) (omega arith) (omega arith) in
    let e4 =
      load16_same (a + 6) m m' (h (a + 6) (omega arith) (omega arith))
        (h (a + 6 + 1) (omega arith) (omega arith)) in
    let e5 = load32_same (a + 8) m m' (λ x p q. h x (omega arith) (omega arith)) in
    let e6 = load32_same (a + 12) m m' (λ x p q. h x (omega arith) (omega arith)) in
    rw (e0, e1, e2, e3, e4, e5, e6) refl

-- The stores of `setGate` for the entry at `a`, whose offset becomes that of `e`.
module _ (a : ℕ) (e : IdtEntry) (m : Ram) where
  abbrev first : Ram
  first = store16 a e.offset0 m

  abbrev second : Ram
  second = store16 (a + 6) e.offset1 first

  abbrev third : Ram
  third = store32 (a + 8) e.offset2 second

  abbrev typed : Ram
  typed = store8 (a + 5) intr third

  abbrev entered : Ram
  entered = store16 (a + 2) 0x08 typed

  typed_apart : (x : ℕ) → x ≢ a + 5 → typed x ≡ third x
  typed_apart x h = ground (arith, h, store8_lem (a + 5) intr third x)

  from_third : (x : ℕ) → (x < a + 2) ⊎ (a + 6 ≤ x) → entered x ≡ third x
  from_third x h =
      store16_apart (a + 2) 0x08 typed x (omega arith) ∙ typed_apart x (λ e. omega arith)

  from_second : (x : ℕ) → (x < a + 2) ⊎ ((a + 6 ≤ x) × (x < a + 8)) → entered x ≡ second x
  from_second x h =
      from_third x (omega arith) ∙ store32_apart (a + 8) e.offset2 second x (omega arith)

  from_first : (x : ℕ) → x < a + 2 → entered x ≡ first x
  from_first x h = from_second x (inl h) ∙ store16_apart (a + 6) e.offset1 first x (omega arith)

  entered_frame : (x : ℕ) → Unset a x → entered x ≡ m x
  entered_frame x h =
      store16_apart (a + 2) 0x08 typed x (omega arith)
      ∙ typed_apart x (λ e. omega arith)
      ∙ store32_apart (a + 8) e.offset2 second x (omega arith)
      ∙ store16_apart (a + 6) e.offset1 first x (omega arith)
      ∙ store16_apart a e.offset0 m x (omega arith)

  entered_offset0 : load16 entered a ≡ e.offset0 % 2 ^ 16
  entered_offset0 =
      load16_same a entered first (from_first a (omega arith)) (from_first (a + 1) (omega arith))
      ∙ load16-store16 a e.offset0 m

  entered_offset1 : load16 entered (a + 6) ≡ e.offset1 % 2 ^ 16
  entered_offset1 =
      load16_same (a + 6) entered second (from_second (a + 6) (inr (omega arith, omega arith)))
        (from_second (a + 6 + 1) (inr (omega arith, omega arith)))
      ∙ load16-store16 (a + 6) e.offset1 first

  entered_offset2 : load32 entered (a + 8) ≡ e.offset2 % 2 ^ 32
  entered_offset2 =
      load32_same (a + 8) entered third (λ x p q. from_third x (omega arith))
      ∙ load32-store32 (a + 8) e.offset2 second

  entered_type : entered (a + 5) ≡ intr
  entered_type =
      store16_apart (a + 2) 0x08 typed (a + 5) (omega arith)
      ∙ ground (arith, store8_lem (a + 5) intr third (a + 5))

  entered_selector : load16 entered (a + 2) ≡ 0x08
  entered_selector = load16-store16 (a + 2) 0x08 typed

-- An interrupt gate of the kernel's code segment for a handler.
pub record IsGate (handler : ℕ) (e : IdtEntry) : Type 0 where
  pub offset : e.offset0 + 2 ^ 16 * e.offset1 + 2 ^ 32 * e.offset2 ≡ handler
  pub selector : e.selector ≡ 0x08
  pub type_attr : e.type_attr ≡ 0b10001110

-- `setGate` makes the entry number `offset` of the table an interrupt gate of the kernel's code
-- segment for `handler`, whatever type and selector it was given, and changes no byte but those of
-- the entry's offset, selector and type.
pub set_gate_lem :
    (handler offset type_attr selector idtr_offset : ℕ) (m : Ram)
    → handler < 2 ^ 64
    → let a = add64 idtr_offset (offset * 16) in
      let m' = set_gate handler offset type_attr selector idtr_offset m in
      IsGate handler (idt_entry m' a) × ((x : ℕ) → Unset a x → m' x ≡ m x)
unfolding set_gate set_offset
set_gate_lem handler offset type_attr selector idtr_offset m h =
    let a = add64 idtr_offset (offset * 16) in
    let e = set_offset handler (idt_entry m a) in
    (
      record {
        offset = ground (
          arith,
          h,
          entered_offset0 a e m,
          entered_offset1 a e m,
          entered_offset2 a e m,
          bit_and_low 16 handler,
          field 16 16 handler,
          field 32 32 handler,
        );
        selector = entered_selector a e m;
        type_attr = entered_type a e m;
      },
      entered_frame a e m,
    )
