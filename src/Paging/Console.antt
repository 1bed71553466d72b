-- ===== src/Paging/Console.antt =====
-- What `map` writes when it prints its warning.
use red_x_os.Common.{
  ℕ, ◌+◌, ◌%◌, ◌≤◌, ◌<◌, ◌≡◌, ◌⊎◌, ◌∙◌, refl, ap, arith, List, [], ◌∷◌, true, Bool-cases, inl, inr,
  ◌/◌, ◌^◌,
}
use red_x_os.Common.Ram.{Ram, HoldsBytes, store64, store64_apart, store64-HoldsBytes}
use red_x_os.Bitmap
use red_x_os.Bitmap.{Bitmap}
use red_x_os.Allocator.{page_align}
use red_x_os.Strings.{string_at, to_h_string64}
use red_x_os.Strings.Hex.{to_h_string64_frame, to_h_string64-HoldsBytes}
use red_x_os.Renderer.{Framebuffer, BasicRenderer}
use red_x_os.Renderer.Printed.{print-Drawn}
use red_x_os.Paging.{TableMan, print_text, print_hex, unlocked_text, warn, check_locked}

-- Where printing writes: the frame buffer, the places around the buffer of `toHString`, and its
-- argument.
pub record Printer : Type 0 where
  pub buffer : Framebuffer
  pub hex_output64 : ℕ
  pub number : ℕ

abbrev pub printer : TableMan → Printer
printer s = record { buffer = s.screen.buffer; hex_output64 = s.hex_output64; number = s.number }

-- Printing does not write at `x`.
abbrev pub Unprinted : Printer → ℕ → Type 0
Unprinted c x =
    ((x < c.buffer.base_addr) ⊎ (c.buffer.base_addr + c.buffer.size ≤ x))
    × ((x + 14 < c.hex_output64) ⊎ (c.hex_output64 + 16 < x))
    × ((x < c.number) ⊎ (c.number + 8 ≤ x))

-- The frame buffer is made of whole pixels, and what is written below the buffer of `toHString` is
-- in memory.
pub record IsPrinter (c : Printer) : Type 0 where
  pub whole : c.buffer.size % 4 ≡ 0
  pub low : 14 ≤ c.hex_output64

-- From `s` to `t` something was printed: the tables' place and count and the printer are the same,
-- and of memory only what the printer writes.
pub record Printed (s t : TableMan) : Type 0 where
  pub same_addr : t.dir_addr ≡ s.dir_addr
  pub same_size : t.dir_size ≡ s.dir_size
  pub same_pdi : t.pdi ≡ s.pdi
  pub same_printer : printer t ≡ printer s
  pub outside : (x : ℕ) → Unprinted (printer s) x → t.ram x ≡ s.ram x
  pub bytes : HoldsBytes s.ram → HoldsBytes t.ram

pub Printed-refl : (s : TableMan) → Printed s s
Printed-refl s = record {
  same_addr = refl;
  same_size = refl;
  same_pdi = refl;
  same_printer = refl;
  outside = λ x h. refl;
  bytes = λ h. h;
}

pub same_Unprinted : {c d : Printer} {x : ℕ} → d ≡ c → Unprinted c x → Unprinted d x
same_Unprinted same h = rw same h

same_IsPrinter : {c d : Printer} → d ≡ c → IsPrinter c → IsPrinter d
same_IsPrinter same h = rw same h

Printed-trans : {s t u : TableMan} → Printed s t → Printed t u → Printed s u
Printed-trans {s} {t} f g = record {
  same_addr = g.same_addr ∙ f.same_addr;
  same_size = g.same_size ∙ f.same_size;
  same_pdi = g.same_pdi ∙ f.same_pdi;
  same_printer = g.same_printer ∙ f.same_printer;
  outside = λ x h. g.outside x (same_Unprinted f.same_printer h) ∙ f.outside x h;
  bytes = λ h. g.bytes (f.bytes h);
}

print_text-Printed :
    (text : List ℕ) (color : ℕ) (s : TableMan)
    → IsPrinter (printer s)
    → Printed s (print_text text color s)
unfolding print_text
print_text-Printed text color s is =
    let d = print-Drawn text color (record s.screen { ram = s.ram }) is.whole in
    record {
      same_addr = refl;
      same_size = refl;
      same_pdi = refl;
      same_printer =
          ap
            (λ (b : Framebuffer). record {
              buffer = b;
              hex_output64 = s.hex_output64;
              number = s.number;
            })
            d.same_buffer;
      outside = λ x h. d.outside x h.0;
      bytes = d.bytes;
    }

print_hex-Printed :
    (n color : ℕ) (s : TableMan) → IsPrinter (printer s) → Printed s (print_hex n color s)
unfolding print_hex
print_hex-Printed n color s is =
    let m0 = store64 s.number n s.ram in
    let m = to_h_string64 s.hex_output64 s.number m0 in
    let written : Printed s (record s { ram = m }) = record {
      same_addr = refl;
      same_size = refl;
      same_pdi = refl;
      same_printer = refl;
      outside = λ x h.
          to_h_string64_frame s.hex_output64 s.number m0 is.low x h.1
          ∙ store64_apart s.number n s.ram x h.2;
      bytes = λ h.
          to_h_string64-HoldsBytes s.hex_output64 s.number m0
            (store64-HoldsBytes s.number n s.ram h);
    } in
    Printed-trans written
      (print_text-Printed (string_at (2 ^ 64) m s.hex_output64) color (record s { ram = m }) is)

warn-Printed : (v p : ℕ) (s : TableMan) → IsPrinter (printer s) → Printed s (warn v p s)
unfolding warn
warn-Printed v p s is =
    let f1 = print_text-Printed unlocked_text 0xFFFFFFFF s is in
    let s1 = print_text unlocked_text 0xFFFFFFFF s in
    let f2 = print_hex-Printed p 0xFFFFFFFF s1 (rw f1.same_printer is) in
    let g2 = Printed-trans f1 f2 in
    let s2 = print_hex p 0xFFFFFFFF s1 in
    let to = b' ' ∷ b't' ∷ b'o' ∷ b' ' ∷ [] in
    let g3 = Printed-trans g2 (print_text-Printed to 0xFFFFFFFF s2 (rw g2.same_printer is)) in
    let s3 = print_text to 0xFFFFFFFF s2 in
    let g4 = Printed-trans g3 (print_hex-Printed v 0xFFFFFFFF s3 (rw g3.same_printer is)) in
    let s4 = print_hex v 0xFFFFFFFF s3 in
    Printed-trans g4 (print_text-Printed (b',' ∷ []) 0xFF0000FF s4 (rw g4.same_printer is))

-- Whether `map` is asked for a page that is locked.
abbrev pub PageLocked : Bitmap → ℕ → TableMan → Type 0
PageLocked b p s = Bitmap.test b s.ram (page_align p / 0x1000) ≡ true

pub check_locked-locked :
    (b : Bitmap) (v p : ℕ) (s : TableMan) → PageLocked b p s → check_locked b v p s ≡ s
unfolding check_locked
check_locked-locked b v p s e = rw e refl

pub check_locked-Printed :
    (b : Bitmap) (v p : ℕ) (s : TableMan)
    → PageLocked b p s ⊎ IsPrinter (printer s)
    → Printed s (check_locked b v p s)
unfolding check_locked
check_locked-Printed b v p s may = elim (Bool-cases (Bitmap.test b s.ram (page_align p / 0x1000))) [
  | inl e ↦ rw e (Printed-refl s)
  | inr e ↦
      rw e (elim may [ inl locked ↦ absurd (cc (e, locked)) | inr is ↦ warn-Printed v p s is ])
]

-- What is printed reaches memory and the renderer alone.
abbrev pub showing : TableMan → Ram → BasicRenderer → TableMan
showing s m r = record s { ram = m; screen = r }

pub check_locked-showing :
    (b : Bitmap) (v p : ℕ) (s : TableMan)
    → let s0 = check_locked b v p s in s0 ≡ showing s s0.ram s0.screen
unfolding check_locked warn print_text print_hex
check_locked-showing b v p s = elim (Bool-cases (Bitmap.test b s.ram (page_align p / 0x1000))) [
  | inl e ↦ rw e refl
  | inr e ↦ rw e refl
]

-- Printing works and does not write to the directory.
pub record Clear (s : TableMan) : Type 0 where
  pub printing : IsPrinter (printer s)
  pub directory : (x : ℕ) → s.dir_addr ≤ x → x < s.dir_addr + s.dir_size → Unprinted (printer s) x

-- The page is locked, and so nothing is printed; or printing does no harm to the tables.
abbrev pub MayMap : Bitmap → ℕ → TableMan → Type 0
MayMap b p s = PageLocked b p s ⊎ Clear s

pub same_Clear :
    {s t : TableMan}
    → t.dir_addr ≡ s.dir_addr
    → t.dir_size ≡ s.dir_size
    → printer t ≡ printer s
    → Clear s
    → Clear t
same_Clear addr size same c = record {
  printing = same_IsPrinter same c.printing;
  directory = λ x low high.
      same_Unprinted same
        (c.directory x (omega (arith, addr, low)) (omega (arith, addr, size, high)));
}

module _ (b : Bitmap) (v p : ℕ) {s : TableMan} (may : MayMap b p s) where
  abbrev checked : TableMan
  checked = check_locked b v p s

  pub checked-Printed : Printed s checked
  checked-Printed =
      check_locked-Printed b v p s (elim may [ inl locked ↦ inl locked | inr c ↦ inr c.printing ])

  pub checked_directory :
      (x : ℕ) → s.dir_addr ≤ x → x < s.dir_addr + s.dir_size → checked.ram x ≡ s.ram x
  checked_directory x low high = elim may [
    | inl locked ↦ ap (λ (t : TableMan). t.ram x) (check_locked-locked b v p s locked)
    | inr c ↦ checked-Printed.outside x (c.directory x low high)
  ]

  -- A place that is not printed to, or any place if nothing is printed.
  pub checked_outside :
      (x : ℕ) → PageLocked b p s ⊎ Unprinted (printer s) x → checked.ram x ≡ s.ram x
  checked_outside x (inl locked) =
      ap (λ (t : TableMan). t.ram x) (check_locked-locked b v p s locked)
  checked_outside x (inr away) = checked-Printed.outside x away
