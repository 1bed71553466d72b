-- ===== src/Loader/Rounds.antt =====
-- One round of the loop over the program headers, whose table is in memory.
use red_x_os.Common.{ℕ, suc, ◌+◌, ◌-◌, ◌*◌, ◌≤◌, ◌<◌, ◌≡◌, ◌∙◌, ap, arith, Bool, true, false, ◌==◌}
use red_x_os.Common.Ram.{Ram, load32, load64}
use red_x_os.Loader.{Act, Machine, Firmware, give}
use red_x_os.Loader.Elf.{Ehdr}
use red_x_os.Loader.Segments.{pt_load, load_segment, load_entry}
use red_x_os.Loader.Documented.{Documented}
use red_x_os.Loader.Entries.{
  DocumentedPages, load32-moved, load64-moved, entry_place, loads, offset, paddr, filesz, Loadable,
  with_bytes, load_segment-with_bytes,
}

below_product : (i n k size : ℕ) → i < n → k < 56 → 56 ≤ size → i * size + k < n * size
below_product i n k size p q big =
    let whole : n ≡ suc i + (n - suc i) = omega arith in
    let product : (suc i + (n - suc i)) * size ≡ i * size + size + (n - suc i) * size =
      grind arith in
    let total = ap (λ (n : ℕ). n * size) whole ∙ product in omega (arith, total)

module _ {F : Type 0} {f : Firmware F} (d : Documented f) (pages : DocumentedPages f) (kernel : ℕ)
    (header : Ehdr) (phdrs : ℕ)
    (h : Loadable (d.content kernel) (d.length kernel) header phdrs) where
  abbrev file : ℕ → ℕ
  file = d.content kernel

  -- The table is in memory.
  abbrev pub HasTable : Ram → Type 0
  HasTable m =
      (x : ℕ) → x < header.e_phnum * header.e_phentsize → m (phdrs + x) ≡ file (header.e_phoff + x)

  -- An entry in memory is that of the file.
  entry_byte :
      (m : Ram) (i k : ℕ)
      → HasTable m
      → i < header.e_phnum
      → k < 56
      → m (phdrs + i * header.e_phentsize + k) ≡ file (entry_place file header i + k)
  entry_byte m i k t p q =
      let left : phdrs + i * header.e_phentsize + k ≡ phdrs + (i * header.e_phentsize + k) =
        omega arith in
      let right : header.e_phoff + (i * header.e_phentsize + k) ≡ entry_place file header i + k =
        omega arith in
      let inside = below_product i header.e_phnum k header.e_phentsize p q h.entry_size in
      ap m left ∙ t (i * header.e_phentsize + k) inside ∙ ap file right

  field64 :
      (m : Ram) (i k : ℕ)
      → HasTable m
      → i < header.e_phnum
      → k + 8 ≤ 56
      → load64 m (phdrs + i * header.e_phentsize + k) ≡ load64 file (entry_place file header i + k)
  field64 m i k t p q =
      load64-moved m file (phdrs + i * header.e_phentsize + k) (entry_place file header i + k)
        (λ x low.
          let left : phdrs + i * header.e_phentsize + k + x
              ≡ phdrs + i * header.e_phentsize + (k + x) =
            omega arith in
          let right : entry_place file header i + (k + x) ≡ entry_place file header i + k + x =
            omega arith in
          ap m left ∙ entry_byte m i (k + x) t p (omega arith) ∙ ap file right)

  entry_type :
      (m : Ram) (i : ℕ)
      → HasTable m
      → i < header.e_phnum
      → load32 m (phdrs + i * header.e_phentsize) ≡ load32 file (entry_place file header i)
  entry_type m i t p =
      load32-moved m file (phdrs + i * header.e_phentsize) (entry_place file header i)
        (λ x low. entry_byte m i x t p (omega arith))

  abbrev entry_test : ℕ → Bool → Act F (Unit {0})
  entry_test phdr b = elim b [ true ↦ load_segment f kernel phdr | false ↦ give tt ]

  load_entry-test :
      (phdr : ℕ) (t : Machine F) (b : Bool)
      → (load32 t.ram phdr == pt_load) ≡ b
      → load_entry f kernel phdr t ≡ entry_test phdr b t
  unfolding load_entry
  load_entry-test phdr t true e = ap (λ (b : Bool). entry_test phdr b t) e
  load_entry-test phdr t false e = ap (λ (b : Bool). entry_test phdr b t) e

  -- What one round does with memory.
  pub round_skips :
      (i : ℕ) (t : Machine F)
      → HasTable t.ram
      → i < header.e_phnum
      → loads file header i ≡ false
      → (load_entry f kernel (phdrs + i * header.e_phentsize) t).1 ≡ t
  round_skips i t table p e =
      let skipped : (load32 t.ram (phdrs + i * header.e_phentsize) == pt_load) ≡ false =
        ap (λ (n : ℕ). n == pt_load) (entry_type t.ram i table p) ∙ e in
      ap (λ (r : Unit {0} × Machine F). r.1) (load_entry-test _ t false skipped)

  pub round_loads :
      (i : ℕ) (t : Machine F)
      → HasTable t.ram
      → i < header.e_phnum
      → loads file header i ≡ true
      → (x : ℕ)
      → (load_entry f kernel (phdrs + i * header.e_phentsize) t).1.ram x
        ≡ with_bytes d kernel
            (offset file header i)
            (filesz file header i)
            (paddr file header i)
            t.ram
            x
  round_loads i t table p e x =
      let phdr = phdrs + i * header.e_phentsize in
      let loaded : (load32 t.ram phdr == pt_load) ≡ true =
        ap (λ (n : ℕ). n == pt_load) (entry_type t.ram i table p) ∙ e in
      let from = field64 t.ram i 8 table p (omega arith) in
      let place = field64 t.ram i 24 table p (omega arith) in
      let size = field64 t.ram i 32 table p (omega arith) in
      let done =
        load_segment-with_bytes d kernel pages phdr t (omega (arith, from, size, h.inside i p e))
          x in
      ap (λ (r : Unit {0} × Machine F). r.1.ram x) (load_entry-test phdr t true loaded)
      ∙ rw (from, place, size) at done
