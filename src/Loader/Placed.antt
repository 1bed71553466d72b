-- ===== src/Loader/Placed.antt =====
-- Where the kernel's segments stand after the loop, on a firmware that does what is documented.
use red_x_os.Common.{
  ℕ, ◌+◌, ◌*◌, ◌≤◌, ◌<◌, ◌≡◌, ◌⊎◌, ◌∙◌, refl, sym, ap, arith, Bool, true, false, inl, inr,
  Bool-cases,
}
use red_x_os.Common.Ram.{Ram}
use red_x_os.Common.Loops.{for_range_inv}
use native.Mathlib.Decide.{dec_lt}
use red_x_os.Loader.{Machine, Firmware}
use red_x_os.Loader.Elf.{Ehdr}
use red_x_os.Loader.Segments.{load_entry, load_segments}
use red_x_os.Loader.Termination.{load_segments-each_entry}
use red_x_os.Loader.Documented.{Documented}
use red_x_os.Loader.Entries.{
  DocumentedPages, loads, offset, paddr, filesz, Loadable, with_bytes_out, with_bytes_in,
  read-with_bytes,
}
use red_x_os.Loader.Rounds.{HasTable, round_skips, round_loads}

-- Places that no segment goes to.
abbrev pub Outside : (ℕ → ℕ) → Ehdr → ℕ → Type 0
Outside content header x =
    (i : ℕ)
    → i < header.e_phnum
    → loads content header i ≡ true
    → (x < paddr content header i) ⊎ (paddr content header i + filesz content header i ≤ x)

-- The bytes of the segments number 0 to `n - 1` stand at their places.
abbrev pub Placed : (ℕ → ℕ) → Ehdr → ℕ → Ram → Type 0
Placed content header n m =
    (j : ℕ)
    → j < n
    → loads content header j ≡ true
    → (x : ℕ) → x < filesz content header j
    → m (paddr content header j + x) ≡ content (offset content header j + x)

clash : {b : Bool} → b ≡ true → b ≡ false → ⊥
clash e f = cc

module _ {F : Type 0} {f : Firmware F} (d : Documented f) (pages : DocumentedPages f) (kernel : ℕ)
    (header : Ehdr) (phdrs : ℕ)
    (h : Loadable (d.content kernel) (d.length kernel) header phdrs) where
  abbrev file : ℕ → ℕ
  file = d.content kernel

  -- What holds after the first `i` rounds.
  record Kept (m : Ram) (i : ℕ) (t : Machine F) : Type 0 where
    table : HasTable d pages kernel header phdrs h t.ram
    placed : Placed file header i t.ram
    outside : (x : ℕ) → Outside file header x → t.ram x ≡ m x

  keep :
      (m : Ram) (i : ℕ) (t : Machine F)
      → i < header.e_phnum
      → Kept m i t
      → Kept m (i + 1) ((load_entry f kernel (phdrs + i * header.e_phentsize) t).1)
  keep m i t p k = elim (Bool-cases (loads file header i)) [
    | inl e ↦
        let from = offset file header i in
        let size = filesz file header i in
        let place = paddr file header i in
        let done = round_loads d pages kernel header phdrs h i t k.table p e in
        let out = with_bytes_out d kernel from size place t.ram in
        record {
          table = λ x low.
              done (phdrs + x) ∙ out (phdrs + x) (omega (arith, h.off_table i p e)) ∙ k.table x low;
          placed = λ j before ld x low. elim (dec_lt j i) [
            | yes q ↦
                done (paddr file header j + x)
                ∙ out (paddr file header j + x) (omega (arith, h.apart j i q p ld e))
                ∙ k.placed j q ld x low
            | no q ↦
                let same : j ≡ i = omega arith in
                let low' : x < size = omega (arith, ap (filesz file header) same, low) in
                ap
                  (λ (n : ℕ).
                    (load_entry f kernel (phdrs + i * header.e_phentsize) t).1.ram (n + x))
                  (ap (paddr file header) same)
                ∙ done (place + x)
                ∙ with_bytes_in d kernel from size place t.ram x low'
                ∙ ap (λ (n : ℕ). file (offset file header n + x)) (sym same)
          ];
          outside = λ x away. done x ∙ out x (away i p e) ∙ k.outside x away;
        }
    | inr e ↦ rw (round_skips d pages kernel header phdrs h i t k.table p e) (record {
      table = k.table;
      placed = λ j before ld x low. elim (dec_lt j i) [
        | yes q ↦ k.placed j q ld x low
        | no q ↦
            let same : j ≡ i = omega arith in
            absurd (clash (sym (ap (loads file header) same) ∙ ld) e)
      ];
      outside = k.outside;
    })
  ]

-- The firmware reads, sets positions and allocates as is documented. The kernel's file holds its table of
-- program headers and its segments, which go to places apart from one another and from the table in the
-- pool. Then behind the loop the bytes of every `PT_LOAD` segment stand at its physical address, and
-- no memory but the segments' bytes and the table is changed.
pub load_segments-Placed :
    {F : Type 0} {f : Firmware F} (d : Documented f) (pages : DocumentedPages f) (kernel : ℕ)
    (header : Ehdr) (s : Machine F)
    → let size = header.e_phnum * header.e_phentsize in
      let phdrs = (f.allocate_pool size ((f.set_position kernel header.e_phoff s).1)).0 in
      Loadable (d.content kernel) (d.length kernel) header phdrs
      → let m = (load_segments f kernel header s).1.ram in
        Placed (d.content kernel) header header.e_phnum m
        × ((x : ℕ)
            → Outside (d.content kernel) header x
            → (x < phdrs) ⊎ (phdrs + size ≤ x)
            → m x ≡ s.ram x)
load_segments-Placed {F} {f} d pages kernel header s h =
    let size = header.e_phnum * header.e_phentsize in
    let s1 = (f.set_position kernel header.e_phoff s).1 in
    let pool = f.allocate_pool size s1 in
    let phdrs = pool.0 in
    let s3 = (f.read kernel size phdrs pool.1).1 in
    let there : d.position pool.1.firmware kernel ≡ header.e_phoff =
      d.pool_position size s1 kernel ∙ d.set_position_moves kernel header.e_phoff s in
    let same : pool.1.ram ≡ s.ram =
      d.pool_ram size s1 ∙ d.set_position_ram kernel header.e_phoff s in
    let got_table =
      read-with_bytes d kernel header.e_phoff size phdrs pool.1 there h.table_inside in
    let start : Kept d pages kernel header phdrs h s3.ram 0 s3 = record {
      table = λ x low.
          got_table (phdrs + x) ∙ with_bytes_in d kernel header.e_phoff size phdrs pool.1.ram x low;
      placed = λ j before. absurd (omega arith);
      outside = λ x away. refl;
    } in
    let kept =
      for_range_inv (Kept d pages kernel header phdrs h s3.ram)
        (λ i t. (load_entry f kernel (phdrs + i * header.e_phentsize) t).1) header.e_phnum 0
        header.e_phnum s3 (omega arith)
        (λ i t low high k. keep d pages kernel header phdrs h s3.ram i t high k) start in
    let loop =
      load_segments-each_entry f kernel header s (omega (arith, h.entry_size)) h.small h.fits in
    rw loop (
      kept.placed,
      λ x away off.
          kept.outside x away
          ∙ got_table x
          ∙ with_bytes_out d kernel header.e_phoff size phdrs pool.1.ram x off
          ∙ ap (λ (m : Ram). m x) same,
    )
