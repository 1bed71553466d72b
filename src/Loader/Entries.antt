-- ===== src/Loader/Entries.antt =====
-- What the program headers of a kernel's file say, and one segment that is loaded on a firmware that does
-- what is documented.
use red_x_os.Common.{
  ℕ, ◌+◌, ◌-◌, ◌*◌, ◌^◌, ◌≤◌, ◌<◌, ◌≡◌, ◌⊎◌, ◌∙◌, refl, ap, arith, Bool, true, ◌==◌, ◌&&◌, leb, ltb,
  if◌then◌else◌,
}
use red_x_os.Common.Ram.{Ram, load16, load32, load64}
use red_x_os.Loader.{Machine, Firmware}
use red_x_os.Loader.Elf.{Ehdr}
use red_x_os.Loader.Segments.{pt_load, segment_pages, load_segment}
use red_x_os.Loader.Documented.{Documented, got}

-- `AllocatePages` at an address leaves the address as it was given, and memory alone.
pub record DocumentedPages {F : Type 0} (f : Firmware F) : Type 0 where
  pub at_address :
      (pages address : ℕ) (s : Machine F) → (f.allocate_pages_at pages address s).0 ≡ address
  pub pages_ram :
      (pages address : ℕ) (s : Machine F) → (f.allocate_pages_at pages address s).1.ram ≡ s.ram

-- A word that stands at one address in one memory and at another in the other.
pub load32-moved :
    (m m' : Ram) (a b : ℕ) → ((x : ℕ) → x < 4 → m (a + x) ≡ m' (b + x)) → load32 m a ≡ load32 m' b
unfolding load32 load16
load32-moved m m' a b h = ground (arith, h 0, h 1, h 2, h 3)

pub load64-moved :
    (m m' : Ram) (a b : ℕ) → ((x : ℕ) → x < 8 → m (a + x) ≡ m' (b + x)) → load64 m a ≡ load64 m' b
unfolding load64
load64-moved m m' a b h =
    let low = load32-moved m m' a b (λ x p. h x (omega arith)) in
    let high = load32-moved m m' (a + 4) (b + 4) (λ x p. grind (arith, h (4 + x) (omega arith))) in
    omega (arith, low, high)

-- What the program header number `i` of a file says.
module _ (content : ℕ → ℕ) (header : Ehdr) where
  abbrev pub entry_place : ℕ → ℕ
  entry_place i = header.e_phoff + i * header.e_phentsize

  abbrev pub loads : ℕ → Bool
  loads i = load32 content (entry_place i) == pt_load

  abbrev pub offset : ℕ → ℕ
  offset i = load64 content (entry_place i + 8)

  abbrev pub paddr : ℕ → ℕ
  paddr i = load64 content (entry_place i + 24)

  abbrev pub filesz : ℕ → ℕ
  filesz i = load64 content (entry_place i + 32)

-- The file holds its table and its segments; the segments go to places apart from one another and from
-- the table, which is read to `phdrs`.
pub record Loadable (content : ℕ → ℕ) (length : ℕ) (header : Ehdr) (phdrs : ℕ) : Type 0 where
  pub entry_size : 56 ≤ header.e_phentsize
  pub small : header.e_phnum * header.e_phentsize < 2 ^ 31
  pub fits : phdrs + header.e_phnum * header.e_phentsize < 2 ^ 64
  pub table_inside : header.e_phoff + header.e_phnum * header.e_phentsize ≤ length
  pub inside :
      (i : ℕ)
      → i < header.e_phnum
      → loads content header i ≡ true
      → offset content header i + filesz content header i ≤ length
  pub apart :
      (i j : ℕ)
      → i < j
      → j < header.e_phnum
      → loads content header i ≡ true
      → loads content header j ≡ true
      → (paddr content header i + filesz content header i ≤ paddr content header j)
        ⊎ (paddr content header j + filesz content header j ≤ paddr content header i)
  pub off_table :
      (i : ℕ)
      → i < header.e_phnum
      → loads content header i ≡ true
      → (paddr content header i + filesz content header i ≤ phdrs)
        ⊎ (phdrs + header.e_phnum * header.e_phentsize ≤ paddr content header i)

module _ {F : Type 0} {f : Firmware F} (d : Documented f) (kernel : ℕ) where
  -- The file's bytes from `from` on at `place`, and memory as it was elsewhere.
  abbrev pub with_bytes : ℕ → ℕ → ℕ → Ram → ℕ → ℕ
  with_bytes from size place m x =
      if leb place x && ltb x (place + size) then d.content kernel (from + (x - place)) else m x

  pub with_bytes_out :
      (from size place : ℕ) (m : Ram) (x : ℕ)
      → (x < place) ⊎ (place + size ≤ x)
      → with_bytes from size place m x ≡ m x
  with_bytes_out from size place m x out = ground arith

  pub with_bytes_in :
      (from size place : ℕ) (m : Ram) (x : ℕ)
      → x < size
      → with_bytes from size place m (place + x) ≡ d.content kernel (from + x)
  with_bytes_in from size place m x low =
      let there : place + x - place ≡ x = omega arith in
      let above : leb place (place + x) ≡ true = ground arith in
      let below : ltb (place + x) (place + size) ≡ true = ground arith in
      rw (above, below, there) refl

  -- A read that the file has bytes for.
  pub read-with_bytes :
      (from size place : ℕ) (t : Machine F)
      → d.position t.firmware kernel ≡ from
      → from + size ≤ d.length kernel
      → (x : ℕ) → (f.read kernel size place t).1.ram x ≡ with_bytes from size place t.ram x
  read-with_bytes from size place t there inside x =
      let whole : got size (d.length kernel) (d.position t.firmware kernel) ≡ size =
        ground (arith, there, inside) in
      rw (whole, there) at (d.read_bytes kernel size place t x)

  module _ (pages : DocumentedPages f) where
    pub load_segment-with_bytes :
        (phdr : ℕ) (s : Machine F)
        → load64 s.ram (phdr + 8) + load64 s.ram (phdr + 32) ≤ d.length kernel
        → (x : ℕ)
        → (load_segment f kernel phdr s).1.ram x
          ≡ with_bytes
              (load64 s.ram (phdr + 8))
              (load64 s.ram (phdr + 32))
              (load64 s.ram (phdr + 24))
              s.ram
              x
    unfolding load_segment
    load_segment-with_bytes phdr s inside x =
        let count = segment_pages (load64 s.ram (phdr + 40)) in
        let address = load64 s.ram (phdr + 24) in
        let a = f.allocate_pages_at count address s in
        let same1 : a.1.ram ≡ s.ram = pages.pages_ram count address s in
        let from = load64 a.1.ram (phdr + 8) in
        let t = (f.set_position kernel from a.1).1 in
        let same2 : t.ram ≡ s.ram = d.set_position_ram kernel from a.1 ∙ same1 in
        let there : d.position t.firmware kernel ≡ load64 s.ram (phdr + 8) =
          d.set_position_moves kernel from a.1 ∙ ap (λ (m : Ram). load64 m (phdr + 8)) same1 in
        let size : load64 t.ram (phdr + 32) ≡ load64 s.ram (phdr + 32) =
          ap (λ (m : Ram). load64 m (phdr + 32)) same2 in
        let done =
          read-with_bytes (load64 s.ram (phdr + 8)) (load64 t.ram (phdr + 32)) a.0 t there
            (omega (arith, inside, size)) x in
        done
        ∙ ap (λ (n : ℕ). with_bytes (load64 s.ram (phdr + 8)) n a.0 t.ram x) size
        ∙ ap (λ (n : ℕ). with_bytes (load64 s.ram (phdr + 8)) (load64 s.ram (phdr + 32)) n t.ram x)
            (pages.at_address count address s)
        ∙ ap
            (λ (m : Ram).
              with_bytes (load64 s.ram (phdr + 8)) (load64 s.ram (phdr + 32)) address m x)
            same2
