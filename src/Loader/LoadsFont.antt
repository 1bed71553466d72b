-- ===== src/Loader/LoadsFont.antt =====
-- `loadPSFFont` on a firmware that does what is documented.
use red_x_os.Common.{ℕ, ◌+◌, ◌-◌, ◌≤◌, ◌<◌, ◌≡◌, ◌≢◌, ◌∙◌, arith, Bool, true, false, ◌==◌, ◌&&◌}
use red_x_os.Common.Ram.{Ram, load64, store64}
use red_x_os.Loader.{Act, Machine, Firmware, give, null}
use red_x_os.Loader.Font.{psf_magic0, psf_magic1, buffer_size, read_glyphs, read_font}
use red_x_os.Loader.Documented.{Documented}

-- At `font` stands a `PSF_FONT` of a file's header and of `size` bytes of glyphs behind it.
pub record IsFont (content : ℕ → ℕ) (size : ℕ) (m : Ram) (font : ℕ) : Type 0 where
  pub not_null : font ≢ null
  pub header : (i : ℕ) → i < 4 → m (load64 m font + i) ≡ content i
  pub glyphs : (i : ℕ) → i < size → m (load64 m (font + 8) + i) ≡ content (4 + i)

module _ {F : Type 0} {f : Firmware F} (d : Documented f) (font : ℕ) (s : Machine F)
    (start : d.position s.firmware font ≡ 0) (long : 4 ≤ d.length font)
    (some_pool : 4 ≤ d.pool_left s.firmware) where
  abbrev pool1 : ℕ × Machine F
  pool1 = f.allocate_pool 4 s

  abbrev header : ℕ
  header = pool1.0

  abbrev s2 : Machine F
  s2 = (f.read font 4 header pool1.1).1

  -- The header in memory.
  header_bytes : (i : ℕ) → i < 4 → s2.ram (header + i) ≡ d.content font i
  header_bytes i h =
      let at_start : d.position pool1.1.firmware font ≡ 0 = d.pool_position 4 s font ∙ start in
      let place : header + i - header ≡ i = omega arith in
      d.read_bytes font 4 header pool1.1 (header + i) ∙ ground (arith, at_start, place)

  -- A file without the magic gives no font.
  pub read_font-null :
      (d.content font 0 == psf_magic0 && (d.content font 1 == psf_magic1)) ≡ false
      → (read_font f font s).0 ≡ null
  unfolding read_font
  read_font-null e = ground (arith, header_bytes 0 (omega arith), header_bytes 1 (omega arith), e)

  abbrev n : ℕ
  n = buffer_size (s2.ram (header + 2)) (s2.ram (header + 3))

  abbrev s3 : Machine F
  s3 = (f.set_position font 4 s2).1

  abbrev pool2 : ℕ × Machine F
  pool2 = f.allocate_pool n s3

  abbrev buffer : ℕ
  buffer = pool2.0

  abbrev s5 : Machine F
  s5 = (f.read font n buffer pool2.1).1

  abbrev pool3 : ℕ × Machine F
  pool3 = f.allocate_pool 16 s5

  abbrev final_font : ℕ
  final_font = pool3.0

  abbrev m7 : Ram
  m7 = store64 (final_font + 8) buffer (store64 final_font header pool3.1.ram)

  module _ (enough : n + 20 ≤ d.pool_left s.firmware) (whole : 4 + n ≤ d.length font) where
    abbrev chosen : Bool → Act F ℕ
    chosen b = elim b [ true ↦ read_glyphs f font header | false ↦ give null ]
