-- ===== src/Loader/Font.antt =====
-- `loadPSFFont`
use red_x_os.Common.{ℕ, ◌+◌, ◌*◌, ◌==◌, if◌then◌else◌, true, false, ◌&&◌}
use red_x_os.Common.Ram.{Ram, store64}
use red_x_os.Loader.{Act, ◌>>=◌, ◌>>◌, give, peek, poke, Firmware, FilePath, null}
use red_x_os.Loader.Files.{load_file}

abbrev pub psf_magic0 : ℕ
psf_magic0 = 0x36

abbrev pub psf_magic1 : ℕ
psf_magic1 = 0x04

-- `PSF_HEADER` in memory: two bytes of magic, the mode and the size of a glyph.
abbrev pub byte : Ram → ℕ → ℕ
byte m a = m a

abbrev pub mode_at : ℕ → ℕ
mode_at header = header + 2

abbrev pub charsize_at : ℕ → ℕ
charsize_at header = header + 3

-- The bytes of all glyphs: 512 of them in mode 1, else 256.
abbrev pub buffer_size : ℕ → ℕ → ℕ
buffer_size mode charsize = if mode == 1 then charsize * 512 else charsize * 256

-- From the second read on: the glyphs, and the `PSF_FONT` that points to them and to the header.
unfoldable pub read_glyphs : {F : Type 0} → Firmware F → ℕ → ℕ → Act F ℕ
read_glyphs f font header = do
  charsize ← peek byte (charsize_at header)
  mode ← peek byte (mode_at header)
  f.set_position font 4
  buffer ← f.allocate_pool (buffer_size mode charsize)
  f.read font (buffer_size mode charsize) buffer
  final_font ← f.allocate_pool 16
  poke store64 final_font header
  poke store64 (final_font + 8) buffer
  give final_font

-- The header, and the test of its magic.
unfoldable pub read_font : {F : Type 0} → Firmware F → ℕ → Act F ℕ
read_font f font = do
  header ← f.allocate_pool 4
  f.read font 4 header
  magic0 ← peek byte header
  magic1 ← peek byte (header + 1)
  elim (magic0 == psf_magic0 && (magic1 == psf_magic1)) [
    | true ↦ read_glyphs f font header
    | false ↦ give null
  ]

unfoldable pub load_psf_font : {F : Type 0} → Firmware F → ℕ → FilePath → ℕ → Act F ℕ
load_psf_font f directory path image_handle = do
  font ← load_file f directory path image_handle
  elim (font == null) [ true ↦ give null | false ↦ read_font f font ]
