-- ===== src/Loader/Graphics.antt =====
-- `GOPInit`
use red_x_os.Common.{ℕ, ◌+◌, ◌^◌, ◌==◌, true, false}
use red_x_os.Common.Ram.{Ram, load32, load64, store32, store64}
use red_x_os.Loader.{
  Act, ◌>>=◌, ◌>>◌, give, peek, poke, Firmware, null, efi_error, no_gop, gop_located,
  no_native_mode,
}

abbrev pub efi_not_started : ℕ
efi_not_started = 2 ^ 63 + 19

-- `gop->Mode`, and what stands in the structs behind it.
abbrev pub gop_mode : {F : Type 0} → ℕ → Act F ℕ
gop_mode gop = peek load64 (gop + 24)

abbrev pub mode_field : {F : Type 0} → (Ram → ℕ → ℕ) → ℕ → ℕ → Act F ℕ
mode_field load offset gop = do mode ← gop_mode gop; peek load (mode + offset)

abbrev pub info_field : {F : Type 0} → ℕ → ℕ → Act F ℕ
info_field offset gop = do info ← mode_field load64 8 gop; peek load32 (info + offset)

-- The global `framebuffer` is filled, which stands at `framebuffer`.
pub fill_framebuffer : {F : Type 0} → ℕ → ℕ → Act F ℕ
fill_framebuffer framebuffer gop = do
  base_addr ← mode_field load64 24 gop
  poke store64 framebuffer base_addr
  size ← mode_field load64 32 gop
  poke store64 (framebuffer + 8) size
  width ← info_field 4 gop
  poke store32 (framebuffer + 16) width
  height ← info_field 8 gop
  poke store32 (framebuffer + 20) height
  ppsl ← info_field 32 gop
  poke store32 (framebuffer + 24) ppsl
  give framebuffer

-- The number of the mode that is asked for: the current one, or 0 if there is none.
pub current_mode : {F : Type 0} → ℕ → Act F ℕ
current_mode gop = do
  mode ← gop_mode gop
  elim (mode == null) [ true ↦ give 0 | false ↦ peek load32 (mode + 4) ]

-- `QueryMode`, and `SetMode` if no mode was started.
pub native_mode : {F : Type 0} → Firmware F → ℕ → Act F ℕ
native_mode f gop = do
  number ← current_mode gop
  status ← f.query_mode gop number
  elim (status == efi_not_started) [ true ↦ f.set_mode gop 0 | false ↦ give status ]

pub gop_init : {F : Type 0} → Firmware F → ℕ → Act F ℕ
gop_init f framebuffer = do
  (status, gop) ← f.locate_gop
  elim (efi_error status) [
    | true ↦ (do f.print no_gop; give null)
    | false ↦ (do
      f.print gop_located
      mode_status ← native_mode f gop
      elim (efi_error mode_status) [
        | true ↦ (do f.print no_native_mode; give null)
        | false ↦ fill_framebuffer framebuffer gop
      ])
  ]
