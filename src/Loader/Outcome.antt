-- ===== src/Loader/Outcome.antt =====
-- When `efi_main` enters the kernel, and when it goes back to the firmware.
use red_x_os.Common.{
  ℕ, ◌≡◌, ◌≢◌, ◌⊎◌, ◌↔◌, ◌∙◌, refl, ap, arith, Bool, ◌==◌, Option, none, some, false, if◌then◌else◌,
}
use red_x_os.Loader.{
  Machine, Firmware, null, kernel_path, loading_kernel, kernel_not_found, kernel_found,
}
use red_x_os.Loader.Files.{load_file}
use red_x_os.Loader.Elf.{Ehdr, read_header}
use red_x_os.Loader.Main.{
  Variables, back_in_firmware, null_call, load_verified, load_kernel, pre_font, pre_graphics,
  enter_kernel, efi_main,
}

-- A header is read exactly if there is a file.
module _ {F : Type 0} (f : Firmware F) (kernel header_at size file_info_at : ℕ)
    (s : Machine F) where
  read_header-missing :
      kernel ≡ null → (read_header f kernel header_at size file_info_at s).0 ≡ none
  unfolding read_header
  read_header-missing e = rw e refl

  read_header-found :
      kernel ≢ null
      → (header : Ehdr) × ((read_header f kernel header_at size file_info_at s).0 ≡ some header)
  unfolding read_header
  read_header-found e =
      let there : (kernel == null) ≡ false = ground (arith, e) in rw (read_header, there) (_, refl)

-- Whatever the test of the header says, no error is kept.
verified_error :
    {F : Type 0} (f : Firmware F) (kernel : ℕ) (missing : Bool) (header : Ehdr) (s : Machine F)
    → (load_verified f kernel (if missing then 0 else 0) (some header) s).0 ≡ some (header, 0)
unfolding load_verified
verified_error f kernel missing header s = ap (λ (n : ℕ). some (header, n)) (ground arith)

module _ {F : Type 0} (f : Firmware F) (v : Variables) (image_handle : ℕ) (s : Machine F) where
  -- The kernel's file, or null.
  abbrev opened : ℕ × Machine F
  opened = load_file f null kernel_path image_handle ((f.print loading_kernel s).1)

  abbrev pub kernel_file : ℕ
  kernel_file = opened.0

  abbrev read : Option Ehdr × Machine F
  read =
      read_header f kernel_file v.header v.unset_file_info_size v.file_info
        ((f.print (if kernel_file == null then kernel_not_found else kernel_found) opened.1).1)

  load_kernel-verified :
      load_kernel f v image_handle s
      ≡ load_verified f kernel_file (if kernel_file == null then 0 else 0) read.0 read.1
  unfolding load_kernel
  load_kernel-verified = refl

  load_kernel-missing : kernel_file ≡ null → (load_kernel f v image_handle s).0 ≡ none
  unfolding load_verified
  load_kernel-missing e =
      ap (λ (r : Option (Ehdr × ℕ) × Machine F). r.0) load_kernel-verified
      ∙ ap
          (λ (h : Option Ehdr).
            (load_verified f kernel_file (if kernel_file == null then 0 else 0) h read.1).0)
          (read_header-missing f kernel_file v.header v.unset_file_info_size v.file_info _ e)

  load_kernel-found :
      kernel_file ≢ null → (header : Ehdr) × ((load_kernel f v image_handle s).0 ≡ some (header, 0))
  load_kernel-found e =
      let (header, found) =
        read_header-found f kernel_file v.header v.unset_file_info_size v.file_info
          ((f.print (if kernel_file == null then kernel_not_found else kernel_found) opened.1).1)
          e in
      (
        header,
        ap (λ (r : Option (Ehdr × ℕ) × Machine F). r.0) load_kernel-verified
            ∙ ap
                (λ (h : Option Ehdr).
                  (load_verified f kernel_file (if kernel_file == null then 0 else 0) h read.1).0)
                found
            ∙ verified_error f kernel_file (kernel_file == null) header read.1,
      )

  abbrev after : Machine F
  after = (load_kernel f v image_handle s).1

  enter_kernel-missing :
      kernel_file ≡ null
      → (enter_kernel f v image_handle ((load_kernel f v image_handle s).0) after).0 ≡ null_call
  unfolding enter_kernel
  enter_kernel-missing e =
      ap (λ (o : Option (Ehdr × ℕ)). (enter_kernel f v image_handle o after).0)
        (load_kernel-missing e)

  enter_kernel-some :
      (header : Ehdr) (m : Machine F)
      → let (font, m') = pre_font f image_handle m in
        ((enter_kernel f v image_handle (some (header, 0)) m).0 ≡ back_in_firmware)
        ↔ ((font ≡ null) ⊎ ((pre_graphics f v.framebuffer m').0 ≡ null))
  unfolding enter_kernel
  enter_kernel-some header m = (λ e. ground (arith, e), λ e. ground (arith, e))

-- If the kernel's file was not found, `efi_main` calls through a null pointer. Otherwise it goes
-- back to the firmware exactly if there is no font or no frame buffer: a kernel that fails the test
-- of its header does not stop it.
pub efi_main-back_in_firmware :
    {F : Type 0} (f : Firmware F) (v : Variables) (image_handle system_table : ℕ) (s : Machine F)
    → let s1 = (f.initialize_lib image_handle system_table s).1 in
      let outcome = (efi_main f v image_handle system_table s).0 in
      let (font, s3) = pre_font f image_handle ((load_kernel f v image_handle s1).1) in
      let buffer = (pre_graphics f v.framebuffer s3).0 in
      (kernel_file f v image_handle s1 ≡ null → outcome ≡ null_call)
      × (kernel_file f v image_handle s1 ≢ null
          → (outcome ≡ back_in_firmware) ↔ ((font ≡ null) ⊎ (buffer ≡ null)))
unfolding efi_main
efi_main-back_in_firmware f v image_handle system_table s =
    let s1 = (f.initialize_lib image_handle system_table s).1 in
    let after = (load_kernel f v image_handle s1).1 in
    (
      λ missing. enter_kernel-missing f v image_handle s1 missing,
      λ there.
          let (header, found) = load_kernel-found f v image_handle s1 there in
          let same =
            ap (λ (o : Option (Ehdr × ℕ)). (enter_kernel f v image_handle o after).0) found in
          rw same (enter_kernel-some f v image_handle s1 header after),
    )
