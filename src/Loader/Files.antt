-- ===== src/Loader/Files.antt =====
-- `loadFile`
use red_x_os.Common.{ℕ, ◌+◌, ◌==◌, if◌then◌else◌, true, false}
use red_x_os.Common.Ram.{load64}
use red_x_os.Loader.{
  Act, ◌>>=◌, give, peek, Firmware, FilePath, loaded_image, simple_file_system, null, efi_success,
}

-- `DeviceHandle` of an `EFI_LOADED_IMAGE_PROTOCOL`.
abbrev pub device_handle : ℕ → ℕ
device_handle image = image + 24

pub load_file : {F : Type 0} → Firmware F → ℕ → FilePath → ℕ → Act F ℕ
load_file f directory path image_handle = do
  image ← f.handle_protocol image_handle loaded_image
  device ← peek load64 (device_handle image)
  file_system ← f.handle_protocol device simple_file_system
  root ← elim (directory == null) [ true ↦ f.open_volume file_system | false ↦ give directory ]
  (status, file) ← f.open_file root path
  give (if status == efi_success then file else null)
