-- ===== src/Loader/Elf.antt =====
-- The kernel's ELF header in `efi_main`: how it is read, and the test that it passes or not.
use red_x_os.Common.{
  ℕ, ◌+◌, ◌==◌, Bool, not, ◌||◌, List, [], ◌∷◌, get_or, Option, none, some, true, false,
}
use red_x_os.Common.Ram.{Ram, load16, load32, load64}
use red_x_os.Loader.{Act, ◌>>=◌, ◌>>◌, give, Firmware, null}
use red_x_os.Loader.Memcmp.{memcmp}

-- The fields of an `Elf64_Ehdr` that the loader looks at.
pub record Ehdr : Type 0 where
  pub e_ident : ℕ → ℕ
  pub e_type : ℕ
  pub e_machine : ℕ
  pub e_version : ℕ
  pub e_entry : ℕ
  pub e_phoff : ℕ
  pub e_phentsize : ℕ
  pub e_phnum : ℕ

-- The header that stands at `a`.
abbrev pub ehdr_at : Ram → ℕ → Ehdr
ehdr_at m a = record {
  e_ident = λ i. m (a + i);
  e_type = load16 m (a + 16);
  e_machine = load16 m (a + 18);
  e_version = load32 m (a + 20);
  e_entry = load64 m (a + 24);
  e_phoff = load64 m (a + 32);
  e_phentsize = load16 m (a + 54);
  e_phnum = load16 m (a + 56);
}

-- `ELFMAG`
abbrev pub elf_mag : List ℕ
elf_mag = 0x7f ∷ 0x45 ∷ 0x4c ∷ 0x46 ∷ []

-- EI_CLASS, EI_DATA, ELFCLASS64, ELFDATA2LSB, ET_EXEC, EM_X86_64 and EV_CURRENT are numbers here.
pub is_bad : Ehdr → Bool
is_bad header =
    not (memcmp header.e_ident (λ i. get_or elf_mag i 0) 4 == 0)
    || not (header.e_ident 4 == 2)
    || not (header.e_ident 5 == 1)
    || not (header.e_type == 2)
    || not (header.e_machine == 62)
    || not (header.e_version == 1)

-- The file's information is read, the size first, and then the header. The second call of `GetInfo`
-- writes to the variable `FileInfo`, at `file_info_at`, and not to the buffer that it points to. With
-- a null `Kernel` the first call goes through a null pointer, which C gives no meaning: then there is
-- no header, and nothing more of the loader is modelled.
unfoldable pub read_header : {F : Type 0} → Firmware F → ℕ → ℕ → ℕ → ℕ → Act F (Option Ehdr)
read_header f kernel header_at file_info_size file_info_at = elim (kernel == null) [
  | true ↦ give none
  | false ↦ (do
    size ← f.get_info kernel file_info_size null
    file_info ← f.allocate_pool size
    size' ← f.get_info kernel size file_info_at
    f.read kernel 64 header_at
    (λ s. (some (ehdr_at s.ram header_at), s)))
]
