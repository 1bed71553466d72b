-- ===== src/Gdt.antt =====
-- kernel/src/gdt/gdt.h and gdt.cpp: the segment table.
use red_x_os.Common.{ℕ, List, [], ◌∷◌}

pub record GdtEntry : Type 0 where
  pub limit0 : ℕ
  pub base0 : ℕ
  pub base1 : ℕ
  pub access_byte : ℕ
  pub limit1 : ℕ
  pub base2 : ℕ

-- An entry of the table: all bases and limits are 0.
abbrev entry : ℕ → ℕ → GdtEntry
entry access_byte limit1 = record {
  limit0 = 0;
  base0 = 0;
  base1 = 0;
  access_byte = access_byte;
  limit1 = limit1;
  base2 = 0;
}

-- `globalDescrptorTable`: null, kCode, kData, uNull, uCode and uData.
abbrev pub global_descriptor_table : List GdtEntry
global_descriptor_table =
    entry 0x00 0x00
    ∷ entry 0x9a 0xa0
    ∷ entry 0x92 0xa0
    ∷ entry 0x00 0x00
    ∷ entry 0x9a 0xa0
    ∷ entry 0x92 0xa0
    ∷ []
