-- ===== src/Kernel/MemoryTypes.antt =====
-- `EFI_MEMORY_TYPE_STRINGS` of kernel/src/memory/memory.cpp.
use red_x_os.Common.{ℕ, List, [], ◌∷◌}

abbrev pub efi_memory_type_strings : List (List ℕ)
efi_memory_type_strings =
    (b'E' ∷ b'f' ∷ b'i' ∷ b'R' ∷ b'e' ∷ b's' ∷ b'e' ∷ b'r' ∷ b'v' ∷ b'e' ∷ b'd' ∷ b'M' ∷ b'e' ∷ b'm'
      ∷ b'o' ∷ b'r' ∷ b'y' ∷ b'T' ∷ b'y' ∷ b'p' ∷ b'e' ∷ [])
    ∷ (b'E' ∷ b'f' ∷ b'i' ∷ b'L' ∷ b'o' ∷ b'a' ∷ b'd' ∷ b'e' ∷ b'r' ∷ b'C' ∷ b'o' ∷ b'd' ∷ b'e'
        ∷ [])
    ∷ (b'E' ∷ b'f' ∷ b'i' ∷ b'L' ∷ b'o' ∷ b'a' ∷ b'd' ∷ b'e' ∷ b'r' ∷ b'D' ∷ b'a' ∷ b't' ∷ b'a'
        ∷ [])
    ∷ (b'E' ∷ b'f' ∷ b'i' ∷ b'B' ∷ b'o' ∷ b'o' ∷ b't' ∷ b'S' ∷ b'e' ∷ b'r' ∷ b'v' ∷ b'i' ∷ b'c'
        ∷ b'e' ∷ b's' ∷ b'C' ∷ b'o' ∷ b'd' ∷ b'e' ∷ [])
    ∷ (b'E' ∷ b'f' ∷ b'i' ∷ b'B' ∷ b'o' ∷ b'o' ∷ b't' ∷ b'S' ∷ b'e' ∷ b'r' ∷ b'v' ∷ b'i' ∷ b'c'
        ∷ b'e' ∷ b's' ∷ b'D' ∷ b'a' ∷ b't' ∷ b'a' ∷ [])
    ∷ (b'E' ∷ b'f' ∷ b'i' ∷ b'R' ∷ b'u' ∷ b'n' ∷ b't' ∷ b'i' ∷ b'm' ∷ b'e' ∷ b'S' ∷ b'e' ∷ b'r'
        ∷ b'v' ∷ b'i' ∷ b'c' ∷ b'e' ∷ b's' ∷ b'C' ∷ b'o' ∷ b'd' ∷ b'e' ∷ [])
    ∷ (b'E' ∷ b'f' ∷ b'i' ∷ b'R' ∷ b'u' ∷ b'n' ∷ b't' ∷ b'i' ∷ b'm' ∷ b'e' ∷ b'S' ∷ b'e' ∷ b'r'
        ∷ b'v' ∷ b'i' ∷ b'c' ∷ b'e' ∷ b's' ∷ b'D' ∷ b'a' ∷ b't' ∷ b'a' ∷ [])
    ∷ (b'E' ∷ b'f' ∷ b'i' ∷ b'C' ∷ b'o' ∷ b'n' ∷ b'v' ∷ b'e' ∷ b'n' ∷ b't' ∷ b'i' ∷ b'o' ∷ b'n'
        ∷ b'a' ∷ b'l' ∷ b'M' ∷ b'e' ∷ b'm' ∷ b'o' ∷ b'r' ∷ b'y' ∷ [])
    ∷ (b'E' ∷ b'f' ∷ b'i' ∷ b'U' ∷ b'n' ∷ b'u' ∷ b's' ∷ b'a' ∷ b'b' ∷ b'l' ∷ b'e' ∷ b'M' ∷ b'e'
        ∷ b'm' ∷ b'o' ∷ b'r' ∷ b'y' ∷ [])
    ∷ (b'E' ∷ b'f' ∷ b'i' ∷ b'A' ∷ b'C' ∷ b'P' ∷ b'I' ∷ b'R' ∷ b'e' ∷ b'c' ∷ b'l' ∷ b'a' ∷ b'i'
        ∷ b'm' ∷ b'M' ∷ b'e' ∷ b'm' ∷ b'o' ∷ b'r' ∷ b'y' ∷ [])
    ∷ (b'E' ∷ b'f' ∷ b'i' ∷ b'A' ∷ b'C' ∷ b'P' ∷ b'I' ∷ b'M' ∷ b'e' ∷ b'm' ∷ b'o' ∷ b'r' ∷ b'y'
        ∷ b'N' ∷ b'V' ∷ b'S' ∷ [])
    ∷ (b'E' ∷ b'f' ∷ b'i' ∷ b'M' ∷ b'e' ∷ b'm' ∷ b'o' ∷ b'r' ∷ b'y' ∷ b'M' ∷ b'a' ∷ b'p' ∷ b'p'
        ∷ b'e' ∷ b'd' ∷ b'I' ∷ b'O' ∷ [])
    ∷ (b'E' ∷ b'f' ∷ b'i' ∷ b'M' ∷ b'e' ∷ b'm' ∷ b'o' ∷ b'r' ∷ b'y' ∷ b'M' ∷ b'a' ∷ b'p' ∷ b'p'
        ∷ b'e' ∷ b'd' ∷ b'I' ∷ b'O' ∷ b'P' ∷ b'o' ∷ b'r' ∷ b't' ∷ b'S' ∷ b'p' ∷ b'a' ∷ b'c' ∷ b'e'
        ∷ [])
    ∷ (b'E' ∷ b'f' ∷ b'i' ∷ b'P' ∷ b'a' ∷ b'l' ∷ b'C' ∷ b'o' ∷ b'd' ∷ b'e' ∷ [])
    ∷ []
