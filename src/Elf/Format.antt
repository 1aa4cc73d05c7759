-- ===== src/Elf/Format.antt =====
-- include/binaries/elf/elf.h: the constants, and the address computations of the accessors.
use se_l4_tools.Common.{
  ℕ, zero, suc, ◌+◌, ◌%◌, Bool, ◌==◌, if◌then◌else◌, Option, none, some, pos, negsuc,
}
use se_l4_tools.Memory.{Kernel, word_mod, Memory}
use se_l4_tools.Strops.{strcmp}

abbrev pub ei_class : ℕ
ei_class = 4

abbrev pub elfclass32 : ℕ
elfclass32 = 1

abbrev pub elfclass64 : ℕ
elfclass64 = 2

-- '\177', 'E', 'L', 'F'
abbrev pub elfmag0 : ℕ
elfmag0 = 0o177

abbrev pub elfmag1 : ℕ
elfmag1 = b'E'

abbrev pub elfmag2 : ℕ
elfmag2 = b'L'

abbrev pub elfmag3 : ℕ
elfmag3 = b'F'

abbrev pub pt_load : ℕ
pt_load = 1

-- `ISELF32(elfFile)`
unfoldable pub is_elf32 : Memory → ℕ → Bool
is_elf32 m file = m (file + ei_class) == elfclass32

-- `(uintptr_t) file + offset`
abbrev pub at_offset : Kernel → ℕ → ℕ → ℕ
at_offset k file offset = (file + offset) % word_mod k

-- The loop of elf32_getSectionNamed and elf64_getSectionNamed over the class's accessors: the round
-- at `i`, with `numSections - i` rounds left. `f` is the fuel of strcmp, and 0 is NULL.
unfoldable pub named_loop : Memory → (name section : ℕ → ℕ) → ℕ → ℕ → ℕ → ℕ → Option ℕ
named_loop m name section str f zero i = some 0
named_loop m name section str f (suc left) i = elim (strcmp f m str (name i)) [
  | none ↦ none
  | some r ↦ elim r [
    | pos d ↦
        let rest = named_loop m name section str f left (i + 1) in
        if d == 0 then some (section i) else rest
    | negsuc d ↦ named_loop m name section str f left (i + 1)
  ]
]
