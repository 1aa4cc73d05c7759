-- ===== src/Elf/Elf32.antt =====
-- elf32.c and elf32.h: the accessors of a 32-bit file that stands at `file`. A table's entry is
-- found by pointer arithmetic on the table, whose address is computed in uintptr_t.
pub mod Struct
use se_l4_tools.Common.{
  ℕ, zero, suc, ◌+◌, ◌*◌, ◌%◌, ◌^◌, ◌||◌, ◌==◌, if◌then◌else◌, Option, none, some, ℤ, pos, negsuc,
}
use mathlib.Core.Bool.{not}
use se_l4_tools.Memory.{Kernel, Memory}
use se_l4_tools.Strops.{strcmp}
use se_l4_tools.Elf.Format.{
  ei_class, elfclass32, elfmag0, elfmag1, elfmag2, elfmag3, at_offset, named_loop,
}
use Struct.{header, Shdr, shdr, shdr_size, Phdr, phdr, phdr_size}

unfoldable pub check_file : Memory → ℕ → ℤ
check_file m file =
    let ident = (header m file).e_ident in
    if not (ident 0 == elfmag0)
      || not (ident 1 == elfmag1)
      || not (ident 2 == elfmag2)
      || not (ident 3 == elfmag3)
    then negsuc 0
    else if not (ident ei_class == elfclass32)
    then negsuc 1
    else pos 0

module _ (k : Kernel) (m : Memory) (file : ℕ) where
  unfoldable pub get_section_table : ℕ
  get_section_table = at_offset k file (header m file).e_shoff

  -- `elf32_getSectionTable(file)[i]`
  unfoldable pub section : ℕ → Shdr
  unfolding get_section_table
  section i = shdr m (get_section_table + i * shdr_size)

  unfoldable pub get_section_type : ℕ → ℕ
  unfolding section
  get_section_type s = (section (s % 2 ^ 16)).sh_type

  unfoldable pub get_section_flags : ℕ → ℕ
  unfolding section
  get_section_flags s = (section (s % 2 ^ 16)).sh_flags

  unfoldable pub get_num_sections : ℕ
  get_num_sections = (header m file).e_shnum

  unfoldable pub get_string_table : ℕ
  unfolding section
  get_string_table = at_offset k file (section (header m file).e_shstrndx).sh_offset

  -- 0 is NULL.
  unfoldable pub get_segment_string_table : ℕ
  unfolding get_string_table
  get_segment_string_table = if (header m file).e_shstrndx == 0 then 0 else get_string_table

  -- `corrupted` is the address of the literal "<corrupted>".
  unfoldable pub get_section_name : ℕ → ℕ → ℕ
  unfolding get_segment_string_table section
  get_section_name corrupted i =
      if get_segment_string_table == 0
      then corrupted
      else at_offset k get_segment_string_table (section i).sh_name

  unfoldable pub get_section_size : ℕ → ℕ
  unfolding section
  get_section_size i = (section i).sh_size

  unfoldable pub get_section_addr : ℕ → ℕ
  unfolding section
  get_section_addr i = (section i).sh_addr

  unfoldable pub get_section : ℕ → ℕ
  unfolding section
  get_section i = at_offset k file (section i).sh_offset

  unfoldable pub get_section_named : ℕ → ℕ → ℕ → Option ℕ
  unfolding get_num_sections get_section_name get_section
  get_section_named corrupted str f =
      named_loop m (get_section_name corrupted) get_section str f get_num_sections 0

  unfoldable pub get_program_segment_table : ℕ
  get_program_segment_table = at_offset k file (header m file).e_phoff

  unfoldable pub get_num_program_headers : ℕ
  get_num_program_headers = (header m file).e_phnum

  unfoldable pub get_segment_type : ℕ → ℕ
  unfolding get_program_segment_table
  get_segment_type i = (phdr m (get_program_segment_table + i * phdr_size)).p_type

  -- vaddr, paddr, filesz, offset, memsz, in the order of the out parameters.
  unfoldable pub get_segment_info : ℕ → ℕ × ℕ × ℕ × ℕ × ℕ
  unfolding get_program_segment_table
  get_segment_info i =
      let s = phdr m (get_program_segment_table + i * phdr_size) in
      (s.p_vaddr, s.p_paddr, s.p_filesz, s.p_offset, s.p_memsz)

  unfoldable pub get_entry_point : ℕ
  get_entry_point = (header m file).e_entry

  unfoldable pub get_program_header_table : ℕ
  get_program_header_table = at_offset k file (header m file).e_phoff

  -- `elf32_getProgramHeaderTable(file)[ph]`, with `ph` a uint16_t
  unfoldable pub program_header : ℕ → Phdr
  unfolding get_program_header_table
  program_header ph = phdr m (get_program_header_table + ph % 2 ^ 16 * phdr_size)

  unfoldable pub get_program_header_flags : ℕ → ℕ
  unfolding program_header
  get_program_header_flags ph = (program_header ph).p_flags

  unfoldable pub get_program_header_type : ℕ → ℕ
  unfolding program_header
  get_program_header_type ph = (program_header ph).p_type

  unfoldable pub get_program_header_file_size : ℕ → ℕ
  unfolding program_header
  get_program_header_file_size ph = (program_header ph).p_filesz

  unfoldable pub get_program_header_memory_size : ℕ → ℕ
  unfolding program_header
  get_program_header_memory_size ph = (program_header ph).p_memsz

  unfoldable pub get_program_header_vaddr : ℕ → ℕ
  unfolding program_header
  get_program_header_vaddr ph = (program_header ph).p_vaddr

  unfoldable pub get_program_header_paddr : ℕ → ℕ
  unfolding program_header
  get_program_header_paddr ph = (program_header ph).p_paddr

  unfoldable pub get_program_header_offset : ℕ → ℕ
  unfolding program_header
  get_program_header_offset ph = (program_header ph).p_offset
