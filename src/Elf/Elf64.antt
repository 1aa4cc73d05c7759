-- ===== src/Elf/Elf64.antt =====
-- elf64.c and elf64.h: the accessors of a 64-bit file that stands at `file`. A table's entry is
-- found by pointer arithmetic on the table, whose address is computed in uintptr_t.
pub mod Struct
use se_l4_tools.Common.{
  ℕ, zero, suc, ◌+◌, ◌*◌, ◌%◌, ◌^◌, ◌||◌, ◌==◌, if◌then◌else◌, Option, none, some, ℤ, pos, negsuc,
  bit_or,
}
use mathlib.Core.Bool.{not}
use se_l4_tools.Memory.{Kernel, Memory, load}
use se_l4_tools.Strops.{strcmp}
use se_l4_tools.Elf.Format.{
  ei_class, elfclass64, elfmag0, elfmag1, elfmag2, elfmag3, at_offset, named_loop,
}
use Struct.{header, Shdr, shdr, shdr_size, Phdr, phdr, phdr_size}

-- The two halves of a field that is not 8-byte aligned are read apart.
unfoldable pub read64 : Memory → ℕ → ℕ
read64 m addr =
    if addr % 8 == 0
    then load 8 m addr
    else bit_or (load 4 m (addr + 4) * 2 ^ 32 % 2 ^ 64) (load 4 m addr)

unfoldable pub check_file : Memory → ℕ → ℤ
check_file m file =
    let ident = (header m file).e_ident in
    if not (ident 0 == elfmag0)
      || not (ident 1 == elfmag1)
      || not (ident 2 == elfmag2)
      || not (ident 3 == elfmag3)
    then negsuc 0
    else if not (ident ei_class == elfclass64)
    then negsuc 1
    else pos 0

module _ (k : Kernel) (m : Memory) (file : ℕ) where
  unfoldable pub get_section_table : ℕ
  get_section_table = at_offset k file (header m file).e_shoff

  -- `elf64_getSectionTable(file)[i]`
  unfoldable pub section : ℕ → Shdr
  unfolding get_section_table
  section i = shdr m (get_section_table + i * shdr_size)

  unfoldable pub get_section_type : ℕ → ℕ
  unfolding section
  get_section_type s = (section (s % 2 ^ 16)).sh_type

  unfoldable pub get_section_flags : ℕ → ℕ
  unfolding section
  get_section_flags s = (section (s % 2 ^ 16)).sh_flags % 2 ^ 32

  unfoldable pub get_num_sections : ℕ
  get_num_sections = (header m file).e_shnum

  unfoldable pub get_string_table : ℕ → ℕ
  unfolding section
  get_string_table string_segment = at_offset k file (section string_segment).sh_offset

  -- 0 is NULL.
  unfoldable pub get_segment_string_table : ℕ
  unfolding get_string_table
  get_segment_string_table =
      if (header m file).e_shstrndx == 0 then 0 else get_string_table (header m file).e_shstrndx

  -- `corrupted` is the address of the literal "<corrupted>".
  unfoldable pub get_section_name : ℕ → ℕ → ℕ
  unfolding get_segment_string_table section
  get_section_name corrupted i =
      if get_segment_string_table == 0
      then corrupted
      else at_offset k get_segment_string_table (section i).sh_name

  unfoldable pub get_section_size : ℕ → ℕ
  unfolding section
  get_section_size i = (section i).sh_size

  unfoldable pub get_section_addr : ℕ → ℕ
  unfolding section
  get_section_addr i = (section i).sh_addr

  unfoldable pub get_section : ℕ → ℕ
  unfolding section
  get_section i = at_offset k file (section i).sh_offset

  unfoldable pub get_section_named : ℕ → ℕ → ℕ → Option ℕ
  unfolding get_num_sections get_section_name get_section
  get_section_named corrupted str f =
      named_loop m (get_section_name corrupted) get_section str f get_num_sections 0

  unfoldable pub get_program_segment_table : ℕ
  get_program_segment_table = at_offset k file (header m file).e_phoff

  unfoldable pub get_num_program_headers : ℕ
  get_num_program_headers = (header m file).e_phnum

  unfoldable pub get_segment_type : ℕ → ℕ
  unfolding get_program_segment_table
  get_segment_type i = (phdr m (get_program_segment_table + i * phdr_size)).p_type

  -- vaddr, paddr, filesz, offset, memsz, in the order of the out parameters.
  unfoldable pub get_segment_info : ℕ → ℕ × ℕ × ℕ × ℕ × ℕ
  unfolding get_program_segment_table
  get_segment_info i =
      let s = phdr m (get_program_segment_table + i * phdr_size) in
      (s.p_vaddr, s.p_paddr, s.p_filesz, s.p_offset, s.p_memsz)

  unfoldable pub get_entry_point : ℕ
  get_entry_point = read64 m (file + 24)

  unfoldable pub get_program_header_table : ℕ
  get_program_header_table = at_offset k file (read64 m (file + 32))

  -- `&elf64_getProgramHeaderTable(file)[ph]`, with `ph` a uint16_t
  unfoldable pub program_header_at : ℕ → ℕ
  unfolding get_program_header_table
  program_header_at ph = get_program_header_table + ph % 2 ^ 16 * phdr_size

  unfoldable pub program_header : ℕ → Phdr
  unfolding program_header_at
  program_header ph = phdr m (program_header_at ph)

  unfoldable pub get_program_header_flags : ℕ → ℕ
  unfolding program_header
  get_program_header_flags ph = (program_header ph).p_flags

  unfoldable pub get_program_header_type : ℕ → ℕ
  unfolding program_header
  get_program_header_type ph = (program_header ph).p_type

  unfoldable pub get_program_header_file_size : ℕ → ℕ
  unfolding program_header_at
  get_program_header_file_size ph = read64 m (program_header_at ph + 32)

  unfoldable pub get_program_header_memory_size : ℕ → ℕ
  unfolding program_header_at
  get_program_header_memory_size ph = read64 m (program_header_at ph + 40)

  unfoldable pub get_program_header_vaddr : ℕ → ℕ
  unfolding program_header_at
  get_program_header_vaddr ph = read64 m (program_header_at ph + 16)

  unfoldable pub get_program_header_paddr : ℕ → ℕ
  unfolding program_header_at
  get_program_header_paddr ph = read64 m (program_header_at ph + 24)

  unfoldable pub get_program_header_offset : ℕ → ℕ
  unfolding program_header_at
  get_program_header_offset ph = read64 m (program_header_at ph + 8)
