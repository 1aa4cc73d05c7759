-- ===== src/Elf/Generic.antt =====
-- elf.c: each accessor of a file of either class, by the class byte of its header.
use se_l4_tools.Common.{
  ℕ, zero, suc, ◌+◌, ◌-◌, ◌%◌, ◌^◌, Bool, ◌&&◌, leb, ltb, ◌==◌, if◌then◌else◌, Option, none, some,
  ℤ, pos, negsuc,
}
use se_l4_tools.Memory.{Kernel, Memory}
use se_l4_tools.Elf.Format.{is_elf32}
use se_l4_tools.Elf.Elf32
use se_l4_tools.Elf.Elf64

unfoldable pub check_file : Memory → ℕ → ℤ
check_file m file = if is_elf32 m file then Elf32.check_file m file else Elf64.check_file m file

module _ (k : Kernel) (m : Memory) (file : ℕ) where
  unfoldable pub get_num_program_headers : ℕ
  get_num_program_headers =
      if is_elf32 m file
      then Elf32.get_num_program_headers k m file
      else Elf64.get_num_program_headers k m file

  unfoldable pub get_program_header_flags : ℕ → ℕ
  get_program_header_flags i =
      if is_elf32 m file
      then Elf32.get_program_header_flags k m file i
      else Elf64.get_program_header_flags k m file i

  unfoldable pub get_program_header_type : ℕ → ℕ
  get_program_header_type i =
      if is_elf32 m file
      then Elf32.get_program_header_type k m file i
      else Elf64.get_program_header_type k m file i

  unfoldable pub get_program_header_paddr : ℕ → ℕ
  get_program_header_paddr i =
      if is_elf32 m file
      then Elf32.get_program_header_paddr k m file i
      else Elf64.get_program_header_paddr k m file i

  unfoldable pub get_program_header_vaddr : ℕ → ℕ
  get_program_header_vaddr i =
      if is_elf32 m file
      then Elf32.get_program_header_vaddr k m file i
      else Elf64.get_program_header_vaddr k m file i

  unfoldable pub get_program_header_memory_size : ℕ → ℕ
  get_program_header_memory_size i =
      if is_elf32 m file
      then Elf32.get_program_header_memory_size k m file i
      else Elf64.get_program_header_memory_size k m file i

  unfoldable pub get_program_header_file_size : ℕ → ℕ
  get_program_header_file_size i =
      if is_elf32 m file
      then Elf32.get_program_header_file_size k m file i
      else Elf64.get_program_header_file_size k m file i

  unfoldable pub get_program_header_offset : ℕ → ℕ
  get_program_header_offset i =
      if is_elf32 m file
      then Elf32.get_program_header_offset k m file i
      else Elf64.get_program_header_offset k m file i

  unfoldable pub get_segment_string_table : ℕ
  get_segment_string_table =
      if is_elf32 m file
      then Elf32.get_segment_string_table k m file
      else Elf64.get_segment_string_table k m file

  unfoldable pub get_string_table : ℕ → ℕ
  get_string_table string_segment =
      if is_elf32 m file
      then Elf32.get_string_table k m file
      else Elf64.get_string_table k m file string_segment

  unfoldable pub get_num_sections : ℕ
  get_num_sections =
      if is_elf32 m file then Elf32.get_num_sections k m file else Elf64.get_num_sections k m file

  unfoldable pub get_section_name : ℕ → ℕ → ℕ
  get_section_name corrupted i =
      if is_elf32 m file
      then Elf32.get_section_name k m file corrupted i
      else Elf64.get_section_name k m file corrupted i

  unfoldable pub get_section_flags : ℕ → ℕ
  get_section_flags i =
      if is_elf32 m file
      then Elf32.get_section_flags k m file i
      else Elf64.get_section_flags k m file i

  unfoldable pub get_section_type : ℕ → ℕ
  get_section_type i =
      if is_elf32 m file
      then Elf32.get_section_type k m file i
      else Elf64.get_section_type k m file i

  unfoldable pub get_section_size : ℕ → ℕ
  get_section_size i =
      if is_elf32 m file
      then Elf32.get_section_size k m file i
      else Elf64.get_section_size k m file i

  unfoldable pub get_section_addr : ℕ → ℕ
  get_section_addr i =
      if is_elf32 m file
      then Elf32.get_section_addr k m file i
      else Elf64.get_section_addr k m file i

  unfoldable pub get_section : ℕ → ℕ
  get_section i =
      if is_elf32 m file then Elf32.get_section k m file i else Elf64.get_section k m file i

  unfoldable pub get_section_named : ℕ → ℕ → ℕ → Option ℕ
  get_section_named corrupted str f =
      if is_elf32 m file
      then Elf32.get_section_named k m file corrupted str f
      else Elf64.get_section_named k m file corrupted str f

  -- vaddr, paddr, filesz, offset, memsz, in the order of the out parameters.
  unfoldable pub get_program_header_info : ℕ → ℕ × ℕ × ℕ × ℕ × ℕ
  get_program_header_info ph = (
    get_program_header_vaddr ph,
    get_program_header_paddr ph,
    get_program_header_file_size ph,
    get_program_header_offset ph,
    get_program_header_memory_size ph,
  )

  unfoldable pub get_entry_point : ℕ
  get_entry_point =
      if is_elf32 m file then Elf32.get_entry_point k m file else Elf64.get_entry_point k m file

  -- The address that `phys` chooses.
  unfoldable pub header_start : Bool → ℕ → ℕ
  header_start phys i = if phys then get_program_header_paddr i else get_program_header_vaddr i

  -- The body of the loop of elf_getMemoryBounds.
  unfoldable pub widen : Bool → ℕ → ℕ × ℕ → ℕ × ℕ
  widen phys i (mem_min, mem_max) =
      let size = get_program_header_memory_size i in
      let sect_min = header_start phys i in
      let sect_max = (sect_min + size) % 2 ^ 64 in
      if size == 0 then (mem_min, mem_max) else (
        if ltb sect_min mem_min then sect_min else mem_min,
        if ltb mem_max sect_max then sect_max else mem_max,
      )

  -- The round at `i`, with `phnum - i` rounds left.
  unfoldable pub bounds_loop : Bool → ℕ → ℕ → ℕ × ℕ → ℕ × ℕ
  unfolding widen
  bounds_loop phys zero i bounds = bounds
  bounds_loop phys (suc left) i bounds = bounds_loop phys left (i + 1) (widen phys i bounds)

  -- `none` is the return of 0, on which the out parameters are not written.
  unfoldable pub get_memory_bounds : Bool → Option (ℕ × ℕ)
  get_memory_bounds phys = elim (check_file m file) [
    | pos r ↦
        if r == 0 then some (bounds_loop phys get_num_program_headers 0 (2 ^ 64 - 1, 0)) else none
    | negsuc r ↦ none
  ]

  unfoldable pub vaddr_in_program_header : ℕ → ℕ → Bool
  vaddr_in_program_header ph vaddr =
      let min = get_program_header_vaddr ph in
      let max = (min + get_program_header_memory_size ph) % 2 ^ 64 in leb min vaddr && ltb vaddr max

  unfoldable pub vtop_program_header : ℕ → ℕ → ℕ
  vtop_program_header ph vaddr =
      ((vaddr + 2 ^ 64 - get_program_header_vaddr ph) % 2 ^ 64 + get_program_header_paddr ph)
      % 2 ^ 64
