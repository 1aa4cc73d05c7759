-- ===== src/Elf/Frame/Headers.antt =====
-- The fields of the program headers that the loader reads, in two memories that agree on the table.
use se_l4_tools.Common.{
  ℕ, ◌+◌, ◌*◌, ◌%◌, ◌^◌, ◌≤◌, ◌<◌, ◌≡◌, arith, true, false, Bool, true, false, Bool-cases, inl, inr,
  ◌∙◌,
}
use se_l4_tools.Memory.{Kernel, Memory, load}
use se_l4_tools.Elf.Format.{is_elf32}
use se_l4_tools.Elf.Elf32
use se_l4_tools.Elf.Elf64
use se_l4_tools.Elf.Generic
use se_l4_tools.Elf.Frame.{
  Agree, header_size, entry_size, table_at, is_elf32-Agree, num-Agree, load-Agree, read64-Agree,
}

-- The headers before `n` are the same in both memories.
pub record HeadersAgree (k : Kernel) (m m' : Memory) (elf n : ℕ) : Type 0 where
  pub count : Generic.get_num_program_headers k m elf ≡ Generic.get_num_program_headers k m' elf
  pub type :
      (i : ℕ)
      → i < n
      → Generic.get_program_header_type k m elf i ≡ Generic.get_program_header_type k m' elf i
  pub vaddr :
      (i : ℕ)
      → i < n
      → Generic.get_program_header_vaddr k m elf i ≡ Generic.get_program_header_vaddr k m' elf i
  pub file_size :
      (i : ℕ)
      → i < n
      → Generic.get_program_header_file_size k m elf i
        ≡ Generic.get_program_header_file_size k m' elf i
  pub offset :
      (i : ℕ)
      → i < n
      → Generic.get_program_header_offset k m elf i ≡ Generic.get_program_header_offset k m' elf i
  pub memory_size :
      (i : ℕ)
      → i < n
      → Generic.get_program_header_memory_size k m elf i
        ≡ Generic.get_program_header_memory_size k m' elf i
  pub start :
      (phys : Bool) (i : ℕ)
      → i < n
      → Generic.header_start k m elf phys i ≡ Generic.header_start k m' elf phys i

module _ (k : Kernel) (m m' : Memory) (elf n : ℕ) (few : n ≤ 2 ^ 16)
    (h : Agree m m' elf header_size)
    (h' : Agree m m' (table_at k m elf) (n * entry_size m elf)) where
  class_32 : is_elf32 m elf ≡ true → Agree m m' (Elf32.get_program_header_table k m elf) (n * 32)
  unfolding table_at entry_size
  class_32 c = rw c at h'

  class_64 : is_elf32 m elf ≡ false → Agree m m' (Elf64.get_program_header_table k m elf) (n * 56)
  unfolding table_at entry_size
  class_64 c = rw c at h'

  table_32 : Elf32.get_program_header_table k m elf ≡ Elf32.get_program_header_table k m' elf
  unfolding Elf32.get_program_header_table
  table_32 = rw (load-Agree 4 m m' elf header_size (elf + 28) h (omega arith) (omega arith))

  table_64 : Elf64.get_program_header_table k m elf ≡ Elf64.get_program_header_table k m' elf
  unfolding Elf64.get_program_header_table
  table_64 = rw (read64-Agree m m' elf header_size (elf + 32) h (omega arith) (omega arith))

  field_32 :
      (i o : ℕ)
      → i < n
      → o + 4 ≤ 32
      → is_elf32 m elf ≡ true
      → load 4 m (Elf32.get_program_header_table k m elf + i % 2 ^ 16 * 32 + o)
        ≡ load 4 m' (Elf32.get_program_header_table k m' elf + i % 2 ^ 16 * 32 + o)
  field_32 i o lt fits c =
      let p = Elf32.get_program_header_table k m elf + i % 2 ^ 16 * 32 + o in
      load-Agree 4 m m' (Elf32.get_program_header_table k m elf) (n * 32) p (class_32 c)
        (omega arith) (omega arith)
      ∙ rw table_32

  field_64 :
      (i o : ℕ)
      → i < n
      → o + 8 ≤ 56
      → is_elf32 m elf ≡ false
      → Elf64.read64 m (Elf64.program_header_at k m elf i + o)
        ≡ Elf64.read64 m' (Elf64.program_header_at k m' elf i + o)
  unfolding Elf64.program_header_at
  field_64 i o lt fits c =
      let p = Elf64.get_program_header_table k m elf + i % 2 ^ 16 * 56 + o in
      read64-Agree m m' (Elf64.get_program_header_table k m elf) (n * 56) p (class_64 c)
        (omega arith) (omega arith)
      ∙ rw table_64

  word_64 :
      (i : ℕ)
      → i < n
      → is_elf32 m elf ≡ false
      → load 4 m (Elf64.program_header_at k m elf i + 0)
        ≡ load 4 m' (Elf64.program_header_at k m' elf i + 0)
  unfolding Elf64.program_header_at
  word_64 i lt c =
      let p = Elf64.get_program_header_table k m elf + i % 2 ^ 16 * 56 + 0 in
      load-Agree 4 m m' (Elf64.get_program_header_table k m elf) (n * 56) p (class_64 c)
        (omega arith) (omega arith)
      ∙ rw table_64

  type-Agree :
      (i : ℕ)
      → i < n
      → Generic.get_program_header_type k m elf i ≡ Generic.get_program_header_type k m' elf i
  unfolding Generic.get_program_header_type Elf32.get_program_header_type
      Elf64.get_program_header_type
  type-Agree i lt = elim (Bool-cases (is_elf32 m elf)) [
    | inl c ↦ rw (← is_elf32-Agree k m m' elf h, c) (field_32 i 0 lt (omega arith) c)
    | inr c ↦ rw (← is_elf32-Agree k m m' elf h, c) (word_64 i lt c)
  ]

  vaddr-Agree :
      (i : ℕ)
      → i < n
      → Generic.get_program_header_vaddr k m elf i ≡ Generic.get_program_header_vaddr k m' elf i
  unfolding Generic.get_program_header_vaddr Elf32.get_program_header_vaddr
      Elf64.get_program_header_vaddr
  vaddr-Agree i lt = elim (Bool-cases (is_elf32 m elf)) [
    | inl c ↦ rw (← is_elf32-Agree k m m' elf h, c) (field_32 i 8 lt (omega arith) c)
    | inr c ↦ rw (← is_elf32-Agree k m m' elf h, c) (field_64 i 16 lt (omega arith) c)
  ]

  file_size-Agree :
      (i : ℕ)
      → i < n
      → Generic.get_program_header_file_size k m elf i
        ≡ Generic.get_program_header_file_size k m' elf i
  unfolding Generic.get_program_header_file_size Elf32.get_program_header_file_size
      Elf64.get_program_header_file_size
  file_size-Agree i lt = elim (Bool-cases (is_elf32 m elf)) [
    | inl c ↦ rw (← is_elf32-Agree k m m' elf h, c) (field_32 i 16 lt (omega arith) c)
    | inr c ↦ rw (← is_elf32-Agree k m m' elf h, c) (field_64 i 32 lt (omega arith) c)
  ]

  offset-Agree :
      (i : ℕ)
      → i < n
      → Generic.get_program_header_offset k m elf i ≡ Generic.get_program_header_offset k m' elf i
  unfolding Generic.get_program_header_offset Elf32.get_program_header_offset
      Elf64.get_program_header_offset
  offset-Agree i lt = elim (Bool-cases (is_elf32 m elf)) [
    | inl c ↦ rw (← is_elf32-Agree k m m' elf h, c) (field_32 i 4 lt (omega arith) c)
    | inr c ↦ rw (← is_elf32-Agree k m m' elf h, c) (field_64 i 8 lt (omega arith) c)
  ]

  paddr-Agree :
      (i : ℕ)
      → i < n
      → Generic.get_program_header_paddr k m elf i ≡ Generic.get_program_header_paddr k m' elf i
  unfolding Generic.get_program_header_paddr Elf32.get_program_header_paddr
      Elf64.get_program_header_paddr
  paddr-Agree i lt = elim (Bool-cases (is_elf32 m elf)) [
    | inl c ↦ rw (← is_elf32-Agree k m m' elf h, c) (field_32 i 12 lt (omega arith) c)
    | inr c ↦ rw (← is_elf32-Agree k m m' elf h, c) (field_64 i 24 lt (omega arith) c)
  ]

  memory_size-Agree :
      (i : ℕ)
      → i < n
      → Generic.get_program_header_memory_size k m elf i
        ≡ Generic.get_program_header_memory_size k m' elf i
  unfolding Generic.get_program_header_memory_size Elf32.get_program_header_memory_size
      Elf64.get_program_header_memory_size
  memory_size-Agree i lt = elim (Bool-cases (is_elf32 m elf)) [
    | inl c ↦ rw (← is_elf32-Agree k m m' elf h, c) (field_32 i 20 lt (omega arith) c)
    | inr c ↦ rw (← is_elf32-Agree k m m' elf h, c) (field_64 i 40 lt (omega arith) c)
  ]

  start-Agree :
      (phys : Bool) (i : ℕ)
      → i < n
      → Generic.header_start k m elf phys i ≡ Generic.header_start k m' elf phys i
  unfolding Generic.header_start
  start-Agree true i lt = paddr-Agree i lt
  start-Agree false i lt = vaddr-Agree i lt

  -- Memories with the same file header and the same table have the same program headers.
  pub area-HeadersAgree : HeadersAgree k m m' elf n
  area-HeadersAgree = record {
    count = num-Agree k m m' elf h;
    type = type-Agree;
    vaddr = vaddr-Agree;
    file_size = file_size-Agree;
    offset = offset-Agree;
    memory_size = memory_size-Agree;
    start = start-Agree;
  }
