-- ===== src/Elf/Frame.antt =====
-- What the accessors of elf.c read of a file's program headers: the file header and the entries of the
-- table, and nothing else.
pub mod Headers
use se_l4_tools.Common.{
  ℕ, ◌+◌, ◌*◌, ◌%◌, ◌^◌, ◌≤◌, ◌<◌, ◌≡◌, arith, if◌then◌else◌, true, false, Bool, true, false,
  Bool-cases, inl, inr, ◌∙◌,
}
use se_l4_tools.Memory.{Kernel, Memory, IsBytes, load, load_ext, load-lt}
use se_l4_tools.Elf.Format.{is_elf32, ei_class}
use se_l4_tools.Elf.Elf32
use se_l4_tools.Elf.Elf64
use se_l4_tools.Elf.Generic

-- Two memories have the same `n` bytes from `base`.
abbrev pub Agree : Memory → Memory → ℕ → ℕ → Type 0
Agree m m' base n = (q : ℕ) → base ≤ q → q < base + n → m q ≡ m' q

pub load-Agree :
    (n : ℕ) (m m' : Memory) (base size p : ℕ)
    → Agree m m' base size
    → base ≤ p
    → p + n ≤ base + size
    → load n m p ≡ load n m' p
load-Agree n m m' base size p h low high =
    load_ext n m m' p (λ q a b. h q (omega arith) (omega arith))

pub read64-Agree :
    (m m' : Memory) (base size p : ℕ)
    → Agree m m' base size
    → base ≤ p
    → p + 8 ≤ base + size
    → Elf64.read64 m p ≡ Elf64.read64 m' p
unfolding Elf64.read64
read64-Agree m m' base size p h low high = rw (
  load-Agree 8 m m' base size p h low (omega arith),
  load-Agree 4 m m' base size p h low (omega arith),
  load-Agree 4 m m' base size (p + 4) h (omega arith) (omega arith),
)

-- The size of the file header, and of an entry of the table, by class.
abbrev pub header_size : ℕ
header_size = 64

unfoldable pub entry_size : Memory → ℕ → ℕ
entry_size m elf = if is_elf32 m elf then 32 else 56

-- Where the table stands.
unfoldable pub table_at : Kernel → Memory → ℕ → ℕ
table_at k m elf =
    if is_elf32 m elf
    then Elf32.get_program_header_table k m elf
    else Elf64.get_program_header_table k m elf

module _ (k : Kernel) (m m' : Memory) (elf : ℕ) (h : Agree m m' elf header_size) where
  pub is_elf32-Agree : is_elf32 m elf ≡ is_elf32 m' elf
  unfolding is_elf32
  is_elf32-Agree = rw (h (elf + ei_class) (omega arith) (omega arith))

  pub num-Agree : Generic.get_num_program_headers k m elf ≡ Generic.get_num_program_headers k m' elf
  unfolding Generic.get_num_program_headers Elf32.get_num_program_headers
      Elf64.get_num_program_headers
  num-Agree = rw (
    is_elf32-Agree,
    load-Agree 2 m m' elf header_size (elf + 44) h (omega arith) (omega arith),
    load-Agree 2 m m' elf header_size (elf + 56) h (omega arith) (omega arith),
  )

  pub entry_point-Agree : Generic.get_entry_point k m elf ≡ Generic.get_entry_point k m' elf
  unfolding Generic.get_entry_point Elf32.get_entry_point Elf64.get_entry_point
  entry_point-Agree = rw (
    is_elf32-Agree,
    load-Agree 4 m m' elf header_size (elf + 24) h (omega arith) (omega arith),
    read64-Agree m m' elf header_size (elf + 24) h (omega arith) (omega arith),
  )

  pub table_at-Agree : table_at k m elf ≡ table_at k m' elf
  unfolding table_at Elf32.get_program_header_table Elf64.get_program_header_table
  table_at-Agree = rw (
    is_elf32-Agree,
    load-Agree 4 m m' elf header_size (elf + 28) h (omega arith) (omega arith),
    read64-Agree m m' elf header_size (elf + 32) h (omega arith) (omega arith),
  )

-- e_phnum is a uint16_t.
pub num-lt :
    (k : Kernel) (m : Memory) (elf : ℕ)
    → IsBytes m
    → Generic.get_num_program_headers k m elf < 2 ^ 16
unfolding Generic.get_num_program_headers Elf32.get_num_program_headers
    Elf64.get_num_program_headers
num-lt k m elf h = ground (arith, load-lt 2 m (elf + 44) h, load-lt 2 m (elf + 56) h)
