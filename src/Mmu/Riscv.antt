-- ===== src/Mmu/Riscv.antt =====
-- map_kernel_window of src/arch-riscv/boot.c, for both word sizes and any CONFIG_PT_LEVELS. An `unsigned
-- long` is a number below 2 ^ 32 or 2 ^ 64. The shift of the `int` page counter keeps 32 bits and the
-- sign, as compilers do it; C leaves it open from page 2 on where the step is 1 GiB.
pub mod Sv39
pub mod BootMap
use se_l4_tools.Common.{
  ℕ, zero, suc, ◌+◌, ◌-◌, ◌*◌, ◌/◌, ◌%◌, ◌^◌, ◌==◌, ltb, ◌&&◌, if◌then◌else◌, bit_or, bit_and, Bool,
  true, false, Outcome, done, aborted,
}
use se_l4_tools.Loader.{ImageInfo}
use se_l4_tools.Mmu.Table.{Table, put, fill}

-- __riscv_xlen
pub data Xlen : Type 0 where
  rv32 : Xlen
  rv64 : Xlen

unfoldable pub word_bits : Xlen → ℕ
word_bits rv32 = 32
word_bits rv64 = 64

abbrev pub pt_level_1_bits : ℕ
pt_level_1_bits = 30

abbrev pub pt_level_2_bits : ℕ
pt_level_2_bits = 21

unfoldable pub pte_level_bits : Xlen → ℕ
pte_level_bits rv32 = pt_level_2_bits
pte_level_bits rv64 = pt_level_1_bits

unfoldable pub pt_index_bits : Xlen → ℕ
pt_index_bits rv32 = 10
pt_index_bits rv64 = 9

unfoldable pub ppn_high : Xlen → ℕ
ppn_high rv32 = 20
ppn_high rv64 = 28

abbrev pub pte_type_srwx : ℕ
pte_type_srwx = 0xce

abbrev pub pte_type_table : ℕ
pte_type_table = 0

abbrev pub pte_v : ℕ
pte_v = 1

abbrev pub riscv_pgshift : ℕ
riscv_pgshift = 12

-- PTE_CREATE, with its cast to 32 bits
unfoldable pub pte_create : ℕ → ℕ
pte_create ppn = bit_or (bit_or (ppn % 2 ^ 32) pte_type_srwx) pte_v

-- PTE_CREATE_PPN
unfoldable pub pte_create_ppn : Xlen → ℕ → ℕ
pte_create_ppn xlen base = base / 2 ^ riscv_pgshift * 2 ^ 10 % 2 ^ word_bits xlen

-- PTE_CREATE_NEXT
unfoldable pub pte_create_next : Xlen → ℕ → ℕ
pte_create_next xlen base = bit_or (bit_or (pte_create_ppn xlen base) pte_type_table) pte_v

-- PTE_CREATE_LEAF
unfoldable pub pte_create_leaf : Xlen → ℕ → ℕ
pte_create_leaf xlen base = bit_or (bit_or (pte_create_ppn xlen base) pte_type_srwx) pte_v

-- GET_PT_INDEX
unfoldable pub pt_index : Xlen → ℕ → ℕ → ℕ → ℕ
pt_index xlen pt_levels addr n =
    addr / 2 ^ (pt_index_bits xlen * (pt_levels - n) + riscv_pgshift) % 2 ^ pt_index_bits xlen

-- VIRT_PHYS_ALIGNED
unfoldable pub virt_phys_aligned : ℕ → ℕ → ℕ → Bool
virt_phys_aligned virt phys bits =
    bit_and virt (2 ^ bits - 1) == 0 && bit_and phys (2 ^ bits - 1) == 0

-- `phys + (page << bits)`, with the shift of an `int`
unfoldable pub page_after : Xlen → ℕ → ℕ → ℕ → ℕ
page_after xlen phys page bits =
    let shifted = page * 2 ^ bits % 2 ^ 32 in
    let extended =
      if ltb shifted (2 ^ 31) then shifted else shifted + (2 ^ word_bits xlen - 2 ^ 32) in
    (phys + extended) % 2 ^ word_bits xlen

pub record Tables : Type 0 where
  pub l1pt : Table
  pub l2pt : Table

-- `l2pt_place` is where the linker puts the second table.
unfoldable pub map_kernel_window : Xlen → ℕ → ℕ → ImageInfo → Tables → Outcome Tables
map_kernel_window xlen pt_levels l2pt_place kernel_info t =
    let virt = kernel_info.virt_region_start in
    let phys = kernel_info.phys_region_start in
    let ptes_per_pt = 2 ^ pt_index_bits xlen in
    let one_to_one = fill (λ i. pte_create (i * 2 ^ ppn_high xlen % 2 ^ 64)) ptes_per_pt 0 t.l1pt in
    let l1_index = pt_index xlen pt_levels virt 1 in
    let l2_index = pt_index xlen pt_levels virt 2 in
    if virt_phys_aligned virt phys (pte_level_bits xlen)
    then done (record {
      l1pt =
          fill
            (λ j. pte_create_leaf xlen (page_after xlen phys (j - l1_index) (pte_level_bits xlen)))
            (ptes_per_pt - l1_index) l1_index one_to_one;
      l2pt = t.l2pt;
    })
    else if pt_levels == 3 && virt_phys_aligned virt phys pt_level_2_bits
    then done (record {
      l1pt = put one_to_one l1_index (pte_create_next xlen l2pt_place);
      l2pt =
          fill (λ j. pte_create_leaf xlen (page_after xlen phys (j - l2_index) pt_level_2_bits))
            (ptes_per_pt - l2_index) l2_index t.l2pt;
    })
    else aborted "Kernel not properly aligned\n"
