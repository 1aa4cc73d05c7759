-- ===== src/Mmu/Arm64.antt =====
-- src/arch-arm/64/mmu.c and include/arch-arm/64/mode/structures.h. A word_t is a number below 2 ^ 64,
-- and the shifts and sums of entries are taken there.
pub mod Walk
pub mod Window
pub mod BootMap
pub mod KernelMap
pub mod HypMap
use se_l4_tools.Common.{
  ℕ, zero, suc, ◌+◌, ◌-◌, ◌*◌, ◌/◌, ◌%◌, ◌^◌, Bool, true, false, if◌then◌else◌, bit_or, bit_and,
}
use se_l4_tools.Loader.{ImageInfo}
use se_l4_tools.Mmu.Table.{Table, put, fill}

abbrev pub block_1gb_bits : ℕ
block_1gb_bits = 30

abbrev pub block_2mb_bits : ℕ
block_2mb_bits = 21

-- PGD_BITS, PUD_BITS and PMD_BITS
abbrev pub level_bits : ℕ
level_bits = 9

-- GET_PGD_INDEX, GET_PUD_INDEX and GET_PMD_INDEX
unfoldable pub pgd_index : ℕ → ℕ
pgd_index x = bit_and (x / 2 ^ (block_2mb_bits + level_bits + level_bits)) (2 ^ level_bits - 1)

unfoldable pub pud_index : ℕ → ℕ
pud_index x = bit_and (x / 2 ^ (block_2mb_bits + level_bits)) (2 ^ level_bits - 1)

unfoldable pub pmd_index : ℕ → ℕ
pmd_index x = bit_and (x / 2 ^ block_2mb_bits) (2 ^ level_bits - 1)

-- The tables of structures.c.
pub record Tables : Type 0 where
  pub pgd_up : Table
  pub pud_up : Table
  pub pmd_up : Table
  pub pgd_down : Table
  pub pud_down : Table

-- Where the linker puts the tables that others point to.
pub record Places : Type 0 where
  pub pud_up : ℕ
  pub pmd_up : ℕ
  pub pud_down : ℕ

-- `((uintptr_t)table) | BIT(1) | BIT(0)`
unfoldable pub table_entry : ℕ → ℕ
table_entry place = bit_or (bit_or place (2 ^ 1)) (2 ^ 0)

-- The entry of the identity map.
unfoldable pub block_1gb_entry : ℕ → ℕ
block_1gb_entry i =
    bit_or (bit_or (bit_or (i * 2 ^ block_1gb_bits % 2 ^ 64) (2 ^ 10)) (0 * 2 ^ 2)) (2 ^ 0)

-- The entry of the kernel window, `offset` blocks behind `first_paddr`; `smp` is
-- CONFIG_MAX_NUM_NODES > 1.
unfoldable pub block_2mb_entry : Bool → ℕ → ℕ → ℕ
block_2mb_entry smp first_paddr offset =
    let block = (offset * 2 ^ block_2mb_bits % 2 ^ 64 + first_paddr) % 2 ^ 64 in
    let flagged = bit_or block (2 ^ 10) in
    let shared = if smp then bit_or flagged (3 * 2 ^ 8) else flagged in
    bit_or (bit_or shared (4 * 2 ^ 2)) (2 ^ 0)

module _ (smp : Bool) (places : Places) where
  unfoldable pub init_boot_vspace : ImageInfo → Tables → Tables
  init_boot_vspace kernel_info t =
      let first_vaddr = kernel_info.virt_region_start in
      let first_paddr = kernel_info.phys_region_start in
      record {
        pgd_down = put t.pgd_down 0 (table_entry places.pud_down);
        pud_down = fill block_1gb_entry (2 ^ level_bits) 0 t.pud_down;
        pgd_up = put t.pgd_up (pgd_index first_vaddr) (table_entry places.pud_up);
        pud_up = put t.pud_up (pud_index first_vaddr) (table_entry places.pmd_up);
        pmd_up = fill (block_2mb_entry smp first_paddr) (2 ^ level_bits) 0 t.pmd_up;
      }

  unfoldable pub init_hyp_boot_vspace : ImageInfo → Tables → Tables
  init_hyp_boot_vspace kernel_info t =
      let first_vaddr = kernel_info.virt_region_start in
      let first_paddr = kernel_info.phys_region_start in
      let start = pmd_index first_vaddr in
      record {
        pgd_down =
            put (put t.pgd_down 0 (table_entry places.pud_down)) (pgd_index first_vaddr)
              (table_entry places.pud_up);
        pud_down = fill block_1gb_entry (2 ^ level_bits) 0 t.pud_down;
        pgd_up = t.pgd_up;
        pud_up = put t.pud_up (pud_index first_vaddr) (table_entry places.pmd_up);
        pmd_up =
            fill (λ i. block_2mb_entry smp first_paddr (i - start)) (2 ^ level_bits - start) start
              t.pmd_up;
      }
