-- ===== src/Mmu/Arm32.antt =====
-- src/arch-arm/32/mmu.c and include/arch-arm/32/mode/structures.h. An address and a counter are numbers
-- below 2 ^ 32, where the shifts, the sums and `-first_vaddr` wrap. A table is as long as the code
-- makes it: what it writes behind the end is an entry here too.
pub mod Sections
pub mod Lpae
use se_l4_tools.Common.{ℕ, zero, suc, ◌+◌, ◌-◌, ◌*◌, ◌/◌, ◌%◌, ◌^◌, bit_or, bit_and}
use se_l4_tools.Loader.{ImageInfo, page_bits}
use se_l4_tools.Mmu.Table.{Table, put, fill}

abbrev pub section_bits : ℕ
section_bits = 20

abbrev pub block_2mb_bits : ℕ
block_2mb_bits = 21

abbrev pub arm_vector_table : ℕ
arm_vector_table = 0xffff0000

-- GET_PT_INDEX, for PT_BITS of 8
unfoldable pub pt_index : ℕ → ℕ
pt_index x = bit_and (x / 2 ^ page_bits) (2 ^ 8 - 1)

-- `-first_vaddr`
unfoldable pub negated : ℕ → ℕ
negated x = (2 ^ 32 - x) % 2 ^ 32

-- The tables of structures.c.
pub record Tables : Type 0 where
  pub boot_pd : Table
  pub boot_pt : Table
  pub lpae_boot_pgd : Table
  pub lpae_boot_pmd : Table

-- Where the linker puts the tables that others point to, and the code of the vectors.
pub record Places : Type 0 where
  pub boot_pt : ℕ
  pub vectors : ℕ
  pub lpae_boot_pmd : ℕ

unfoldable pub section_entry : ℕ → ℕ
section_entry block = bit_or (bit_or block (2 ^ 10)) (2 ^ 1)

unfoldable pub page_table_entry : ℕ → ℕ
page_table_entry place = bit_or (bit_or place (2 ^ 9)) (2 ^ 0)

unfoldable pub page_entry : ℕ → ℕ
page_entry place = bit_or (bit_or place (2 ^ 4)) (2 ^ 1)

-- The page directory: the identity below `first_vaddr`, the window except its last MiB, and the
-- page table for that.
unfoldable pub init_boot_vspace : Places → ImageInfo → Tables → Tables
init_boot_vspace places kernel_info t =
    let first_vaddr = kernel_info.virt_region_start in
    let first_paddr = kernel_info.phys_region_start in
    let first = first_vaddr / 2 ^ section_bits in
    let rounds = (negated first_vaddr / 2 ^ section_bits + (2 ^ 32 - 1)) % 2 ^ 32 in
    let below = fill (λ i. section_entry (i * 2 ^ section_bits % 2 ^ 32)) first 0 t.boot_pd in
    let window =
      fill (λ j. section_entry (((j - first) * 2 ^ section_bits + first_paddr) % 2 ^ 32)) rounds
        first below in
    record {
      boot_pd = put window (rounds + first) (page_table_entry places.boot_pt);
      boot_pt = put t.boot_pt (pt_index arm_vector_table) (page_entry places.vectors);
      lpae_boot_pgd = t.lpae_boot_pgd;
      lpae_boot_pmd = t.lpae_boot_pmd;
    }

unfoldable pub lpae_table_entry : ℕ → ℕ
lpae_table_entry place = bit_or (bit_or place (2 ^ 1)) (2 ^ 0)

unfoldable pub lpae_block_entry : ℕ → ℕ
lpae_block_entry block = bit_or (bit_or block (2 ^ 10)) (2 ^ 0)

-- The tables of LPAE: four concatenated tables of 2 MiB blocks.
unfoldable pub init_hyp_boot_vspace : Places → ImageInfo → Tables → Tables
init_hyp_boot_vspace places kernel_info t =
    let first_vaddr = kernel_info.virt_region_start in
    let first_paddr = kernel_info.phys_region_start in
    let first = first_vaddr / 2 ^ block_2mb_bits in
    let rounds = negated first_vaddr / 2 ^ block_2mb_bits in
    let below =
      fill (λ i. lpae_block_entry (i * 2 ^ block_2mb_bits % 2 ^ 32)) first 0 t.lpae_boot_pmd in
    record {
      boot_pd = t.boot_pd;
      boot_pt = t.boot_pt;
      lpae_boot_pgd =
          fill (λ i. lpae_table_entry ((places.lpae_boot_pmd + i * 2 ^ page_bits) % 2 ^ 32)) 4 0
            t.lpae_boot_pgd;
      lpae_boot_pmd =
          fill (λ j. lpae_block_entry (((j - first) * 2 ^ block_2mb_bits + first_paddr) % 2 ^ 32))
            rounds first below;
    }
