-- ===== src/Mmu/Arm64/BootMap.antt =====
-- The whole translation of the loader's tables on AArch64 (src/arch-arm/64/mmu.c), for tables that the
-- start-up code left zeroed, as an independent description of which address goes where.
use se_l4_tools.Common.{
  ℕ, ◌+◌, ◌-◌, ◌/◌, ◌%◌, ◌^◌, ◌<◌, ◌≡◌, arith, ◌==◌, ltb, leb, ◌&&◌, if◌then◌else◌, Option, none,
  some,
}
use se_l4_tools.Loader.{ImageInfo}
use se_l4_tools.Mmu.Table.{Table}
use se_l4_tools.Mmu.Arm64.{Tables, Places}
use se_l4_tools.Mmu.Arm64.Walk.{walk, tables_at}
use se_l4_tools.Mmu.Arm64.Window.{next_table_lem}

abbrev pub zeroed : Tables
zeroed = record {
  pgd_up = λ i. 0;
  pud_up = λ i. 0;
  pmd_up = λ i. 0;
  pgd_down = λ i. 0;
  pud_down = λ i. 0;
}

-- The two roots of a kernel at EL1, for 48 bits of address in each half.
unfoldable pub translate : Places → Tables → ℕ → Option ℕ
translate p t vaddr =
    if ltb vaddr (2 ^ 48)
    then walk (tables_at p t) t.pgd_down vaddr
    else if leb (2 ^ 64 - 2 ^ 48) vaddr
    then walk (tables_at p t) t.pgd_up vaddr
    else none

-- The root of a hypervisor.
unfoldable pub hyp_translate : Places → Tables → ℕ → Option ℕ
hyp_translate p t vaddr = if ltb vaddr (2 ^ 48) then walk (tables_at p t) t.pgd_down vaddr else none

-- The lower 512 GiB stay, and the GiB of the kernel goes to its physical start.
unfoldable pub boot_map : ImageInfo → ℕ → Option ℕ
boot_map info vaddr =
    if ltb vaddr (2 ^ 39)
    then some vaddr
    else if vaddr / 2 ^ 30 == info.virt_region_start / 2 ^ 30
    then some (info.phys_region_start + vaddr % 2 ^ 30)
    else none

-- The same, with the window from the kernel's first address to the end of its GiB.
unfoldable pub hyp_boot_map : ImageInfo → ℕ → Option ℕ
hyp_boot_map info vaddr =
    if ltb vaddr (2 ^ 39)
    then some vaddr
    else if vaddr / 2 ^ 30 == info.virt_region_start / 2 ^ 30 && leb info.virt_region_start vaddr
    then some (info.phys_region_start + (vaddr - info.virt_region_start))
    else none

pub walk-no_pgd :
    (read : ℕ → Table) (root : Table) (vaddr : ℕ)
    → root (vaddr / 2 ^ 39 % 2 ^ 9) ≡ 0
    → walk read root vaddr ≡ none
unfolding walk
walk-no_pgd read root vaddr pgd = rw pgd (ground arith)

pub walk-no_pud :
    (read : ℕ → Table) (root : Table) (vaddr p : ℕ)
    → p % 2 ^ 12 ≡ 0
    → p < 2 ^ 48
    → root (vaddr / 2 ^ 39 % 2 ^ 9) ≡ p + 3
    → read p (vaddr / 2 ^ 30 % 2 ^ 9) ≡ 0
    → walk read root vaddr ≡ none
unfolding walk
walk-no_pud read root vaddr p aligned fits pgd pud =
    rw (pgd, next_table_lem p aligned fits, pud) (ground arith)

pub walk-no_pmd :
    (read : ℕ → Table) (root : Table) (vaddr p q : ℕ)
    → p % 2 ^ 12 ≡ 0
    → p < 2 ^ 48
    → q % 2 ^ 12 ≡ 0
    → q < 2 ^ 48
    → root (vaddr / 2 ^ 39 % 2 ^ 9) ≡ p + 3
    → read p (vaddr / 2 ^ 30 % 2 ^ 9) ≡ q + 3
    → read q (vaddr / 2 ^ 21 % 2 ^ 9) ≡ 0
    → walk read root vaddr ≡ none
unfolding walk
walk-no_pmd read root vaddr p q alignedp fitsp alignedq fitsq pgd pud pmd =
    rw (pgd, next_table_lem p alignedp fitsp, pud, next_table_lem q alignedq fitsq, pmd)
      (ground arith)
