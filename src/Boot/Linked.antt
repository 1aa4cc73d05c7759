-- ===== src/Boot/Linked.antt =====
-- Where a linked kernel of AArch64 and of RISC-V is found through the tables of the loader
-- (src/arch-arm/64/mmu.c, src/arch-riscv/boot.c).
use se_l4_tools.Common.{
  ℕ, ◌+◌, ◌-◌, ◌*◌, ◌/◌, ◌%◌, ◌^◌, ◌≤◌, ◌<◌, ◌≡◌, refl, arith, ltb, ◌==◌, Bool, true, false,
  Bool-cases, inl, inr, Option, bit_or,
}
use se_l4_tools.Loader.{ImageInfo}
use se_l4_tools.Mmu.Table.{bit_or_aligned}
use se_l4_tools.Mmu.Arm64
use se_l4_tools.Mmu.Arm64.Walk.{ArePlaced}
use se_l4_tools.Mmu.Arm64.BootMap.{zeroed, translate, hyp_translate, boot_map, hyp_boot_map}
use se_l4_tools.Mmu.Arm64.KernelMap.{init_boot_vspace-refines-boot_map}
use se_l4_tools.Mmu.Arm64.HypMap.{init_hyp_boot_vspace-refines-hyp_boot_map}
use se_l4_tools.Mmu.Riscv.{rv64, riscv_pgshift, word_bits}
use se_l4_tools.Boot.{boot_tables, vm_mode}

-- Where the kernel of AArch64 is linked to, as a hypervisor and otherwise.
abbrev pub IsLinked : Bool → ℕ → ℕ → Type 0
IsLinked true virt phys =
    (2 ^ 39 ≤ virt)
    × (virt < 2 ^ 48)
    × (virt % 2 ^ 21 ≡ 0)
    × (phys % 2 ^ 21 ≡ 0)
    × (phys + 2 ^ 30 ≤ 2 ^ 48)
IsLinked false virt phys =
    (2 ^ 64 - 2 ^ 48 ≤ virt) × (virt < 2 ^ 64) × (phys % 2 ^ 21 ≡ 0) × (phys + 2 ^ 30 ≤ 2 ^ 48)

-- What the processor finds for an address with these tables, and what it is to find.
abbrev pub seen : Bool → Arm64.Places → Arm64.Tables → ℕ → Option ℕ
seen true places t vaddr = hyp_translate places t vaddr
seen false places t vaddr = translate places t vaddr

abbrev pub wanted : Bool → ImageInfo → ℕ → Option ℕ
wanted true info vaddr = hyp_boot_map info vaddr
wanted false info vaddr = boot_map info vaddr

pub linked_physical : (hyp : Bool) (virt phys : ℕ) → IsLinked hyp virt phys → phys + 2 ^ 30 ≤ 2 ^ 48
linked_physical true virt phys h = h.4
linked_physical false virt phys h = h.3

pub linked_virtual : (hyp : Bool) (virt phys : ℕ) → IsLinked hyp virt phys → virt < 2 ^ 64
linked_virtual true virt phys h = omega (arith, h.1)
linked_virtual false virt phys h = h.1

hyp_far :
    (places : Arm64.Places) (t : Arm64.Tables) (info : ImageInfo) (vaddr : ℕ)
    → 2 ^ 48 ≤ vaddr
    → info.virt_region_start < 2 ^ 48
    → hyp_translate places t vaddr ≡ hyp_boot_map info vaddr
unfolding hyp_translate hyp_boot_map
hyp_far places t info vaddr far lt =
    let out : ltb vaddr (2 ^ 48) ≡ false = ground arith in
    let up : ltb vaddr (2 ^ 39) ≡ false = ground arith in
    let other : (vaddr / 2 ^ 30 == info.virt_region_start / 2 ^ 30) ≡ false = ground arith in
    rw (out, up, other) refl

pub tables_lem :
    (hyp smp : Bool) (places : Arm64.Places) (info : ImageInfo) (vaddr : ℕ)
    → ArePlaced places
    → IsLinked hyp info.virt_region_start info.phys_region_start
    → vaddr < 2 ^ 64
    → seen hyp places (boot_tables hyp smp places info zeroed) vaddr ≡ wanted hyp info vaddr
unfolding boot_tables
tables_lem true smp places info vaddr placed (low, high, start, aligned, fits) lt =
    elim (Bool-cases (ltb vaddr (2 ^ 48))) [
      | inl near ↦
          init_hyp_boot_vspace-refines-hyp_boot_map smp places info placed vaddr (ground arith) low
            high start aligned fits
      | inr far ↦ hyp_far places _ info vaddr (ground arith) high
    ]
tables_lem false smp places info vaddr placed (high, end, aligned, fits) lt =
    init_boot_vspace-refines-boot_map smp places info placed vaddr lt high end aligned fits

pub satp_lem :
    (l1pt_place : ℕ)
    → l1pt_place % 2 ^ 12 ≡ 0
    → l1pt_place < 2 ^ 56
    → let satp = bit_or (vm_mode 3) (l1pt_place / 2 ^ riscv_pgshift) % 2 ^ word_bits rv64 in
      (satp / 2 ^ 60 ≡ 8) × (satp % 2 ^ 44 * 2 ^ 12 ≡ l1pt_place)
unfolding vm_mode word_bits
satp_lem p aligned lt =
    rw (bit_or_aligned 63 (2 ^ 63) (p / 2 ^ 12) refl (omega arith)) (omega arith, omega arith)
