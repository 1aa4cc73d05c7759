-- ===== src/Mmu/Arm64/KernelMap.antt =====
-- Where the tables of init_boot_vspace send each address (src/arch-arm/64/mmu.c).
use se_l4_tools.Common.{
  ℕ, ◌+◌, ◌-◌, ◌/◌, ◌%◌, ◌^◌, ◌≤◌, ◌<◌, ◌≡◌, arith, ◌==◌, ltb, leb, if◌then◌else◌, none, some, Bool,
  ◌∙◌, Bool-cases, inl, inr,
}
use se_l4_tools.Loader.{ImageInfo}
use se_l4_tools.Mmu.Arm64.{Places, init_boot_vspace, pgd_index, pud_index}
use se_l4_tools.Mmu.Arm64.Walk.{walk, ArePlaced, tables_at, table_entry_lem}
use se_l4_tools.Mmu.Arm64.Window.{
  pgd_index_lem, pud_index_lem, put-same, put-other, at_pud_up, init_boot_vspace-identity,
  init_boot_vspace-window,
}
use se_l4_tools.Mmu.Arm64.BootMap.{zeroed, translate, boot_map, walk-no_pgd, walk-no_pud}

module _ (smp : Bool) (places : Places) (info : ImageInfo) (h : ArePlaced places) where
  lower_half :
      (vaddr : ℕ)
      → vaddr < 2 ^ 48
      → let made = init_boot_vspace smp places info zeroed in
        walk (tables_at places made) made.pgd_down vaddr
        ≡ (if ltb vaddr (2 ^ 39) then some vaddr else none)
  unfolding init_boot_vspace
  lower_half vaddr low =
      let made = init_boot_vspace smp places info zeroed in
      elim (Bool-cases (ltb vaddr (2 ^ 39))) [
        | inl is_low ↦
            rw is_low (init_boot_vspace-identity smp places info zeroed h vaddr (ground arith))
        | inr is_high ↦ rw is_high (
            walk-no_pgd (tables_at places made) made.pgd_down vaddr
              (put-other zeroed.pgd_down 0 _ _ (ground arith)))
      ]

  upper_half :
      (vaddr : ℕ)
      → vaddr / 2 ^ 48 ≡ info.virt_region_start / 2 ^ 48
      → info.phys_region_start % 2 ^ 21 ≡ 0
      → info.phys_region_start + 2 ^ 30 ≤ 2 ^ 48
      → let made = init_boot_vspace smp places info zeroed in
        walk (tables_at places made) made.pgd_up vaddr ≡ (
          if vaddr / 2 ^ 30 == info.virt_region_start / 2 ^ 30
          then some (info.phys_region_start + vaddr % 2 ^ 30)
          else none)
  unfolding init_boot_vspace
  upper_half vaddr half aligned fits =
      let made = init_boot_vspace smp places info zeroed in
      let first = info.virt_region_start in
      let pgd = pgd_index_lem first in
      let pud = pud_index_lem first in
      elim (Bool-cases (vaddr / 2 ^ 30 == first / 2 ^ 30)) [
        | inl same ↦
            rw same
              (init_boot_vspace-window smp places info zeroed h vaddr (ground arith) aligned fits)
        | inr other ↦ rw other (elim (Bool-cases (pgd_index first == vaddr / 2 ^ 39 % 2 ^ 9)) [
          | inl near ↦
              walk-no_pud (tables_at places made) made.pgd_up vaddr places.pud_up h.pud_up.0
                h.pud_up.1
                (put-same zeroed.pgd_up _ _ _ (ground arith)
                  ∙ table_entry_lem places.pud_up h.pud_up.0)
                (rw (at_pud_up places h made)
                  (put-other zeroed.pud_up (pud_index first) _ _ (ground arith)))
          | inr far ↦
              walk-no_pgd (tables_at places made) made.pgd_up vaddr
                (put-other zeroed.pgd_up (pgd_index first) _ _ (ground arith))
        ])
      ]

  -- For tables in pages of their own below 2 ^ 48, zeroed before, and a kernel of which the first virtual
  -- address is in the upper 2 ^ 48 bytes and the first physical one is aligned to 2 MiB, 1 GiB or more
  -- below 2 ^ 48: the tables that init_boot_vspace makes translate every virtual address as boot_map
  -- says, and fault on every other.
  pub init_boot_vspace-refines-boot_map :
      (vaddr : ℕ)
      → vaddr < 2 ^ 64
      → 2 ^ 64 - 2 ^ 48 ≤ info.virt_region_start
      → info.virt_region_start < 2 ^ 64
      → info.phys_region_start % 2 ^ 21 ≡ 0
      → info.phys_region_start + 2 ^ 30 ≤ 2 ^ 48
      → translate places (init_boot_vspace smp places info zeroed) vaddr ≡ boot_map info vaddr
  unfolding translate boot_map
  init_boot_vspace-refines-boot_map vaddr small high end aligned fits =
      elim (Bool-cases (ltb vaddr (2 ^ 48))) [
        | inl low ↦ rw (low, lower_half vaddr (ground arith)) (ground arith)
        | inr not_low ↦ elim (Bool-cases (leb (2 ^ 64 - 2 ^ 48) vaddr)) [
          | inl up ↦ rw (not_low, up, upper_half vaddr (ground arith) aligned fits) (ground arith)
          | inr between ↦ rw (not_low, between) (ground arith)
        ]
      ]
