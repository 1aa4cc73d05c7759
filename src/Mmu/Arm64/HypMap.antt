-- ===== src/Mmu/Arm64/HypMap.antt =====
-- Where the tables of init_hyp_boot_vspace send each address (src/arch-arm/64/mmu.c).
use se_l4_tools.Common.{
  ℕ, ◌+◌, ◌-◌, ◌/◌, ◌%◌, ◌^◌, ◌≤◌, ◌<◌, ◌≡◌, ◌≢◌, arith, ◌==◌, ltb, leb, none, true, Bool, ◌∙◌,
  Bool-cases, inl, inr,
}
use se_l4_tools.Loader.{ImageInfo}
use se_l4_tools.Mmu.Table.{fill_at}
use se_l4_tools.Mmu.Arm64.{Places, init_hyp_boot_vspace, pgd_index, pud_index, pmd_index}
use se_l4_tools.Mmu.Arm64.Walk.{walk, ArePlaced, tables_at, table_entry_lem}
use se_l4_tools.Mmu.Arm64.Window.{
  pgd_index_lem, pud_index_lem, pmd_index_lem, put-same, put-other, at_pud_up, at_pmd_up,
  init_hyp_boot_vspace-identity, init_hyp_boot_vspace-window,
}
use se_l4_tools.Mmu.Arm64.BootMap.{
  zeroed, hyp_translate, hyp_boot_map, walk-no_pgd, walk-no_pud, walk-no_pmd,
}

module _ (smp : Bool) (places : Places) (info : ImageInfo) (h : ArePlaced places) where
  hyp_elsewhere :
      (vaddr : ℕ)
      → 2 ^ 39 ≤ vaddr
      → vaddr < 2 ^ 48
      → 2 ^ 39 ≤ info.virt_region_start
      → info.virt_region_start < 2 ^ 48
      → vaddr / 2 ^ 30 ≢ info.virt_region_start / 2 ^ 30
      → let made = init_hyp_boot_vspace smp places info zeroed in
        walk (tables_at places made) made.pgd_down vaddr ≡ none
  unfolding init_hyp_boot_vspace
  hyp_elsewhere vaddr low end high fits other =
      let made = init_hyp_boot_vspace smp places info zeroed in
      let first = info.virt_region_start in
      let pgd = pgd_index_lem first in
      let pud = pud_index_lem first in
      elim (Bool-cases (pgd_index first == vaddr / 2 ^ 39 % 2 ^ 9)) [
        | inl near ↦
            walk-no_pud (tables_at places made) made.pgd_down vaddr places.pud_up h.pud_up.0
              h.pud_up.1
              (put-same _ _ _ _ (ground arith) ∙ table_entry_lem places.pud_up h.pud_up.0)
              (rw (at_pud_up places h made)
                (put-other zeroed.pud_up (pud_index first) _ _ (ground arith)))
        | inr far ↦ walk-no_pgd (tables_at places made) made.pgd_down vaddr (
            put-other _ (pgd_index first) _ _ (ground arith)
            ∙ put-other zeroed.pgd_down 0 _ _ (ground arith))
      ]

  hyp_before :
      (vaddr : ℕ)
      → info.virt_region_start % 2 ^ 21 ≡ 0
      → vaddr / 2 ^ 30 ≡ info.virt_region_start / 2 ^ 30
      → vaddr < info.virt_region_start
      → let made = init_hyp_boot_vspace smp places info zeroed in
        walk (tables_at places made) made.pgd_down vaddr ≡ none
  unfolding init_hyp_boot_vspace
  hyp_before vaddr start gib before =
      let made = init_hyp_boot_vspace smp places info zeroed in
      let first = info.virt_region_start in
      let pgd = pgd_index_lem first in
      let pud = pud_index_lem first in
      let pmd = pmd_index_lem first in
      walk-no_pmd (tables_at places made) made.pgd_down vaddr places.pud_up places.pmd_up h.pud_up.0
        h.pud_up.1 h.pmd_up.0 h.pmd_up.1
        (put-same _ _ _ _ (ground arith) ∙ table_entry_lem places.pud_up h.pud_up.0)
        (rw (at_pud_up places h made)
          (put-same zeroed.pud_up _ _ _ (ground arith) ∙ table_entry_lem places.pmd_up h.pmd_up.0))
        (rw (at_pmd_up places h made) (
          fill_at _ (2 ^ 9 - pmd_index first) (pmd_index first) zeroed.pmd_up
            (vaddr / 2 ^ 21 % 2 ^ 9)
          ∙ ground arith))

  -- For such tables and a kernel of which the first virtual address is between 2 ^ 39 and 2 ^ 48, both
  -- first addresses aligned to 2 MiB and the physical one 1 GiB or more below 2 ^ 48: the tables
  -- that init_hyp_boot_vspace makes translate every virtual address as hyp_boot_map says, and fault on
  -- every other.
  pub init_hyp_boot_vspace-refines-hyp_boot_map :
      (vaddr : ℕ)
      → vaddr < 2 ^ 48
      → 2 ^ 39 ≤ info.virt_region_start
      → info.virt_region_start < 2 ^ 48
      → info.virt_region_start % 2 ^ 21 ≡ 0
      → info.phys_region_start % 2 ^ 21 ≡ 0
      → info.phys_region_start + 2 ^ 30 ≤ 2 ^ 48
      → hyp_translate places (init_hyp_boot_vspace smp places info zeroed) vaddr
        ≡ hyp_boot_map info vaddr
  unfolding hyp_translate hyp_boot_map
  init_hyp_boot_vspace-refines-hyp_boot_map vaddr small high end start aligned fits =
      let first = info.virt_region_start in
      let pgd = pgd_index_lem first in
      let all_low : ltb vaddr (2 ^ 48) ≡ true = ground arith in
      rw all_low (elim (Bool-cases (ltb vaddr (2 ^ 39))) [
        | inl low ↦ rw low (
            init_hyp_boot_vspace-identity smp places info zeroed h vaddr (ground arith)
              (ground arith))
        | inr up ↦ elim (Bool-cases (vaddr / 2 ^ 30 == first / 2 ^ 30)) [
          | inl near ↦ elim (Bool-cases (leb first vaddr)) [
            | inl above ↦
                rw (up, near, above)
                  (init_hyp_boot_vspace-window smp places info zeroed h vaddr (ground arith)
                    (ground arith) start aligned fits)
            | inr before ↦
                rw (up, near, before) (hyp_before vaddr start (ground arith) (ground arith))
          ]
          | inr far ↦
              rw (up, far) (hyp_elsewhere vaddr (ground arith) small high end (ground arith))
        ]
      ])
