-- ===== src/Mmu/Arm32/Lpae.antt =====
-- The long descriptors of init_hyp_boot_vspace in src/arch-arm/32/mmu.c, as the architecture reads them.
use se_l4_tools.Common.{
  ℕ, ◌+◌, ◌-◌, ◌*◌, ◌/◌, ◌%◌, ◌^◌, ◌≤◌, ◌<◌, ◌≡◌, arith, ◌==◌, ltb, leb, ◌&&◌, if◌then◌else◌,
  Option, none, some, Bool-cases, inl, inr, ◌∙◌, ap,
}
use se_l4_tools.Loader.{ImageInfo}
use se_l4_tools.Mmu.Table.{fill, fill_at, bit_or_aligned}
use se_l4_tools.Mmu.Arm32.{
  Tables, Places, lpae_table_entry, lpae_block_entry, init_hyp_boot_vspace, negated,
}

-- The entries of 8 bytes of lpae_boot_pmd in memory; an address outside it reads as an invalid entry.
abbrev pub entry_at : Places → Tables → ℕ → ℕ
entry_at p t addr =
    if leb p.lpae_boot_pmd addr && ltb addr (p.lpae_boot_pmd + 4 * 2 ^ 12)
    then t.lpae_boot_pmd ((addr - p.lpae_boot_pmd) / 8)
    else 0

-- The lowest bits of an entry are 3 for a table, of which bits 12 to 39 are the address, and 1 for a
-- block of 2 MiB.
unfoldable pub translate : Places → Tables → ℕ → Option ℕ
translate p t vaddr =
    let pgd = t.lpae_boot_pgd (vaddr / 2 ^ 30) in
    let pmd = entry_at p t (pgd / 2 ^ 12 % 2 ^ 28 * 2 ^ 12 + vaddr / 2 ^ 21 % 2 ^ 9 * 8) in
    if pgd % 4 == 3 && pmd % 4 == 1
    then some (pmd / 2 ^ 21 % 2 ^ 19 * 2 ^ 21 + vaddr % 2 ^ 21)
    else none

-- The identity below the kernel's first address, and its window from there.
unfoldable pub boot_map : ImageInfo → ℕ → Option ℕ
boot_map info vaddr =
    if ltb vaddr info.virt_region_start
    then some vaddr
    else some (info.phys_region_start + (vaddr - info.virt_region_start))

lpae_table_entry_lem : (a : ℕ) → a % 2 ^ 12 ≡ 0 → lpae_table_entry a ≡ a + 3
unfolding lpae_table_entry
lpae_table_entry_lem a h =
    rw (bit_or_aligned 12 a 2 h (omega arith))
      (bit_or_aligned 1 (a + 2) 1 (omega arith) (omega arith) ∙ omega arith)

lpae_block_entry_lem : (a : ℕ) → a % 2 ^ 21 ≡ 0 → lpae_block_entry a ≡ a + 1025
unfolding lpae_block_entry
lpae_block_entry_lem a h =
    rw (bit_or_aligned 21 a 1024 h (omega arith))
      (bit_or_aligned 10 (a + 1024) 1 (omega arith) (omega arith) ∙ omega arith)

module _ (p : Places) (info : ImageInfo) (t : Tables) where
  pgd_at :
      (j : ℕ)
      → j < 4
      → p.lpae_boot_pmd % 2 ^ 12 ≡ 0
      → p.lpae_boot_pmd + 4 * 2 ^ 12 ≤ 2 ^ 32
      → (init_hyp_boot_vspace p info t).lpae_boot_pgd j ≡ p.lpae_boot_pmd + j * 2 ^ 12 + 3
  unfolding init_hyp_boot_vspace
  pgd_at j lt aligned fits =
      fill_at (λ i. lpae_table_entry ((p.lpae_boot_pmd + i * 2 ^ 12) % 2 ^ 32)) 4 0 t.lpae_boot_pgd
        j
      ∙ ground (arith, lpae_table_entry_lem ((p.lpae_boot_pmd + j * 2 ^ 12) % 2 ^ 32) (omega arith))

  pmd_at :
      (j : ℕ)
      → j < 2048
      → info.virt_region_start % 2 ^ 21 ≡ 0
      → 0 < info.virt_region_start
      → info.virt_region_start < 2 ^ 32
      → let first = info.virt_region_start / 2 ^ 21 in
        (init_hyp_boot_vspace p info t).lpae_boot_pmd j ≡ (
          if ltb j first
          then lpae_block_entry (j * 2 ^ 21 % 2 ^ 32)
          else lpae_block_entry (((j - first) * 2 ^ 21 + info.phys_region_start) % 2 ^ 32))
  unfolding init_hyp_boot_vspace negated
  pmd_at j lt aligned positive small =
      let first = info.virt_region_start / 2 ^ 21 in
      let below = λ (i : ℕ). lpae_block_entry (i * 2 ^ 21 % 2 ^ 32) in
      let window =
        λ (i : ℕ). lpae_block_entry (((i - first) * 2 ^ 21 + info.phys_region_start) % 2 ^ 32) in
      ground (
        arith,
        fill_at window ((2 ^ 32 - info.virt_region_start) % 2 ^ 32 / 2 ^ 21) first
            (fill below first 0 t.lpae_boot_pmd) j,
        fill_at below first 0 t.lpae_boot_pmd j,
      )

translate-block :
    (p : Places) (t : Tables) (vaddr a : ℕ)
    → vaddr < 2 ^ 32
    → p.lpae_boot_pmd % 2 ^ 12 ≡ 0
    → p.lpae_boot_pmd + 4 * 2 ^ 12 ≤ 2 ^ 32
    → t.lpae_boot_pgd (vaddr / 2 ^ 30) ≡ p.lpae_boot_pmd + vaddr / 2 ^ 30 * 2 ^ 12 + 3
    → t.lpae_boot_pmd (vaddr / 2 ^ 21) ≡ lpae_block_entry a
    → a % 2 ^ 21 ≡ 0
    → a < 2 ^ 32
    → translate p t vaddr ≡ some (a + vaddr % 2 ^ 21)
unfolding translate
translate-block p t vaddr a small placed fits pgd pmd aligned lt =
    let table : (p.lpae_boot_pmd + vaddr / 2 ^ 30 * 2 ^ 12 + 3) / 2 ^ 12 % 2 ^ 28 * 2 ^ 12
        ≡ p.lpae_boot_pmd + vaddr / 2 ^ 30 * 2 ^ 12 =
      omega arith in
    let entry : (p.lpae_boot_pmd
            + vaddr / 2 ^ 30 * 2 ^ 12
            + vaddr / 2 ^ 21 % 2 ^ 9 * 8
            - p.lpae_boot_pmd)
          / 8
        ≡ vaddr / 2 ^ 21 =
      omega arith in
    rw (pgd, table, entry, pmd, lpae_block_entry_lem a aligned) (ground arith)

-- For a kernel of which the first addresses are aligned to 2 MiB, the virtual one not 0 and the physical
-- range of its window below 2 ^ 32, and concatenated tables in pages below 2 ^ 32: the LPAE
-- tables that init_hyp_boot_vspace makes translate every address below 2 ^ 32 as boot_map says.
pub arm32_hyp_boot_vspace-refines-boot_map :
    (p : Places) (info : ImageInfo) (t : Tables) (vaddr : ℕ)
    → vaddr < 2 ^ 32
    → info.virt_region_start % 2 ^ 21 ≡ 0
    → 0 < info.virt_region_start
    → info.virt_region_start < 2 ^ 32
    → info.phys_region_start % 2 ^ 21 ≡ 0
    → info.phys_region_start + (2 ^ 32 - info.virt_region_start) ≤ 2 ^ 32
    → p.lpae_boot_pmd % 2 ^ 12 ≡ 0
    → p.lpae_boot_pmd + 4 * 2 ^ 12 ≤ 2 ^ 32
    → translate p (init_hyp_boot_vspace p info t) vaddr ≡ boot_map info vaddr
unfolding boot_map
arm32_hyp_boot_vspace-refines-boot_map p info t vaddr small aligned positive end paligned fits
      placed room =
    let made = init_hyp_boot_vspace p info t in
    let first = info.virt_region_start / 2 ^ 21 in
    let j = vaddr / 2 ^ 21 in
    let pgd = pgd_at p info t (vaddr / 2 ^ 30) (omega arith) placed room in
    let pmd = pmd_at p info t j (omega arith) aligned positive end in
    elim (Bool-cases (ltb vaddr info.virt_region_start)) [
      | inl below ↦ rw below (
          translate-block p made vaddr (j * 2 ^ 21 % 2 ^ 32) small placed room pgd
            (pmd ∙ ground arith) (omega arith) (omega arith)
          ∙ ap some (omega arith))
      | inr window ↦ rw window (
          translate-block p made vaddr (((j - first) * 2 ^ 21 + info.phys_region_start) % 2 ^ 32)
            small placed room pgd (pmd ∙ ground arith) (omega arith) (omega arith)
          ∙ ap some (ground arith))
    ]
