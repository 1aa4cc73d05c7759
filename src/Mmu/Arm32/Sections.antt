-- ===== src/Mmu/Arm32/Sections.antt =====
-- The short descriptors of init_boot_vspace in src/arch-arm/32/mmu.c, as the architecture reads them.
use se_l4_tools.Common.{
  ℕ, ◌+◌, ◌-◌, ◌*◌, ◌/◌, ◌%◌, ◌^◌, ◌≤◌, ◌<◌, ◌≡◌, arith, ◌==◌, ltb, if◌then◌else◌, Option, none,
  some, Bool-cases, inl, inr, ◌∙◌, ap,
}
use se_l4_tools.Loader.{ImageInfo}
use se_l4_tools.Mmu.Table.{Table, put, fill, fill_at, bit_or_aligned}
use se_l4_tools.Mmu.Arm32.{
  Tables, Places, section_entry, page_table_entry, page_entry, init_boot_vspace, negated, pt_index,
  arm_vector_table,
}

abbrev pub zeroed : Tables
zeroed = record {
  boot_pd = λ i. 0;
  boot_pt = λ i. 0;
  lpae_boot_pgd = λ i. 0;
  lpae_boot_pmd = λ i. 0;
}

-- The lowest bits of an entry of the directory are 2 for a section, for which bit 18 is clear, and 1
-- for a page table; bit 1 of an entry of a page table marks a small page.
unfoldable pub translate : Places → Tables → ℕ → Option ℕ
translate p t vaddr =
    let pde = t.boot_pd (vaddr / 2 ^ 20) in
    let table = if pde / 2 ^ 10 * 2 ^ 10 == p.boot_pt then t.boot_pt else (λ i. 0) in
    let pte = table (vaddr / 2 ^ 12 % 2 ^ 8) in
    if pde % 4 == 2
    then (if pde / 2 ^ 18 % 2 == 0 then some (pde / 2 ^ 20 * 2 ^ 20 + vaddr % 2 ^ 20) else none)
    else if pde % 4 == 1
    then (if pte / 2 % 2 == 1 then some (pte / 2 ^ 12 * 2 ^ 12 + vaddr % 2 ^ 12) else none)
    else none

-- The identity below the kernel, its window up to the last MiB, and there the page of the vectors only.
unfoldable pub boot_map : Places → ImageInfo → ℕ → Option ℕ
boot_map p info vaddr =
    if ltb vaddr info.virt_region_start
    then some vaddr
    else if ltb vaddr (2 ^ 32 - 2 ^ 20)
    then some (info.phys_region_start + (vaddr - info.virt_region_start))
    else if vaddr / 2 ^ 12 == arm_vector_table / 2 ^ 12
    then some (p.vectors + vaddr % 2 ^ 12)
    else none

section_entry_lem : (a : ℕ) → a % 2 ^ 20 ≡ 0 → section_entry a ≡ a + 1026
unfolding section_entry
section_entry_lem a h =
    rw (bit_or_aligned 20 a 1024 h (omega arith))
      (bit_or_aligned 10 (a + 1024) 2 (omega arith) (omega arith) ∙ omega arith)

page_table_entry_lem : (a : ℕ) → a % 2 ^ 10 ≡ 0 → page_table_entry a ≡ a + 513
unfolding page_table_entry
page_table_entry_lem a h =
    rw (bit_or_aligned 10 a 512 h (omega arith))
      (bit_or_aligned 9 (a + 512) 1 (omega arith) (omega arith) ∙ omega arith)

page_entry_lem : (a : ℕ) → a % 2 ^ 12 ≡ 0 → page_entry a ≡ a + 18
unfolding page_entry
page_entry_lem a h =
    rw (bit_or_aligned 12 a 16 h (omega arith))
      (bit_or_aligned 4 (a + 16) 2 (omega arith) (omega arith) ∙ omega arith)

window_rounds :
    (fv : ℕ)
    → fv % 2 ^ 20 ≡ 0
    → 0 < fv
    → fv < 2 ^ 32
    → (negated fv / 2 ^ 20 + (2 ^ 32 - 1)) % 2 ^ 32 ≡ 4095 - fv / 2 ^ 20
unfolding negated
window_rounds fv aligned positive small = omega arith

-- Two ranges, one after the other, and the entry behind them.
two_ranges :
    (f g : ℕ → ℕ) (table : Table) (first e j : ℕ)
    → first ≤ 4095
    → put (fill g (4095 - first) first (fill f first 0 table)) (4095 - first + first) e j
      ≡ (if j == 4095 then e else if ltb j first then f j else if ltb j 4095 then g j else table j)
unfolding put
two_ranges f g table first e j h =
    ground
      (arith, fill_at g (4095 - first) first (fill f first 0 table) j, fill_at f first 0 table j)

module _ (p : Places) (info : ImageInfo) (t : Tables) where
  -- The directory after the loops, for a kernel that starts at a section other than the first.
  boot_pd_at :
      (j : ℕ)
      → info.virt_region_start % 2 ^ 20 ≡ 0
      → 0 < info.virt_region_start
      → info.virt_region_start < 2 ^ 32
      → let first = info.virt_region_start / 2 ^ 20 in
        (init_boot_vspace p info t).boot_pd j ≡ (
          if j == 4095
          then page_table_entry p.boot_pt
          else if ltb j first
          then section_entry (j * 2 ^ 20 % 2 ^ 32)
          else if ltb j 4095
          then section_entry (((j - first) * 2 ^ 20 + info.phys_region_start) % 2 ^ 32)
          else t.boot_pd j)
  unfolding init_boot_vspace
  boot_pd_at j aligned positive small =
      let first = info.virt_region_start / 2 ^ 20 in
      rw (window_rounds info.virt_region_start aligned positive small) (
        two_ranges (λ i. section_entry (i * 2 ^ 20 % 2 ^ 32))
          (λ i. section_entry (((i - first) * 2 ^ 20 + info.phys_region_start) % 2 ^ 32)) t.boot_pd
          first (page_table_entry p.boot_pt) j (omega arith))

-- A translation through a section, and through the page table.
translate-section :
    (p : Places) (t : Tables) (vaddr a : ℕ)
    → t.boot_pd (vaddr / 2 ^ 20) ≡ section_entry a
    → a % 2 ^ 20 ≡ 0
    → translate p t vaddr ≡ some (a + vaddr % 2 ^ 20)
unfolding translate
translate-section p t vaddr a pde aligned = rw (pde, section_entry_lem a aligned) (ground arith)

translate-page_table :
    (p : Places) (t : Tables) (vaddr : ℕ)
    → p.boot_pt % 2 ^ 10 ≡ 0
    → t.boot_pd (vaddr / 2 ^ 20) ≡ page_table_entry p.boot_pt
    → translate p t vaddr ≡ (
        let pte = t.boot_pt (vaddr / 2 ^ 12 % 2 ^ 8) in
        if pte / 2 % 2 == 1 then some (pte / 2 ^ 12 * 2 ^ 12 + vaddr % 2 ^ 12) else none)
unfolding translate
translate-page_table p t vaddr aligned pde =
    rw (pde, page_table_entry_lem p.boot_pt aligned) (ground arith)

-- The page table has one entry, for the vectors at 0xffff0000.
vector_page :
    (p : Places) (info : ImageInfo) (vaddr : ℕ)
    → p.boot_pt % 2 ^ 10 ≡ 0
    → p.vectors % 2 ^ 12 ≡ 0
    → (init_boot_vspace p info zeroed).boot_pd (vaddr / 2 ^ 20) ≡ page_table_entry p.boot_pt
    → vaddr / 2 ^ 20 ≡ 4095
    → translate p (init_boot_vspace p info zeroed) vaddr ≡ (
        if vaddr / 2 ^ 12 == arm_vector_table / 2 ^ 12
        then some (p.vectors + vaddr % 2 ^ 12)
        else none)
unfolding init_boot_vspace put pt_index
vector_page p info vaddr placed aligned pde last =
    translate-page_table p (init_boot_vspace p info zeroed) vaddr placed pde
    ∙ rw (page_entry_lem p.vectors aligned) (ground arith)

-- For a kernel of which the first addresses are aligned to 1 MiB, the virtual one not 0 and the physical
-- range of its window below 2 ^ 32, a page table and a page of vectors that are aligned to their size,
-- and tables that were zeroed: the tables that init_boot_vspace makes translate every virtual
-- address as boot_map says, and fault on every other.
pub arm32_boot_vspace-refines-boot_map :
    (p : Places) (info : ImageInfo) (vaddr : ℕ)
    → vaddr < 2 ^ 32
    → info.virt_region_start % 2 ^ 20 ≡ 0
    → 0 < info.virt_region_start
    → info.virt_region_start < 2 ^ 32
    → info.phys_region_start % 2 ^ 20 ≡ 0
    → info.phys_region_start + (2 ^ 32 - info.virt_region_start) ≤ 2 ^ 32
    → p.boot_pt % 2 ^ 10 ≡ 0
    → p.vectors % 2 ^ 12 ≡ 0
    → translate p (init_boot_vspace p info zeroed) vaddr ≡ boot_map p info vaddr
unfolding boot_map
arm32_boot_vspace-refines-boot_map p info vaddr small aligned positive end paligned fits placed
      vectors =
    let made = init_boot_vspace p info zeroed in
    let first = info.virt_region_start / 2 ^ 20 in
    let j = vaddr / 2 ^ 20 in
    let pde = boot_pd_at p info zeroed j aligned positive end in
    elim (Bool-cases (ltb vaddr info.virt_region_start)) [
      | inl below ↦ rw below (
          translate-section p made vaddr (j * 2 ^ 20 % 2 ^ 32) (pde ∙ ground arith) (omega arith)
          ∙ ap some (omega arith))
      | inr window ↦ elim (Bool-cases (ltb vaddr (2 ^ 32 - 2 ^ 20))) [
        | inl inside ↦
            rw (window, inside)
              (translate-section p made vaddr
                  (((j - first) * 2 ^ 20 + info.phys_region_start) % 2 ^ 32) (pde ∙ ground arith)
                  (omega arith)
                ∙ ap some (ground arith))
        | inr last ↦
            rw (window, last)
              (vector_page p info vaddr placed vectors (pde ∙ ground arith) (ground arith))
      ]
    ]
