-- ===== src/Mmu/Arm64/Window.antt =====
-- What the walk finds in the tables that init_boot_vspace and init_hyp_boot_vspace make
-- (src/arch-arm/64/mmu.c).
use se_l4_tools.Common.{
  ℕ, ◌+◌, ◌-◌, ◌*◌, ◌/◌, ◌%◌, ◌^◌, ◌≤◌, ◌<◌, ◌≡◌, ◌≢◌, refl, arith, some, Bool, ◌∙◌, ap,
  bit_and_mask,
}
use se_l4_tools.Loader.{ImageInfo}
use se_l4_tools.Mmu.Table.{Table, put, fill, fill_at}
use se_l4_tools.Mmu.Arm64.{
  Tables, Places, table_entry, block_1gb_entry, block_2mb_entry, init_boot_vspace,
  init_hyp_boot_vspace, pgd_index, pud_index, pmd_index,
}
use se_l4_tools.Mmu.Arm64.Walk.{
  walk, next_table, ArePlaced, tables_at, table_entry_lem, block_1gb_entry_lem, block_2mb_entry_lem,
}

pub next_table_lem : (p : ℕ) → p % 2 ^ 12 ≡ 0 → p < 2 ^ 48 → next_table (p + 3) ≡ p
next_table_lem p aligned fits = omega arith

walk-block_1gb :
    (read : ℕ → Table) (root : Table) (vaddr p b : ℕ)
    → p % 2 ^ 12 ≡ 0
    → p < 2 ^ 48
    → root (vaddr / 2 ^ 39 % 2 ^ 9) ≡ p + 3
    → read p (vaddr / 2 ^ 30 % 2 ^ 9) ≡ b * 2 ^ 30 + 1025
    → b < 2 ^ 18
    → walk read root vaddr ≡ some (b * 2 ^ 30 + vaddr % 2 ^ 30)
unfolding walk
walk-block_1gb read root vaddr p b aligned fits pgd pud lt =
    rw (pgd, next_table_lem p aligned fits, pud) (ground arith)

walk-block_2mb :
    (read : ℕ → Table) (root : Table) (vaddr p q e b : ℕ)
    → p % 2 ^ 12 ≡ 0
    → p < 2 ^ 48
    → q % 2 ^ 12 ≡ 0
    → q < 2 ^ 48
    → root (vaddr / 2 ^ 39 % 2 ^ 9) ≡ p + 3
    → read p (vaddr / 2 ^ 30 % 2 ^ 9) ≡ q + 3
    → read q (vaddr / 2 ^ 21 % 2 ^ 9) ≡ e
    → e % 4 ≡ 1
    → e / 2 ^ 21 ≡ b
    → b < 2 ^ 27
    → walk read root vaddr ≡ some (b * 2 ^ 21 + vaddr % 2 ^ 21)
unfolding walk
walk-block_2mb read root vaddr p q e b alignedp fitsp alignedq fitsq pgd pud pmd low high lt =
    rw (pgd, next_table_lem p alignedp fitsp, pud, next_table_lem q alignedq fitsq, pmd)
      (ground arith)

pub pgd_index_lem : (x : ℕ) → pgd_index x ≡ x / 2 ^ 39 % 2 ^ 9
unfolding pgd_index
pgd_index_lem x = bit_and_mask 9 (x / 2 ^ 39)

pub pud_index_lem : (x : ℕ) → pud_index x ≡ x / 2 ^ 30 % 2 ^ 9
unfolding pud_index
pud_index_lem x = bit_and_mask 9 (x / 2 ^ 30)

pub pmd_index_lem : (x : ℕ) → pmd_index x ≡ x / 2 ^ 21 % 2 ^ 9
unfolding pmd_index
pmd_index_lem x = bit_and_mask 9 (x / 2 ^ 21)

-- An entry is found where it was put, and not elsewhere.
pub put-same : (table : Table) (i j e : ℕ) → i ≡ j → put table i e j ≡ e
unfolding put
put-same table i j e h = ground arith

pub put-other : (table : Table) (i j e : ℕ) → i ≢ j → put table i e j ≡ table j
unfolding put
put-other table i j e h = ground arith

pub fill-inside :
    (entry : ℕ → ℕ) (left i : ℕ) (table : Table) (j : ℕ)
    → i ≤ j
    → j < i + left
    → fill entry left i table j ≡ entry j
fill-inside entry left i table j low high = ground (arith, fill_at entry left i table j)

module _ (places : Places) (h : ArePlaced places) (t : Tables) where
  pub at_pud_up : tables_at places t places.pud_up ≡ t.pud_up
  at_pud_up = ground arith

  pub at_pmd_up : tables_at places t places.pmd_up ≡ t.pmd_up
  at_pmd_up = ground (arith, h.pud_up-ne-pmd_up)

  pub at_pud_down : tables_at places t places.pud_down ≡ t.pud_down
  at_pud_down = ground (arith, h.pud_up-ne-pud_down, h.pmd_up-ne-pud_down)

  -- The lower half is the identity when its first entry points to the 1 GiB blocks.
  walk-identity :
      (root : Table)
      → (vaddr : ℕ) → vaddr < 2 ^ 39
      → root 0 ≡ table_entry places.pud_down
      → (table : Table) → t.pud_down ≡ fill block_1gb_entry (2 ^ 9) 0 table
      → walk (tables_at places t) root vaddr ≡ some vaddr
  walk-identity root vaddr small first table down =
      let start : vaddr / 2 ^ 39 % 2 ^ 9 ≡ 0 = omega arith in
      let i = vaddr / 2 ^ 30 % 2 ^ 9 in
      let block : tables_at places t places.pud_down i ≡ vaddr / 2 ^ 30 * 2 ^ 30 + 1025 =
        rw
          (
            at_pud_down,
            down,
            fill-inside block_1gb_entry (2 ^ 9) 0 table i (omega arith) (omega arith),
          )
          (block_1gb_entry_lem i (omega arith) ∙ omega arith) in
      walk-block_1gb (tables_at places t) root vaddr places.pud_down (vaddr / 2 ^ 30) h.pud_down.0
        h.pud_down.1 (rw (start, first) (table_entry_lem places.pud_down h.pud_down.0)) block
        (omega arith)
      ∙ ground arith

  -- The window through the 2 MiB blocks, of which the entry for `vaddr` is `offset` blocks behind
  -- `first_paddr`.
  walk-window :
      (smp : Bool) (root : Table) (vaddr first_paddr offset : ℕ)
      → first_paddr % 2 ^ 21 ≡ 0
      → first_paddr + 2 ^ 30 ≤ 2 ^ 48
      → offset < 2 ^ 9
      → root (vaddr / 2 ^ 39 % 2 ^ 9) ≡ table_entry places.pud_up
      → t.pud_up (vaddr / 2 ^ 30 % 2 ^ 9) ≡ table_entry places.pmd_up
      → t.pmd_up (vaddr / 2 ^ 21 % 2 ^ 9) ≡ block_2mb_entry smp first_paddr offset
      → walk (tables_at places t) root vaddr ≡ some (first_paddr + offset * 2 ^ 21 + vaddr % 2 ^ 21)
  walk-window smp root vaddr first_paddr offset aligned fits lt pgd pud pmd =
      let e = block_2mb_entry smp first_paddr offset in
      let shape = block_2mb_entry_lem smp first_paddr offset aligned lt fits in
      walk-block_2mb (tables_at places t) root vaddr places.pud_up places.pmd_up e
        (offset + first_paddr / 2 ^ 21) h.pud_up.0 h.pud_up.1 h.pmd_up.0 h.pmd_up.1
        (pgd ∙ table_entry_lem places.pud_up h.pud_up.0)
        (rw at_pud_up (pud ∙ table_entry_lem places.pmd_up h.pmd_up.0)) (rw at_pmd_up pmd) shape.0
        shape.1 (omega arith)
      ∙ ground arith

module _ (smp : Bool) (places : Places) (info : ImageInfo) (t : Tables) (h : ArePlaced places) where
  -- For tables that lie in pages of their own below 2 ^ 48, after init_boot_vspace an address of the
  -- lower 512 GiB is translated, from the lower table, to itself.
  pub init_boot_vspace-identity :
      (vaddr : ℕ)
      → vaddr < 2 ^ 39
      → let made = init_boot_vspace smp places info t in
        walk (tables_at places made) made.pgd_down vaddr ≡ some vaddr
  unfolding init_boot_vspace
  init_boot_vspace-identity vaddr small =
      let made = init_boot_vspace smp places info t in
      walk-identity places h made made.pgd_down vaddr small (put-same t.pgd_down 0 0 _ refl)
        t.pud_down refl

  -- For such tables and a kernel that starts at a physical address aligned to 2 MiB, 1 GiB or more below
  -- 2 ^ 48, after init_boot_vspace each virtual address in the GiB of the kernel's first one is
  -- translated, from the upper table, to the kernel's physical start plus the address modulo 1 GiB.
  pub init_boot_vspace-window :
      (vaddr : ℕ)
      → vaddr / 2 ^ 30 ≡ info.virt_region_start / 2 ^ 30
      → info.phys_region_start % 2 ^ 21 ≡ 0
      → info.phys_region_start + 2 ^ 30 ≤ 2 ^ 48
      → let made = init_boot_vspace smp places info t in
        walk (tables_at places made) made.pgd_up vaddr
        ≡ some (info.phys_region_start + vaddr % 2 ^ 30)
  unfolding init_boot_vspace
  init_boot_vspace-window vaddr gib aligned fits =
      let made = init_boot_vspace smp places info t in
      let offset = vaddr / 2 ^ 21 % 2 ^ 9 in
      walk-window places h made smp made.pgd_up vaddr info.phys_region_start offset aligned fits
        (omega arith) (put-same t.pgd_up _ _ _ (pgd_index_lem info.virt_region_start ∙ omega arith))
        (put-same t.pud_up _ _ _ (pud_index_lem info.virt_region_start ∙ omega arith))
        (fill-inside _ (2 ^ 9) 0 t.pmd_up offset (omega arith) (omega arith))
      ∙ ap some (omega arith)

  -- For such tables, after init_hyp_boot_vspace an address of the lower 512 GiB is translated to
  -- itself, provided that the kernel's first virtual address is not in the lower 512 GiB of its
  -- 2 ^ 48 bytes.
  pub init_hyp_boot_vspace-identity :
      (vaddr : ℕ)
      → vaddr < 2 ^ 39
      → pgd_index info.virt_region_start ≢ 0
      → let made = init_hyp_boot_vspace smp places info t in
        walk (tables_at places made) made.pgd_down vaddr ≡ some vaddr
  unfolding init_hyp_boot_vspace
  init_hyp_boot_vspace-identity vaddr small apart =
      let made = init_hyp_boot_vspace smp places info t in
      walk-identity places h made made.pgd_down vaddr small
        (put-other _ (pgd_index info.virt_region_start) 0 _ apart ∙ put-same t.pgd_down 0 0 _ refl)
        t.pud_down refl

  -- For such tables and a kernel that starts, virtually and physically, at an address aligned to
  -- 2 MiB, the physical one 1 GiB or more below 2 ^ 48, after init_hyp_boot_vspace each virtual address
  -- from the kernel's first one to the end of its GiB is translated to the kernel's physical start
  -- plus the distance from the first virtual address.
  pub init_hyp_boot_vspace-window :
      (vaddr : ℕ)
      → vaddr / 2 ^ 30 ≡ info.virt_region_start / 2 ^ 30
      → info.virt_region_start ≤ vaddr
      → info.virt_region_start % 2 ^ 21 ≡ 0
      → info.phys_region_start % 2 ^ 21 ≡ 0
      → info.phys_region_start + 2 ^ 30 ≤ 2 ^ 48
      → let made = init_hyp_boot_vspace smp places info t in
        walk (tables_at places made) made.pgd_down vaddr
        ≡ some (info.phys_region_start + (vaddr - info.virt_region_start))
  unfolding init_hyp_boot_vspace
  init_hyp_boot_vspace-window vaddr gib above start aligned fits =
      let made = init_hyp_boot_vspace smp places info t in
      let first = info.virt_region_start in
      let i = vaddr / 2 ^ 21 % 2 ^ 9 in
      let offset = i - pmd_index first in
      let at_start : pmd_index first ≡ first / 2 ^ 21 % 2 ^ 9 = pmd_index_lem first in
      walk-window places h made smp made.pgd_down vaddr info.phys_region_start offset aligned fits
        (omega arith) (put-same _ _ _ _ (pgd_index_lem first ∙ omega arith))
        (put-same t.pud_up _ _ _ (pud_index_lem first ∙ omega arith))
        (fill-inside _ (2 ^ 9 - pmd_index first) (pmd_index first) t.pmd_up i (omega arith)
          (omega arith))
      ∙ ap some (omega arith)
