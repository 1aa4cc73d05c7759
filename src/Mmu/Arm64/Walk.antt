-- ===== src/Mmu/Arm64/Walk.antt =====
-- The translation that the architecture defines for a table of four levels with 4 KiB pages, down to
-- the 2 MiB blocks; the independent description of the tables that the loader makes.
use se_l4_tools.Common.{
  ℕ, ◌+◌, ◌*◌, ◌/◌, ◌%◌, ◌^◌, ◌≤◌, ◌<◌, ◌≡◌, ◌≢◌, arith, ◌==◌, if◌then◌else◌, Option, none, some,
  true, false, Bool, ◌∙◌, bit_or, bit_or-zero,
}
use se_l4_tools.Mmu.Table.{Table, bit_or_aligned}
use se_l4_tools.Mmu.Arm64.{Tables, Places, table_entry, block_1gb_entry, block_2mb_entry}

-- The table that an entry points to: bits 12 to 47.
abbrev pub next_table : ℕ → ℕ
next_table entry = entry / 2 ^ 12 % 2 ^ 36 * 2 ^ 12

-- `read place` is the table at that address. The lowest bits of an entry are 3 for a table, and 1 for
-- a block; an entry of another kind ends the walk with a fault.
unfoldable pub walk : (read : ℕ → Table) → Table → ℕ → Option ℕ
walk read root vaddr =
    let pgd = root (vaddr / 2 ^ 39 % 2 ^ 9) in
    let pud = read (next_table pgd) (vaddr / 2 ^ 30 % 2 ^ 9) in
    let pmd = read (next_table pud) (vaddr / 2 ^ 21 % 2 ^ 9) in
    if pgd % 4 == 3
    then (if pud % 4 == 3
        then (if pmd % 4 == 1 then some (pmd / 2 ^ 21 % 2 ^ 27 * 2 ^ 21 + vaddr % 2 ^ 21) else none)
        else if pud % 4 == 1
        then some (pud / 2 ^ 30 % 2 ^ 18 * 2 ^ 30 + vaddr % 2 ^ 30)
        else none)
    else none

-- Pages of the loader's tables, which are aligned to their size.
pub record ArePlaced (p : Places) : Type 0 where
  pub pud_up : (p.pud_up % 2 ^ 12 ≡ 0) × (p.pud_up < 2 ^ 48)
  pub pmd_up : (p.pmd_up % 2 ^ 12 ≡ 0) × (p.pmd_up < 2 ^ 48)
  pub pud_down : (p.pud_down % 2 ^ 12 ≡ 0) × (p.pud_down < 2 ^ 48)
  pub pud_up-ne-pmd_up : p.pud_up ≢ p.pmd_up
  pub pud_up-ne-pud_down : p.pud_up ≢ p.pud_down
  pub pmd_up-ne-pud_down : p.pmd_up ≢ p.pud_down

-- Memory, as far as the walk reads it.
abbrev pub tables_at : Places → Tables → ℕ → Table
tables_at p t place =
    if place == p.pud_up
    then t.pud_up
    else if place == p.pmd_up
    then t.pmd_up
    else if place == p.pud_down
    then t.pud_down
    else λ i. 0

pub table_entry_lem : (p : ℕ) → p % 2 ^ 12 ≡ 0 → table_entry p ≡ p + 3
unfolding table_entry
table_entry_lem p h =
    bit_or_aligned 1 _ 1 (omega (arith, bit_or_aligned 12 p 2 h (omega arith))) (omega arith)
    ∙ omega (arith, bit_or_aligned 12 p 2 h (omega arith))

pub block_1gb_entry_lem : (i : ℕ) → i < 2 ^ 9 → block_1gb_entry i ≡ i * 2 ^ 30 + 1025
unfolding block_1gb_entry
block_1gb_entry_lem i h =
    let block : i * 2 ^ 30 % 2 ^ 64 ≡ i * 2 ^ 30 = omega arith in
    let access : bit_or (i * 2 ^ 30 % 2 ^ 64) 1024 ≡ i * 2 ^ 30 + 1024 =
      bit_or_aligned 11 (i * 2 ^ 30 % 2 ^ 64) 1024 (omega arith) (omega arith)
      ∙ omega (arith, block) in
    rw (access, bit_or-zero (i * 2 ^ 30 + 1024))
      (bit_or_aligned 10 (i * 2 ^ 30 + 1024) 1 (omega arith) (omega arith) ∙ omega arith)

pub block_2mb_entry_lem :
    (smp : Bool) (first_paddr offset : ℕ)
    → first_paddr % 2 ^ 21 ≡ 0
    → offset < 2 ^ 9
    → first_paddr + 2 ^ 30 ≤ 2 ^ 48
    → (block_2mb_entry smp first_paddr offset % 4 ≡ 1)
      × (block_2mb_entry smp first_paddr offset / 2 ^ 21 ≡ offset + first_paddr / 2 ^ 21)
unfolding block_2mb_entry
block_2mb_entry_lem true first_paddr offset h lt fits =
    let b = (offset * 2 ^ 21 % 2 ^ 64 + first_paddr) % 2 ^ 64 in
    let block : b ≡ offset * 2 ^ 21 + first_paddr = omega arith in
    let access : bit_or b 1024 ≡ b + 1024 = bit_or_aligned 11 b 1024 (omega arith) (omega arith) in
    let shared : bit_or (b + 1024) 768 ≡ b + 1792 =
      bit_or_aligned 10 (b + 1024) 768 (omega arith) (omega arith) ∙ omega arith in
    let normal : bit_or (b + 1792) 16 ≡ b + 1808 =
      bit_or_aligned 5 (b + 1792) 16 (omega arith) (omega arith) ∙ omega arith in
    let whole : bit_or (b + 1808) 1 ≡ b + 1809 =
      bit_or_aligned 4 (b + 1808) 1 (omega arith) (omega arith) ∙ omega arith in
    rw (access, shared, normal, whole) (omega arith, omega arith)
block_2mb_entry_lem false first_paddr offset h lt fits =
    let b = (offset * 2 ^ 21 % 2 ^ 64 + first_paddr) % 2 ^ 64 in
    let block : b ≡ offset * 2 ^ 21 + first_paddr = omega arith in
    let access : bit_or b 1024 ≡ b + 1024 = bit_or_aligned 11 b 1024 (omega arith) (omega arith) in
    let normal : bit_or (b + 1024) 16 ≡ b + 1040 =
      bit_or_aligned 5 (b + 1024) 16 (omega arith) (omega arith) ∙ omega arith in
    let whole : bit_or (b + 1040) 1 ≡ b + 1041 =
      bit_or_aligned 4 (b + 1040) 1 (omega arith) (omega arith) ∙ omega arith in
    rw (access, normal, whole) (omega arith, omega arith)
