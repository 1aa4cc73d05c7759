-- ===== src/Mmu/Riscv/Sv39.antt =====
-- The tables of src/arch-riscv/boot.c as Sv39 reads them, with three levels of which the loader fills
-- two.
use se_l4_tools.Common.{
  ℕ, ◌+◌, ◌*◌, ◌/◌, ◌%◌, ◌^◌, ◌<◌, ◌≡◌, arith, ◌==◌, ltb, ◌&&◌, if◌then◌else◌, Option, none, some,
  true, Bool, ◌∙◌, bit_or-zero,
}
use se_l4_tools.Mmu.Table.{bit_or_aligned}
use se_l4_tools.Mmu.Riscv.{
  rv64, Tables, pte_create, pte_create_ppn, pte_create_next, pte_create_leaf, page_after, word_bits,
}

abbrev pub zeroed : Tables
zeroed = record { l1pt = λ i. 0; l2pt = λ i. 0 }

-- Bit 0 of an entry is the valid bit; one of bits 1 to 3 makes it a leaf; the page number is in bits 10
-- to 53, and a leaf above the last level whose page number is not aligned to its size is a fault.
abbrev pub page_number : ℕ → ℕ
page_number pte = pte / 2 ^ 10 % 2 ^ 44

abbrev pub is_leaf : ℕ → Bool
is_leaf pte = ltb 0 (pte / 2 % 8)

unfoldable pub translate : ℕ → Tables → ℕ → Option ℕ
translate l2pt_place t vaddr =
    let top = t.l1pt (vaddr / 2 ^ 30 % 2 ^ 9) in
    let table = if page_number top * 2 ^ 12 == l2pt_place then t.l2pt else (λ i. 0) in
    let next = table (vaddr / 2 ^ 21 % 2 ^ 9) in
    if top % 2 == 0
    then none
    else if is_leaf top
    then (if page_number top % 2 ^ 18 == 0
        then some (page_number top * 2 ^ 12 + vaddr % 2 ^ 30)
        else none)
    else if next % 2 == 1 && is_leaf next && page_number next % 2 ^ 9 == 0
    then some (page_number next * 2 ^ 12 + vaddr % 2 ^ 21)
    else none

pub pte_create_lem : (i : ℕ) → pte_create (i * 2 ^ 28 % 2 ^ 64) ≡ i % 16 * 2 ^ 28 + 0xcf
unfolding pte_create
pte_create_lem i =
    let a = i * 2 ^ 28 % 2 ^ 64 % 2 ^ 32 in
    let low : a ≡ i % 16 * 2 ^ 28 = omega arith in
    rw (bit_or_aligned 8 a 0xce (omega arith) (omega arith))
      (bit_or_aligned 1 (a + 0xce) 1 (omega arith) (omega arith) ∙ omega arith)

pub pte_create_leaf_lem :
    (base : ℕ)
    → base % 2 ^ 12 ≡ 0
    → base < 2 ^ 56
    → pte_create_leaf rv64 base ≡ base / 2 ^ 12 * 2 ^ 10 + 0xcf
unfolding pte_create_leaf pte_create_ppn word_bits
pte_create_leaf_lem base aligned lt =
    let a = base / 2 ^ 12 * 2 ^ 10 % 2 ^ 64 in
    rw (bit_or_aligned 8 a 0xce (omega arith) (omega arith))
      (bit_or_aligned 1 (a + 0xce) 1 (omega arith) (omega arith) ∙ omega arith)

pub pte_create_next_lem :
    (base : ℕ)
    → base % 2 ^ 12 ≡ 0
    → base < 2 ^ 56
    → pte_create_next rv64 base ≡ base / 2 ^ 12 * 2 ^ 10 + 1
unfolding pte_create_next pte_create_ppn word_bits
pte_create_next_lem base aligned lt =
    let a = base / 2 ^ 12 * 2 ^ 10 % 2 ^ 64 in
    rw (bit_or-zero a) (bit_or_aligned 10 a 1 (omega arith) (omega arith) ∙ omega arith)

pub translate-leaf :
    (place : ℕ) (t : Tables) (vaddr base : ℕ)
    → t.l1pt (vaddr / 2 ^ 30 % 2 ^ 9) ≡ base / 2 ^ 12 * 2 ^ 10 + 0xcf
    → base % 2 ^ 30 ≡ 0
    → base < 2 ^ 56
    → translate place t vaddr ≡ some (base + vaddr % 2 ^ 30)
unfolding translate
translate-leaf place t vaddr base top aligned lt = rw top (ground arith)

pub translate-next :
    (place : ℕ) (t : Tables) (vaddr next : ℕ)
    → t.l1pt (vaddr / 2 ^ 30 % 2 ^ 9) ≡ place / 2 ^ 12 * 2 ^ 10 + 1
    → place % 2 ^ 12 ≡ 0
    → place < 2 ^ 56
    → t.l2pt (vaddr / 2 ^ 21 % 2 ^ 9) ≡ next
    → translate place t vaddr ≡ (
        if next % 2 == 1 && is_leaf next && page_number next % 2 ^ 9 == 0
        then some (page_number next * 2 ^ 12 + vaddr % 2 ^ 21)
        else none)
unfolding translate
translate-next place t vaddr next top aligned lt second =
    let here : page_number (place / 2 ^ 12 * 2 ^ 10 + 1) * 2 ^ 12 ≡ place = omega arith in
    let test : (place == place) ≡ true = ground arith in rw (top, here, test, second) (ground arith)

pub page_after_lem :
    (phys page bits : ℕ)
    → page * 2 ^ bits < 2 ^ 31
    → phys + page * 2 ^ bits < 2 ^ 56
    → page_after rv64 phys page bits ≡ phys + page * 2 ^ bits
unfolding page_after word_bits
page_after_lem phys page bits small lt = ground arith
