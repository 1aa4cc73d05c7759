-- ===== src/Mmu/Riscv/BootMap.antt =====
-- Where the tables of src/arch-riscv/boot.c send each address, for three levels on a 64-bit machine.
use se_l4_tools.Common.{
  ℕ, ◌+◌, ◌-◌, ◌*◌, ◌/◌, ◌%◌, ◌^◌, ◌≤◌, ◌<◌, ◌≡◌, refl, arith, ◌==◌, ltb, leb, ◌&&◌, ◌||◌,
  if◌then◌else◌, Option, none, some, true, Bool, Bool-cases, inl, inr, ◌∙◌, ap, bit_and_mask,
  Outcome, done, aborted, ◌>>=◌,
}
use se_l4_tools.Loader.{ImageInfo}
use se_l4_tools.Mmu.Table.{Table, put, fill, fill_at}
use se_l4_tools.Mmu.Riscv.{
  rv64, Tables, pte_create, pte_create_next, pte_create_leaf, pt_index, virt_phys_aligned,
  page_after, map_kernel_window, pt_index_bits, ppn_high, pte_level_bits,
}
use se_l4_tools.Mmu.Riscv.Sv39.{
  zeroed, translate, pte_create_lem, pte_create_leaf_lem, pte_create_next_lem, translate-leaf,
  translate-next, page_after_lem,
}

-- The addresses of Sv39: bits 38 to 63 are equal.
abbrev pub is_canonical : ℕ → Bool
is_canonical vaddr = ltb vaddr (2 ^ 38) || leb (2 ^ 64 - 2 ^ 38) vaddr

-- A kernel aligned to 1 GiB has all addresses from its first one; one aligned to 2 MiB has the rest
-- of its GiB, of which the part before it is not mapped. Other addresses keep their low 34 bits. A
-- kernel without either alignment is refused.
unfoldable pub boot_map : ImageInfo → ℕ → Outcome (Option ℕ)
boot_map info vaddr =
    let virt = info.virt_region_start in
    let phys = info.phys_region_start in
    if virt % 2 ^ 30 == 0 && phys % 2 ^ 30 == 0
    then done (if leb virt vaddr then some (phys + (vaddr - virt)) else some (vaddr % 2 ^ 34))
    else if virt % 2 ^ 21 == 0 && phys % 2 ^ 21 == 0
    then done (
        if vaddr / 2 ^ 30 == virt / 2 ^ 30
        then (if leb virt vaddr then some (phys + (vaddr - virt)) else none)
        else some (vaddr % 2 ^ 34))
    else aborted "Kernel not properly aligned\n"

abbrev one_to_one : Tables → Table
one_to_one t = fill (λ i. pte_create (i * 2 ^ 28 % 2 ^ 64)) (2 ^ 9) 0 t.l1pt

one_to_one_at : (t : Tables) (j : ℕ) → j < 2 ^ 9 → one_to_one t j ≡ j % 16 * 2 ^ 28 + 0xcf
one_to_one_at t j lt =
    fill_at (λ i. pte_create (i * 2 ^ 28 % 2 ^ 64)) (2 ^ 9) 0 t.l1pt j
    ∙ ground (arith, pte_create_lem j)

-- An address that a table leaves to the first loop.
translate-alias :
    (place : ℕ) (t : Tables) (vaddr : ℕ)
    → t.l1pt (vaddr / 2 ^ 30 % 2 ^ 9) ≡ one_to_one zeroed (vaddr / 2 ^ 30 % 2 ^ 9)
    → translate place t vaddr ≡ some (vaddr % 2 ^ 34)
translate-alias place t vaddr top =
    let j = vaddr / 2 ^ 30 % 2 ^ 9 in
    translate-leaf place t vaddr (j % 16 * 2 ^ 30)
      (top ∙ one_to_one_at zeroed j (omega arith) ∙ omega arith) (omega arith) (omega arith)
    ∙ ap some (omega arith)

abbrev leaf : ℕ → ℕ → ℕ → ℕ → ℕ
leaf phys bits first j = pte_create_leaf rv64 (page_after rv64 phys (j - first) bits)

abbrev with_giant_pages : ℕ → ℕ → Tables
with_giant_pages phys l1 = record {
  l1pt = fill (leaf phys 30 l1) (2 ^ 9 - l1) l1 (one_to_one zeroed);
  l2pt = zeroed.l2pt;
}

abbrev with_mega_pages : ℕ → ℕ → ℕ → ℕ → Tables
with_mega_pages place phys l1 l2 = record {
  l1pt = put (one_to_one zeroed) l1 (pte_create_next rv64 place);
  l2pt = fill (leaf phys 21 l2) (2 ^ 9 - l2) l2 zeroed.l2pt;
}

module _ (place : ℕ) (info : ImageInfo) (vaddr : ℕ) where
  -- The tables of a kernel aligned to 1 GiB, at the top 2 GiB.
  giant_pages :
      (l1 : ℕ)
      → l1 ≡ info.virt_region_start / 2 ^ 30 % 2 ^ 9
      → vaddr < 2 ^ 64
      → is_canonical vaddr ≡ true
      → 2 ^ 64 - 2 ^ 31 ≤ info.virt_region_start
      → info.virt_region_start < 2 ^ 64
      → info.phys_region_start + 2 ^ 31 ≤ 2 ^ 56
      → info.virt_region_start % 2 ^ 30 ≡ 0
      → info.phys_region_start % 2 ^ 30 ≡ 0
      → translate place (with_giant_pages info.phys_region_start l1) vaddr ≡ (
          if leb info.virt_region_start vaddr
          then some (info.phys_region_start + (vaddr - info.virt_region_start))
          else some (vaddr % 2 ^ 34))
  giant_pages l1 at_l1 small canonical high end room virt phys =
      let made = with_giant_pages info.phys_region_start l1 in
      let j = vaddr / 2 ^ 30 % 2 ^ 9 in
      let base = info.phys_region_start + (j - l1) * 2 ^ 30 in
      let top = fill_at (leaf info.phys_region_start 30 l1) (2 ^ 9 - l1) l1 (one_to_one zeroed) j in
      elim (Bool-cases (leb info.virt_region_start vaddr)) [
        | inl above ↦
            let near : vaddr / 2 ^ 30 - info.virt_region_start / 2 ^ 30 ≡ j - l1 = ground arith in
            let page : page_after rv64 info.phys_region_start (j - l1) 30 ≡ base =
              page_after_lem info.phys_region_start (j - l1) 30 (ground arith) (ground arith) in
            let entry : pte_create_leaf rv64 base ≡ base / 2 ^ 12 * 2 ^ 10 + 0xcf =
              pte_create_leaf_lem base (ground arith) (ground arith) in
            rw above (
              translate-leaf place made vaddr base (top ∙ rw (page, entry) (ground arith))
                (ground arith) (ground arith)
              ∙ ap some (ground arith))
        | inr below ↦ rw below (translate-alias place made vaddr (top ∙ ground arith))
      ]

  -- The tables of a kernel aligned to 2 MiB.
  mega_pages :
      (l1 l2 : ℕ)
      → l1 ≡ info.virt_region_start / 2 ^ 30 % 2 ^ 9
      → l2 ≡ info.virt_region_start / 2 ^ 21 % 2 ^ 9
      → place % 2 ^ 12 ≡ 0
      → place < 2 ^ 56
      → vaddr < 2 ^ 64
      → is_canonical vaddr ≡ true
      → 2 ^ 64 - 2 ^ 31 ≤ info.virt_region_start
      → info.virt_region_start < 2 ^ 64
      → info.phys_region_start + 2 ^ 31 ≤ 2 ^ 56
      → info.virt_region_start % 2 ^ 21 ≡ 0
      → info.phys_region_start % 2 ^ 21 ≡ 0
      → translate place (with_mega_pages place info.phys_region_start l1 l2) vaddr ≡ (
          if vaddr / 2 ^ 30 == info.virt_region_start / 2 ^ 30
          then (if leb info.virt_region_start vaddr
              then some (info.phys_region_start + (vaddr - info.virt_region_start))
              else none)
          else some (vaddr % 2 ^ 34))
  unfolding put
  mega_pages l1 l2 at_l1 at_l2 aligned lt small canonical high end room virt phys =
      let made = with_mega_pages place info.phys_region_start l1 l2 in
      let j = vaddr / 2 ^ 21 % 2 ^ 9 in
      let base = info.phys_region_start + (j - l2) * 2 ^ 21 in
      let second = fill_at (leaf info.phys_region_start 21 l2) (2 ^ 9 - l2) l2 zeroed.l2pt j in
      elim (Bool-cases (vaddr / 2 ^ 30 == info.virt_region_start / 2 ^ 30)) [
        | inl same ↦
            let next =
              translate-next place made vaddr (made.l2pt j)
                (ground (arith, pte_create_next_lem place aligned lt)) aligned lt refl in
            elim (Bool-cases (leb info.virt_region_start vaddr)) [
              | inl above ↦
                  let page : page_after rv64 info.phys_region_start (j - l2) 21 ≡ base =
                    page_after_lem info.phys_region_start (j - l2) 21 (omega arith)
                      (ground arith) in
                  let entry : pte_create_leaf rv64 base ≡ base / 2 ^ 12 * 2 ^ 10 + 0xcf =
                    pte_create_leaf_lem base (ground arith) (ground arith) in
                  let found : made.l2pt j ≡ base / 2 ^ 12 * 2 ^ 10 + 0xcf =
                    second ∙ rw (page, entry) (ground arith) in
                  rw (same, above) (next ∙ rw found (ground arith))
              | inr below ↦
                  let missing : made.l2pt j ≡ 0 = second ∙ ground arith in
                  rw (same, below) (next ∙ rw missing (ground arith))
            ]
        | inr other ↦ rw other (translate-alias place made vaddr (ground arith))
      ]

  -- For three levels on a 64-bit machine, zeroed tables, a second table in a page below 2 ^ 56, and a
  -- kernel whose virtual addresses start in the top 2 GiB and whose physical ones start 2 GiB or more
  -- below 2 ^ 56: map_kernel_window aborts exactly when boot_map does, and otherwise makes tables that
  -- translate every address of Sv39 as boot_map says, faults included.
  pub map_kernel_window-refines-boot_map :
      place % 2 ^ 12 ≡ 0
      → place < 2 ^ 56
      → vaddr < 2 ^ 64
      → is_canonical vaddr ≡ true
      → 2 ^ 64 - 2 ^ 31 ≤ info.virt_region_start
      → info.virt_region_start < 2 ^ 64
      → info.phys_region_start + 2 ^ 31 ≤ 2 ^ 56
      → (map_kernel_window rv64 3 place info zeroed >>= λ made. done (translate place made vaddr))
        ≡ boot_map info vaddr
  unfolding map_kernel_window boot_map virt_phys_aligned pt_index pt_index_bits ppn_high
      pte_level_bits
  map_kernel_window-refines-boot_map aligned lt small canonical high end room =
      let virt = info.virt_region_start in
      let phys = info.phys_region_start in
      rw (bit_and_mask 30 virt, bit_and_mask 30 phys, bit_and_mask 21 virt, bit_and_mask 21 phys)
        (elim (Bool-cases (virt % 2 ^ 30 == 0 && phys % 2 ^ 30 == 0)) [
          | inl giant ↦ rw giant (
              ap done (
                giant_pages (virt / 2 ^ 30 % 2 ^ 9) refl small canonical high end room
                  (ground arith) (ground arith)))
          | inr small_pages ↦ elim (Bool-cases (virt % 2 ^ 21 == 0 && phys % 2 ^ 21 == 0)) [
            | inl mega ↦
                rw (small_pages, mega)
                  (ap done (
                    mega_pages (virt / 2 ^ 30 % 2 ^ 9) (virt / 2 ^ 21 % 2 ^ 9) refl refl aligned lt
                      small canonical high end room (ground arith) (ground arith)))
            | inr unaligned ↦ rw (small_pages, unaligned) refl
          ]
        ])
