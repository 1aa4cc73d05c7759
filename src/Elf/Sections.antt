-- ===== src/Elf/Sections.antt =====
-- Section lookup by name, and the two ways to read a 64-bit program header.
use native.Mathlib.Nat.{mod-eq_of_lt}
use se_l4_tools.Common.{
  ℕ, zero, suc, ◌+◌, ◌%◌, ◌^◌, ◌≤◌, ◌<◌, ◌≡◌, ◌≢◌, ◌⊎◌, inl, inr, refl, sym, ◌∙◌, ◌==◌, arith, some,
  pos, negsuc, ℤ, Bool-cases, List, length, bit_or_fields, ◌↔◌, fun_ext,
}
use se_l4_tools.Memory.{Kernel, Memory, IsBytes, load, load-lt, load_split}
use se_l4_tools.Strops.{strcmp}
use se_l4_tools.Strops.Text.{IsText, compare_texts, strcmp-compare_texts, strcmp-zero_iff}
use se_l4_tools.Elf.Format.{named_loop, is_elf32}
use se_l4_tools.Elf.Generic.{get_num_sections, get_section_name, get_section, get_section_named}
use se_l4_tools.Elf.Elf32
use se_l4_tools.Elf.Elf64
use se_l4_tools.Elf.Elf64.{read64}

-- On bytes the two halves make up the word, so the alignment of a field does not matter.
pub read64-load : (m : Memory) (addr : ℕ) → IsBytes m → read64 m addr ≡ load 8 m addr
unfolding read64
read64-load m addr h = elim (Bool-cases (addr % 8 == 0)) [
  | inl aligned ↦ rw aligned refl
  | inr apart ↦ rw apart (
      ground (
        arith,
        load-lt 4 m addr h,
        load-lt 4 m (addr + 4) h,
        load_split 4 4 m addr,
        bit_or_fields 32 (load 4 m (addr + 4)) (load 4 m addr),
      ))
]

-- What a lookup may answer: the first section of that name, or NULL where no section has it.
abbrev pub Finds : ((i : ℕ) → List ℕ) → (section : ℕ → ℕ) → List ℕ → (i end r : ℕ) → Type 0
Finds names section name i end r =
    ((j : ℕ) × (i ≤ j)
      × (j < end)
      × (names j ≡ name)
      × (r ≡ section j)
      × ((l : ℕ) → i ≤ l → l < j → names l ≢ name))
    ⊎ ((r ≡ 0) × ((l : ℕ) → i ≤ l → l < end → names l ≢ name))

Finds-skip :
    (names : ℕ → List ℕ) (section : ℕ → ℕ) (name : List ℕ) (i end r : ℕ)
    → names i ≢ name
    → Finds names section name (i + 1) end r
    → Finds names section name i end r
Finds-skip names section name i end r ne (inl (j, p, q, e, e', all)) =
    inl (j, omega arith, q, e, e', λ l a b z. ground (arith, all l))
Finds-skip names section name i end r ne (inr (e, all)) = inr (e, λ l a b z. ground (arith, all l))

module _ (m : Memory) (str f : ℕ) (name : List ℕ) (t : IsText m str name) (fuel : length name < f)
    (name_at section : ℕ → ℕ) (names : ℕ → List ℕ) (end : ℕ)
    (readable : (i : ℕ) → i < end → IsText m (name_at i) (names i)) where
  named_loop_hit :
      (left i : ℕ)
      → strcmp f m str (name_at i) ≡ some (pos 0)
      → named_loop m name_at section str f (suc left) i ≡ some (section i)
  unfolding named_loop
  named_loop_hit left i e = ground arith

  named_loop_miss :
      (left i : ℕ) (r : ℤ)
      → strcmp f m str (name_at i) ≡ some r
      → r ≢ pos 0
      → named_loop m name_at section str f (suc left) i
        ≡ named_loop m name_at section str f left (i + 1)
  unfolding named_loop
  named_loop_miss left i (pos zero) e ne = absurd (ne refl)
  named_loop_miss left i (pos (suc d)) e ne = ground arith
  named_loop_miss left i (negsuc d) e ne = ground arith

  named_loop-Finds :
      (left i : ℕ)
      → i + left ≡ end
      → (r : ℕ) × (named_loop m name_at section str f left i ≡ some r)
        × Finds names section name i end r
  unfolding named_loop
  named_loop-Finds zero i e = (0, refl, inr (refl, λ l p q. absurd (omega arith)))
  named_loop-Finds (suc left) i e =
      round (compare_texts name (names i)) order (named_loop-Finds left (i + 1) (omega arith))
    where
      text : IsText m (name_at i) (names i)
      text = readable i (omega arith)

      order : strcmp f m str (name_at i) ≡ some (compare_texts name (names i))
      order = strcmp-compare_texts f m str (name_at i) name (names i) t text fuel

      same : (strcmp f m str (name_at i) ≡ some (pos 0)) ↔ (name ≡ names i)
      same = strcmp-zero_iff f m str (name_at i) name (names i) t text fuel

      Answer : ℕ → ℕ → Type 0
      Answer n j =
          (r : ℕ) × (named_loop m name_at section str f n j ≡ some r)
          × Finds names section name j end r

      miss :
          (r : ℤ)
          → strcmp f m str (name_at i) ≡ some r
          → r ≢ pos 0
          → Answer left (i + 1)
          → Answer (suc left) i
      miss r e' ne (s, run, found) = (
        s,
        named_loop_miss left i r e' ne ∙ run,
        Finds-skip names section name i end s (λ z. ne (cc (same.1 (sym z)))) found,
      )

      round :
          (r : ℤ) → strcmp f m str (name_at i) ≡ some r → Answer left (i + 1) → Answer (suc left) i
      round (pos zero) e' rest = (
        section i,
        named_loop_hit left i e',
        inl (i, omega arith, omega arith, sym (same.0 e'), refl, λ l p q. absurd (omega arith)),
      )
      round (pos (suc d)) e' rest = miss _ e' (λ z. cc) rest
      round (negsuc d) e' rest = miss _ e' (λ z. cc) rest

-- elf_getSectionNamed ends, and returns the first section whose name is the text at `str`, or
-- NULL where there is none. `names` are the texts that elf_getSectionName points to.
-- The fuel is above the length of the text at `str`.
pub get_section_named-Finds :
    (k : Kernel) (m : Memory) (file corrupted str f : ℕ) (name : List ℕ) (names : ℕ → List ℕ)
    → IsText m str name
    → length name < f
    → ((i : ℕ)
        → i < get_num_sections k m file
        → IsText m (get_section_name k m file corrupted i) (names i))
    → (r : ℕ) × (get_section_named k m file corrupted str f ≡ some r)
      × Finds names (get_section k m file) name 0 (get_num_sections k m file) r
get_section_named-Finds k m file corrupted str f name names t fuel readable =
    let n = get_num_sections k m file in
    let (r, run, found) =
      named_loop-Finds m str f name t fuel (get_section_name k m file corrupted)
        (get_section k m file) names n readable n 0 (omega arith) in
    (r, named_loop_lem ∙ run, found)
  where
    named_loop_lem :
        get_section_named k m file corrupted str f
        ≡ named_loop m
            (get_section_name k m file corrupted)
            (get_section k m file)
            str
            f
            (get_num_sections k m file)
            0
    named_loop_lem = elim (Bool-cases (is_elf32 m file)) [
      | inl c ↦
          let name_at : get_section_name k m file corrupted
              ≡ Elf32.get_section_name k m file corrupted =
            fun_ext (λ i. unfold get_section_name in rw c refl) in
          let at : get_section k m file ≡ Elf32.get_section k m file =
            fun_ext (λ i. unfold get_section in rw c refl) in
          rw (name_at, at)
            (unfold get_section_named get_num_sections Elf32.get_section_named in rw c refl)
      | inr c ↦
          let name_at : get_section_name k m file corrupted
              ≡ Elf64.get_section_name k m file corrupted =
            fun_ext (λ i. unfold get_section_name in rw c refl) in
          let at : get_section k m file ≡ Elf64.get_section k m file =
            fun_ext (λ i. unfold get_section in rw c refl) in
          rw (name_at, at)
            (unfold get_section_named get_num_sections Elf64.get_section_named in rw c refl)
    ]

-- elf64_getSegmentInfo, which reads the fields as they stand, and the accessors of elf64.h, which
-- read each in two halves where it is not aligned, agree on every program header.
-- Memory holds bytes, and the index has 16 bits.
pub get_segment_info-eq :
    (k : Kernel) (m : Memory) (file ph : ℕ)
    → IsBytes m
    → ph < 2 ^ 16
    → Elf64.get_segment_info k m file ph ≡ (
      Elf64.get_program_header_vaddr k m file ph,
      Elf64.get_program_header_paddr k m file ph,
      Elf64.get_program_header_file_size k m file ph,
      Elf64.get_program_header_offset k m file ph,
      Elf64.get_program_header_memory_size k m file ph,
    )
unfolding Elf64.get_segment_info Elf64.get_program_header_vaddr Elf64.get_program_header_paddr
    Elf64.get_program_header_file_size Elf64.get_program_header_offset
    Elf64.get_program_header_memory_size
get_segment_info-eq k m file ph h lt =
    let words : read64 m ≡ load 8 m = fun_ext (λ a. read64-load m a h) in
    rw (words, mod-eq_of_lt lt) refl
