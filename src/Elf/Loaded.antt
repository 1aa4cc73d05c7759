-- ===== src/Elf/Loaded.antt =====
-- The memory that elf_loadFile of src/binaries/elf/elf.c leaves, byte by byte, from the file alone.
pub mod File
use se_l4_tools.Common.{
  ℕ, zero, suc, ◌+◌, ◌-◌, ◌*◌, ◌%◌, ◌^◌, ◌≤◌, ◌<◌, ◌≡◌, refl, sym, ap, ◌∙◌, fun_ext, arith, ◌==◌,
  pos, ltb, ◌&&◌, if◌then◌else◌, Bool, true, false, Bool-cases, inl, inr, done,
}
use se_l4_tools.Memory.{Kernel, kernel_32, kernel_64, word_mod, Memory, IsBytes}
use se_l4_tools.Strops.Bytes.{
  within, Disjoint, fill_bytes, fill_bytes_at, fill_bytes-IsBytes, copy_bytes, copy_bytes_at,
  copy_bytes-IsBytes,
}
use se_l4_tools.Strops.{memset, memcpy}
use se_l4_tools.Strops.Memset.{memset-fill_bytes}
use se_l4_tools.Strops.Memcpy.{memcpy-copy_bytes}
use se_l4_tools.Elf.Generic
use se_l4_tools.Elf.Frame.{Agree, header_size, entry_size, table_at, num-lt}
use se_l4_tools.Elf.Frame.Headers.{HeadersAgree, area-HeadersAgree}
use se_l4_tools.Elf.Load.{load_segment, load_segments, load_file}

module _ (k : Kernel) (phys : Bool) (m : Memory) (elf : ℕ) where
  abbrev pub count : ℕ
  count = Generic.get_num_program_headers k m elf

  -- Where a segment goes, how much memory it has, where its bytes come from and how many there are.
  abbrev pub start : ℕ → ℕ
  start i = Generic.header_start k m elf phys i

  abbrev pub size : ℕ → ℕ
  size i = Generic.get_program_header_memory_size k m elf i

  abbrev pub origin : ℕ → ℕ
  origin i = elf + Generic.get_program_header_offset k m elf i

  abbrev pub bytes_of : ℕ → ℕ
  bytes_of i = Generic.get_program_header_file_size k m elf i

  -- The byte at `q` behind the first `n` segments: it is from the last segment that has it.
  unfoldable pub loaded : ℕ → Memory
  loaded zero q = m q
  loaded (suc n) q =
      if within (start n) (size n) q
      then (if within (start n) (bytes_of n) q then m (origin n + (q - start n)) else 0)
      else loaded n q

  -- No segment goes over the file's headers or the bytes of a segment in the file, has more bytes in
  -- the file than in memory, or reaches the end of the machine's words.
  pub record IsLoadable : Type 0 where
    pub header : (i : ℕ) → i < count → Disjoint elf header_size (start i) (size i)
    pub table :
        (i : ℕ)
        → i < count
        → Disjoint (table_at k m elf) (count * entry_size m elf) (start i) (size i)
    pub source :
        (i j : ℕ) → i < count → j < count → Disjoint (origin i) (bytes_of i) (start j) (size j)
    pub shorter : (i : ℕ) → i < count → bytes_of i ≤ size i
    pub fits : (i : ℕ) → i < count → start i + size i < word_mod k
    pub readable : (i : ℕ) → i < count → origin i < word_mod k

module _ (k : Kernel) (phys : Bool) (m : Memory) (elf : ℕ) (hm : IsBytes m)
    (a : IsLoadable k phys m elf) where
  abbrev pub n_headers : ℕ
  n_headers = count k phys m elf

  abbrev pub from : ℕ → ℕ
  from i = start k phys m elf i

  abbrev pub room : ℕ → ℕ
  room i = size k phys m elf i

  -- Memories that are the same outside the segments.
  abbrev pub SameOutside : Memory → Type 0
  SameOutside m' =
      (q : ℕ) → ((j : ℕ) → j < n_headers → within (from j) (room j) q ≡ false) → m q ≡ m' q

  outside-Agree :
      (m' : Memory) (base n : ℕ)
      → SameOutside m'
      → ((j : ℕ) → j < n_headers → Disjoint base n (from j) (room j))
      → Agree m m' base n
  outside-Agree m' base n h apart q low high = h q (λ j lt. ground (arith, apart j lt))

  pub same_headers : (m' : Memory) → SameOutside m' → HeadersAgree k m m' elf n_headers
  same_headers m' h =
      area-HeadersAgree k m m' elf n_headers (omega (arith, num-lt k m elf hm))
        (outside-Agree m' elf header_size h a.header)
        (outside-Agree m' (table_at k m elf) (n_headers * entry_size m elf) h a.table)

  pub loaded-outside : (n : ℕ) → n ≤ n_headers → SameOutside (loaded k phys m elf n)
  unfolding loaded
  loaded-outside zero le q out = refl
  loaded-outside (suc n) le q out =
      let apart = out n (omega arith) in rw apart (loaded-outside n (omega arith) q out)

  pub loaded-IsBytes : (n : ℕ) → IsBytes (loaded k phys m elf n)
  unfolding loaded
  loaded-IsBytes zero q = hm q
  loaded-IsBytes (suc n) q =
      let i = origin k phys m elf n + (q - from n) in ground (arith, hm i, loaded-IsBytes n q)

  -- The copy and the zeros of one round, over the segments before it.
  abbrev pub copied : ℕ → Memory
  copied i =
      copy_bytes (loaded k phys m elf i) (from i) (origin k phys m elf i) (bytes_of k phys m elf i)

  copied_at :
      (i q : ℕ)
      → i < n_headers
      → copied i q ≡ (
          if within (from i) (bytes_of k phys m elf i) q
          then m (origin k phys m elf i + (q - from i))
          else loaded k phys m elf i q)
  copied_at i q lt =
      let before = loaded k phys m elf i in
      let src = origin k phys m elf i in
      let len = bytes_of k phys m elf i in
      let apart : Disjoint (from i) len src len =
        ground (arith, a.source i i lt lt, a.shorter i lt) in
      elim (Bool-cases (within (from i) len q)) [
        | inl here ↦
            let same : m (src + (q - from i)) ≡ before (src + (q - from i)) =
              outside-Agree before src len (loaded-outside i (omega arith))
                (λ j lt'. a.source i j lt lt') (src + (q - from i)) (omega arith) (ground arith) in
            copy_bytes_at before (from i) src len q (loaded-IsBytes i) apart ∙ rw here (sym same)
        | inr elsewhere ↦
            copy_bytes_at before (from i) src len q (loaded-IsBytes i) apart ∙ rw elsewhere refl
      ]

  pub copied-outside : (i : ℕ) → i < n_headers → SameOutside (copied i)
  copied-outside i lt q out =
      let apart : within (from i) (bytes_of k phys m elf i) q ≡ false =
        ground (arith, out i lt, a.shorter i lt) in
      loaded-outside i (omega arith) q out ∙ sym (copied_at i q lt ∙ rw apart refl)

  pub zeros :
      (i : ℕ)
      → i < n_headers
      → fill_bytes
          (copied i)
          (from i + bytes_of k phys m elf i)
          0
          (room i - bytes_of k phys m elf i)
        ≡ loaded k phys m elf (suc i)
  unfolding loaded
  zeros i lt = fun_ext λ q.
      fill_bytes_at (copied i) (from i + bytes_of k phys m elf i) 0
        (room i - bytes_of k phys m elf i) q
      ∙ rw (copied_at i q lt) (ground (arith, a.shorter i lt))
