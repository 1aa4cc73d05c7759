-- ===== src/Elf/Loaded/File.antt =====
-- elf_loadFile of src/binaries/elf/elf.c as a whole.
use se_l4_tools.Common.{
  ℕ, zero, suc, ◌+◌, ◌-◌, ◌%◌, ◌^◌, ◌≤◌, ◌<◌, ◌≡◌, refl, ap, arith, pos, ltb, Bool, true, false,
  Bool-cases, inl, inr, done,
}
use se_l4_tools.Memory.{cut_word, Kernel, kernel_32, kernel_64, word_mod, Memory, IsBytes}
use se_l4_tools.Strops.Bytes.{Disjoint}
use se_l4_tools.Strops.Memset.{memset-fill_bytes}
use se_l4_tools.Strops.Memcpy.{memcpy-copy_bytes}
use se_l4_tools.Elf.Generic
use se_l4_tools.Elf.Frame.{num-lt}
use se_l4_tools.Elf.Load.{load_segment, load_segments, load_file}
use se_l4_tools.Elf.Loaded.{
  count, start, size, origin, bytes_of, loaded, IsLoadable, same_headers, loaded-outside,
  loaded-IsBytes, copied, copied-outside, zeros,
}

cut_double : (k : Kernel) (n : ℕ) → n < word_mod k → n % 2 ^ 64 ≡ n
cut_double kernel_32 n lt = omega arith
cut_double kernel_64 n lt = omega arith

rest_size :
    (k : Kernel) (s b : ℕ) → b ≤ s → s < word_mod k → (s + 2 ^ 64 - b) % 2 ^ 64 % word_mod k ≡ s - b
rest_size kernel_32 s b le lt = omega arith
rest_size kernel_64 s b le lt = omega arith

module _ (k : Kernel) (phys : Bool) (m : Memory) (elf : ℕ) (hm : IsBytes m)
    (a : IsLoadable k phys m elf) where
  -- One round, over the segments before it.
  segment-loaded :
      (i : ℕ)
      → i < count k phys m elf
      → load_segment k elf phys i (loaded k phys m elf i) ≡ done (loaded k phys m elf (suc i))
  unfolding load_segment
  segment-loaded i lt =
      let before = loaded k phys m elf i in
      let src = origin k phys m elf i in
      let len = bytes_of k phys m elf i in
      let was =
        same_headers k phys m elf hm a before (loaded-outside k phys m elf hm a i (omega arith)) in
      let now =
        same_headers k phys m elf hm a (copied k phys m elf hm a i)
          (copied-outside k phys m elf hm a i lt) in
      let short = a.shorter i lt in
      let fit = a.fits i lt in
      let apart : Disjoint (start k phys m elf i) len src len =
        ground (arith, a.source i i lt lt) in
      rw
        (
          ← was.start phys i lt,
          ← was.file_size i lt,
          ← was.offset i lt,
          cut_double k src (a.readable i lt),
          cut_word k (start k phys m elf i) (omega arith),
          cut_word k len (omega arith),
          cut_word k src (a.readable i lt),
          memcpy-copy_bytes k before (start k phys m elf i) src len
              (loaded-IsBytes k phys m elf hm a i) apart,
          ← now.memory_size i lt,
          rest_size k (size k phys m elf i) len short (omega arith),
          cut_double k (start k phys m elf i + len) (omega arith),
          cut_word k (start k phys m elf i + len) (omega arith),
          memset-fill_bytes k (copied k phys m elf hm a i) (start k phys m elf i + len) 0
              (size k phys m elf i - len),
        )
        (ap done (zeros k phys m elf hm a i lt))

  -- The loop, from the round at `i` on.
  segments-loaded :
      (f i : ℕ)
      → i ≤ count k phys m elf
      → count k phys m elf < i + f
      → load_segments k elf phys f i (loaded k phys m elf i)
        ≡ done (loaded k phys m elf (count k phys m elf))
  unfolding load_segments
  segments-loaded zero i le enough = absurd (omega arith)
  segments-loaded (suc f) i le enough =
      let before = loaded k phys m elf i in
      let same = same_headers k phys m elf hm a before (loaded-outside k phys m elf hm a i le) in
      elim (Bool-cases (ltb i (count k phys m elf))) [
        | inl more ↦
            let more' : ltb i (Generic.get_num_program_headers k before elf) ≡ true =
              rw same.count at more in
            let next : i + 1 ≡ suc i = omega arith in
            rw (more', load_segments, segment-loaded i (ground arith), next)
              (segments-loaded f (suc i) (ground arith) (omega arith))
        | inr over ↦
            let over' : ltb i (Generic.get_num_program_headers k before elf) ≡ false =
              rw same.count at over in
            rw (over', load_segments) (ap done (ap (loaded k phys m elf) (ground arith)))
      ]

-- On bytes, for a valid file of which no segment goes over its headers or over the bytes of a segment in the
-- file, has more bytes in the file than in memory, or reaches the end of the machine's words:
-- elf_loadFile ends with the answer 1, and each byte of the memory is then that of the last segment that
-- has it, read from the file as it was where the file has it and 0 in the rest of the segment, and
-- unchanged where no segment has it.
pub load_file-loaded :
    (k : Kernel) (elf : ℕ) (phys : Bool) (m : Memory)
    → IsBytes m
    → Generic.check_file m elf ≡ pos 0
    → IsLoadable k phys m elf
    → load_file k elf phys m
      ≡ done (1, loaded k phys m elf (Generic.get_num_program_headers k m elf))
unfolding load_file loaded
load_file-loaded k elf phys m h valid a =
    rw (valid, load_file)
      (rw
        (segments-loaded k phys m elf h a (2 ^ 16) 0 (omega arith)
          (omega (arith, num-lt k m elf h)))
        refl)
