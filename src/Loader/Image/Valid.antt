-- ===== src/Loader/Image/Valid.antt =====
-- The image of a valid file: its segments lie between the bounds that unpack_elf_to_paddr of src/common.c
-- takes from elf_getMemoryBounds, so they have their places in the image's area.
use se_l4_tools.Common.{
  ℕ, ◌+◌, ◌-◌, ◌*◌, ◌%◌, ◌^◌, ◌≤◌, ◌<◌, ◌≡◌, sym, ap, ◌∙◌, arith, true, false, done, some, pos,
}
use mathlib.Core.Path.{subst}
use se_l4_tools.Memory.{Kernel, kernel_32, kernel_64, word_mod, Memory, IsBytes}
use se_l4_tools.Strops.Bytes.{Disjoint}
use se_l4_tools.Elf.Generic
use se_l4_tools.Elf.Bounds.{NoWrap, Within, get_memory_bounds-least}
use se_l4_tools.Elf.Frame.{header_size, entry_size, table_at}
use se_l4_tools.Loader.{unpack_elf_to_paddr, bounds_or}
use se_l4_tools.Loader.Image.{
  IsApart, place, origin, bytes_of, is_loaded, image, cleared, unpack_elf_to_paddr-image,
}

-- A file, apart from the area of the image, with no more bytes in a segment than the segment has memory.
pub record IsSound (k : Kernel) (m : Memory) (elf dest size : ℕ) : Type 0 where
  pub header : Disjoint elf header_size dest size
  pub table :
      Disjoint
        (table_at k m elf)
        (Generic.get_num_program_headers k m elf * entry_size m elf)
        dest
        size
  pub source :
      (i : ℕ)
      → i < Generic.get_num_program_headers k m elf
      → is_loaded k m elf i ≡ true
      → Disjoint (origin k m elf i) (bytes_of k m elf i) dest size
  pub shorter :
      (i : ℕ)
      → i < Generic.get_num_program_headers k m elf
      → is_loaded k m elf i ≡ true
      → Generic.get_program_header_file_size k m elf i
        ≤ Generic.get_program_header_memory_size k m elf i

-- The address of a segment in the image.
placed_at :
    (k : Kernel) (lo hi dest v n : ℕ)
    → lo ≤ v
    → v + n ≤ hi
    → hi ≤ word_mod k
    → 0 < n
    → dest + (hi - lo) ≤ word_mod k
    → (v % word_mod k + (dest + word_mod k - lo % word_mod k) % word_mod k) % word_mod k
      ≡ dest + (v - lo)
placed_at kernel_32 lo hi dest v n low high word some_bytes room = omega arith
placed_at kernel_64 lo hi dest v n low high word some_bytes room = omega arith

size_of :
    (k : Kernel) (lo hi : ℕ)
    → lo ≤ hi
    → hi ≤ word_mod k
    → hi - lo < word_mod k
    → (hi + 2 ^ 64 - lo) % 2 ^ 64 % word_mod k ≡ hi - lo
size_of kernel_32 lo hi le word small = omega arith
size_of kernel_64 lo hi le word small = omega arith

below_word : (k : Kernel) (n : ℕ) → n % word_mod k ≤ n
below_word kernel_32 n = omega arith
below_word kernel_64 n = omega arith

module _ (k : Kernel) (lo hi dest : ℕ) (m : Memory) (elf : ℕ)
    (within : Within k m elf false 0 (Generic.get_num_program_headers k m elf) lo hi)
    (word : hi ≤ word_mod k) (room : dest + (hi - lo) ≤ word_mod k)
    (sound : IsSound k m elf dest (hi - lo)) where
  abbrev offset : ℕ
  offset = (dest + word_mod k - lo % word_mod k) % word_mod k

  segment_inside :
      (i : ℕ)
      → i < Generic.get_num_program_headers k m elf
      → is_loaded k m elf i ≡ true
      → 0 < bytes_of k m elf i
      → (dest ≤ place k offset m elf i)
        × (place k offset m elf i + bytes_of k m elf i ≤ dest + (hi - lo))
  unfolding Generic.header_start
  segment_inside i lt load some_bytes =
      let n = Generic.get_program_header_memory_size k m elf i in
      let v = Generic.get_program_header_vaddr k m elf i in
      let cut = below_word k (Generic.get_program_header_file_size k m elf i) in
      let short = sound.shorter i lt load in
      let (low, high) = within i (omega arith) lt (omega arith) in
      let at = placed_at k lo hi dest v n low high word (omega arith) room in
      (omega arith, omega arith)

  sound-IsApart : IsApart k offset m elf dest (hi - lo)
  sound-IsApart = record {
    header = sound.header;
    table = sound.table;
    source = sound.source;
    inside = segment_inside;
  }

-- The bounds of a valid file give its segments their places.
pub valid-IsApart :
    (k : Kernel) (elf dest_paddr : ℕ) (m : Memory) (lo hi : ℕ)
    → Generic.check_file m elf ≡ pos 0
    → NoWrap k m elf false
    → Generic.get_memory_bounds k m elf false ≡ some (lo, hi)
    → hi ≤ word_mod k
    → dest_paddr + (hi - lo) ≤ word_mod k
    → IsSound k m elf dest_paddr (hi - lo)
    → IsApart k
        ((dest_paddr + word_mod k - lo % word_mod k) % word_mod k)
        m
        elf
        dest_paddr
        (hi - lo)
unfolding bounds_or
valid-IsApart k elf dest m lo hi valid ok bounds word room sound =
    let (r, found, inside, least) = get_memory_bounds-least k m elf false valid ok in
    let same : r ≡ (lo, hi) = ap (bounds_or (lo, hi)) (sym found ∙ bounds) in
    let inside' =
      subst (λ b. Within k m elf false 0 (Generic.get_num_program_headers k m elf) b.0 b.1) same
        inside in
    sound-IsApart k lo hi dest m elf inside' word room sound

-- On bytes, for a valid file whose segments do not wrap around the 64-bit address space, with the bounds
-- `lo` and `hi` of its virtual addresses within the machine's words, put where its image fits, apart from
-- the file's headers and data, and with no segment longer in the file than in memory:
-- unpack_elf_to_paddr ends without an abort, and each byte of the memory is then that of the last
-- loadable segment that reaches it, read from the file as it was, 0 where none does in the hi - lo bytes
-- of the image, and unchanged elsewhere.
pub unpack_elf_to_paddr-valid_image :
    (k : Kernel) (junk : ℕ × ℕ) (elf dest_paddr : ℕ) (m : Memory) (lo hi : ℕ)
    → IsBytes m
    → Generic.check_file m elf ≡ pos 0
    → NoWrap k m elf false
    → Generic.get_memory_bounds k m elf false ≡ some (lo, hi)
    → lo ≤ hi
    → hi ≤ word_mod k
    → hi - lo < word_mod k
    → dest_paddr + (hi - lo) ≤ word_mod k
    → IsSound k m elf dest_paddr (hi - lo)
    → unpack_elf_to_paddr k junk elf dest_paddr m
      ≡ done (
          image k
            ((dest_paddr + word_mod k - lo % word_mod k) % word_mod k)
            m
            elf
            (cleared m dest_paddr (hi - lo))
            (Generic.get_num_program_headers k m elf))
unfolding bounds_or
unpack_elf_to_paddr-valid_image k junk elf dest m lo hi h valid ok bounds le word small room sound =
    let general = unpack_elf_to_paddr-image k junk elf dest m h in
    let general' = rw (bounds, size_of k lo hi le word small) at general in
    general' (valid-IsApart k elf dest m lo hi valid ok bounds word room sound)
