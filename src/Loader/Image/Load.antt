-- ===== src/Loader/Image/Load.antt =====
-- load_elf of src/common.c ends with the image in place.
use Prim.Native.String.{String}
use se_l4_tools.Common.{
  ℕ, ◌+◌, ◌-◌, ◌%◌, ◌^◌, ◌≤◌, ◌<◌, ◌≡◌, refl, arith, true, false, done, some, pos,
}
use se_l4_tools.Memory.{Kernel, word_mod, Memory, IsBytes}
use se_l4_tools.Elf.Generic
use se_l4_tools.Elf.Bounds.{NoWrap}
use se_l4_tools.Elf.Frame.{entry_point-Agree}
use se_l4_tools.Loader.{
  Site, hash_none, ImageInfo, is_aligned, round_up, page_bits, bounds_or, check_hash,
  ensure_phys_range_valid, finish_elf, load_elf,
}
use se_l4_tools.Loader.Regions.{is_aligned_iff}
use se_l4_tools.Loader.Image.{image, cleared, image-keeps_header}
use se_l4_tools.Loader.Image.Valid.{IsSound, valid-IsApart, unpack_elf_to_paddr-valid_image}

module _ (k : Kernel) (lo hi dest_paddr : ℕ) where
  abbrev pub offset : ℕ
  offset = (dest_paddr + word_mod k - lo % word_mod k) % word_mod k

  -- The end of the image, whose size is rounded up to pages.
  abbrev pub phys_end : ℕ
  phys_end =
      (dest_paddr + (round_up (2 ^ 64) hi page_bits + 2 ^ 64 - lo) % 2 ^ 64 % word_mod k)
      % word_mod k

  abbrev pub placed : Memory → ℕ → Memory
  placed m elf =
      image k offset m elf (cleared m dest_paddr (hi - lo))
        (Generic.get_num_program_headers k m elf)

  abbrev pub info_of : Memory → ℕ → ImageInfo
  info_of m elf = record {
    phys_region_start = dest_paddr;
    phys_region_end = phys_end;
    virt_region_start = lo % word_mod k;
    virt_region_end = round_up (2 ^ 64) hi page_bits % word_mod k;
    virt_entry = Generic.get_entry_point k m elf % word_mod k;
    phys_virt_offset = offset;
  }

-- Without a hash check and without kept headers, on bytes, for a valid file whose segments do not wrap around
-- the 64-bit address space, with the bounds `lo` and `hi` of its virtual addresses within the machine's
-- words, `lo` and the destination on a page, a physical range that the overlap test accepts, and the
-- image where it fits, apart from the file's headers and data, with no segment longer in the file than
-- in memory: load_elf ends without an abort. It leaves the image of the file, as
-- unpack_elf_to_paddr does, the record of where it stands with the entry point of the file, and the
-- next page behind it.
pub load_elf-image :
    (k : Kernel) (site : Site) (cpio_get_file : Memory → String → ℕ × ℕ)
    (cpio_get_entry : Memory → ℕ → ℕ × ℕ × ℕ) (junk : ℕ × ℕ) (elf dest_paddr : ℕ) (size : ℕ)
    (hash : String) (m : Memory) (lo hi : ℕ)
    → IsBytes m
    → Generic.check_file m elf ≡ pos 0
    → NoWrap k m elf false
    → Generic.get_memory_bounds k m elf false ≡ some (lo, hi)
    → lo ≤ hi
    → hi ≤ word_mod k
    → hi - lo < word_mod k
    → dest_paddr + (hi - lo) ≤ word_mod k
    → IsSound k m elf dest_paddr (hi - lo)
    → dest_paddr % 2 ^ page_bits ≡ 0
    → lo % 2 ^ page_bits ≡ 0
    → ensure_phys_range_valid k site dest_paddr (phys_end k lo hi dest_paddr) ≡ done tt
    → load_elf k hash_none site cpio_get_file cpio_get_entry junk elf dest_paddr false size hash m
      ≡ done (
        placed k lo hi dest_paddr m elf,
        info_of k lo hi dest_paddr m elf,
        round_up (word_mod k) (phys_end k lo hi dest_paddr) page_bits,
      )
unfolding load_elf check_hash finish_elf bounds_or
load_elf-image k site file entry junk elf dest size hash m lo hi h valid ok bounds le word small
      room sound page page' range =
    let on_page : is_aligned dest page_bits ≡ true = (is_aligned_iff dest page_bits).1 page in
    let on_word : is_aligned dest 2 ≡ true = (is_aligned_iff dest 2).1 (omega (arith, page)) in
    let lo_on_page : is_aligned lo page_bits ≡ true = (is_aligned_iff lo page_bits).1 page' in
    let apart = valid-IsApart k elf dest m lo hi valid ok bounds word room sound in
    let same = entry_point-Agree k m (placed k lo hi dest m elf) elf (
      image-keeps_header k (offset k lo hi dest) m elf dest (hi - lo) h apart
        (cleared m dest (hi - lo)) (λ q out. rw out refl)) in
    rw
      (
        bounds,
        on_page,
        on_word,
        valid,
        lo_on_page,
        range,
        unpack_elf_to_paddr-valid_image k junk elf dest m lo hi h valid ok bounds le word small room
            sound,
        same,
      )
      refl
