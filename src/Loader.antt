-- ===== src/Loader.antt =====
-- src/common.c: loading of the images in the archive. The CPIO library is not part of
-- the repository, so its two lookups are parameters: the address of a file's data, 0 where there is
-- none, its name's address and its size. Console output that does not end the run is left out.
pub mod Regions
pub mod Digest
pub mod Place
pub mod Runs
pub mod Layout
pub mod Unpack
pub mod Image
use Prim.Native.String.{String}
use se_l4_tools.Common.{
  ℕ, zero, suc, ◌+◌, ◌-◌, ◌*◌, ◌/◌, ◌%◌, ◌^◌, Bool, true, false, ltb, leb, ◌==◌, ◌&&◌,
  if◌then◌else◌, Option, none, some, ℤ, pos, negsuc, List, [], ◌∷◌, ◌++◌, Outcome, done, aborted,
  ◌>>=◌, ◌>>◌, require, bit_and,
}
use mathlib.Core.Bool.{not}
use se_l4_tools.Memory.{Kernel, word_mod, Memory, store8, store}
use se_l4_tools.Strops.{memset, memcpy, strcmp, strncmp}
use se_l4_tools.Elf.Format.{is_elf32, pt_load}
use se_l4_tools.Elf.Elf32.Struct as Struct32
use se_l4_tools.Elf.Elf64.Struct as Struct64
use se_l4_tools.Elf.Elf32
use se_l4_tools.Elf.Elf64
use se_l4_tools.Elf.Generic
use se_l4_tools.Hash.{HashMethod, sha_256, md5, bytes, get_hash}

abbrev pub page_bits : ℕ
page_bits = 12

-- `IS_ALIGNED(n, b)`
unfoldable pub is_aligned : ℕ → ℕ → Bool
is_aligned n b = bit_and n (2 ^ b - 1) == 0

-- `ROUND_UP(n, b)` in a type of numbers below `w`
unfoldable pub round_up : ℕ → ℕ → ℕ → ℕ
round_up w n b = ((n + w - 1) % w / 2 ^ b + 1) * 2 ^ b % w

unfoldable pub regions_overlap : ℕ → ℕ → ℕ → ℕ → Bool
regions_overlap start_a end_a start_b end_b =
    if ltb end_a start_b then false else if ltb end_b start_a then false else true

-- struct image_info
pub record ImageInfo : Type 0 where
  pub phys_region_start : ℕ
  pub phys_region_end : ℕ
  pub virt_region_start : ℕ
  pub virt_region_end : ℕ
  pub virt_entry : ℕ
  pub phys_virt_offset : ℕ

-- CONFIG_HASH_NONE, CONFIG_HASH_SHA and CONFIG_HASH_MD5
pub data HashConfig : Type 0 where
  hash_none hash_sha hash_md5 : HashConfig

-- What the linker and the caller's frame put in place: `_start`, `_end`, the address of
-- `calculated_hash`, and the bytes that uninitialised buffers hold.
pub record Site : Type 0 where
  pub start : ℕ
  pub end : ℕ
  pub calculated_hash : ℕ
  pub junk : List ℕ

unfoldable pub write_bytes : Memory → ℕ → List ℕ → Memory
write_bytes m p [] = m
write_bytes m p (x ∷ xs) = write_bytes (store8 m p x) (p + 1) xs

-- Variables that keep their values, `junk`, where elf_getMemoryBounds returns 0.
unfoldable pub bounds_or : ℕ × ℕ → Option (ℕ × ℕ) → ℕ × ℕ
bounds_or junk none = junk
bounds_or junk (some b) = b

-- What load_elf does after strncmp, given the archive's digest (0 is NULL) and strncmp's answer.
unfoldable pub judge_hash : ℕ → ℤ → Memory → Outcome Memory
judge_hash zero r m = aborted "Cannot compare hashes for %s, expected hash, %s, doesn't exist\n"
judge_hash (suc p) (pos zero) m = done m
judge_hash (suc p) (pos (suc d)) m = aborted "Hashes are different. Load failure\n"
judge_hash (suc p) (negsuc d) m = aborted "Hashes are different. Load failure\n"

-- `r == 0`
abbrev pub is_zero : ℤ → Bool
is_zero (pos zero) = true
is_zero (pos (suc d)) = false
is_zero (negsuc d) = false

abbrev out_of_rounds : String
out_of_rounds = "The model's fuel for the program headers is used up."

module _ (k : Kernel) where
  unfoldable pub ensure_phys_range_valid : Site → ℕ → ℕ → Outcome (Unit {0})
  ensure_phys_range_valid site paddr_min paddr_max =
      let w = word_mod k in
      require
        (not
          (regions_overlap paddr_min ((paddr_max + w - 1) % w) site.start ((site.end + w - 1) % w)))
        "Kernel load address would overlap ELF-loader!\n"

  -- The body of the loop of unpack_elf_to_paddr.
  unfoldable pub unpack_segment : ℕ → ℕ → ℕ → Memory → Outcome Memory
  unpack_segment elf phys_virt_offset i m =
      elim (Generic.get_program_header_type k m elf i == pt_load) [
        | true ↦
            let dest_vaddr = Generic.get_program_header_vaddr k m elf i % word_mod k in
            let data_size = Generic.get_program_header_file_size k m elf i % word_mod k in
            let data_offset = Generic.get_program_header_offset k m elf i % word_mod k in
            memcpy k m ((dest_vaddr + phys_virt_offset) % word_mod k)
              ((elf + data_offset) % word_mod k) data_size
        | false ↦ done m
      ]

  -- The round at `i`; the fuel 2 ^ 16 is above every e_phnum. To run out of it is an end of its own,
  -- which the source does not have.
  unfoldable pub unpack_segments : ℕ → ℕ → ℕ → ℕ → Memory → Outcome Memory
  unpack_segments zero elf phys_virt_offset i m = aborted out_of_rounds
  unpack_segments (suc f) elf phys_virt_offset i m =
      elim (ltb i (Generic.get_num_program_headers k m elf)) [
        | true ↦ unpack_segment elf phys_virt_offset i m >>= λ m'.
            unpack_segments f elf phys_virt_offset (i + 1) m'
        | false ↦ done m
      ]

  unfoldable pub unpack_elf_to_paddr : ℕ × ℕ → ℕ → ℕ → Memory → Outcome Memory
  unpack_elf_to_paddr junk elf dest_paddr m =
      let w = word_mod k in
      let (min_vaddr, max_vaddr) = bounds_or junk (Generic.get_memory_bounds k m elf false) in
      let image_size = (max_vaddr + 2 ^ 64 - min_vaddr) % 2 ^ 64 % w in
      let phys_virt_offset = (dest_paddr + w - min_vaddr % w) % w in
      unpack_segments (2 ^ 16) elf phys_virt_offset 0 (memset k m dest_paddr 0 image_size)

  -- The end of load_elf with `keep_headers`: the number, the size and a copy of the headers.
  unfoldable pub put_headers : ℕ → ℕ → Memory → Outcome Memory
  put_headers elf dest_paddr m =
      let w = word_mod k in
      let phnum = Generic.get_num_program_headers k m elf in
      let phsize =
        if is_elf32 m elf
        then (Struct32.header m elf).e_phentsize
        else (Struct64.header m elf).e_phentsize in
      let source_paddr =
        if is_elf32 m elf
        then Elf32.get_program_header_table k m elf
        else Elf64.get_program_header_table k m elf in
      let m1 = store 4 m dest_paddr phnum in
      let m2 = store 4 m1 ((dest_paddr + 4) % w) phsize in
      memcpy k m2 ((dest_paddr + 8) % w) source_paddr (phsize * phnum % 2 ^ 32)

  module _ (config : HashConfig) (site : Site) (cpio_get_file : Memory → String → ℕ × ℕ)
      (cpio_get_entry : Memory → ℕ → ℕ × ℕ × ℕ) where
    unfoldable pub compare_hash : HashMethod → ℕ → Memory → ℕ → ℕ → String → Outcome Memory
    compare_hash method hash_len m elf size hash =
        let file_hash = (cpio_get_file m hash).0 in
        let calculated =
          get_hash (record { junk = site.junk; hash_type = method }) (bytes m elf size) in
        let m' = write_bytes m site.calculated_hash calculated in
        judge_hash file_hash (strncmp m' file_hash site.calculated_hash hash_len) m'

    unfoldable pub check_hash : Memory → ℕ → ℕ → String → Outcome Memory
    check_hash m elf size hash = elim config [
      | hash_none ↦ done m
      | hash_sha ↦ compare_hash sha_256 32 m elf size hash
      | hash_md5 ↦ compare_hash md5 16 m elf size hash
    ]

    -- The end of load_elf, with the image in place.
    unfoldable pub finish_elf : ImageInfo → ℕ → ℕ → Bool → Memory → Outcome (Memory × ImageInfo × ℕ)
    finish_elf info next elf true m =
        put_headers elf next m >>= λ m'. done (m', info, (next + 2 ^ page_bits) % word_mod k)
    finish_elf info next elf false m = done (m, info, next)

    unfoldable pub load_elf :
        ℕ × ℕ → ℕ → ℕ → Bool → ℕ → String → Memory → Outcome (Memory × ImageInfo × ℕ)
    load_elf junk elf dest_paddr keep_headers size hash m =
        let w = word_mod k in
        let (min_vaddr, max) = bounds_or junk (Generic.get_memory_bounds k m elf false) in
        let max_vaddr = round_up (2 ^ 64) max page_bits in
        let image_size = (max_vaddr + 2 ^ 64 - min_vaddr) % 2 ^ 64 % w in
        let phys_end = (dest_paddr + image_size) % w in
        require (is_aligned dest_paddr page_bits)
          "Attempting to load ELF at unaligned physical address!\n"
        >> require (is_aligned dest_paddr 2) "Input ELF file not 4-byte aligned in memory!\n"
        >> check_hash m elf size hash
        >>= λ m1.
            require (is_zero (Generic.check_file m1 elf))
              "Attempting to load invalid ELF file '%s'.\n"
            >> require (is_aligned min_vaddr page_bits) "Start of image '%s' is not 4K-aligned!\n"
            >> ensure_phys_range_valid site dest_paddr phys_end
            >> unpack_elf_to_paddr junk elf dest_paddr m1
            >>= λ m2.
                finish_elf
                  (record {
                    phys_region_start = dest_paddr;
                    phys_region_end = phys_end;
                    virt_region_start = min_vaddr % w;
                    virt_region_end = max_vaddr % w;
                    virt_entry = Generic.get_entry_point k m2 elf % w;
                    phys_virt_offset = (dest_paddr + w - min_vaddr % w) % w;
                  })
                  (round_up w phys_end page_bits) elf keep_headers m2

    -- The loop of load_images at the user image `i`, with `max_user_images - i` rounds left. The
    -- answer holds the records in the order of user_info.
    unfoldable pub load_user_images : ℕ × ℕ → ℕ → ℕ → ℕ → Memory → Outcome (Memory × List ImageInfo)
    load_user_images junk zero i next_phys_addr m = done (m, [])
    load_user_images junk (suc left) i next_phys_addr m =
        let (user_elf, elf_filename, size) = cpio_get_entry m (i + 1) in
        elim (user_elf == 0) [
          | true ↦ done (m, [])
          | false ↦
              load_elf junk user_elf next_phys_addr true size "app.bin" m >>= λ (m', info, next).
              load_user_images junk left (i + 1) next m' >>= λ (m'', infos).
              done (m'', info ∷ infos)
        ]

    -- load_images behind the load of the kernel; `kernel_name` is the address of "kernel.elf", and
    -- `f` is the fuel of strcmp.
    unfoldable pub load_rest :
        ℕ
        → ℕ
        → ℕ × ℕ
        → ℕ
        → Memory × ImageInfo × ℕ
        → Option (Outcome (Memory × ImageInfo × List ImageInfo))
    load_rest f kernel_name junk max_user_images (m, kernel_info, next_phys_addr) =
        elim (strcmp f m (cpio_get_entry m 0).1 kernel_name) [
          | none ↦ none
          | some r ↦ some (
              require (is_zero r) "Kernel image not first image in archive.\n"
              >> load_user_images junk max_user_images 0 next_phys_addr m
              >>= λ (m', infos). done (m', kernel_info, infos))
        ]

    unfoldable pub load_images :
        ℕ → ℕ → ℕ × ℕ → ℕ → Memory → Option (Outcome (Memory × ImageInfo × List ImageInfo))
    load_images f kernel_name junk max_user_images m =
        let (kernel_elf, size) = cpio_get_file m "kernel.elf" in
        let (kernel_phys_start, kernel_phys_end) =
          bounds_or junk (Generic.get_memory_bounds k m kernel_elf true) in
        elim (require (not (kernel_elf == 0)) "No kernel image present in archive!\n"
          >> require (is_zero (Generic.check_file m kernel_elf))
              "Kernel image not a valid ELF file!\n"
          >> load_elf junk kernel_elf (kernel_phys_start % word_mod k) false size "kernel.bin" m) [
            | done loaded ↦ load_rest f kernel_name junk max_user_images loaded
            | aborted message ↦ some (aborted message)
          ]
