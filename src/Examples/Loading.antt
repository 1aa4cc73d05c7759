-- ===== src/Examples/Loading.antt =====
-- common.c, with an archive that holds the sample and its digest at 8192.
use Prim.Native.String.{String}
use se_l4_tools.Common.{
  ℕ, ◌+◌, ◌-◌, ◌%◌, ◌≤◌, ◌≡◌, inl, ◌≢◌, ◌⊎◌, ◌↔◌, true, false, arith, done, Returns, replicate,
}
use se_l4_tools.Memory.{kernel_64, word_mod, Memory}
use se_l4_tools.Strops.Compare.{SameBytes, StopsAt}
use se_l4_tools.Elf.Generic
use se_l4_tools.Hash.{md5, get_hash, bytes}
use se_l4_tools.Loader.{
  Site, hash_none, hash_md5, bounds_or, ensure_phys_range_valid, write_bytes, compare_hash,
  check_hash, load_elf,
}
use se_l4_tools.Loader.Regions.{ensure_phys_range_valid_iff}
use se_l4_tools.Loader.Digest.{compare_hash_iff}
use se_l4_tools.Loader.Place.{Placed, load_elf-Placed}
use se_l4_tools.Memory.{load}
use se_l4_tools.Elf.Elf64
use se_l4_tools.Elf.Format.{is_elf32}
use se_l4_tools.Loader.{unpack_elf_to_paddr}
use se_l4_tools.Elf.Frame.{table_at, entry_size}
use se_l4_tools.Loader.Image.{image, cleared}
use se_l4_tools.Loader.Image.Valid.{IsSound, unpack_elf_to_paddr-valid_image}
use se_l4_tools.Elf.Load.{load_file}
use se_l4_tools.Elf.Loaded.{IsLoadable, loaded}
use se_l4_tools.Elf.Loaded.File.{load_file-loaded}
use se_l4_tools.Common.{refl}
use se_l4_tools.Loader.{page_bits, round_up, regions_overlap}
use se_l4_tools.Loader.Image.Load.{placed, info_of, phys_end, load_elf-image}
use se_l4_tools.Examples.Files.{valid, no_wrap, bounds_test}
use se_l4_tools.Examples.Sample.{memory, memory-IsBytes}

abbrev site : Site
site = record { start = 0x8000; end = 0x9000; calculated_hash = 0x7000; junk = replicate 64 7 }

abbrev cpio_get_file : Memory → String → ℕ × ℕ
cpio_get_file m name = (8192, 16)

abbrev cpio_get_entry : Memory → ℕ → ℕ × ℕ × ℕ
cpio_get_entry m i = (4096, 4345, 260)

ensure_phys_range_valid_iff_example :
    (ensure_phys_range_valid kernel_64 site 0x9000 0xa000 ≡ done tt)
    ↔ ((0xa000 ≤ 0x8000) ⊎ (0x9000 ≤ 0x9000))
ensure_phys_range_valid_iff_example =
    ensure_phys_range_valid_iff kernel_64 site 0x9000 0xa000 (omega arith) (omega arith)
      (omega arith) (omega arith)

compare_hash_iff_example :
    let m' =
      write_bytes memory 0x7000
        (get_hash (record { junk = replicate 64 7; hash_type = md5 }) (bytes memory 4096 260)) in
    (compare_hash kernel_64 hash_md5 site cpio_get_file cpio_get_entry md5 16 memory 4096 260
        "app.bin"
      ≡ done m')
    ↔ (((cpio_get_file memory "app.bin").0 ≢ 0)
        × (SameBytes m' 8192 0x7000 16 ⊎ ((j : ℕ) × StopsAt m' 8192 0x7000 16 j)))
compare_hash_iff_example =
    compare_hash_iff kernel_64 hash_md5 site cpio_get_file cpio_get_entry md5 16 memory 4096 260
      "app.bin"

load_elf-Placed_example :
    Returns
      (λ (m', info, next).
        (m1 : Memory) × (check_hash kernel_64 hash_none site cpio_get_file cpio_get_entry memory
            4096 260 "app.bin"
          ≡ done m1)
        × Placed kernel_64 site m1 true 4096
            (bounds_or (0, 0) (Generic.get_memory_bounds kernel_64 memory 4096 false)).0
            (bounds_or (0, 0) (Generic.get_memory_bounds kernel_64 memory 4096 false)).1
            0x10000
            info
            next)
      (load_elf kernel_64 hash_none site cpio_get_file cpio_get_entry
        (0, 0)
        4096
        0x10000
        true
        260
        "app.bin"
        memory)
load_elf-Placed_example =
    load_elf-Placed kernel_64 hash_none site cpio_get_file cpio_get_entry (0, 0) 4096 0x10000 true
      260 "app.bin" memory (omega arith) (omega arith)

sound : IsSound kernel_64 memory 4096 0x10000 0x20
unfolding Generic.get_num_program_headers Generic.get_program_header_file_size
    Generic.get_program_header_memory_size Generic.get_program_header_offset
    Generic.get_program_header_type is_elf32 Elf64.get_num_program_headers
    Elf64.get_program_header_file_size Elf64.get_program_header_memory_size
    Elf64.get_program_header_offset Elf64.get_program_header_type Elf64.read64 load table_at
    entry_size
sound = record {
  header = inl (omega arith);
  table = inl (omega arith);
  source = λ i lt load. let first : i ≡ 0 = omega arith in rw first (inl (omega arith));
  shorter = λ i lt load. let first : i ≡ 0 = omega arith in rw first (omega arith);
}

unpack_elf_to_paddr-valid_image_example :
    unpack_elf_to_paddr kernel_64 (0, 0) 4096 0x10000 memory
    ≡ done (
        image kernel_64
          ((0x10000 + word_mod kernel_64 - 0x400000 % word_mod kernel_64) % word_mod kernel_64)
          memory
          4096
          (cleared memory 0x10000 (0x400020 - 0x400000))
          (Generic.get_num_program_headers kernel_64 memory 4096))
unpack_elf_to_paddr-valid_image_example =
    unpack_elf_to_paddr-valid_image kernel_64 (0, 0) 4096 0x10000 memory 0x400000 0x400020
      memory-IsBytes valid no_wrap bounds_test (omega arith) (omega arith) (omega arith)
      (omega arith) sound

free :
    ensure_phys_range_valid kernel_64 site 0x10000 (phys_end kernel_64 0x400000 0x400020 0x10000)
    ≡ done tt
unfolding ensure_phys_range_valid regions_overlap round_up
free = refl

load_elf-image_example :
    load_elf kernel_64 hash_none site cpio_get_file cpio_get_entry
      (0, 0)
      4096
      0x10000
      false
      260
      "kernel.bin"
      memory
    ≡ done (
      placed kernel_64 0x400000 0x400020 0x10000 memory 4096,
      info_of kernel_64 0x400000 0x400020 0x10000 memory 4096,
      round_up (word_mod kernel_64) (phys_end kernel_64 0x400000 0x400020 0x10000) page_bits,
    )
load_elf-image_example =
    load_elf-image kernel_64 site cpio_get_file cpio_get_entry (0, 0) 4096 0x10000 260 "kernel.bin"
      memory 0x400000 0x400020 memory-IsBytes valid no_wrap bounds_test (omega arith) (omega arith)
      (omega arith) (omega arith) sound refl refl free

loadable : IsLoadable kernel_64 true memory 4096
unfolding Generic.get_num_program_headers Generic.get_program_header_file_size
    Generic.get_program_header_memory_size Generic.get_program_header_offset Generic.header_start
    Generic.get_program_header_paddr is_elf32 Elf64.get_num_program_headers
    Elf64.get_program_header_file_size Elf64.get_program_header_memory_size
    Elf64.get_program_header_offset Elf64.get_program_header_paddr Elf64.read64 load table_at
    entry_size
loadable = record {
  header = λ i lt. let first : i ≡ 0 = omega arith in rw first (inl (omega arith));
  table = λ i lt. let first : i ≡ 0 = omega arith in rw first (inl (omega arith));
  source = λ i j lt lt'.
      let first : i ≡ 0 = omega arith in
      let first' : j ≡ 0 = omega arith in rw (first, first') (inl (omega arith));
  shorter = λ i lt. let first : i ≡ 0 = omega arith in rw first (omega arith);
  fits = λ i lt. let first : i ≡ 0 = omega arith in rw first (omega arith);
  readable = λ i lt. let first : i ≡ 0 = omega arith in rw first (omega arith);
}

load_file-loaded_example :
    load_file kernel_64 4096 true memory
    ≡ done (
      1,
      loaded kernel_64 true memory 4096 (Generic.get_num_program_headers kernel_64 memory 4096),
    )
load_file-loaded_example = load_file-loaded kernel_64 4096 true memory memory-IsBytes valid loadable
