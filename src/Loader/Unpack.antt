-- ===== src/Loader/Unpack.antt =====
-- The body of the loop of unpack_elf_to_paddr of src/common.c.
use se_l4_tools.Common.{ℕ, ◌+◌, ◌%◌, ◌≡◌, done}
use se_l4_tools.Memory.{Kernel, word_mod, Memory, IsBytes}
use se_l4_tools.Strops.Bytes.{copy_bytes, Disjoint}
use se_l4_tools.Strops.Memcpy.{memcpy-copy_bytes}
use se_l4_tools.Elf.Format.{pt_load}
use se_l4_tools.Elf.Generic
use se_l4_tools.Loader.{unpack_segment}

-- A loadable segment whose bytes in the file are apart from its place is copied from the file to its
-- virtual address plus the offset, all modulo a word.
-- Memory holds bytes.
pub unpack_segment-copy_bytes :
    (k : Kernel) (elf phys_virt_offset i : ℕ) (m : Memory)
    → IsBytes m
    → Generic.get_program_header_type k m elf i ≡ pt_load
    → let w = word_mod k in
      let size = Generic.get_program_header_file_size k m elf i % w in
      let dest = (Generic.get_program_header_vaddr k m elf i % w + phys_virt_offset) % w in
      let src = (elf + Generic.get_program_header_offset k m elf i % w) % w in
      Disjoint dest size src size
      → unpack_segment k elf phys_virt_offset i m ≡ done (copy_bytes m dest src size)
unfolding unpack_segment
unpack_segment-copy_bytes k elf phys_virt_offset i m h e apart =
    rw (e, unpack_segment) (memcpy-copy_bytes k m _ _ _ h apart)
