-- ===== src/Elf/Load.antt =====
-- elf_loadFile of elf.c: each program header's bytes go to the address it names, and zeros fill up
-- the rest of the segment. Every field is read again from the memory that the rounds before left.
use se_l4_tools.Common.{
  ℕ, zero, suc, ◌+◌, ◌-◌, ◌%◌, ◌^◌, Bool, ltb, pos, negsuc, Outcome, done, aborted, ◌>>=◌, true,
  false,
}
use se_l4_tools.Memory.{Kernel, word_mod, Memory}
use se_l4_tools.Strops.{memset, memcpy}
use se_l4_tools.Elf.Generic.{
  check_file, get_num_program_headers, get_program_header_memory_size, get_program_header_file_size,
  get_program_header_offset, header_start,
}

module _ (k : Kernel) (file : ℕ) (phys : Bool) where
  -- The body of the loop.
  unfoldable pub load_segment : ℕ → Memory → Outcome Memory
  load_segment i m =
      let dest = header_start k m file phys i in
      let len = get_program_header_file_size k m file i % word_mod k in
      let src = (file + get_program_header_offset k m file i) % 2 ^ 64 in
      memcpy k m (dest % word_mod k) (src % word_mod k) len >>= λ m'. done (
        memset k m' ((dest + len) % 2 ^ 64 % word_mod k) 0
          ((get_program_header_memory_size k m' file i + 2 ^ 64 - len) % 2 ^ 64 % word_mod k))

  -- The round at `i`; the fuel 2 ^ 16 is above every e_phnum. To run out of it is an end of its own,
  -- which the source does not have.
  unfoldable pub load_segments : ℕ → ℕ → Memory → Outcome Memory
  load_segments zero i m = aborted "The model's fuel for the program headers is used up."
  load_segments (suc f) i m = elim (ltb i (get_num_program_headers k m file)) [
    | true ↦ load_segment i m >>= λ m'. load_segments f (i + 1) m'
    | false ↦ done m
  ]

  -- The answer is 0, with the memory as it was, or 1.
  unfoldable pub load_file : Memory → Outcome (ℕ × Memory)
  load_file m = elim (check_file m file) [
    | pos zero ↦ load_segments (2 ^ 16) 0 m >>= λ m'. done (1, m')
    | pos (suc r) ↦ done (0, m)
    | negsuc r ↦ done (0, m)
  ]
