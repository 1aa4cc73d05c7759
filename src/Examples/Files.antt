-- ===== src/Examples/Files.antt =====
-- The ELF library.
use se_l4_tools.Common.{ℕ, zero, suc, ◌^◌, ◌≤◌, ◌<◌, ◌≡◌, ◌≢◌, refl, false, some, pos, List, arith}
use se_l4_tools.Memory.{kernel_64, load}
use se_l4_tools.Elf.Generic
use se_l4_tools.Elf.Elf64
use se_l4_tools.Elf.Format.{is_elf32}
use se_l4_tools.Elf.Bounds.{NoWrap, Within, get_memory_bounds-least}
use se_l4_tools.Elf.Sections.{Finds, get_section_named-Finds}
use se_l4_tools.Strops.Text.{IsText}
use se_l4_tools.Examples.Sample.{memory, matches-IsText, dot_text, dot_str}

pub valid : Generic.check_file memory 4096 ≡ pos 0
unfolding Generic.check_file Elf64.check_file is_elf32
valid = refl

pub bounds_test : Generic.get_memory_bounds kernel_64 memory 4096 false ≡ some (0x400000, 0x400020)
unfolding Generic.get_memory_bounds Generic.bounds_loop Generic.check_file Elf64.check_file is_elf32
    Generic.widen Generic.get_num_program_headers Generic.get_program_header_memory_size
    Generic.header_start Generic.get_program_header_vaddr Elf64.get_num_program_headers
    Elf64.get_program_header_memory_size Elf64.get_program_header_vaddr Elf64.read64 load
bounds_test = refl

one_header : Generic.get_num_program_headers kernel_64 memory 4096 ≡ 1
unfolding Generic.get_num_program_headers is_elf32 Elf64.get_num_program_headers load
one_header = refl

pub no_wrap : NoWrap kernel_64 memory 4096 false
unfolding Generic.get_num_program_headers is_elf32 Elf64.get_num_program_headers
    Generic.get_program_header_memory_size Generic.header_start Generic.get_program_header_vaddr
    Elf64.get_program_header_memory_size Elf64.get_program_header_vaddr Elf64.read64 load
no_wrap zero lt = omega arith
no_wrap (suc i) lt = absurd (omega (arith, one_header))

get_memory_bounds-least_example :
    (r : ℕ × ℕ) × (Generic.get_memory_bounds kernel_64 memory 4096 false ≡ some r)
    × Within kernel_64 memory 4096 false 0
        (Generic.get_num_program_headers kernel_64 memory 4096)
        r.0
        r.1
    × ((lo hi : ℕ)
        → lo < 2 ^ 64
        → Within kernel_64 memory 4096 false 0
            (Generic.get_num_program_headers kernel_64 memory 4096)
            lo
            hi
        → (lo ≤ r.0) × (r.1 ≤ hi))
get_memory_bounds-least_example = get_memory_bounds-least kernel_64 memory 4096 false valid no_wrap

invalid : Generic.check_file memory 4097 ≢ pos 0
unfolding Generic.check_file Elf64.check_file is_elf32
invalid e = cc

abbrev section_names : ℕ → List ℕ
section_names zero = dot_text
section_names (suc i) = dot_str

two_sections : Generic.get_num_sections kernel_64 memory 4096 ≡ 2
unfolding Generic.get_num_sections is_elf32 Elf64.get_num_sections load
two_sections = refl

named :
    (i : ℕ)
    → i < Generic.get_num_sections kernel_64 memory 4096
    → IsText memory (Generic.get_section_name kernel_64 memory 4096 1000000 i) (section_names i)
unfolding Generic.get_section_name is_elf32 Elf64.get_section_name load
named zero lt = matches-IsText memory 4345 dot_text refl
named (suc zero) lt = matches-IsText memory 4351 dot_str refl
named (suc (suc i)) lt = absurd (omega (arith, two_sections))

get_section_named-Finds_example :
    (r : ℕ) × (Generic.get_section_named kernel_64 memory 4096 1000000 4351 9 ≡ some r)
    × Finds section_names
        (Generic.get_section kernel_64 memory 4096)
        dot_str
        0
        (Generic.get_num_sections kernel_64 memory 4096)
        r
get_section_named-Finds_example =
    get_section_named-Finds kernel_64 memory 4096 1000000 4351 9 dot_str section_names
      (matches-IsText memory 4351 dot_str refl) (omega arith) named
