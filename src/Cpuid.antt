-- ===== src/Cpuid.antt =====
-- src/arch-arm/cpuid.c. The MIDR register is an argument, and `place` is where the strings that are
-- handed to printf stand in memory.
pub mod Said
pub mod Printed
use Prim.Native.String.{String}
use mathlib.Core.Bool.{not}
use se_l4_tools.Common.{
  ℕ, ◌+◌, ◌*◌, ◌/◌, ◌%◌, ◌^◌, Bool, ◌==◌, ◌&&◌, if◌then◌else◌, bit_and, Option, some, List, [], ◌∷◌,
  get_or, ℤ, pos, negsuc,
}
use se_l4_tools.Memory.{Kernel, Memory}
use se_l4_tools.Printf.{Arg, int_arg, str_arg, codes, printf, ◌>>=◌}

abbrev pub cpuid_impl : ℕ → ℕ
cpuid_impl cpuid = bit_and (cpuid / 2 ^ 24) 0xff

abbrev pub cpuid_major : ℕ → ℕ
cpuid_major cpuid = bit_and (cpuid / 2 ^ 20) 0xf

abbrev pub cpuid_arch : ℕ → ℕ
cpuid_arch cpuid = bit_and (cpuid / 2 ^ 16) 0xf

abbrev pub cpuid_part : ℕ → ℕ
cpuid_part cpuid = bit_and (cpuid / 2 ^ 4) 0xfff

abbrev pub cpuid_minor : ℕ → ℕ
cpuid_minor cpuid = bit_and (cpuid / 2 ^ 0) 0xf

abbrev pub cpuid_arch_cpuid : ℕ
cpuid_arch_cpuid = 0xf

unfoldable pub cpuid_get_implementer_str : ℕ → String
cpuid_get_implementer_str cpuid =
    let impl = cpuid_impl cpuid in
    if impl == b'A'
    then "ARM Ltd."
    else if impl == b'D'
    then "Digital Equipment Corp."
    else if impl == b'Q'
    then "Qualcomm Inc."
    else if impl == b'V'
    then "Marvell Semiconductor Inc."
    else if impl == b'M'
    then "Motorola, Freescale Semiconductor Inc."
    else if impl == b'i'
    then "Intel Corp."
    else "<Reserved>"

unfoldable pub cpuid_get_arch_str : ℕ → String
cpuid_get_arch_str cpuid =
    let arch = cpuid_arch cpuid in
    if arch == 0x1
    then "ARMv4"
    else if arch == 0x2
    then "ARMv4T"
    else if arch == 0x3
    then "ARMv5 (obsolete)"
    else if arch == 0x4
    then "ARMv5T"
    else if arch == 0x5
    then "ARMv5TE"
    else if arch == 0x6
    then "ARMv5TEJ"
    else if arch == 0x7
    then "ARMv6"
    else if arch == cpuid_arch_cpuid
    then "Defined by CPUID scheme"
    else "<Reserved>"

module _ (f : ℕ) (k : Kernel) (m buff : Memory) (place : String → ℕ) where
  -- A call of printf with a literal format, and what the console has then.
  unfoldable pub say : String → List Arg → List ℕ → Option (List ℕ)
  say format args out =
      printf f k m buff (λ i. get_or (codes format) i 0) args out >>= λ c. some c.out

  unfoldable pub print_part : ℕ → List ℕ → Option (List ℕ)
  print_part cpuid out =
      let part = cpuid_part cpuid in
      if bit_and part 0xf00 == 0xc00
      then say "Cortex-A%d " (int_arg (bit_and part 0xff) ∷ []) out
      else if bit_and part 0xf00 == 0xd00
      then say "Cortex-A5%d " (int_arg (bit_and part 0xff) ∷ []) out
      else say "Part: 0x%03x " (int_arg part ∷ []) out

  unfoldable pub print_cpuid : ℕ → List ℕ → Option (List ℕ)
  print_cpuid cpuid out =
      say "CPU: %s " (str_arg (place (cpuid_get_implementer_str cpuid)) ∷ []) out >>= λ out.
      (if not (cpuid_arch cpuid == cpuid_arch_cpuid)
        then say "%s " (str_arg (place (cpuid_get_arch_str cpuid)) ∷ []) out
        else some out)
      >>= λ out. print_part cpuid out >>= λ out.
          say "r%dp%d" (int_arg (cpuid_major cpuid) ∷ int_arg (cpuid_minor cpuid) ∷ []) out
          >>= λ out. say "\n" [] out

unfoldable pub get_cortex_a_part : ℕ → ℤ
get_cortex_a_part cpuid =
    if cpuid_arch cpuid == cpuid_arch_cpuid && cpuid_impl cpuid == b'A'
    then pos (bit_and (cpuid_part cpuid) 0xff)
    else negsuc 0
