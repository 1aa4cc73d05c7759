-- ===== src/Cpuid/Printed.antt =====
-- The line that print_cpuid of src/arch-arm/cpuid.c prints.
use Prim.Native.String.{String}
use mathlib.Core.Bool.{not}
use mathlib.Core.List.{append-nil, append_assoc}
use se_l4_tools.Common.{
  ℕ, ◌*◌, ◌/◌, ◌%◌, ◌^◌, ◌≤◌, ◌<◌, ◌≡◌, ◌≢◌, refl, sym, ap, ◌∙◌, arith, Bool, true, false,
  Bool-cases, inl, inr, ◌==◌, if◌then◌else◌, bit_and, bit_and_mask, bit_and_above, some, List, [],
  ◌∷◌, ◌++◌, map, length,
}
use se_l4_tools.Memory.{Kernel, Memory}
use se_l4_tools.Strops.Text.{IsText}
use se_l4_tools.Printf.{codes, int_arg, str_arg, is_modifier, long_of_int}
use se_l4_tools.Printf.Number.{number_text}
use se_l4_tools.Printf.Format.{Piece, plain, directive, string, decimal, hex, AreModifiers}
use se_l4_tools.Cpuid.{
  cpuid_major, cpuid_minor, cpuid_arch, cpuid_arch_cpuid, cpuid_part, cpuid_get_implementer_str,
  cpuid_get_arch_str, say, print_part, print_cpuid,
}
use se_l4_tools.Cpuid.Said.{plain-AllFit, say-rendered}

mask_4 : (a : ℕ) → bit_and a 0xf ≡ a % 16
mask_4 a = bit_and_mask 4 a

mask_8 : (a : ℕ) → bit_and a 0xff ≡ a % 256
mask_8 a = bit_and_mask 8 a

mask_12 : (a : ℕ) → bit_and a 0xfff ≡ a % 4096
mask_12 a = bit_and_mask 12 a

family_mask : (a : ℕ) → bit_and a 0xf00 ≡ a / 256 % 16 * 256
family_mask a = bit_and_above 8 a 0xf ∙ ap (λ (x : ℕ). x * 256) (mask_4 (a / 256))

-- The fields of the register.
abbrev pub part_of : ℕ → ℕ
part_of cpuid = cpuid / 16 % 4096

abbrev pub part_text : ℕ → List ℕ
part_text part =
    if part / 256 == 0xc
    then codes "Cortex-A" ++ (number_text 10 (part % 256) ++ codes " ")
    else if part / 256 == 0xd
    then codes "Cortex-A5" ++ (number_text 10 (part % 256) ++ codes " ")
    else codes "Part: 0x" ++ (number_text 16 part ++ codes " ")

abbrev pub arch_text : ℕ → List ℕ
arch_text cpuid =
    if cpuid / 2 ^ 16 % 16 == 0xf then [] else codes (cpuid_get_arch_str cpuid) ++ codes " "

abbrev pub version_text : ℕ → List ℕ
version_text cpuid =
    b'r' ∷ (number_text 10 (cpuid / 2 ^ 20 % 16) ++ (b'p' ∷ (number_text 10 (cpuid % 16) ++ [])))

abbrev pub line : ℕ → List ℕ
line cpuid =
    codes "CPU: "
    ++ (codes (cpuid_get_implementer_str cpuid) ++ codes " ")
    ++ arch_text cpuid
    ++ part_text (part_of cpuid)
    ++ version_text cpuid
    ++ codes "\n"

length-if :
    (t : Bool) (a b : String)
    → length (codes (if t then a else b)) ≡ (if t then length (codes a) else length (codes b))
length-if true a b = refl
length-if false a b = refl

implementer_str-short : (cpuid : ℕ) → length (codes (cpuid_get_implementer_str cpuid)) < 64
unfolding cpuid_get_implementer_str
implementer_str-short cpuid = simp length-if (ground arith)

arch_str-short : (cpuid : ℕ) → length (codes (cpuid_get_arch_str cpuid)) < 64
unfolding cpuid_get_arch_str
arch_str-short cpuid = simp length-if (ground arith)

small_int : (k : Kernel) (d : ℕ) → d < 2 ^ 31 → long_of_int k d ≡ d
small_int k d lt = ground arith

space : ◌≢◌ {A = ℕ} b' ' b'%'
space e = omega arith

zero_three : AreModifiers (codes "03")
unfolding is_modifier
zero_three = (refl, (refl, tt))

module _ (k : Kernel) (m buff : Memory) (place : String → ℕ) (g : ℕ) (enough : 64 ≤ g)
    (cpuid : ℕ) where
  family_is_c : (part_of cpuid / 256 % 16 * 256 == 0xc00) ≡ (part_of cpuid / 256 == 0xc)
  family_is_c = ground arith

  family_is_d : (part_of cpuid / 256 % 16 * 256 == 0xd00) ≡ (part_of cpuid / 256 == 0xd)
  family_is_d = ground arith

  cortex :
      (out : List ℕ)
      → say g k m buff place "Cortex-A%d " (int_arg (part_of cpuid % 256) ∷ []) out
        ≡ some (out ++ (codes "Cortex-A" ++ (number_text 10 (part_of cpuid % 256) ++ codes " ")))
  cortex out =
      let n = part_of cpuid % 256 in
      let tail : List Piece = directive [] (decimal n) ∷ plain b' ' ∷ [] in
      let say_it =
        say-rendered k m g buff place "Cortex-A%d " (map plain (codes "Cortex-A") ++ tail) out refl
          refl
          (plain-AllFit k m g (codes "Cortex-A") (record { out = out; num_chars_printed = 0 }) tail
            refl (tt, omega arith, (space, tt)))
          (omega (arith, enough)) in
      rw (small_int k n (omega arith)) at say_it

  cortex_5 :
      (out : List ℕ)
      → say g k m buff place "Cortex-A5%d " (int_arg (part_of cpuid % 256) ∷ []) out
        ≡ some (out ++ (codes "Cortex-A5" ++ (number_text 10 (part_of cpuid % 256) ++ codes " ")))
  cortex_5 out =
      let n = part_of cpuid % 256 in
      let tail : List Piece = directive [] (decimal n) ∷ plain b' ' ∷ [] in
      let say_it =
        say-rendered k m g buff place "Cortex-A5%d " (map plain (codes "Cortex-A5") ++ tail) out
          refl refl
          (plain-AllFit k m g (codes "Cortex-A5") (record { out = out; num_chars_printed = 0 }) tail
            refl (tt, omega arith, (space, tt)))
          (omega (arith, enough)) in
      rw (small_int k n (omega arith)) at say_it

  number :
      (out : List ℕ)
      → say g k m buff place "Part: 0x%03x " (int_arg (part_of cpuid) ∷ []) out
        ≡ some (out ++ (codes "Part: 0x" ++ (number_text 16 (part_of cpuid) ++ codes " ")))
  number out =
      let n = part_of cpuid in
      let tail : List Piece = directive (codes "03") (hex n) ∷ plain b' ' ∷ [] in
      let say_it =
        say-rendered k m g buff place "Part: 0x%03x " (map plain (codes "Part: 0x") ++ tail) out
          refl refl
          (plain-AllFit k m g (codes "Part: 0x") (record { out = out; num_chars_printed = 0 }) tail
            refl (zero_three, omega arith, (space, tt)))
          (omega (arith, enough)) in
      rw (small_int k n (omega arith)) at say_it

  part-printed :
      (out : List ℕ)
      → print_part g k m buff place cpuid out ≡ some (out ++ part_text (part_of cpuid))
  unfolding print_part
  part-printed out =
      let part = cpuid_part cpuid in
      let field : part ≡ part_of cpuid = mask_12 (cpuid / 2 ^ 4) in
      rw (field, family_mask (part_of cpuid), mask_8 (part_of cpuid), family_is_c, family_is_d)
        (elim (Bool-cases (part_of cpuid / 256 == 0xc)) [
          | inl old ↦ rw old (cortex out)
          | inr other ↦ elim (Bool-cases (part_of cpuid / 256 == 0xd)) [
            | inl new ↦ rw (other, new) (cortex_5 out)
            | inr neither ↦ rw (other, neither) (number out)
          ]
        ])

  string-printed :
      (s : String) (out : List ℕ)
      → IsText m (place s) (codes s)
      → length (codes s) < 64
      → say g k m buff place "%s " (str_arg (place s) ∷ []) out
        ≡ some (out ++ (codes s ++ codes " "))
  string-printed s out t short =
      say-rendered k m g buff place "%s "
        (directive [] (string (place s) (codes s)) ∷ plain b' ' ∷ []) out refl refl
        (tt, ((λ ds. t), omega (arith, short, enough)), (space, tt)) (omega (arith, enough))

  version-printed :
      (out : List ℕ)
      → say g k m buff place "r%dp%d"
          (int_arg (cpuid_major cpuid) ∷ int_arg (cpuid_minor cpuid) ∷ [])
          out
        ≡ some (out ++ version_text cpuid)
  version-printed out =
      let major : cpuid_major cpuid ≡ cpuid / 2 ^ 20 % 16 = mask_4 (cpuid / 2 ^ 20) in
      let minor : cpuid_minor cpuid ≡ cpuid % 16 = mask_4 (cpuid / 2 ^ 0) ∙ omega arith in
      let a = cpuid / 2 ^ 20 % 16 in
      let b = cpuid % 16 in
      let say_it =
        say-rendered k m g buff place "r%dp%d"
          (plain b'r' ∷ directive [] (decimal a) ∷ plain b'p' ∷ directive [] (decimal b) ∷ []) out
          refl refl
          (λ e. omega (arith, e), (tt, omega arith, (λ e. omega (arith, e), (tt, omega arith, tt))))
          (omega (arith, enough)) in
      rw (major, minor) (rw (small_int k a (omega arith), small_int k b (omega arith)) at say_it)

  cpu-printed :
      (s : String) (out : List ℕ)
      → IsText m (place s) (codes s)
      → length (codes s) < 64
      → say g k m buff place "CPU: %s " (str_arg (place s) ∷ []) out
        ≡ some (out ++ (codes "CPU: " ++ (codes s ++ codes " ")))
  cpu-printed s out t short =
      let tail : List Piece = directive [] (string (place s) (codes s)) ∷ plain b' ' ∷ [] in
      say-rendered k m g buff place "CPU: %s " (map plain (codes "CPU: ") ++ tail) out refl refl
        (plain-AllFit k m g (codes "CPU: ") (record { out = out; num_chars_printed = 0 }) tail refl
          (tt, ((λ ds. t), omega (arith, short, enough)), (space, tt)))
        (omega (arith, enough))

  newline-printed : (out : List ℕ) → say g k m buff place "\n" [] out ≡ some (out ++ codes "\n")
  newline-printed out =
      say-rendered k m g buff place "\n" (plain b'\n' ∷ []) out refl refl
        (λ e. omega (arith, e), tt) (omega (arith, enough))

  arch-printed :
      (out : List ℕ)
      → IsText m (place (cpuid_get_arch_str cpuid)) (codes (cpuid_get_arch_str cpuid))
      → (if not (cpuid_arch cpuid == cpuid_arch_cpuid)
          then say g k m buff place "%s " (str_arg (place (cpuid_get_arch_str cpuid)) ∷ []) out
          else some out)
        ≡ some (out ++ arch_text cpuid)
  arch-printed out t =
      let field : cpuid_arch cpuid ≡ cpuid / 2 ^ 16 % 16 = mask_4 (cpuid / 2 ^ 16) in
      elim (Bool-cases (cpuid / 2 ^ 16 % 16 == 0xf)) [
        | inl scheme ↦ rw (field, scheme) (ap some (sym (append-nil out)))
        | inr known ↦
            rw (field, known)
              (string-printed (cpuid_get_arch_str cpuid) out t (arch_str-short cpuid))
      ]

-- With fuel of at least 64, and the two names readable in memory: print_cpuid ends, and puts one line on
-- the console. It has the implementer; the architecture, unless that field is 15; the part, as
-- Cortex-A or Cortex-A5 and its low byte in decimal for the parts 0xC00 to 0xDFF, else in
-- hexadecimal; and the variant and the revision in decimal.
pub print_cpuid-line :
    (g : ℕ) (k : Kernel) (m buff : Memory) (place : String → ℕ) (cpuid : ℕ) (out : List ℕ)
    → 64 ≤ g
    → IsText m (place (cpuid_get_implementer_str cpuid)) (codes (cpuid_get_implementer_str cpuid))
    → IsText m (place (cpuid_get_arch_str cpuid)) (codes (cpuid_get_arch_str cpuid))
    → print_cpuid g k m buff place cpuid out ≡ some (out ++ line cpuid)
unfolding print_cpuid
print_cpuid-line g k m buff place cpuid out enough implementer arch =
    rw
      (
        cpu-printed k m buff place g enough cpuid (cpuid_get_implementer_str cpuid) out implementer
            (implementer_str-short cpuid),
        arch-printed k m buff place g enough cpuid _ arch,
        part-printed k m buff place g enough cpuid _,
        version-printed k m buff place g enough cpuid _,
        newline-printed k m buff place g enough cpuid _,
      )
      (ap some (simp append_assoc refl))
