-- ===== src/Examples/Printing.antt =====
-- printf.c
use mathlib.Core.List.{foldl}
use se_l4_tools.Common.{ℕ, ◌≡◌, refl, some, List, [], ◌∷◌, arith, get_or}
use se_l4_tools.Memory.{kernel_32, kernel_64}
use se_l4_tools.Printf.{Console, arch_write_char, vxprintf, write_num, is_modifier}
use se_l4_tools.Printf.Number.{number_text, text_value, write_num-text_value, write_num-number_text}
use se_l4_tools.Printf.Format.{
  Piece, AreModifiers, plain, directive, hex, spelled_all, arguments_all, rendered_all,
}
use se_l4_tools.Printf.Format.Loop.{vxprintf-rendered}
use se_l4_tools.Printf.Format.Overrun.{vxprintf_overrun}
use se_l4_tools.Examples.Sample.{memory, matches-IsText}

-- "%02x!", with the argument 10
abbrev pieces : List Piece
pieces = directive (b'0' ∷ b'2' ∷ []) (hex 10) ∷ plain b'!' ∷ []

modifiers : AreModifiers (b'0' ∷ b'2' ∷ [])
unfolding is_modifier
modifiers = (refl, (refl, tt))

abbrev format : ℕ → ℕ
format i = get_or (spelled_all pieces) i 0

abbrev empty : Console
empty = record { out = []; num_chars_printed = 0 }

vxprintf-rendered_example :
    vxprintf arch_write_char kernel_32 (λ _. memory) memory format 9 (arguments_all pieces) empty
    ≡ some (foldl arch_write_char empty (rendered_all kernel_32 pieces))
vxprintf-rendered_example =
    vxprintf-rendered arch_write_char kernel_32 (λ _. memory) memory format 9 pieces empty
      (matches-IsText format 0 (spelled_all pieces) refl) (modifiers, omega arith, (λ e. cc, tt))
      (omega arith)

-- "%l", a NUL, and "!" behind it
abbrev overrun : ℕ → ℕ
overrun i = get_or (b'%' ∷ b'l' ∷ 0 ∷ b'!' ∷ []) i 0

vxprintf_overrun_example :
    vxprintf arch_write_char kernel_64
      (λ _. memory)
      memory
      overrun
      9
      (arguments_all (plain b'!' ∷ []))
      empty
    ≡ some (
        foldl arch_write_char
          (arch_write_char empty b'?')
          (rendered_all kernel_64 (plain b'!' ∷ [])))
vxprintf_overrun_example =
    vxprintf_overrun arch_write_char kernel_64 (λ _. memory) memory overrun 9 (plain b'!' ∷ [])
      empty (matches-IsText overrun 0 (b'%' ∷ b'l' ∷ []) refl)
      (matches-IsText overrun 3 (b'!' ∷ []) refl) (λ e. cc, tt) (omega arith)

write_num-text_value_example :
    (cs : List ℕ) × (write_num arch_write_char memory 16 48879 empty
      ≡ some (foldl arch_write_char empty cs))
    × (text_value 16 0 cs ≡ 48879)
write_num-text_value_example =
    write_num-text_value arch_write_char memory 16 48879 empty (omega arith, omega arith)
      (omega arith)

write_num-number_text_example :
    write_num arch_write_char memory 10 1234 empty
    ≡ some (foldl arch_write_char empty (number_text 10 1234))
write_num-number_text_example =
    write_num-number_text arch_write_char memory 10 1234 empty (omega arith, omega arith)
      (omega arith)
