-- ===== src/Hash/Print.antt =====
-- print_hash of hash.c, over the model of printf.
use mathlib.Core.List.{append-nil, append_assoc}
use se_l4_tools.Common.{
  ℕ, zero, suc, ◌+◌, ◌^◌, ◌<◌, ◌≡◌, refl, ◌∙◌, arith, Option, some, List, [], ◌∷◌, ◌++◌, get_or,
  length,
}
use se_l4_tools.Memory.{Kernel, Memory, IsBytes}
use se_l4_tools.Printf.{int_arg, is_modifier, long_of_int, printf, ◌>>=◌}
use se_l4_tools.Printf.Number.{number_text}
use se_l4_tools.Printf.Format.{Piece, plain, directive, hex}
use se_l4_tools.Printf.Output.{printf-rendered}

-- "%02x"
abbrev pub byte_format : ℕ → ℕ
byte_format i = get_or (b'%' ∷ b'0' ∷ b'2' ∷ b'x' ∷ []) i 0

-- "\n"
abbrev pub line_format : ℕ → ℕ
line_format i = get_or (b'\n' ∷ []) i 0

module _ (f : ℕ) (k : Kernel) (stack m : Memory) where
  -- The loop, with the bytes from `hash_to_print` on; the answer is what stands on the console.
  unfoldable pub print_bytes : ℕ → ℕ → List ℕ → Option (List ℕ)
  print_bytes hash_to_print zero out = some out
  print_bytes hash_to_print (suc left) out =
      printf f k m stack byte_format (int_arg (m hash_to_print) ∷ []) out >>= λ c.
      print_bytes (hash_to_print + 1) left c.out

  unfoldable pub print_hash : ℕ → ℕ → List ℕ → Option (List ℕ)
  print_hash hash_to_print bytes_to_print out =
      print_bytes hash_to_print bytes_to_print out >>= λ out'.
      (printf f k m stack line_format [] out' >>= λ c. some c.out)

  -- The digits of the bytes, each without the leading zero that "%02x" asks for.
  abbrev pub digits : ℕ → ℕ → List ℕ
  digits p zero = []
  digits p (suc n) = number_text 16 (m p) ++ digits (p + 1) n

  long_of_int_small : (d : ℕ) → d < 256 → long_of_int k d ≡ d
  long_of_int_small d h = ground arith

  print_byte :
      (p : ℕ) (out : List ℕ)
      → IsBytes m
      → 4 < f
      → printf f k m stack byte_format (int_arg (m p) ∷ []) out
        ≡ some (record {
          out = out ++ number_text 16 (m p);
          num_chars_printed = length (number_text 16 (m p));
        })
  unfolding is_modifier
  print_byte p out h fuel =
      let piece : List Piece = directive (b'0' ∷ b'2' ∷ []) (hex (m p)) ∷ [] in
      let small : m p < 2 ^ 32 = omega (arith, h p) in
      printf-rendered f k m stack byte_format piece out
        (refl, (λ e. cc), (refl, (λ e. cc), (refl, (λ e. cc), (refl, (λ e. cc), refl))))
        ((refl, (refl, tt)), small, tt) fuel
      ∙ rw (append-nil, long_of_int_small (m p) (h p)) refl

  print_line :
      (out : List ℕ)
      → 4 < f
      → printf f k m stack line_format [] out
        ≡ some (record { out = out ++ b'\n' ∷ []; num_chars_printed = 1 })
  print_line out fuel =
      printf-rendered f k m stack line_format (plain b'\n' ∷ []) out (refl, (λ e. cc), refl)
        ((λ e. cc), tt) (omega arith)

  print_bytes-digits :
      (n p : ℕ) (out : List ℕ) → IsBytes m → 4 < f → print_bytes p n out ≡ some (out ++ digits p n)
  unfolding print_bytes
  print_bytes-digits zero p out h fuel = rw append-nil refl
  print_bytes-digits (suc n) p out h fuel =
      rw (print_byte p out h fuel)
        (print_bytes-digits n (p + 1) (out ++ number_text 16 (m p)) h fuel ∙ rw append_assoc refl)

  -- On bytes, print_hash prints the hexadecimal digits of each byte and a newline; a byte below 16 has
  -- one digit.
  -- The fuel is above 4.
  pub print_hash-digits :
      (p n : ℕ) (out : List ℕ)
      → IsBytes m
      → 4 < f
      → print_hash p n out ≡ some (out ++ digits p n ++ b'\n' ∷ [])
  unfolding print_hash
  print_hash-digits p n out h fuel =
      rw (print_bytes-digits n p out h fuel, print_line (out ++ digits p n) fuel) refl
