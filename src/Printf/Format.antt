-- ===== src/Printf/Format.antt =====
-- The formats that vxprintf is written for: plain characters, `%%`, and directives with modifiers,
-- which are ignored. What each is spelled, takes from the arguments, and is to print.
pub mod Convert
pub mod Loop
pub mod Overrun
use mathlib.Core.List.{foldl}
use se_l4_tools.Common.{
  ℕ, ◌+◌, ◌%◌, ◌^◌, ◌<◌, ◌≡◌, ◌≢◌, true, ltb, if◌then◌else◌, List, [], ◌∷◌, ◌++◌, length,
}
use se_l4_tools.Memory.{Kernel, word_mod, Memory}
use se_l4_tools.Printf.{Arg, int_arg, long_arg, str_arg, long_of_int, is_modifier}
use se_l4_tools.Printf.Number.{Readable, number_text}

-- A conversion with the argument that is passed for it.
pub data Conversion : Type 0 where
  string : ℕ → List ℕ → Conversion
  pointer long_decimal long_hex : ℕ → Conversion
  hex decimal unsigned character : ℕ → Conversion
  unknown_long : ℕ → Conversion

-- A part of a format.
pub data Piece : Type 0 where
  plain : ℕ → Piece
  percent : Piece
  directive : List ℕ → Conversion → Piece

abbrev pub letters : Conversion → List ℕ
letters (string p cs) = b's' ∷ []
letters (pointer n) = b'p' ∷ []
letters (long_decimal n) = b'l' ∷ b'u' ∷ []
letters (long_hex n) = b'l' ∷ b'x' ∷ []
letters (hex d) = b'x' ∷ []
letters (decimal d) = b'd' ∷ []
letters (unsigned d) = b'u' ∷ []
letters (character d) = b'c' ∷ []
letters (unknown_long c) = b'l' ∷ c ∷ []

abbrev pub spelled : Piece → List ℕ
spelled (plain c) = c ∷ []
spelled percent = b'%' ∷ b'%' ∷ []
spelled (directive mods conv) = b'%' ∷ (mods ++ letters conv)

abbrev pub spelled_all : List Piece → List ℕ
spelled_all [] = []
spelled_all (p ∷ ps) = spelled p ++ spelled_all ps

abbrev pub arguments : Conversion → List Arg
arguments (string p cs) = str_arg p ∷ []
arguments (pointer n) = long_arg n ∷ []
arguments (long_decimal n) = long_arg n ∷ []
arguments (long_hex n) = long_arg n ∷ []
arguments (hex d) = int_arg d ∷ []
arguments (decimal d) = int_arg d ∷ []
arguments (unsigned d) = int_arg d ∷ []
arguments (character d) = int_arg d ∷ []
arguments (unknown_long c) = []

abbrev pub arguments_all : List Piece → List Arg
arguments_all [] = []
arguments_all (directive mods conv ∷ ps) = arguments conv ++ arguments_all ps
arguments_all (_ ∷ ps) = arguments_all ps

module _ (k : Kernel) where
  abbrev pub rendered : Conversion → List ℕ
  rendered (string p cs) = cs
  rendered (pointer n) = number_text 16 n
  rendered (long_decimal n) = number_text 10 n
  rendered (long_hex n) = number_text 16 n
  rendered (hex d) = number_text 16 (long_of_int k d)
  rendered (decimal d) = number_text 10 (long_of_int k d)
  rendered (unsigned d) = number_text 10 (long_of_int k d)
  rendered (character d) = d % 256 ∷ []
  rendered (unknown_long c) = b'?' ∷ []

  abbrev pub rendered_all : List Piece → List ℕ
  rendered_all [] = []
  rendered_all (plain c ∷ ps) = c ∷ rendered_all ps
  rendered_all (percent ∷ ps) = b'%' ∷ rendered_all ps
  rendered_all (directive mods conv ∷ ps) = rendered conv ++ rendered_all ps

abbrev pub AreModifiers : List ℕ → Type 0
AreModifiers [] = Unit {0}
AreModifiers (c ∷ cs) = (is_modifier c ≡ true) × AreModifiers cs

-- Where the loop stands after a conversion's letters.
abbrev pub last : ℕ → Conversion → ℕ
last i (long_decimal n) = i + 1
last i (long_hex n) = i + 1
last i (unknown_long c) = i + 1
last i _ = i

module _ {ℓ} {S : Type ℓ} (write_char : S → ℕ → S) (k : Kernel) (view : S → Memory) (g : ℕ) where
  -- The argument has the type that the conversion wants; a string can be read and is not longer
  -- than the fuel.
  abbrev pub Fits : S → Conversion → Type 0
  Fits s (string p cs) = Readable write_char view s p cs × (length cs < g)
  Fits s (pointer n) = n < word_mod k
  Fits s (long_decimal n) = n < word_mod k
  Fits s (long_hex n) = n < word_mod k
  Fits s (hex d) = d < 2 ^ 32
  Fits s (decimal d) = d < 2 ^ 32
  Fits s (unsigned d) = d < 2 ^ 32
  Fits s (character d) = d < 2 ^ 32
  Fits s (unknown_long c) = (c ≢ b'u') × (c ≢ b'x')

  -- Every piece can be printed in the state that the pieces before it leave.
  abbrev pub AllFit : S → List Piece → Type 0
  AllFit s [] = Unit {0}
  AllFit s (plain c ∷ ps) = (c ≢ b'%') × AllFit (write_char s c) ps
  AllFit s (percent ∷ ps) = AllFit (write_char s b'%') ps
  AllFit s (directive mods conv ∷ ps) =
      AreModifiers mods × Fits s conv × AllFit (foldl write_char s (rendered k conv)) ps
