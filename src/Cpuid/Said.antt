-- ===== src/Cpuid/Said.antt =====
-- A call of printf with a literal format in src/arch-arm/cpuid.c.
use Prim.Native.String.{String}
use mathlib.Core.Bool.{not}
use mathlib.Core.List.{foldl}
use native.Mathlib.Nat.{zero-add}
use se_l4_tools.Common.{
  ℕ, suc, ◌+◌, ◌<◌, ◌≡◌, refl, arith, Bool, true, ◌==◌, ◌&&◌, some, List, [], ◌∷◌, ◌++◌, map,
  length, get_or,
}
use se_l4_tools.Memory.{Kernel, Memory}
use se_l4_tools.Strops.Text.{IsText}
use se_l4_tools.Printf.{Console, arch_write_char, codes}
use se_l4_tools.Printf.Format.{Piece, plain, spelled_all, arguments_all, rendered_all, AllFit}
use se_l4_tools.Printf.Output.{printf-rendered}
use se_l4_tools.Cpuid.{say}

-- A literal is a string.
abbrev pub no_nul : List ℕ → Bool
no_nul [] = true
no_nul (c ∷ cs) = not (c == 0) && no_nul cs

read-IsText :
    (m : Memory) (p : ℕ) (cs : List ℕ)
    → ((i : ℕ) → m (p + i) ≡ get_or cs i 0)
    → no_nul cs ≡ true
    → IsText m p cs
read-IsText m p [] h ok = let e : p + 0 ≡ p = omega arith in rw e at (h 0)
read-IsText m p (c ∷ cs) h ok =
    let e : p + 0 ≡ p = omega arith in
    let next : (i : ℕ) → m (p + 1 + i) ≡ get_or cs i 0 =
      λ i. let shift : p + suc i ≡ p + 1 + i = omega arith in rw shift at (h (suc i)) in
    (rw e at (h 0), λ z. ground (arith, z), read-IsText m (p + 1) cs next (ground arith))

abbrev pub no_percent : List ℕ → Bool
no_percent [] = true
no_percent (c ∷ cs) = not (c == b'%') && no_percent cs

module _ (k : Kernel) (m : Memory) (g : ℕ) where
  pub plain-AllFit :
      (cs : List ℕ) (s : Console) (ps : List Piece)
      → no_percent cs ≡ true
      → AllFit arch_write_char k (λ _. m) g (foldl arch_write_char s cs) ps
      → AllFit arch_write_char k (λ _. m) g s (map plain cs ++ ps)
  plain-AllFit [] s ps h fits = fits
  plain-AllFit (c ∷ cs) s ps h fits =
      (λ e. ground (arith, e), plain-AllFit cs (arch_write_char s c) ps (ground arith) fits)

  -- A call of printf whose format is made of pieces that fit.
  pub say-rendered :
      (buff : Memory) (place : String → ℕ) (format : String) (ps : List Piece) (out : List ℕ)
      → codes format ≡ spelled_all ps
      → no_nul (spelled_all ps) ≡ true
      → AllFit arch_write_char k (λ _. m) g (record { out = out; num_chars_printed = 0 }) ps
      → length (spelled_all ps) < g
      → say g k m buff place format (arguments_all ps) out ≡ some (out ++ rendered_all k ps)
  unfolding say
  say-rendered buff place format ps out same ok fits fuel =
      let text : IsText (λ i. get_or (codes format) i 0) 0 (spelled_all ps) =
        read-IsText (λ i. get_or (codes format) i 0) 0 (spelled_all ps)
          (λ i. rw (same, zero-add) refl) ok in
      rw (printf-rendered g k m buff (λ i. get_or (codes format) i 0) ps out text fits fuel) refl
