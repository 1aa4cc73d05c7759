-- ===== src/Printf/Format/Overrun.antt =====
-- vxprintf on the format `%l`.
use mathlib.Core.List.{foldl}
use se_l4_tools.Common.{
  ℕ, suc, ◌+◌, ◌-◌, ◌<◌, ◌≡◌, true, ◌∙◌, ap, arith, some, List, [], ◌∷◌, length,
}
use se_l4_tools.Memory.{Kernel, Memory}
use se_l4_tools.Strops.Text.{IsText}
use se_l4_tools.Printf.{Arg, Print, format_step, format_loop, vxprintf}
use se_l4_tools.Printf.Format.{Piece, spelled_all, arguments_all, rendered_all, AllFit}
use se_l4_tools.Printf.Format.Loop.{at, open_escape, loop_step, format_loop-rendered}

module _ {ℓ} {S : Type ℓ} (write_char : S → ℕ → S) (k : Kernel) (view : S → Memory) (stack : Memory)
    (format : ℕ → ℕ) (g : ℕ) where
  -- The `switch` behind the `l` has stepped onto the NUL.
  long_step :
      (args : List Arg) (s : S)
      → format 1 ≡ b'l'
      → format 2 ≡ 0
      → format_step write_char k view stack format g
          (record { i = 1; escape_mode = true; args = args; payload = s })
        ≡ some (at write_char k view stack format g 2 args (write_char s b'?'))
  unfolding format_step
  long_step args s e z = rw e (ground arith)

  -- The format `%l` is read past its end: the `switch` steps onto the NUL, prints `?`, and the loop
  -- goes on behind it, here with the pieces `ps` that happen to stand there.
  -- The arguments fit the pieces, and the fuel is above their length by more than 2.
  pub vxprintf_overrun :
      (ps : List Piece) (s : S)
      → IsText format 0 (b'%' ∷ b'l' ∷ [])
      → IsText format 3 (spelled_all ps)
      → AllFit write_char k view g (write_char s b'?') ps
      → length (spelled_all ps) + 2 < g
      → vxprintf write_char k view stack format g (arguments_all ps) s
        ≡ some (foldl write_char (write_char s b'?') (rendered_all k ps))
  unfolding vxprintf
  vxprintf_overrun ps s (e, ne, (e', ne', z)) t fits fuel =
      let args = arguments_all ps in
      let loop = format_loop write_char k view stack format in
      let start = at write_char k view stack format g 0 args s in
      let inside : Print S = record start { escape_mode = true } in
      let enough : g ≡ suc (suc (g - 2)) = omega arith in
      ap (λ f. loop f g start) enough
      ∙ loop_step write_char k view stack format g (suc (g - 2)) start inside (ground arith)
          (open_escape write_char k view stack format g 0 args s e)
      ∙ loop_step write_char k view stack format g (g - 2) (record inside { i = 1 })
          (at write_char k view stack format g 2 args (write_char s b'?')) (ground arith)
          (long_step args s e' z)
      ∙ format_loop-rendered write_char k view stack format g ps (g - 2) 3 (write_char s b'?') t
          fits (omega arith)
