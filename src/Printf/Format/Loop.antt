-- ===== src/Printf/Format/Loop.antt =====
-- vxprintf's loop over a format, piece by piece.
use mathlib.Core.List.{foldl, foldl-append}
use native.Mathlib.Nat.{zero-add, suc-add}
use se_l4_tools.Common.{
  ℕ, zero, suc, ◌+◌, ◌-◌, ◌<◌, ◌≡◌, ◌≢◌, refl, true, false, ◌∙◌, sym, ◌==◌, arith, some, List, [],
  ◌∷◌, ◌++◌, length, length-append,
}
use se_l4_tools.Memory.{Kernel, Memory}
use se_l4_tools.Strops.Text.{IsText, IsText-append}
use se_l4_tools.Printf.{Arg, Print, is_modifier, format_step, format_loop, vxprintf}
use se_l4_tools.Printf.Format.{
  Conversion, string, pointer, long_decimal, long_hex, hex, decimal, unsigned, character,
  unknown_long, Piece, plain, percent, directive, letters, spelled_all, arguments, arguments_all,
  rendered, rendered_all, AreModifiers, last, Fits, AllFit,
}
use se_l4_tools.Printf.Format.Convert.{after, convert_lem}

letters_pos : (conv : Conversion) → 0 < length (letters conv)
letters_pos (string p cs) = omega arith
letters_pos (pointer n) = omega arith
letters_pos (long_decimal n) = omega arith
letters_pos (long_hex n) = omega arith
letters_pos (hex d) = omega arith
letters_pos (decimal d) = omega arith
letters_pos (unsigned d) = omega arith
letters_pos (character d) = omega arith
letters_pos (unknown_long c) = omega arith

last-letters : (i : ℕ) (conv : Conversion) → last i conv + 1 ≡ i + 0 + length (letters conv)
last-letters i (string p cs) = omega arith
last-letters i (pointer n) = omega arith
last-letters i (long_decimal n) = omega arith
last-letters i (long_hex n) = omega arith
last-letters i (hex d) = omega arith
last-letters i (decimal d) = omega arith
last-letters i (unsigned d) = omega arith
last-letters i (character d) = omega arith
last-letters i (unknown_long c) = omega arith

module _ {ℓ} {S : Type ℓ} (write_char : S → ℕ → S) (k : Kernel) (view : S → Memory) (stack : Memory)
    (format : ℕ → ℕ) (g : ℕ) where
  loop_end :
      (f : ℕ) (p : Print S)
      → format p.i ≡ 0
      → format_loop write_char k view stack format (suc f) g p ≡ some p.payload
  unfolding format_loop
  loop_end f p e = ground arith

  letter_ne :
      (conv : Conversion) (i : ℕ) (rest : List ℕ)
      → IsText format i (letters conv ++ rest)
      → ((format i == b'%') ≡ false) × (format i ≢ 0)
  letter_ne (string p cs) i rest t = ground arith
  letter_ne (pointer n) i rest t = ground arith
  letter_ne (long_decimal n) i rest t = ground arith
  letter_ne (long_hex n) i rest t = ground arith
  letter_ne (hex d) i rest t = ground arith
  letter_ne (decimal d) i rest t = ground arith
  letter_ne (unsigned d) i rest t = ground arith
  letter_ne (character d) i rest t = ground arith
  letter_ne (unknown_long c) i rest t = ground arith

  -- One round of the loop.
  pub loop_step :
      (f : ℕ) (p q : Print S)
      → format p.i ≢ 0
      → format_step write_char k view stack format g p ≡ some q
      → format_loop write_char k view stack format (suc f) g p
        ≡ format_loop write_char k view stack format f g (record q { i = q.i + 1 })
  unfolding format_loop
  loop_step f p q ne e = ground arith

  module _ (conv : Conversion) (args : List Arg) (s : S) where
    abbrev escaped : ℕ → Print S
    escaped i = record { i = i; escape_mode = true; args = arguments conv ++ args; payload = s }

    is_modifier-ne-percent : (c : ℕ) → is_modifier c ≡ true → (c == b'%') ≡ false
    unfolding is_modifier
    is_modifier-ne-percent c h = ground arith

    modifier_step :
        (i : ℕ)
        → is_modifier (format i) ≡ true
        → format_step write_char k view stack format g (escaped i) ≡ some (escaped i)
    unfolding format_step
    modifier_step i h = rw (is_modifier-ne-percent (format i) h, h) refl

    letter_step :
        (i : ℕ) (rest : List ℕ)
        → IsText format i (letters conv ++ rest)
        → Fits write_char k view g s conv
        → format_step write_char k view stack format g (escaped i)
          ≡ some (after write_char k view stack format g i conv args s)
    unfolding format_step
    letter_step i rest t fits =
        rw ((letter_ne conv i rest t).0)
          (convert_lem write_char k view stack format g conv i rest args s t fits)

    -- The letters stand behind the modifiers and the `%`; each takes one round, `lu` and `lx` too.
    directive_rounds :
        (mods : List ℕ) (i f : ℕ) (rest : List ℕ)
        → IsText format i ((mods ++ letters conv) ++ rest)
        → AreModifiers mods
        → Fits write_char k view g s conv
        → format_loop write_char k view stack format (suc (length mods + f)) g (escaped i)
          ≡ format_loop write_char k view stack format f g (record {
            i = i + length mods + length (letters conv);
            escape_mode = false;
            args = args;
            payload = foldl write_char s (rendered k conv);
          })
    directive_rounds [] i f rest t all fits =
        rw (zero-add, ← last-letters i conv)
          (loop_step f (escaped i) (after write_char k view stack format g i conv args s)
            ((letter_ne conv i rest t).1) (letter_step i rest t fits))
    directive_rounds (c ∷ mods) i f rest (e, ne, t) (h, all) fits =
        let shift : i + 1 + length mods ≡ i + suc (length mods) = omega arith in
        rw (suc-add, ← shift)
          (loop_step (suc (length mods + f)) (escaped i) (escaped i) (λ z. ne (sym e ∙ z))
              (modifier_step i (rw e h))
            ∙ directive_rounds mods (i + 1) f rest t all fits)

  abbrev pub at : ℕ → List Arg → S → Print S
  at i args s = record { i = i; escape_mode = false; args = args; payload = s }

  pub open_escape :
      (i : ℕ) (args : List Arg) (s : S)
      → format i ≡ b'%'
      → format_step write_char k view stack format g (at i args s)
        ≡ some (record (at i args s) { escape_mode = true })
  unfolding format_step
  open_escape i args s e = ground arith

  percent_rounds :
      (ps : List Piece) (f i : ℕ) (s : S)
      → format i ≡ b'%'
      → format (i + 1) ≡ b'%'
      → format_loop write_char k view stack format (suc (suc f)) g (at i (arguments_all ps) s)
        ≡ format_loop write_char k view stack format f g
            (at (i + 1 + 1) (arguments_all ps) (write_char s b'%'))
  percent_rounds ps f i s e e' =
      let args = arguments_all ps in
      let p : Print S = record (at i args s) { escape_mode = true } in
      let close_step : format_step write_char k view stack format g (record p { i = i + 1 })
          ≡ some (at (i + 1) args (write_char s b'%')) =
        unfold format_step in ground arith in
      loop_step (suc f) (at i args s) p (ground arith) (open_escape i args s e)
      ∙ loop_step f (record p { i = i + 1 }) (at (i + 1) args (write_char s b'%')) (ground arith)
          close_step

  pub format_loop-rendered :
      (ps : List Piece) (f i : ℕ) (s : S)
      → IsText format i (spelled_all ps)
      → AllFit write_char k view g s ps
      → length (spelled_all ps) < f
      → format_loop write_char k view stack format f g (at i (arguments_all ps) s)
        ≡ some (foldl write_char s (rendered_all k ps))
  format_loop-rendered [] zero i s t fits fuel = absurd (omega arith)
  format_loop-rendered [] (suc f) i s t fits fuel = loop_end f (at i [] s) t
  format_loop-rendered (plain c ∷ ps) zero i s t fits fuel = absurd (omega arith)
  format_loop-rendered (plain c ∷ ps) (suc f) i s (e, ne, t) (np, fits) fuel =
      let args = arguments_all ps in
      let step : format_step write_char k view stack format g (at i args s)
          ≡ some (at i args (write_char s c)) =
        unfold format_step in ground arith in
      loop_step f (at i args s) (at i args (write_char s c)) (ground arith) step
      ∙ format_loop-rendered ps f (i + 1) (write_char s c) t fits (omega arith)
  format_loop-rendered (percent ∷ ps) zero i s t fits fuel = absurd (omega arith)
  format_loop-rendered (percent ∷ ps) (suc zero) i s t fits fuel = absurd (omega arith)
  format_loop-rendered (percent ∷ ps) (suc (suc f)) i s (e, ne, (e', ne', t)) fits fuel =
      percent_rounds ps f i s e e'
      ∙ format_loop-rendered ps f (i + 1 + 1) (write_char s b'%') t fits (omega arith)
  format_loop-rendered (directive mods conv ∷ ps) f i s (e, ne, t) (all, fit, fits) fuel =
      let fuel' = length-append (mods ++ letters conv) (spelled_all ps) in
      let letters' = length-append mods (letters conv) in
      let enough : f ≡ suc (suc (length mods + (f - 2 - length mods))) = omega arith in
      let next : ℕ = i + 1 + length mods + length (letters conv) in
      let behind : i + 1 + length (mods ++ letters conv) ≡ next = omega arith in
      let t' : IsText format next (spelled_all ps) =
        rw (← behind) (IsText-append format (i + 1) (mods ++ letters conv) (spelled_all ps) t) in
      rw (enough, foldl-append)
        (loop_step (suc (length mods + (f - 2 - length mods)))
            (at i (arguments_all (directive mods conv ∷ ps)) s)
            (escaped conv (arguments_all ps) s i) (ground arith)
            (open_escape i (arguments conv ++ arguments_all ps) s e)
          ∙ directive_rounds conv (arguments_all ps) s mods (i + 1) (f - 2 - length mods)
              (spelled_all ps) t all fit
          ∙ format_loop-rendered ps (f - 2 - length mods) next
              (foldl write_char s (rendered k conv)) t' fits (omega (arith, letters_pos conv)))

  -- What a piece of format prints is independent of what surrounds it: a format made of pieces,
  -- with the arguments that they take, is printed piece by piece, in order, and to its end.
  -- The arguments fit, and the fuel is above the length of the format.
  pub vxprintf-rendered :
      (ps : List Piece) (s : S)
      → IsText format 0 (spelled_all ps)
      → AllFit write_char k view g s ps
      → length (spelled_all ps) < g
      → vxprintf write_char k view stack format g (arguments_all ps) s
        ≡ some (foldl write_char s (rendered_all k ps))
  unfolding vxprintf
  vxprintf-rendered ps s t fits fuel = format_loop-rendered ps g 0 s t fits fuel
