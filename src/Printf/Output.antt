-- ===== src/Printf/Output.antt =====
-- What printf, puts and sprintf do with the characters.
use mathlib.Core.List.{foldl, append-nil, append_assoc}
use native.Mathlib.Nat.{add-zero, zero-add}
use native.Mathlib.Numerals.{sub-one}
use se_l4_tools.Common.{
  ℕ, zero, suc, ◌+◌, ◌-◌, ◌%◌, ◌^◌, ◌≤◌, ◌<◌, ◌≡◌, ◌≢◌, refl, ◌∙◌, ap, arith, if◌then◌else◌, some,
  List, [], ◌∷◌, ◌++◌, length, get_or,
}
use se_l4_tools.Memory.{Kernel, kernel_32, kernel_64, word_mod, Memory, store8}
use se_l4_tools.Strops.Text.{IsText}
use se_l4_tools.Strops.Bytes.{within}
use se_l4_tools.Printf.{
  Console, arch_write_char, printf, puts, SprintfPayload, sprintf_write_char, sprintf, long_of_int,
}
use se_l4_tools.Printf.Number.{text_value, text_value-number_text, write_string-foldl}
use se_l4_tools.Printf.Format.{
  Piece, decimal, spelled_all, arguments_all, rendered, rendered_all, AllFit,
}
use se_l4_tools.Printf.Format.Loop.{vxprintf-rendered}

foldl-arch_write_char :
    (cs : List ℕ) (p : Console)
    → foldl arch_write_char p cs
      ≡ record { out = p.out ++ cs; num_chars_printed = p.num_chars_printed + length cs }
foldl-arch_write_char [] p = rw (append-nil, add-zero) refl
foldl-arch_write_char (c ∷ cs) p =
    let count : p.num_chars_printed + 1 + length cs ≡ p.num_chars_printed + suc (length cs) =
      omega arith in
    foldl-arch_write_char cs (arch_write_char p c) ∙ rw (append_assoc, count) refl

-- printf puts the renderings of the pieces on the console, behind what is there, and returns
-- their number of characters.
-- The format is made of pieces, the arguments fit, and the fuel is above the length of the format.
pub printf-rendered :
    (f : ℕ) (k : Kernel) (m stack : Memory) (format : ℕ → ℕ) (ps : List Piece) (out : List ℕ)
    → IsText format 0 (spelled_all ps)
    → AllFit arch_write_char k (λ _. m) f (record { out = out; num_chars_printed = 0 }) ps
    → length (spelled_all ps) < f
    → printf f k m stack format (arguments_all ps) out
      ≡ some (record {
        out = out ++ rendered_all k ps;
        num_chars_printed = length (rendered_all k ps);
      })
unfolding printf
printf-rendered f k m stack format ps out t fits fuel =
    let start : Console = record { out = out; num_chars_printed = 0 } in
    vxprintf-rendered arch_write_char k (λ _. m) stack format f ps start t fits fuel
    ∙ ap some (foldl-arch_write_char (rendered_all k ps) start ∙ rw zero-add refl)

-- puts prints the string and a newline.
-- The fuel is above the length of the string.
pub puts_lem :
    (f : ℕ) (m : Memory) (str : ℕ) (cs out : List ℕ)
    → IsText m str cs
    → length cs < f
    → puts f m str out
      ≡ some (record { out = out ++ cs ++ b'\n' ∷ []; num_chars_printed = length cs + 1 })
unfolding puts
puts_lem f m str cs out t fuel =
    let start : Console = record { out = out; num_chars_printed = 0 } in
    let t' : IsText m (str + 0) cs = rw add-zero t in
    rw
      (
        write_string-foldl arch_write_char (λ _. m) f 0 str start cs (λ ds. t') fuel,
        foldl-arch_write_char cs start,
        zero-add,
        append_assoc,
      )
      refl

get_or-cons : (c : ℕ) (cs : List ℕ) (j : ℕ) → j ≢ 0 → get_or (c ∷ cs) j 0 ≡ get_or cs (j - 1) 0
get_or-cons c cs zero h = absurd (h refl)
get_or-cons c cs (suc j) h = rw sub-one refl

get_or-cons_head : (c : ℕ) (cs : List ℕ) (j : ℕ) → j ≡ 0 → get_or (c ∷ cs) j 0 ≡ c
get_or-cons_head c cs zero h = refl
get_or-cons_head c cs (suc j) h = absurd (omega arith)

foldl-sprintf_write_char :
    (cs : List ℕ) (p : SprintfPayload) (q : ℕ)
    → ((foldl sprintf_write_char p cs).n ≡ p.n + length cs)
      × ((foldl sprintf_write_char p cs).memory q ≡ (
          if within (p.buff + p.n) (length cs) q
          then get_or cs (q - (p.buff + p.n)) 0 % 256
          else p.memory q))
foldl-sprintf_write_char [] p q = (omega arith, ground arith)
foldl-sprintf_write_char (c ∷ cs) p q =
    let (count, bytes) = foldl-sprintf_write_char cs (sprintf_write_char p c) q in
    (omega arith, bytes ∙ one)
  where
    one :
        (if within (p.buff + (p.n + 1)) (length cs) q
          then get_or cs (q - (p.buff + (p.n + 1))) 0 % 256
          else store8 p.memory (p.buff + p.n) c q)
        ≡ (if within (p.buff + p.n) (suc (length cs)) q
            then get_or (c ∷ cs) (q - (p.buff + p.n)) 0 % 256
            else p.memory q)
    one =
        unfold store8 in
        ground
          (arith, get_or-cons c cs (q - (p.buff + p.n)), get_or-cons_head c cs (q - (p.buff + p.n)))

-- sprintf puts the renderings of the pieces into the buffer and returns their number of
-- characters. It writes no byte behind them: the result is not terminated by a NUL.
-- The format is made of pieces, the arguments fit, and the fuel is above the length of the format.
pub sprintf-rendered :
    (f : ℕ) (k : Kernel) (m stack : Memory) (buff : ℕ) (format : ℕ → ℕ) (ps : List Piece)
    → IsText format 0 (spelled_all ps)
    → AllFit sprintf_write_char k (λ p. p.memory) f (record { memory = m; buff = buff; n = 0 }) ps
    → length (spelled_all ps) < f
    → let text = rendered_all k ps in
      (r : SprintfPayload) × (sprintf f k m stack buff format (arguments_all ps) ≡ some r)
      × (r.n ≡ length text)
      × ((q : ℕ)
          → r.memory q
            ≡ (if within buff (length text) q then get_or text (q - buff) 0 % 256 else m q))
unfolding sprintf
sprintf-rendered f k m stack buff format ps t fits fuel =
    let start : SprintfPayload = record { memory = m; buff = buff; n = 0 } in
    let text = rendered_all k ps in
    (
      foldl sprintf_write_char start text,
      vxprintf-rendered sprintf_write_char k (λ p. p.memory) stack format f ps start t fits fuel,
      (foldl-sprintf_write_char text start 0).0 ∙ zero-add (length text),
      λ q. rw add-zero at ((foldl-sprintf_write_char text start q).1),
    )

long_of_int_negative :
    (k : Kernel) (d : ℕ)
    → 2 ^ 31 ≤ d
    → d < 2 ^ 32
    → (long_of_int k d < 2 ^ 64) × (long_of_int k d + (2 ^ 32 - d) ≡ word_mod k)
long_of_int_negative kernel_32 d h lt = (ground arith, ground arith)
long_of_int_negative kernel_64 d h lt = (ground arith, ground arith)

-- `%d` of a negative int prints its value modulo a word: -1 comes out as the largest unsigned long.
pub text_value-decimal_negative :
    (k : Kernel) (d : ℕ)
    → 2 ^ 31 ≤ d
    → d < 2 ^ 32
    → text_value 10 0 (rendered k (decimal d)) + (2 ^ 32 - d) ≡ word_mod k
text_value-decimal_negative k d h lt = omega (
  arith,
  text_value-number_text 10 (long_of_int k d) (omega arith) (long_of_int_negative k d h lt).0,
  long_of_int_negative k d h lt,
)
