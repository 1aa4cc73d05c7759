-- ===== src/Printf/Format/Convert.antt =====
-- vxprintf's `switch`, a lemma for each conversion.
use mathlib.Core.List.{foldl}
use native.Mathlib.Nat.{add-zero}
use se_l4_tools.Common.{ℕ, ◌+◌, ◌%◌, ◌^◌, ◌<◌, ◌≡◌, refl, true, false, arith, some, List, ◌++◌}
use se_l4_tools.Memory.{Kernel, kernel_32, kernel_64, word_mod, Memory}
use se_l4_tools.Strops.Text.{IsText}
use se_l4_tools.Printf.{Arg, long_of_int, Print, convert, write_num}
use se_l4_tools.Printf.Number.{
  IsBase, Readable, number_text, write_string-foldl, write_num-number_text,
}
use se_l4_tools.Printf.Format.{
  Conversion, string, pointer, long_decimal, long_hex, hex, decimal, unsigned, character,
  unknown_long, letters, arguments, rendered, last, Fits,
}

module _ {ℓ} {S : Type ℓ} (write_char : S → ℕ → S) (k : Kernel) (view : S → Memory) (stack : Memory)
    (format : ℕ → ℕ) (g : ℕ) where
  abbrev pub after : ℕ → Conversion → List Arg → S → Print S
  after i conv args s = record {
    i = last i conv;
    escape_mode = false;
    args = args;
    payload = foldl write_char s (rendered k conv);
  }

  long_bounds : (n : ℕ) → n < word_mod k → (n % word_mod k ≡ n) × (n < 2 ^ 64)
  long_bounds = go k
    where
      go : (k : Kernel) (n : ℕ) → n < word_mod k → (n % word_mod k ≡ n) × (n < 2 ^ 64)
      go kernel_32 n h = (omega arith, omega arith)
      go kernel_64 n h = (omega arith, omega arith)

  int_bounds : (d : ℕ) → d < 2 ^ 32 → (d % 2 ^ 32 ≡ d) × (long_of_int k d < 2 ^ 64)
  int_bounds d h = (omega arith, go k)
    where
      go : (k : Kernel) → long_of_int k d < 2 ^ 64
      go kernel_32 = ground arith
      go kernel_64 = ground arith

  prints_long :
      (base n : ℕ) (s : S)
      → IsBase base
      → n < word_mod k
      → write_num write_char stack base (n % word_mod k) s
        ≡ some (foldl write_char s (number_text base n))
  prints_long base n s b h =
      rw ((long_bounds n h).0)
        (write_num-number_text write_char stack base n s b (long_bounds n h).1)

  prints_int :
      (base d : ℕ) (s : S)
      → IsBase base
      → d < 2 ^ 32
      → write_num write_char stack base (long_of_int k (d % 2 ^ 32)) s
        ≡ some (foldl write_char s (number_text base (long_of_int k d)))
  prints_int base d s b h =
      rw ((int_bounds d h).0)
        (write_num-number_text write_char stack base (long_of_int k d) s b (int_bounds d h).1)

  -- Each conversion takes its argument and prints its rendering.
  pub convert_lem :
      (conv : Conversion) (i : ℕ) (rest : List ℕ) (args : List Arg) (s : S)
      → IsText format i (letters conv ++ rest)
      → Fits write_char k view g s conv
      → convert write_char k view stack format g
          (record { i = i; escape_mode = true; args = arguments conv ++ args; payload = s })
        ≡ some (after i conv args s)
  unfolding convert
  convert_lem (string p cs) i rest args s (e, ne, t) (r, short) =
      let r' : Readable write_char view s (p + 0) cs = λ ds. rw add-zero (r ds) in
      rw (e, write_string-foldl write_char view g 0 p s cs r' short) refl
  convert_lem (pointer n) i rest args s (e, ne, t) h =
      rw (e, prints_long 16 n s (omega arith) h) refl
  convert_lem (long_decimal n) i rest args s (e, ne, (e', ne', t)) h =
      rw (e, e', prints_long 10 n s (omega arith) h) refl
  convert_lem (long_hex n) i rest args s (e, ne, (e', ne', t)) h =
      rw (e, e', prints_long 16 n s (omega arith) h) refl
  convert_lem (hex d) i rest args s (e, ne, t) h = rw (e, prints_int 16 d s (omega arith) h) refl
  convert_lem (decimal d) i rest args s (e, ne, t) h =
      rw (e, prints_int 10 d s (omega arith) h) refl
  convert_lem (unsigned d) i rest args s (e, ne, t) h =
      rw (e, prints_int 10 d s (omega arith) h) refl
  convert_lem (character d) i rest args s (e, ne, t) h = rw (e, (int_bounds d h).0) refl
  convert_lem (unknown_long c) i rest args s (e, ne, (e', ne', t)) (nu, nx) = rw e (ground arith)
