-- ===== src/Printf/Number.antt =====
-- write_num writes the digits of its number, most significant first, and never leaves its buffer.
use mathlib.Core.List.{foldl}
use native.Mathlib.Nat.{pow-suc, add-zero, div-add-mod, mul-le-mul_right}
use se_l4_tools.Common.{
  ℕ, zero, suc, ◌+◌, ◌-◌, ◌*◌, ◌/◌, ◌%◌, ◌^◌, ◌≤◌, ◌<◌, ◌≡◌, ◌≢◌, inl, inr, refl, true, ◌∙◌,
  Bool-cases, ltb, ◌==◌, arith, if◌then◌else◌, some, List, [], ◌∷◌, length, get_elem?, get_or,
  get_elem?-eq-get_or, passes, passes-each, ==_iff, ap,
}
use se_l4_tools.Memory.{Memory, store8}
use se_l4_tools.Strops.Text.{IsText}
use se_l4_tools.Printf.{hex, max_int_buff_size, num_loop, write_string, write_num}

-- The character of a digit.
unfoldable pub digit_char : ℕ → ℕ
digit_char d = if ltb d 10 then b'0' + d else b'a' + (d - 10)

-- The digits of `n` in front of `out`, in at most `f` places.
unfoldable pub digits_of : ℕ → ℕ → ℕ → List ℕ → List ℕ
digits_of zero base n out = out
digits_of (suc f) base n out =
    let rest = digits_of f base (n / base) (digit_char (n % base) ∷ out) in
    if n == 0 then out else rest

-- What write_num is to print.
unfoldable pub number_text : ℕ → ℕ → List ℕ
number_text base n = if n == 0 then b'0' ∷ [] else digits_of 65 base n []

-- The value of a digit's character, and of a text.
unfoldable pub digit_value : ℕ → ℕ
digit_value c = if ltb c b'a' then c - b'0' else c - b'a' + 10

unfoldable pub text_value : ℕ → ℕ → List ℕ → ℕ
text_value base acc [] = acc
text_value base acc (c ∷ cs) = text_value base (acc * base + digit_value c) cs

-- One of the bases that the source supports.
abbrev pub IsBase : ℕ → Type 0
IsBase base = (2 ≤ base) × (base ≤ 16)

digit_value-digit_char : (d : ℕ) → d < 16 → digit_value (digit_char d) ≡ d
unfolding digit_value digit_char
digit_value-digit_char d h = ground arith

quotient_lt : (base n b : ℕ) → 2 ≤ base → n < 2 * b → n / base < b
quotient_lt base n b h lt = grind (arith, div-add-mod n base, mul-le-mul_right (n / base) h)

quotient_lt_pow : (f base n : ℕ) → 2 ≤ base → n < 2 ^ suc f → n / base < 2 ^ f
quotient_lt_pow f base n h lt = quotient_lt base n (2 ^ f) h (omega (arith, pow-suc 2 f))

text_value-digits_of :
    (f base n : ℕ) (out : List ℕ)
    → IsBase base
    → n < 2 ^ f
    → text_value base 0 (digits_of (suc f) base n out) ≡ text_value base n out
unfolding digits_of text_value
text_value-digits_of zero base n out h lt = let e : n ≡ 0 = omega arith in rw e refl
text_value-digits_of (suc f) base n out h lt = elim (Bool-cases (n == 0)) [
  | inl stop ↦ rw stop (let e : n ≡ 0 = ground arith in rw e refl)
  | inr go ↦
      let whole : n / base * base + n % base ≡ n = grind (arith, div-add-mod n base) in
      let value : digit_value (digit_char (n % base)) ≡ n % base =
        digit_value-digit_char _ (grind arith) in
      rw go (
        text_value-digits_of f base (n / base) (digit_char (n % base) ∷ out) h
          (quotient_lt_pow f base n h.0 lt)
        ∙ rw (value, whole) refl)
]

pub text_value-number_text :
    (base n : ℕ) → IsBase base → n < 2 ^ 64 → text_value base 0 (number_text base n) ≡ n
unfolding number_text
text_value-number_text base n h lt = elim (Bool-cases (n == 0)) [
  | inl stop ↦ rw stop (unfold text_value digit_value in ground arith)
  | inr go ↦ rw go (text_value-digits_of 64 base n [] h lt ∙ unfold text_value in refl)
]

length-digits_of : (f base n : ℕ) (out : List ℕ) → length (digits_of f base n out) ≤ f + length out
unfolding digits_of
length-digits_of zero base n out = omega arith
length-digits_of (suc f) base n out =
    ground (arith, length-digits_of f base (n / base) (digit_char (n % base) ∷ out))

pub length-number_text : (base n : ℕ) → length (number_text base n) ≤ 65
unfolding number_text
length-number_text base n = elim (Bool-cases (n == 0)) [
  | inl stop ↦ rw stop (omega arith)
  | inr go ↦ rw go (omega (arith, length-digits_of 65 base n []))
]

-- The buffer.
digit_char_lt : (d : ℕ) → d < 16 → (digit_char d ≢ 0) × (digit_char d < 256)
unfolding digit_char
digit_char_lt d h = (ground arith, ground arith)

hex_table : passes (λ d. get_or hex d 0 == digit_char d) 0 16 ≡ true
unfolding passes digit_char
hex_table = refl

get_elem?-hex : (d : ℕ) → d < 16 → get_elem? hex d ≡ some (digit_char d)
get_elem?-hex d h =
    get_elem?-eq-get_or hex d 0 (omega arith)
    ∙ ap some ((==_iff _ _).0 (passes-each _ 16 0 d hex_table (omega arith) (omega arith)))

IsText-store8 :
    (m : Memory) (k v p : ℕ) (cs : List ℕ) → k < p → IsText m p cs → IsText (store8 m k v) p cs
unfolding store8
IsText-store8 m k v p [] h t = ground arith
IsText-store8 m k v p (c ∷ cs) h (e, ne, t) =
    (ground arith, ne, IsText-store8 m k v (p + 1) cs (omega arith) t)

num_loop_end :
    (f base n next : ℕ) (buff : Memory)
    → n ≡ 0
    → num_loop (suc f) base n next buff ≡ some (next, buff)
unfolding num_loop
num_loop_end f base n zero buff e = ground arith
num_loop_end f base n (suc next) buff e = ground arith

num_loop_digit :
    (f base n k : ℕ) (buff : Memory)
    → n ≢ 0
    → n % base < 16
    → num_loop (suc f) base n (suc k) buff
      ≡ num_loop f base (n / base) k (store8 buff k (digit_char (n % base)))
unfolding num_loop
num_loop_digit f base n k buff h lt = ground (arith, get_elem?-hex (n % base) lt)

num_loop-IsText :
    (f base n next : ℕ) (buff : Memory) (out : List ℕ)
    → IsBase base
    → n < 2 ^ f
    → f ≤ next
    → IsText buff next out
    → (k : ℕ) × (buff' : Memory) × (num_loop (suc f) base n next buff ≡ some (k, buff'))
      × IsText buff' k (digits_of (suc f) base n out)
unfolding digits_of
num_loop-IsText zero base n next buff out h lt room t =
    let e : n ≡ 0 = omega arith in (next, buff, num_loop_end 0 base n next buff e, rw e t)
num_loop-IsText (suc f) base n zero buff out h lt room t = absurd (omega arith)
num_loop-IsText (suc f) base n (suc next) buff out h lt room t = elim (Bool-cases (n == 0)) [
  | inl stop ↦
      (suc next, buff, num_loop_end (suc f) base n (suc next) buff (ground arith), rw stop t)
  | inr go ↦
      let d = n % base in
      let small : d < 16 = grind arith in
      let (ne, byte) = digit_char_lt d small in
      let buff1 = store8 buff next (digit_char d) in
      let e : next + 1 ≡ suc next = omega arith in
      let t1 : IsText buff1 next (digit_char d ∷ out) = (
        unfold store8 in ground arith,
        ne,
        rw e (IsText-store8 buff next (digit_char d) (suc next) out (omega arith) t),
      ) in
      let (k, buff2, run, t2) =
        num_loop-IsText f base (n / base) next buff1 (digit_char d ∷ out) h
          (quotient_lt_pow f base n h.0 lt) (omega arith) t1 in
      (k, buff2, num_loop_digit (suc f) base n next buff (ground arith) small ∙ run, rw go t2)
]

module _ {ℓ} {S : Type ℓ} (write_char : S → ℕ → S) (view : S → Memory) where
  -- `cs` stands at `p`, and stays there whatever characters are written.
  abbrev pub Readable : S → ℕ → List ℕ → Type 0
  Readable s p cs = (ds : List ℕ) → IsText (view (foldl write_char s ds)) p cs

  -- write_string writes the characters of a string in order.
  pub write_string-foldl :
      (f i str : ℕ) (s : S) (cs : List ℕ)
      → Readable s (str + i) cs
      → length cs < f
      → write_string write_char f view str i s ≡ some (foldl write_char s cs)
  unfolding write_string
  write_string-foldl zero i str s cs t h = absurd (omega arith)
  write_string-foldl (suc f) i str s [] t h = ground (arith, t [])
  write_string-foldl (suc f) i str s (c ∷ cs) t h =
      let (e, ne, _) = t [] in
      let shift : str + i + 1 ≡ str + (i + 1) = omega arith in
      let rest : Readable (write_char s c) (str + (i + 1)) cs =
        λ ds. rw (← shift) ((t (c ∷ ds)).2) in
      ground (arith, e, write_string-foldl f (i + 1) str (write_char s c) cs rest (omega arith))

-- write_num prints the digits of `n`, most significant first, in every base from 2 to 16, and
-- never leaves its buffer.
-- `n` is below 2 ^ 64.
pub write_num-number_text {ℓ} :
    {S : Type ℓ} (write_char : S → ℕ → S) (stack : Memory) (base n : ℕ) (s : S)
    → IsBase base
    → n < 2 ^ 64
    → write_num write_char stack base n s ≡ some (foldl write_char s (number_text base n))
unfolding write_num number_text
write_num-number_text write_char stack base n s h lt = elim (Bool-cases (n == 0)) [
  | inl stop ↦ rw stop refl
  | inr go ↦
      let last = max_int_buff_size - 1 in
      let (k, buff, run, t) =
        num_loop-IsText 64 base n last (store8 stack last 0) [] h lt (omega arith)
          (unfold store8 in ground arith) in
      rw (go, run)
        (write_string-foldl write_char (λ _. buff) max_int_buff_size 0 k s (digits_of 65 base n [])
          (λ ds. rw add-zero t) (omega (arith, length-digits_of 65 base n [])))
]

-- For every unsigned long and every base from 2 to 16, write_num ends, and what it has then written are
-- the digits of its number: read in that base, most significant first, they give the number back.
pub write_num-text_value {ℓ} :
    {S : Type ℓ} (write_char : S → ℕ → S) (stack : Memory) (base n : ℕ) (s : S)
    → IsBase base
    → n < 2 ^ 64
    → (cs : List ℕ) × (write_num write_char stack base n s ≡ some (foldl write_char s cs))
      × (text_value base 0 cs ≡ n)
write_num-text_value write_char stack base n s h lt = (
  number_text base n,
  write_num-number_text write_char stack base n s h lt,
  text_value-number_text base n h lt,
)
