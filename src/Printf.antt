-- ===== src/Printf.antt =====
-- src/printf.c: write_string, write_num and vxprintf over any `write_char`, and printf, puts and
-- sprintf on top of them. `none` means that the fuel ran out, that write_num left its buffer, or
-- that the arguments do not fit the format, which C leaves undefined.
pub mod Number
pub mod Format
pub mod Output
use Prim.Native.Char.{code}
use Prim.Native.String
use Prim.Native.String.{String}
use mathlib.Core.Bool.{not}
use se_l4_tools.Common.{
  ℕ, zero, suc, ◌+◌, ◌-◌, ◌*◌, ◌/◌, ◌%◌, ◌^◌, Bool, true, false, Option, none, some, List, [], ◌∷◌,
  ◌++◌, ◌&&◌, ◌||◌, ltb, leb, ◌==◌, if◌then◌else◌, get_elem?,
}
use se_l4_tools.Memory.{Kernel, word_mod, Memory, store8}

abbrev pub codes : String → List ℕ
codes String.[] = []
codes (String.◌∷◌ c s) = code c ∷ codes s

infixl 5 ◌>>=◌
abbrev pub ◌>>=◌ {ℓ κ} : {A : Type ℓ} {B : Type κ} → Option A → (A → Option B) → Option B
none >>= f = none
some a >>= f = f a

abbrev pub max_int_buff_size : ℕ
max_int_buff_size = 80

-- `static const char hex[]`, with its NUL
abbrev pub hex : List ℕ
hex = codes "0123456789abcdef" ++ 0 ∷ []

-- A vararg as it was passed: the pattern of an int, of an unsigned long, or a pointer.
pub data Arg : Type 0 where
  int_arg : ℕ → Arg
  long_arg : ℕ → Arg
  str_arg : ℕ → Arg

abbrev pub va_int : List Arg → Option (ℕ × List Arg)
va_int (int_arg d ∷ args) = some (d % 2 ^ 32, args)
va_int _ = none

abbrev pub va_long : Kernel → List Arg → Option (ℕ × List Arg)
va_long k (long_arg u ∷ args) = some (u % word_mod k, args)
va_long k _ = none

abbrev pub va_str : List Arg → Option (ℕ × List Arg)
va_str (str_arg p ∷ args) = some (p, args)
va_str _ = none

-- An int handed to an `unsigned long` parameter: the sign is extended.
abbrev pub long_of_int : Kernel → ℕ → ℕ
long_of_int k d = if ltb d (2 ^ 31) then d else d + word_mod k - 2 ^ 32

-- `while (n > 0)` of write_num; `next` is `k + 1`, the first slot that is in use.
unfoldable pub num_loop : ℕ → ℕ → ℕ → ℕ → Memory → Option (ℕ × Memory)
num_loop zero base n next buff = none
num_loop (suc f) base n zero buff = if n == 0 then some (zero, buff) else none
num_loop (suc f) base n (suc k) buff = elim (n == 0) [
  | true ↦ some (suc k, buff)
  | false ↦ get_elem? hex (n % base) >>= λ c. num_loop f base (n / base) k (store8 buff k c)
]

unfoldable pub is_modifier : ℕ → Bool
is_modifier c = (leb b'0' c && leb c b'9') || c == b'-' || c == b'.'

-- The variables of vxprintf's loop.
pub record Print {ℓ} (S : Type ℓ) : Type ℓ where
  pub i : ℕ
  pub escape_mode : Bool
  pub args : List Arg
  pub payload : S

module _ {ℓ} {S : Type ℓ} (write_char : S → ℕ → S) where
  -- The round at index `i`. Characters may be written into the memory that `view` reads.
  unfoldable pub write_string : ℕ → (S → Memory) → ℕ → ℕ → S → Option S
  write_string zero view str i s = none
  write_string (suc f) view str i s =
      let c = view s (str + i) in
      let rest = write_string f view str (i + 1) (write_char s c) in if c == 0 then some s else rest

  -- `buff` starts with what stood on the stack; 65 rounds are enough for 64 bits in base 2.
  unfoldable pub write_num : Memory → ℕ → ℕ → S → Option S
  write_num buff base n s =
      if n == 0
      then some (write_char s b'0')
      else (num_loop 65 base n (max_int_buff_size - 1) (store8 buff (max_int_buff_size - 1) 0)
          >>= λ (next, buff). write_string max_int_buff_size (λ _. buff) next 0 s)

  module _ (k : Kernel) (view : S → Memory) (buff : Memory) (format : ℕ → ℕ) where
    -- `switch (format[++i])` behind an `l`.
    unfoldable pub convert_long : Print S → Option (Print S)
    convert_long p =
        let i = p.i + 1 in
        let c = format i in
        if c == b'u' || c == b'x'
        then (va_long k p.args >>= λ (ul, args).
            write_num buff (if c == b'u' then 10 else 16) ul p.payload >>= λ s.
            some (record { i = i; escape_mode = false; args = args; payload = s }))
        else some (record p { i = i; escape_mode = false; payload = write_char p.payload b'?' })

    -- `switch (format[i])` in escape mode.
    unfoldable pub convert : ℕ → Print S → Option (Print S)
    unfolding convert_long is_modifier
    convert f p =
        let c = format p.i in
        let finish : S → List Arg → Option (Print S) =
          λ s args. some (record p { escape_mode = false; args = args; payload = s }) in
        if is_modifier c
        then some p
        else if c == b's'
        then (va_str p.args >>= λ (s, args).
            write_string f view s 0 p.payload >>= λ s'. finish s' args)
        else if c == b'p'
        then (va_long k p.args >>= λ (ul, args).
            write_num buff 16 ul p.payload >>= λ s'. finish s' args)
        else if c == b'x'
        then (va_int p.args >>= λ (d, args).
            write_num buff 16 (long_of_int k d) p.payload >>= λ s'. finish s' args)
        else if c == b'd' || c == b'u'
        then (va_int p.args >>= λ (d, args).
            write_num buff 10 (long_of_int k d) p.payload >>= λ s'. finish s' args)
        else if c == b'c'
        then (va_int p.args >>= λ (d, args). finish (write_char p.payload (d % 256)) args)
        else if c == b'l'
        then convert_long p
        else finish (write_char p.payload b'?') p.args

    -- The body of the `for`.
    unfoldable pub format_step : ℕ → Print S → Option (Print S)
    unfolding convert
    format_step f p =
        let c = format p.i in
        if not p.escape_mode && not (c == b'%')
        then some (record p { payload = write_char p.payload c })
        else if c == b'%'
        then (if p.escape_mode
            then some (record p { escape_mode = false; payload = write_char p.payload c })
            else some (record p { escape_mode = true }))
        else convert f p

    -- `g` bounds the length of a string argument.
    unfoldable pub format_loop : ℕ → ℕ → Print S → Option S
    unfolding format_step
    format_loop zero g p = none
    format_loop (suc f) g p = elim (format p.i == 0) [
      | true ↦ some p.payload
      | false ↦ format_step g p >>= λ q. format_loop f g (record q { i = q.i + 1 })
    ]

    unfoldable pub vxprintf : ℕ → List Arg → S → Option S
    unfolding format_loop
    vxprintf f args s =
        format_loop f f (record { i = 0; escape_mode = false; args = args; payload = s })

-- What `__fputc` was given, in order, and the count.
pub record Console : Type 0 where
  pub out : List ℕ
  pub num_chars_printed : ℕ

abbrev pub arch_write_char : Console → ℕ → Console
arch_write_char p c = record { out = p.out ++ c ∷ []; num_chars_printed = p.num_chars_printed + 1 }

unfoldable pub printf :
    ℕ → Kernel → (m buff : Memory) → (format : ℕ → ℕ) → List Arg → List ℕ → Option Console
unfolding vxprintf
printf f k m buff format args out =
    vxprintf arch_write_char k (λ _. m) buff format f args
      (record { out = out; num_chars_printed = 0 })

unfoldable pub puts : ℕ → Memory → ℕ → List ℕ → Option Console
puts f m str out =
    write_string arch_write_char f (λ _. m) str 0 (record { out = out; num_chars_printed = 0 })
    >>= λ s. some (arch_write_char s b'\n')

pub record SprintfPayload : Type 0 where
  pub memory : Memory
  pub buff : ℕ
  pub n : ℕ

abbrev pub sprintf_write_char : SprintfPayload → ℕ → SprintfPayload
sprintf_write_char p c = record p { memory = store8 p.memory (p.buff + p.n) c; n = p.n + 1 }

unfoldable pub sprintf :
    ℕ → Kernel → Memory → (stack : Memory) → ℕ → (format : ℕ → ℕ) → List Arg → Option SprintfPayload
unfolding vxprintf
sprintf f k m stack buff format args =
    vxprintf sprintf_write_char k (λ p. p.memory) stack format f args
      (record { memory = m; buff = buff; n = 0 })
