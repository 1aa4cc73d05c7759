-- ===== src/Strops.antt =====
-- src/string.c: strlen, strcmp, strncmp, memset and memcpy, for both word sizes. A pointer loop
-- takes fuel; each loop of memset and memcpy is given one round for each byte that is left.
pub mod Bytes
pub mod Text
pub mod Memset
pub mod Memcpy
pub mod Compare
use se_l4_tools.Common.{
  ℕ, zero, suc, ◌+◌, ◌-◌, ◌*◌, ◌/◌, ◌%◌, true, false, Option, none, some, ◌&&◌, ◌||◌, ltb, leb,
  ◌==◌, if◌then◌else◌, ℤ, pos, sub_ℕ, Outcome, done, aborted, ◌>>=◌,
}
use se_l4_tools.Memory.{Kernel, byte_per_word, word_mod, Memory, store8, store, load}

-- `s` walks on until it finds the NUL; `n` is `s - str`.
strlen_loop : ℕ → Memory → ℕ → ℕ → Option ℕ
strlen_loop zero m s n = none
strlen_loop (suc f) m s n =
    let rest = strlen_loop f m (s + 1) (n + 1) in if m s == 0 then some n else rest

unfoldable pub strlen : ℕ → Memory → ℕ → Option ℕ
unfolding strlen_loop
strlen f m str = strlen_loop f m str 0

unfoldable pub strcmp : ℕ → Memory → ℕ → ℕ → Option ℤ
strcmp zero m a b = none
strcmp (suc f) m a b =
    let rest = strcmp f m (a + 1) (b + 1) in
    if m a == m b then (if m a == 0 then some (pos 0) else rest) else some (sub_ℕ (m a) (m b))

-- The round at index `i`, with `n - i` rounds left.
strncmp_loop : ℕ → Memory → ℕ → ℕ → ℕ → ℤ
strncmp_loop zero m s1 s2 i = pos 0
strncmp_loop (suc left) m s1 s2 i =
    let rest = strncmp_loop left m s1 s2 (i + 1) in
    if m (s1 + i) == m (s2 + i)
    then (if m (s1 + i) == 0 then pos 0 else rest)
    else sub_ℕ (m (s1 + i)) (m (s2 + i))

unfoldable pub strncmp : Memory → ℕ → ℕ → ℕ → ℤ
unfolding strncmp_loop
strncmp m s1 s2 n = strncmp_loop n m s1 s2 0

-- The variables of memset's loops.
pub record Fill : Type 0 where
  pub memory : Memory
  pub mem : ℕ
  pub n : ℕ

set_byte : ℕ → Fill → Fill
set_byte c s = record { memory = store8 s.memory s.mem c; mem = s.mem + 1; n = s.n - 1 }

-- `for (; (uintptr_t)mem % BYTE_PER_WORD != 0 && n > 0; mem++, n--)`
set_head : ℕ → ℕ → ℕ → Fill → Fill
set_head zero unit c s = s
set_head (suc f) unit c s =
    let rest = set_head f unit c (set_byte c s) in if s.mem % unit == 0 || s.n == 0 then s else rest

-- `for (; n > BYTE_PER_WORD - 1; n -= BYTE_PER_WORD, mem += BYTE_PER_WORD)`
set_words : ℕ → ℕ → ℕ → Fill → Fill
set_words zero unit fill s = s
set_words (suc f) unit fill s =
    let next : Fill = record {
      memory = store unit s.memory s.mem fill;
      mem = s.mem + unit;
      n = s.n - unit;
    } in
    let rest = set_words f unit fill next in if ltb (unit - 1) s.n then rest else s

-- `for (; n > 0; n--, mem++)`
set_tail : ℕ → ℕ → Fill → Fill
set_tail zero c s = s
set_tail (suc f) c s = let rest = set_tail f c (set_byte c s) in if s.n == 0 then s else rest

-- `((u_alias)-1 / 255) * (unsigned char)c`
word_filler : Kernel → ℕ → ℕ
word_filler k c = (word_mod k - 1) / 255 * (c % 256) % word_mod k

unfoldable pub memset : Kernel → Memory → ℕ → ℕ → ℕ → Memory
unfolding set_head set_words set_tail set_byte word_filler
memset k m s c n =
    let head = set_head n (byte_per_word k) c (record { memory = m; mem = s; n = n }) in
    let words = set_words head.n (byte_per_word k) (word_filler k c) head in
    (set_tail words.n c words).memory

-- `while (1)`: halve the unit until both addresses have the same remainder by it.
copy_unit : ℕ → ℕ → ℕ → ℕ → ℕ
copy_unit zero s d unit = unit
copy_unit (suc f) s d unit =
    let rest = copy_unit f s d (unit / 2) in
    if (s % unit == d % unit) || (unit == 1) then unit else rest

-- The variables of memcpy's loops.
pub record Copy : Type 0 where
  pub memory : Memory
  pub d : ℕ
  pub s : ℕ
  pub n : ℕ

copy_byte : Copy → Copy
copy_byte r = record {
  memory = store8 r.memory r.d (r.memory r.s);
  d = r.d + 1;
  s = r.s + 1;
  n = r.n - 1;
}

copy_head : ℕ → ℕ → Copy → Copy
copy_head zero unit r = r
copy_head (suc f) unit r =
    let rest = copy_head f unit (copy_byte r) in if r.d % unit == 0 || r.n == 0 then r else rest

-- The `switch` on the unit: a store of that width, or the default case.
copy_one : ℕ → Memory → ℕ → ℕ → Outcome Memory
copy_one unit m d s =
    if unit == 8 || unit == 4 || unit == 2 || unit == 1
    then done (store unit m d (load unit m s))
    else aborted "Invalid copy unit"

copy_units : ℕ → ℕ → Copy → Outcome Copy
copy_units zero unit r = done r
copy_units (suc f) unit r = elim (ltb (unit - 1) r.n) [
  | true ↦ copy_one unit r.memory r.d r.s >>= λ m.
      copy_units f unit (record { memory = m; d = r.d + unit; s = r.s + unit; n = r.n - unit })
  | false ↦ done r
]

copy_tail : ℕ → Copy → Copy
copy_tail zero r = r
copy_tail (suc f) r = let rest = copy_tail f (copy_byte r) in if r.n == 0 then r else rest

unfoldable pub memcpy : Kernel → Memory → ℕ → ℕ → ℕ → Outcome Memory
unfolding copy_unit copy_head copy_byte copy_one copy_units copy_tail
memcpy k m dest src n =
    let unit = copy_unit (byte_per_word k) src dest (byte_per_word k) in
    let head = copy_head n unit (record { memory = m; d = dest; s = src; n = n }) in
    copy_units head.n unit head >>= λ r. done (copy_tail r.n r).memory
