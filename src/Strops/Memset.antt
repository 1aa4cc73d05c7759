-- ===== src/Strops/Memset.antt =====
-- memset with word writes fills the same bytes as one byte write after the other.
use native.Mathlib.Nat.{le_refl}
use native.Mathlib.Numerals.{sub-one}
use se_l4_tools.Common.{
  ℕ, zero, suc, ◌+◌, ◌-◌, ◌*◌, ◌/◌, ◌%◌, ◌≤◌, ◌<◌, ◌≡◌, refl, sym, ap, ◌∙◌, ltb, ◌==◌, ◌||◌, inl,
  inr, ◌≢◌, Bool-cases, fun_ext, arith, ltb→lt, true,
}
use se_l4_tools.Memory.{Kernel, kernel_32, kernel_64, byte_per_word, Memory, store8, store}
use se_l4_tools.Strops.{Fill, set_byte, set_head, set_words, set_tail, word_filler, memset}
use se_l4_tools.Strops.Bytes.{fill_bytes, fill_bytes_split}

-- `n` bytes that all hold `c`
abbrev filler : ℕ → ℕ → ℕ
filler c zero = 0
filler c (suc n) = c % 256 + 256 * filler c n

store-filler : (n : ℕ) (m : Memory) (p c : ℕ) → store n m p (filler c n) ≡ fill_bytes m p c n
unfolding store fill_bytes store8
store-filler zero m p c = refl
store-filler (suc n) m p c =
    let lo : (c % 256 + 256 * filler c n) / 256 ≡ filler c n = omega arith in
    let same : store8 m p (c % 256 + 256 * filler c n) ≡ store8 m p c =
      fun_ext (λ q. unfold store8 in ground arith) in
    rw (lo, same) (store-filler n (store8 m p c) (p + 1) c)

word_filler_lem : (k : Kernel) (c : ℕ) → word_filler k c ≡ filler c (byte_per_word k)
unfolding word_filler
word_filler_lem kernel_32 c = omega arith
word_filler_lem kernel_64 c = omega arith

byte_per_word_pos : (k : Kernel) → 0 < byte_per_word k
byte_per_word_pos kernel_32 = omega arith
byte_per_word_pos kernel_64 = omega arith

-- What the loops have still to fill; no round changes it.
abbrev left : ℕ → Fill → Memory
left c s = fill_bytes s.memory s.mem c s.n

fill_bytes_pos :
    (m : Memory) (p c n : ℕ)
    → n ≢ 0
    → fill_bytes (store8 m p c) (p + 1) c (n - 1) ≡ fill_bytes m p c n
unfolding fill_bytes
fill_bytes_pos m p c zero h = absurd (h refl)
fill_bytes_pos m p c (suc n) h = rw sub-one refl

set_head-left : (f unit c : ℕ) (s : Fill) → left c (set_head f unit c s) ≡ left c s
unfolding set_head set_byte
set_head-left zero unit c s = refl
set_head-left (suc f) unit c s = elim (Bool-cases (s.mem % unit == 0 || s.n == 0)) [
  | inl stop ↦ rw stop refl
  | inr go ↦
      rw go
        (set_head-left f unit c (set_byte c s) ∙ fill_bytes_pos s.memory s.mem c s.n (ground arith))
]

set_words-left :
    (f unit c : ℕ) (s : Fill) → 0 < unit → left c (set_words f unit (filler c unit) s) ≡ left c s
unfolding set_words
set_words-left zero unit c s h = refl
set_words-left (suc f) unit c s h = elim (Bool-cases (ltb (unit - 1) s.n)) [
  | inl go ↦ rw go (set_words-left f unit c _ h ∙ word_step go)
  | inr stop ↦ rw stop refl
]
  where
    word_step :
        ltb (unit - 1) s.n ≡ true
        → fill_bytes (store unit s.memory s.mem (filler c unit)) (s.mem + unit) c (s.n - unit)
          ≡ fill_bytes s.memory s.mem c s.n
    word_step go =
        let go' : unit - 1 < s.n = ltb→lt _ _ go in
        let e : unit + (s.n - unit) ≡ s.n = omega arith in
        rw (store-filler unit s.memory s.mem c) (
          sym (fill_bytes_split s.memory s.mem c unit (s.n - unit))
          ∙ ap (fill_bytes s.memory s.mem c) e)

set_tail-left : (f c : ℕ) (s : Fill) → s.n ≤ f → (set_tail f c s).memory ≡ left c s
unfolding set_tail set_byte
set_tail-left zero c s h = let e : s.n ≡ 0 = omega arith in rw e (unfold fill_bytes in refl)
set_tail-left (suc f) c s h = elim (Bool-cases (s.n == 0)) [
  | inl stop ↦ rw stop (let e : s.n ≡ 0 = ground arith in rw e (unfold fill_bytes in refl))
  | inr go ↦ rw go (
      set_tail-left f c (set_byte c s) (ground arith)
      ∙ fill_bytes_pos s.memory s.mem c s.n (ground arith))
]

-- memset writes `c` into each of the `n` bytes from `s`, and nothing else, whatever the
-- alignment of `s` and the size of the machine's words.
pub memset-fill_bytes :
    (k : Kernel) (m : Memory) (s c n : ℕ) → memset k m s c n ≡ fill_bytes m s c n
unfolding memset
memset-fill_bytes k m s c n =
    let unit = byte_per_word k in
    let start : Fill = record { memory = m; mem = s; n = n } in
    let head = set_head n unit c start in
    let words = set_words head.n unit (word_filler k c) head in
    let one_by_one : left c words ≡ left c (set_words head.n unit (filler c unit) head) =
      ap (λ w. left c (set_words head.n unit w head)) (word_filler_lem k c) in
    set_tail-left words.n c words (le_refl _)
    ∙ one_by_one
    ∙ set_words-left head.n unit c head (byte_per_word_pos k)
    ∙ set_head-left n unit c start

-- The fuel is enough for the word loop: less than a word is left when it ends.
set_words-lt :
    (f unit fill : ℕ) (s : Fill) → 0 < unit → s.n ≤ f → (set_words f unit fill s).n < unit
unfolding set_words
set_words-lt zero unit fill s h fuel = omega arith
set_words-lt (suc f) unit fill s h fuel = elim (Bool-cases (ltb (unit - 1) s.n)) [
  | inl go ↦ rw go (set_words-lt f unit fill _ h (omega arith))
  | inr stop ↦ rw stop (ground arith)
]
