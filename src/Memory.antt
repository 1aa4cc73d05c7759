-- ===== src/Memory.antt =====
-- Memory as the loader sees it, include/types.h: bytes by address, and little-endian words. An
-- address is a number; where the source computes one by integer arithmetic the wrap is written out.
use native.Mathlib.Nat.{pow-suc, zero-add, add-zero, suc-add}
use se_l4_tools.Common.{
  ℕ, zero, suc, ◌+◌, ◌*◌, ◌/◌, ◌%◌, ◌^◌, ◌≤◌, ◌<◌, ◌≡◌, refl, ◌==◌, arith, if◌then◌else◌,
}

-- `__KERNEL_32__` or `__KERNEL_64__`.
pub data Kernel : Type 0 where
  kernel_32 kernel_64 : Kernel

abbrev pub byte_per_word : Kernel → ℕ
byte_per_word kernel_32 = 4
byte_per_word kernel_64 = 8

-- 2 ^ (8 * BYTE_PER_WORD): uintptr_t, size_t and word_t are below it.
abbrev pub word_mod : Kernel → ℕ
word_mod kernel_32 = 2 ^ 32
word_mod kernel_64 = 2 ^ 64

pub cut_word : (k : Kernel) (n : ℕ) → n < word_mod k → n % word_mod k ≡ n
cut_word kernel_32 n lt = omega arith
cut_word kernel_64 n lt = omega arith

abbrev pub Memory : Type 0
Memory = ℕ → ℕ

abbrev pub IsBytes : Memory → Type 0
IsBytes m = (p : ℕ) → m p < 256

-- `*(char *)p = v`
unfoldable pub store8 : Memory → ℕ → ℕ → Memory
store8 m p v q = if p == q then v % 256 else m q

-- `*(uintN_t *)p = v`, for N = 8 * n
unfoldable pub store : ℕ → Memory → ℕ → ℕ → Memory
store zero m p v = m
store (suc n) m p v = store n (store8 m p v) (p + 1) (v / 256)

-- `*(uintN_t *)p`, for N = 8 * n
unfoldable pub load : ℕ → Memory → ℕ → ℕ
load zero m p = 0
load (suc n) m p = m p + 256 * load n m (p + 1)

pub load-lt : (n : ℕ) (m : Memory) (p : ℕ) → IsBytes m → load n m p < 256 ^ n
unfolding load
load-lt zero m p h = omega arith
load-lt (suc n) m p h = grind (arith, pow-suc 256 n, h p, load-lt n m (p + 1) h)

pub store8-IsBytes : (m : Memory) (p v : ℕ) → IsBytes m → IsBytes (store8 m p v)
unfolding store8
store8-IsBytes m p v h q = ground (arith, h q)

-- A load sees only its own bytes.
pub load_ext :
    (n : ℕ) (m m' : Memory) (p : ℕ)
    → ((q : ℕ) → p ≤ q → q < p + n → m q ≡ m' q)
    → load n m p ≡ load n m' p
unfolding load
load_ext zero m m' p h = refl
load_ext (suc n) m m' p h = ground (
  arith,
  h p (omega arith) (omega arith),
  load_ext n m m' (p + 1) (λ q a b. h q (omega arith) (omega arith)),
)

-- A word is its low part and its high part.
pub load_split :
    (n k : ℕ) (m : Memory) (p : ℕ) → load (n + k) m p ≡ load n m p + 256 ^ n * load k m (p + n)
unfolding load
load_split zero k m p = rw (zero-add k, add-zero p) (omega arith)
load_split (suc n) k m p =
    let shift : p + 1 + n ≡ p + suc n = omega arith in
    let ih : load (n + k) m (p + 1) ≡ load n m (p + 1) + 256 ^ n * load k m (p + suc n) =
      rw (← shift) (load_split n k m (p + 1)) in
    rw (suc-add, ih, pow-suc) (omega arith)
