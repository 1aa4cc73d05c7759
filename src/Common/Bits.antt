-- ===== src/Common/Bits.antt =====
-- Shifts, masks and disjoint fields, as arithmetic.
use Prim.Native.Nat.{
  ℕ, zero, suc, ◌+◌, ◌-◌, ◌*◌, ◌/◌, ◌%◌, ◌^◌, ◌≤◌, ◌<◌, min, max, bit_and, bit_or, digits, bitwise,
  bit_and-bitwise, bit_or-bitwise,
}
use mathlib.Core.Path.{◌≡◌, refl, ap, ◌∙◌}
use native.Mathlib.Nat.{pow-suc, one-le-pow, le_refl, div-div-eq-div-mul}
use native.Mathlib.Omega.{arith}

-- The native operations stand for a recursion on binary digits; how much fuel it has does not
-- matter when the first operand is below it.
module _ (z : ℕ → ℕ) (f : ℕ → ℕ → ℕ) where
  digits_enough : (j k a b : ℕ) → a ≤ j → a ≤ k → digits z f j a b ≡ digits z f k a b
  digits_enough zero zero a b h g = refl
  digits_enough zero (suc k) zero b h g = refl
  digits_enough zero (suc k) (suc a) b h g = absurd (omega arith)
  digits_enough (suc j) zero zero b h g = refl
  digits_enough (suc j) zero (suc a) b h g = absurd (omega arith)
  digits_enough (suc j) (suc k) zero b h g = refl
  digits_enough (suc j) (suc k) (suc a) b h g =
      rw (digits_enough j k (suc a / 2) (b / 2) (omega arith) (omega arith))

  lowest_digit :
      (a b : ℕ)
      → bitwise z f (suc a) b ≡ bitwise z f (suc a / 2) (b / 2) * 2 + f (suc a % 2) (b % 2)
  lowest_digit a b =
      omega (arith, digits_enough a (suc a / 2) (suc a / 2) (b / 2) (omega arith) (omega arith))

pub bit_or_digit : (a b : ℕ) → bit_or a b ≡ bit_or (a / 2) (b / 2) * 2 + max (a % 2) (b % 2)
bit_or_digit zero b = simp bit_or-bitwise (omega arith)
bit_or_digit (suc a) b = simp bit_or-bitwise (lowest_digit (λ y. y) max a b)

pub bit_and_digit : (a b : ℕ) → bit_and a b ≡ bit_and (a / 2) (b / 2) * 2 + min (a % 2) (b % 2)
bit_and_digit zero b = simp bit_and-bitwise (omega arith)
bit_and_digit (suc a) b = simp bit_and-bitwise (lowest_digit (λ y. 0) min a b)

bit_or_nil : (j a : ℕ) → a ≤ j → bit_or a 0 ≡ a
bit_or_nil j zero h = refl
bit_or_nil zero (suc a) h = absurd (omega arith)
bit_or_nil (suc j) (suc a) h =
    omega (arith, bit_or_digit (suc a) 0, bit_or_nil j (suc a / 2) (omega arith))

bit_and_nil : (j a : ℕ) → a ≤ j → bit_and a 0 ≡ 0
bit_and_nil j zero h = refl
bit_and_nil zero (suc a) h = absurd (omega arith)
bit_and_nil (suc j) (suc a) h =
    omega (arith, bit_and_digit (suc a) 0, bit_and_nil j (suc a / 2) (omega arith))

pub bit_or-zero : (a : ℕ) → bit_or a 0 ≡ a
bit_or-zero a = bit_or_nil a a (omega arith)

double_shift : (q k : ℕ) → q * 2 ^ suc k ≡ 2 * (q * 2 ^ k)
double_shift q k = omega (arith, ap (λ (t : ℕ). q * t) (pow-suc 2 k))

-- `(q << k) | r` adds when `r` fits the low `k` bits.
pub bit_or_fields : (k q r : ℕ) → r < 2 ^ k → bit_or (q * 2 ^ k) r ≡ q * 2 ^ k + r
bit_or_fields zero q r h = ground (arith, bit_or-zero q)
bit_or_fields (suc k) q r h = ground (
  arith,
  bit_or_digit (q * 2 ^ suc k) r,
  double_shift q k,
  bit_or_fields k q (r / 2) (omega arith),
)

bit_and_low : (k q r : ℕ) → r < 2 ^ k → bit_and (q * 2 ^ k + r) (2 ^ k - 1) ≡ r
bit_and_low zero q r h =
    ground (arith, bit_and_nil (q * 2 ^ 0 + r) (q * 2 ^ 0 + r) (le_refl (q * 2 ^ 0 + r)))
bit_and_low (suc k) q r h = ground (
  arith,
  bit_and_digit (q * 2 ^ suc k + r) (2 ^ suc k - 1),
  double_shift q k,
  pow-suc 2 k,
  bit_and_low k q (r / 2) (omega arith),
)

-- `a & MASK(k)` is the remainder by 2 ^ k.
pub bit_and_mask : (k a : ℕ) → bit_and a (2 ^ k - 1) ≡ a % 2 ^ k
bit_and_mask k a = ground (arith, one-le-pow k 2, bit_and_low k (a / 2 ^ k) (a % 2 ^ k))

div_twice : (k a : ℕ) → a / 2 / 2 ^ k ≡ a / 2 ^ suc k
div_twice k a = div-div-eq-div-mul a 2 (2 ^ k) ∙ ap (λ (t : ℕ). a / t) (omega (arith, pow-suc 2 k))

-- A mask with `k` zeros at its end takes the bits above them.
pub bit_and_above : (k a b : ℕ) → bit_and a (b * 2 ^ k) ≡ bit_and (a / 2 ^ k) b * 2 ^ k
bit_and_above zero a b = ground arith
bit_and_above (suc k) a b = ground (
  arith,
  bit_and_digit a (b * 2 ^ suc k),
  double_shift b k,
  double_shift (bit_and (a / 2 ^ suc k) b) k,
  div_twice k a,
  bit_and_above k (a / 2) b,
)
