-- ===== src/Smp/Registers/Bits.antt =====
-- The bits of a register (src/plat/imx6/smp.c).
use Prim.Native.Nat.{min, max}
use native.Mathlib.Nat.{pow-suc}
use se_l4_tools.Common.{
  ℕ, zero, suc, ◌/◌, ◌%◌, ◌^◌, ◌<◌, ◌≡◌, refl, arith, bit_or, bit_or_digit, bit_and, bit_and_digit,
  ◌≢◌, Bool-cases, inl, inr, ◌==◌, if◌then◌else◌,
}

-- Bit `j` of a number.
unfoldable pub bit : ℕ → ℕ → ℕ
bit zero a = a % 2
bit (suc j) a = bit j (a / 2)

pub bit-bit_or : (j a b : ℕ) → bit j (bit_or a b) ≡ max (bit j a) (bit j b)
unfolding bit
bit-bit_or zero a b = omega (arith, bit_or_digit a b)
bit-bit_or (suc j) a b =
    let half : bit_or a b / 2 ≡ bit_or (a / 2) (b / 2) = omega (arith, bit_or_digit a b) in
    rw half (bit-bit_or j (a / 2) (b / 2))

pub bit-pow : (j : ℕ) → bit j (2 ^ j) ≡ 1
unfolding bit
bit-pow zero = refl
bit-pow (suc j) =
    let half : 2 ^ suc j / 2 ≡ 2 ^ j = omega (arith, pow-suc 2 j) in rw half (bit-pow j)

pub bit-small : (j a : ℕ) → bit j a < 2
unfolding bit
bit-small zero a = omega arith
bit-small (suc j) a = bit-small j (a / 2)

pub bit-zero : (j : ℕ) → bit j 0 ≡ 0
unfolding bit
bit-zero zero = refl
bit-zero (suc j) = bit-zero j

pub bit-pow_other : (j i : ℕ) → i ≢ j → bit j (2 ^ i) ≡ 0
unfolding bit
bit-pow_other zero zero ne = absurd (ne refl)
bit-pow_other zero (suc i) ne = omega (arith, pow-suc 2 i)
bit-pow_other (suc j) zero ne = bit-zero j
bit-pow_other (suc j) (suc i) ne =
    let half : 2 ^ suc i / 2 ≡ 2 ^ i = omega (arith, pow-suc 2 i) in
    rw half (bit-pow_other j i (omega (arith, ne)))

-- `a | BIT(i)`
pub bit-set : (j a i : ℕ) → bit j (bit_or a (2 ^ i)) ≡ (if i == j then 1 else bit j a)
bit-set j a i = elim (Bool-cases (i == j)) [
  | inl same ↦
      let e : i ≡ j = ground arith in
      rw (same, e, bit-bit_or j a (2 ^ j), bit-pow j) (omega (arith, bit-small j a))
  | inr other ↦
      let ne : i ≢ j = ground arith in
      rw (other, bit-bit_or j a (2 ^ i), bit-pow_other j i ne) (omega arith)
]

-- `a | (b | BIT(i))`
pub bit-set_more :
    (j a b i : ℕ) → bit j (bit_or a (bit_or b (2 ^ i))) ≡ (if i == j then 1 else bit j (bit_or a b))
bit-set_more j a b i =
    rw (bit-bit_or j a (bit_or b (2 ^ i)), bit-bit_or j a b, bit-set j b i)
      (ground (arith, bit-small j a, bit-small j b))

pub bit-bit_and : (j a b : ℕ) → bit j (bit_and a b) ≡ min (bit j a) (bit j b)
unfolding bit
bit-bit_and zero a b = omega (arith, bit_and_digit a b)
bit-bit_and (suc j) a b =
    let half : bit_and a b / 2 ≡ bit_and (a / 2) (b / 2) = omega (arith, bit_and_digit a b) in
    rw half (bit-bit_and j (a / 2) (b / 2))
