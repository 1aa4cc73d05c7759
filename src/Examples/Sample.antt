-- ===== src/Examples/Sample.antt =====
-- A small ELF file with one segment and two sections, in memory at address 4096.
use mathlib.Core.Bool.{not}
use se_l4_tools.Common.{
  ℕ, zero, suc, ◌+◌, ◌-◌, ◌/◌, ◌%◌, ◌<◌, ◌≡◌, refl, true, Bool, ◌&&◌, ◌==◌, List, [], ◌∷◌, ◌++◌,
  get_or, replicate, arith,
}
use se_l4_tools.Memory.{Memory, IsBytes}
use se_l4_tools.Strops.Text.{IsText}

abbrev pub field : ℕ → ℕ → List ℕ
field zero v = []
field (suc n) v = v % 256 ∷ field n (v / 256)

abbrev pub sample : List ℕ
sample =
    0o177 ∷ b'E' ∷ b'L' ∷ b'F' ∷ 2 ∷ replicate 11 0
    ++ field 2 2
    ++ field 2 183
    ++ field 4 1
    ++ field 8 0x400000
    ++ field 8 64
    ++ field 8 120
    ++ field 4 0
    ++ field 2 64
    ++ field 2 56
    ++ field 2 1
    ++ field 2 64
    ++ field 2 2
    ++ field 2 1
    -- the segment
    ++ field 4 1
    ++ field 4 5
    ++ field 8 248
    ++ field 8 0x400000
    ++ field 8 0x10000
    ++ field 8 12
    ++ field 8 32
    ++ field 8 4096
    -- the sections
    ++ field 4 1
    ++ field 4 1
    ++ field 8 0
    ++ field 8 0
    ++ field 8 16
    ++ replicate 32 0
    ++ field 4 7
    ++ field 4 3
    ++ field 8 0
    ++ field 8 0
    ++ field 8 248
    ++ replicate 32 0
    -- the names
    ++ 0 ∷ b'.' ∷ b't' ∷ b'e' ∷ b'x' ∷ b't' ∷ 0 ∷ b'.' ∷ b's' ∷ b't' ∷ b'r' ∷ 0 ∷ []

abbrev pub base : ℕ
base = 4096

abbrev pub memory : Memory
memory p = get_or sample (p - base) 0

abbrev below : List ℕ → Bool
below [] = true
below (x ∷ xs) = (x / 256 == 0) && below xs

below-lt : (xs : List ℕ) (i : ℕ) → below xs ≡ true → get_or xs i 0 < 256
below-lt [] i h = omega arith
below-lt (x ∷ xs) zero h = ground arith
below-lt (x ∷ xs) (suc i) h = below-lt xs i (ground arith)

pub memory-IsBytes : IsBytes memory
memory-IsBytes p = below-lt sample (p - base) refl

abbrev pub matches : Memory → ℕ → List ℕ → Bool
matches m p [] = m p == 0
matches m p (c ∷ cs) = (m p == c) && not (c == 0) && matches m (p + 1) cs

pub matches-IsText : (m : Memory) (p : ℕ) (cs : List ℕ) → matches m p cs ≡ true → IsText m p cs
matches-IsText m p [] h = ground arith
matches-IsText m p (c ∷ cs) h =
    (ground arith, λ e. ground (arith, e), matches-IsText m (p + 1) cs (ground arith))

abbrev pub dot_text : List ℕ
dot_text = b'.' ∷ b't' ∷ b'e' ∷ b'x' ∷ b't' ∷ []

abbrev pub dot_str : List ℕ
dot_str = b'.' ∷ b's' ∷ b't' ∷ b'r' ∷ []
