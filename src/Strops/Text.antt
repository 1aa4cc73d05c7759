-- ===== src/Strops/Text.antt =====
-- NUL-terminated strings in memory, and what strlen and strcmp say of them.
use native.Mathlib.Nat.{add-zero}
use se_l4_tools.Common.{
  ℕ, zero, suc, ◌+◌, ◌<◌, ◌≡◌, ◌≢◌, ◌↔◌, refl, ◌∙◌, ◌==◌, arith, if◌then◌else◌, some, List, [], ◌∷◌,
  ◌++◌, length, ℤ, pos, sub_ℕ,
}
use se_l4_tools.Memory.{Memory}
use se_l4_tools.Strops.{strlen_loop, strlen, strcmp}

-- `p` points to the characters `cs` and a NUL behind them.
abbrev pub IsText : Memory → ℕ → List ℕ → Type 0
IsText m p [] = m p ≡ 0
IsText m p (c ∷ cs) = (m p ≡ c) × (c ≢ 0) × IsText m (p + 1) cs

-- The order of C strings: the difference at the first place where they differ, with the NUL
-- behind each.
unfoldable pub compare_texts : List ℕ → List ℕ → ℤ
compare_texts [] [] = pos 0
compare_texts [] (d ∷ ds) = sub_ℕ 0 d
compare_texts (c ∷ cs) [] = sub_ℕ c 0
compare_texts (c ∷ cs) (d ∷ ds) = if c == d then compare_texts cs ds else sub_ℕ c d

strlen_loop-length :
    (f : ℕ) (m : Memory) (s n : ℕ) (cs : List ℕ)
    → IsText m s cs
    → length cs < f
    → strlen_loop f m s n ≡ some (n + length cs)
unfolding strlen_loop
strlen_loop-length zero m s n cs t h = absurd (omega arith)
strlen_loop-length (suc f) m s n [] t h = ground arith
strlen_loop-length (suc f) m s n (c ∷ cs) (e, ne, t) h =
    ground (arith, strlen_loop-length f m (s + 1) (n + 1) cs t (omega arith))

-- On a string strlen ends, and returns the number of characters in front of the NUL.
-- The fuel is above that number.
pub strlen-length :
    (f : ℕ) (m : Memory) (str : ℕ) (cs : List ℕ)
    → IsText m str cs
    → length cs < f
    → strlen f m str ≡ some (length cs)
unfolding strlen
strlen-length f m str cs t h = ground (arith, strlen_loop-length f m str 0 cs t h)

-- On two strings strcmp ends, and returns their order.
-- The fuel is above the length of the first.
pub strcmp-compare_texts :
    (f : ℕ) (m : Memory) (a b : ℕ) (cs ds : List ℕ)
    → IsText m a cs
    → IsText m b ds
    → length cs < f
    → strcmp f m a b ≡ some (compare_texts cs ds)
unfolding strcmp compare_texts
strcmp-compare_texts zero m a b cs ds t u h = absurd (omega arith)
strcmp-compare_texts (suc f) m a b [] [] t u h = ground arith
strcmp-compare_texts (suc f) m a b [] (d ∷ ds) t (e, ne, u) h = ground arith
strcmp-compare_texts (suc f) m a b (c ∷ cs) [] (e, ne, t) u h = ground arith
strcmp-compare_texts (suc f) m a b (c ∷ cs) (d ∷ ds) (e, ne, t) (e', ne', u) h =
    ground (arith, strcmp-compare_texts f m (a + 1) (b + 1) cs ds t u (omega arith))

compare_texts_refl : (cs : List ℕ) → compare_texts cs cs ≡ pos 0
unfolding compare_texts
compare_texts_refl [] = refl
compare_texts_refl (c ∷ cs) = ground (arith, compare_texts_refl cs)

compare_texts_zero :
    (m : Memory) (a b : ℕ) (cs ds : List ℕ)
    → IsText m a cs
    → IsText m b ds
    → compare_texts cs ds ≡ pos 0
    → cs ≡ ds
unfolding compare_texts
compare_texts_zero m a b [] [] t u h = refl
compare_texts_zero m a b [] (d ∷ ds) t (e, ne, u) h = absurd (ground arith)
compare_texts_zero m a b (c ∷ cs) [] (e, ne, t) u h = absurd (ground arith)
compare_texts_zero m a b (c ∷ cs) (d ∷ ds) (e, ne, t) (e', ne', u) h =
    ground (arith, compare_texts_zero m (a + 1) (b + 1) cs ds t u)

-- strcmp returns 0 on two strings exactly when they are the same text.
-- The fuel is above the length of the first.
pub strcmp-zero_iff :
    (f : ℕ) (m : Memory) (a b : ℕ) (cs ds : List ℕ)
    → IsText m a cs
    → IsText m b ds
    → length cs < f
    → (strcmp f m a b ≡ some (pos 0)) ↔ (cs ≡ ds)
strcmp-zero_iff f m a b cs ds t u h = (
  λ e.
      compare_texts_zero m a b cs ds t u (ground (arith, strcmp-compare_texts f m a b cs ds t u h)),
  λ e. strcmp-compare_texts f m a b cs ds t u h ∙ ground (arith, compare_texts_refl cs),
)

-- What stands behind the first characters of a string is a string.
pub IsText-append :
    (m : Memory) (p : ℕ) (cs ds : List ℕ) → IsText m p (cs ++ ds) → IsText m (p + length cs) ds
IsText-append m p [] ds t = rw add-zero t
IsText-append m p (c ∷ cs) ds (e, ne, t) =
    let shift : p + 1 + length cs ≡ p + suc (length cs) = omega arith in
    rw (← shift) (IsText-append m (p + 1) cs ds t)
