-- ===== src/Strops/Compare.antt =====
-- strncmp stops at the first difference, and at the first NUL that both sides share.
use se_l4_tools.Common.{
  ℕ, zero, suc, ◌+◌, ◌≤◌, ◌<◌, ◌≡◌, ◌≢◌, ◌⊎◌, ◌↔◌, inl, inr, refl, true, Bool-cases, ◌==◌, arith,
  pos,
}
use se_l4_tools.Memory.{Memory}
use se_l4_tools.Strops.{strncmp_loop, strncmp}

-- The first `n` bytes at `a` and `b` agree.
abbrev pub SameBytes : Memory → ℕ → ℕ → ℕ → Type 0
SameBytes m a b n = (i : ℕ) → i < n → m (a + i) ≡ m (b + i)

-- Both areas hold the same bytes up to and with a NUL at index `j`.
abbrev pub StopsAt : Memory → ℕ → ℕ → ℕ → ℕ → Type 0
StopsAt m a b n j = (j < n) × (m (a + j) ≡ 0) × SameBytes m a b (suc j)

module _ (m : Memory) (a b : ℕ) where
  -- From index `i` on.
  abbrev Passes : ℕ → ℕ → Type 0
  Passes left i =
      ((j : ℕ) → i ≤ j → j < i + left → m (a + j) ≡ m (b + j))
      ⊎ ((j : ℕ) × (i ≤ j)
          × (j < i + left)
          × (m (a + j) ≡ 0)
          × ((l : ℕ) → i ≤ l → l ≤ j → m (a + l) ≡ m (b + l)))

  loop-Passes : (left i : ℕ) → strncmp_loop left m a b i ≡ pos 0 → Passes left i
  unfolding strncmp_loop
  loop-Passes zero i h = inl (λ j p q. absurd (omega arith))
  loop-Passes (suc left) i h = elim (Bool-cases (m (a + i) == m (b + i))) [
    | inr differ ↦ absurd (ground arith)
    | inl same ↦ elim (Bool-cases (m (a + i) == 0)) [
      | inl stop ↦ inr (
        i,
        omega arith,
        omega arith,
        ground arith,
        λ l p q. let e : l ≡ i = omega arith in ground arith,
      )
      | inr go ↦ go_on same (loop-Passes left (i + 1) (ground arith))
    ]
  ]
    where
      go_on : (m (a + i) == m (b + i)) ≡ true → Passes left (i + 1) → Passes (suc left) i
      go_on same (inl all) = inl λ j p q. ground (arith, all j)
      go_on same (inr (j, p, q, z, all)) =
          inr (j, omega arith, omega arith, z, λ l r s. ground (arith, all l))

  passes_loop_all :
      (left i : ℕ)
      → ((j : ℕ) → i ≤ j → j < i + left → m (a + j) ≡ m (b + j))
      → strncmp_loop left m a b i ≡ pos 0
  unfolding strncmp_loop
  passes_loop_all zero i all = refl
  passes_loop_all (suc left) i all = ground (
    arith,
    all i (omega arith) (omega arith),
    passes_loop_all left (i + 1) (λ j p q. all j (omega arith) (omega arith)),
  )

  passes_loop_stop :
      (left i j : ℕ)
      → i ≤ j
      → j < i + left
      → m (a + j) ≡ 0
      → ((l : ℕ) → i ≤ l → l ≤ j → m (a + l) ≡ m (b + l))
      → strncmp_loop left m a b i ≡ pos 0
  unfolding strncmp_loop
  passes_loop_stop zero i j p q z all = absurd (omega arith)
  passes_loop_stop (suc left) i j p q z all = elim (Bool-cases (m (a + i) == 0)) [
    | inl stop ↦ ground (arith, all i (omega arith) p)
    | inr go ↦
        let ne : i ≢ j = λ e. ground (arith, e) in
        ground (
          arith,
          all i (omega arith) p,
          passes_loop_stop left (i + 1) j (omega arith) (omega arith) z
              (λ l r s. all l (omega arith) s),
        )
  ]

-- strncmp returns 0 exactly when all `n` bytes agree, or the bytes agree up to a shared NUL: what
-- stands behind that NUL is never compared.
pub strncmp-zero_iff :
    (m : Memory) (a b n : ℕ)
    → (strncmp m a b n ≡ pos 0) ↔ (SameBytes m a b n ⊎ ((j : ℕ) × StopsAt m a b n j))
unfolding strncmp
strncmp-zero_iff m a b n = (λ e. to (loop-Passes m a b n 0 e), from)
  where
    to : Passes m a b n 0 → SameBytes m a b n ⊎ ((j : ℕ) × StopsAt m a b n j)
    to (inl all) = inl (λ j q. all j (omega arith) (omega arith))
    to (inr (j, p, q, z, all)) = inr (j, (omega arith, z, λ l q. all l (omega arith) (omega arith)))

    from : SameBytes m a b n ⊎ ((j : ℕ) × StopsAt m a b n j) → strncmp_loop n m a b 0 ≡ pos 0
    from (inl all) = passes_loop_all m a b n 0 (λ j p q. all j (omega arith))
    from (inr (j, (q, z, all))) =
        passes_loop_stop m a b n 0 j (omega arith) (omega arith) z (λ l p r. all l (omega arith))
