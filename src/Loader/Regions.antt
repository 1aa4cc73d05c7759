-- ===== src/Loader/Regions.antt =====
-- The macros IS_ALIGNED and ROUND_UP, and the tests on address ranges.
use mathlib.Core.Bool.{not}
use se_l4_tools.Common.{
  ℕ, ◌+◌, ◌-◌, ◌%◌, ◌^◌, ◌≤◌, ◌<◌, ◌≡◌, ◌↔◌, ◌⊎◌, inl, inr, true, false, ltb, if◌then◌else◌, arith,
  bit_and_mask, ==_iff, require, done, Bool-cases, Bool,
}
use se_l4_tools.Memory.{Kernel, kernel_32, kernel_64, word_mod}
use se_l4_tools.Loader.{
  Site, is_aligned, round_up, page_bits, regions_overlap, ensure_phys_range_valid,
}

pub is_aligned_iff : (n b : ℕ) → (is_aligned n b ≡ true) ↔ (n % 2 ^ b ≡ 0)
unfolding is_aligned
is_aligned_iff n b = rw (bit_and_mask b n) (==_iff (n % 2 ^ b) 0)

-- Two ranges overlap exactly when they share an address.
-- Neither range ends before it starts.
pub regions_overlap_iff :
    (start_a end_a start_b end_b : ℕ)
    → start_a ≤ end_a
    → start_b ≤ end_b
    → (regions_overlap start_a end_a start_b end_b ≡ true)
      ↔ ((p : ℕ) × (start_a ≤ p) × (p ≤ end_a) × (start_b ≤ p) × (p ≤ end_b))
unfolding regions_overlap
regions_overlap_iff sa ea sb eb ha hb = (to, λ (p, q, r, s, t). ground arith)
  where
    to :
        (if ltb ea sb then false else if ltb eb sa then false else true) ≡ true
        → (p : ℕ) × (sa ≤ p) × (p ≤ ea) × (sb ≤ p) × (p ≤ eb)
    to h = elim (Bool-cases (ltb sa sb)) [
      | inl less ↦ (sb, ground arith, ground arith, omega arith, omega arith)
      | inr more ↦ (sa, omega arith, omega arith, ground arith, ground arith)
    ]

-- ROUND_UP to a page gives the least multiple of the page size that is not below a number, unless
-- the number stands in the last page of the type.
pub round_up-least :
    (k : Kernel) (n : ℕ)
    → n + 2 ^ page_bits ≤ word_mod k
    → (round_up (word_mod k) n page_bits % 2 ^ page_bits ≡ 0)
      × (n ≤ round_up (word_mod k) n page_bits)
      × (round_up (word_mod k) n page_bits < n + 2 ^ page_bits)
unfolding round_up
round_up-least kernel_32 n h = (omega arith, omega arith, omega arith)
round_up-least kernel_64 n h = (omega arith, omega arith, omega arith)

last_byte :
    (k : Kernel) (n : ℕ) → 0 < n → n < word_mod k → (n + word_mod k - 1) % word_mod k ≡ n - 1
last_byte kernel_32 n h lt = omega arith
last_byte kernel_64 n h lt = omega arith

-- The load goes on exactly when no address is both in the range and in the loader, for ranges that
-- are not empty.
-- Both ends are below the word size.
pub ensure_phys_range_valid_iff :
    (k : Kernel) (site : Site) (paddr_min paddr_max : ℕ)
    → paddr_min < paddr_max
    → paddr_max < word_mod k
    → site.start < site.end
    → site.end < word_mod k
    → (ensure_phys_range_valid k site paddr_min paddr_max ≡ done tt)
      ↔ ((paddr_max ≤ site.start) ⊎ (site.end ≤ paddr_min))
unfolding ensure_phys_range_valid regions_overlap
ensure_phys_range_valid_iff k site lo hi h h' s s' =
    rw (last_byte k hi (omega arith) h', last_byte k site.end (omega arith) s') (to, from)
  where
    overlap : Bool
    overlap =
        if ltb (hi - 1) site.start then false else if ltb (site.end - 1) lo then false else true

    to :
        require (not overlap) "Kernel load address would overlap ELF-loader!\n" ≡ done tt
        → (hi ≤ site.start) ⊎ (site.end ≤ lo)
    to e = elim (Bool-cases (ltb (hi - 1) site.start)) [
      | inl before ↦ inl (ground (arith, before))
      | inr late ↦ elim (Bool-cases (ltb (site.end - 1) lo)) [
        | inl after ↦ inr (ground (arith, after))
        | inr neither ↦ absurd (ground (arith, late, neither))
      ]
    ]

    from :
        (hi ≤ site.start) ⊎ (site.end ≤ lo)
        → require (not overlap) "Kernel load address would overlap ELF-loader!\n" ≡ done tt
    from (inl before) = ground arith
    from (inr after) = ground arith
