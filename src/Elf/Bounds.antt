-- ===== src/Elf/Bounds.antt =====
-- elf_getMemoryBounds finds the least interval around the non-empty segments.
use se_l4_tools.Common.{
  ℕ, zero, suc, ◌+◌, ◌-◌, ◌^◌, ◌≤◌, ◌<◌, ◌≡◌, ◌≢◌, refl, Bool, arith, none, some, pos, true, false,
  ℤ, negsuc, Option, ◌⊎◌, inl, inr, ◌==◌, if◌then◌else◌,
}
use se_l4_tools.Memory.{Kernel, Memory}
use se_l4_tools.Elf.Generic.{
  check_file, widen, get_num_program_headers, get_program_header_memory_size, header_start,
  bounds_loop, get_memory_bounds, vaddr_in_program_header, vtop_program_header,
  get_program_header_vaddr, get_program_header_paddr,
}

module _ (k : Kernel) (m : Memory) (file : ℕ) (phys : Bool) where
  -- No segment reaches the end of the 64-bit address space.
  abbrev pub NoWrap : Type 0
  NoWrap =
      (i : ℕ)
      → i < get_num_program_headers k m file
      → header_start k m file phys i + get_program_header_memory_size k m file i < 2 ^ 64

  -- The segments from `i` on that are not empty lie in the interval.
  abbrev pub Within : (i end : ℕ) → ℕ → ℕ → Type 0
  Within i end lo hi =
      (j : ℕ)
      → i ≤ j
      → j < end
      → get_program_header_memory_size k m file j ≢ 0
      → (lo ≤ header_start k m file phys j)
        × (header_start k m file phys j + get_program_header_memory_size k m file j ≤ hi)

  record Grows (i end : ℕ) (b r : ℕ × ℕ) : Type 0 where
    lower : r.0 ≤ b.0
    upper : b.1 ≤ r.1
    covers : Within i end r.0 r.1
    least : (lo hi : ℕ) → lo ≤ b.0 → b.1 ≤ hi → Within i end lo hi → (lo ≤ r.0) × (r.1 ≤ hi)

  widen-Grows :
      (i : ℕ) (b : ℕ × ℕ)
      → NoWrap
      → i < get_num_program_headers k m file
      → Grows i (i + 1) b (widen k m file phys i b)
  unfolding widen
  widen-Grows i (lo, hi) ok lt = record {
    lower = ground arith;
    upper = ground (arith, ok i lt);
    covers = λ j p q ne. let e : j ≡ i = omega arith in rw e (ground (arith, ok i lt, ne, e));
    least = λ lo' hi' p q w. ground (arith, w i, ok i lt);
  }

  bounds_loop-Grows :
      (left i : ℕ) (b : ℕ × ℕ)
      → NoWrap
      → i + left ≡ get_num_program_headers k m file
      → Grows i (get_num_program_headers k m file) b (bounds_loop k m file phys left i b)
  unfolding bounds_loop
  bounds_loop-Grows zero i b ok e = record {
    lower = omega arith;
    upper = omega arith;
    covers = λ j p q. absurd (omega arith);
    least = λ lo hi p q w. (p, q);
  }
  bounds_loop-Grows (suc left) i b ok e =
      let one = widen-Grows i b ok (omega arith) in
      let rest = bounds_loop-Grows left (i + 1) (widen k m file phys i b) ok (omega arith) in
      record {
        lower = omega (arith, one.lower, rest.lower);
        upper = omega (arith, one.upper, rest.upper);
        covers = λ j p q ne. ground (arith, rest.covers j, one.covers j, rest.lower, rest.upper);
        least = λ lo hi p q w.
            let (p', q') = one.least lo hi p q (λ j a b. w j a (omega arith)) in
            rest.least lo hi p' q' (λ j a b. w j (omega arith) b);
      }

  -- A valid file has bounds, and when no segment wraps around the 64-bit address space they are the
  -- least interval that holds every segment that is not empty: each such segment lies inside, and
  -- any other interval of 64-bit addresses around them all is at least as large.
  pub get_memory_bounds-least :
      check_file m file ≡ pos 0
      → NoWrap
      → (r : ℕ × ℕ) × (get_memory_bounds k m file phys ≡ some r)
        × Within 0 (get_num_program_headers k m file) r.0 r.1
        × ((lo hi : ℕ)
            → lo < 2 ^ 64
            → Within 0 (get_num_program_headers k m file) lo hi
            → (lo ≤ r.0) × (r.1 ≤ hi))
  unfolding get_memory_bounds
  get_memory_bounds-least valid ok =
      let n = get_num_program_headers k m file in
      let hull = bounds_loop-Grows n 0 (2 ^ 64 - 1, 0) ok (omega arith) in
      (
        bounds_loop k m file phys n 0 (2 ^ 64 - 1, 0),
        rw (valid, get_memory_bounds) refl,
        hull.covers,
        λ lo hi lt w. hull.least lo hi (omega arith) (omega arith) w,
      )

  -- An invalid file has no bounds.
  pub get_memory_bounds-none : check_file m file ≢ pos 0 → get_memory_bounds k m file phys ≡ none
  unfolding get_memory_bounds
  get_memory_bounds-none invalid = ground (arith, invalid)

-- elf_vtopProgramHeader takes the virtual range of a segment to its physical range, and
-- elf_vaddrInProgramHeader tells which addresses that range has.
-- The segment does not wrap, in virtual or in physical memory.
pub vtop_program_header-offset :
    (k : Kernel) (m : Memory) (file ph vaddr : ℕ)
    → get_program_header_vaddr k m file ph + get_program_header_memory_size k m file ph < 2 ^ 64
    → get_program_header_paddr k m file ph + get_program_header_memory_size k m file ph < 2 ^ 64
    → vaddr_in_program_header k m file ph vaddr ≡ true
    → (o : ℕ) × (o < get_program_header_memory_size k m file ph)
      × (vaddr ≡ get_program_header_vaddr k m file ph + o)
      × (vtop_program_header k m file ph vaddr ≡ get_program_header_paddr k m file ph + o)
unfolding vaddr_in_program_header vtop_program_header
vtop_program_header-offset k m file ph vaddr hv hp h =
    (vaddr - get_program_header_vaddr k m file ph, ground arith, ground arith, ground arith)

bounds_cases :
    (r : ℤ) (all : ℕ × ℕ)
    → let o : Option (ℕ × ℕ) = elim r [
      | pos n ↦ if n == 0 then some all else none
      | negsuc n ↦ none
    ] in
      (o ≡ none) ⊎ (o ≡ some all)
bounds_cases (pos zero) all = inr refl
bounds_cases (pos (suc n)) all = let e : (suc n == 0) ≡ false = ground arith in inl (rw e refl)
bounds_cases (negsuc n) all = inl refl

module _ (k : Kernel) (m : Memory) (file : ℕ) (phys : Bool) where
  widen-lower : (i : ℕ) (b : ℕ × ℕ) → (widen k m file phys i b).0 ≤ b.0
  unfolding widen
  widen-lower i b = ground arith

  bounds_loop-lower : (left i : ℕ) (b : ℕ × ℕ) → (bounds_loop k m file phys left i b).0 ≤ b.0
  unfolding bounds_loop
  bounds_loop-lower zero i b = omega arith
  bounds_loop-lower (suc left) i b =
      let rest = bounds_loop-lower left (i + 1) (widen k m file phys i b) in
      omega (arith, rest, widen-lower i b)

  -- The lower bound is a number of 64 bits, whatever the memory holds.
  pub get_memory_bounds-lower :
      (get_memory_bounds k m file phys ≡ none)
      ⊎ ((b : ℕ × ℕ) × (get_memory_bounds k m file phys ≡ some b) × (b.0 < 2 ^ 64))
  unfolding get_memory_bounds
  get_memory_bounds-lower =
      let all = bounds_loop k m file phys (get_num_program_headers k m file) 0 (2 ^ 64 - 1, 0) in
      let low = bounds_loop-lower (get_num_program_headers k m file) 0 (2 ^ 64 - 1, 0) in
      elim (bounds_cases (check_file m file) all) [
        | inl failed ↦ inl failed
        | inr found ↦ inr (all, found, omega (arith, low))
      ]
