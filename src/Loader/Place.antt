-- ===== src/Loader/Place.antt =====
-- What has been checked, and what is on record, when load_elf returns.
use Prim.Native.String.{String}
use se_l4_tools.Common.{
  ℕ, zero, suc, ◌+◌, ◌-◌, ◌*◌, ◌/◌, ◌%◌, ◌^◌, ◌≤◌, ◌<◌, ◌⊎◌, inl, inr, ◌≡◌, refl, true, false, Bool,
  arith, Outcome, done, Returns, Returns->>=, require, require-done, ℤ, pos, negsuc,
}
use se_l4_tools.Memory.{Kernel, kernel_32, kernel_64, word_mod, Memory}
use se_l4_tools.Elf.Generic
use se_l4_tools.Elf.Bounds.{get_memory_bounds-lower}
use se_l4_tools.Loader.{
  HashConfig, ImageInfo, Site, is_aligned, round_up, page_bits, bounds_or, ensure_phys_range_valid,
  check_hash, finish_elf, load_elf, put_headers, unpack_elf_to_paddr, is_zero,
}
use se_l4_tools.Loader.Regions.{is_aligned_iff}

-- The first page boundary at or behind an address, without a bound on the numbers.
abbrev pub page_up : ℕ → ℕ
page_up n = (n + 2 ^ page_bits - 1) / 2 ^ page_bits * 2 ^ page_bits

round_up-page_up : (n : ℕ) → round_up (2 ^ 64) n page_bits ≡ page_up n % 2 ^ 64
unfolding round_up
round_up-page_up n = omega arith

-- On a page, the rounding up changes nothing.
round_up-page :
    (k : Kernel) (e : ℕ)
    → e < word_mod k
    → e % 2 ^ page_bits ≡ 0
    → round_up (word_mod k) e page_bits ≡ e
unfolding round_up
round_up-page kernel_32 e lt h = omega arith
round_up-page kernel_64 e lt h = omega arith

-- The code's end of the image, from the rounded bound `max`.
abbrev end_of : Kernel → ℕ → ℕ → ℕ → ℕ
end_of k dest_paddr min max = (dest_paddr + (max + 2 ^ 64 - min) % 2 ^ 64 % word_mod k) % word_mod k

-- Virtual and physical addresses of the image differ by phys_virt_offset.
offset_wraps :
    (k : Kernel) (dest min : ℕ)
    → dest < word_mod k
    → (min % word_mod k + (dest + word_mod k - min % word_mod k) % word_mod k) % word_mod k ≡ dest
offset_wraps kernel_32 dest min h = omega arith
offset_wraps kernel_64 dest min h = omega arith

bounds_or-lt :
    (k : Kernel) (m : Memory) (elf : ℕ) (phys : Bool) (junk : ℕ × ℕ)
    → junk.0 < 2 ^ 64
    → (bounds_or junk (Generic.get_memory_bounds k m elf phys)).0 < 2 ^ 64
unfolding bounds_or
bounds_or-lt k m elf phys junk lt = elim (get_memory_bounds-lower k m elf phys) [
  | inl out ↦ rw out lt
  | inr (b, e, below) ↦ rw e below
]

-- Where the image ends, and that it ends on a page.
module _ (dest min max : ℕ) (small : min < 2 ^ 64) where
  end-span :
      (k : Kernel)
      → (end_of k dest min (page_up max % 2 ^ 64) + min) % word_mod k
        ≡ (dest + page_up max) % word_mod k
  end-span kernel_32 = omega (arith, small)
  end-span kernel_64 = omega (arith, small)

  end-extent :
      (k : Kernel)
      → let end = end_of k dest min (page_up max % 2 ^ 64) in
        (end + min ≡ dest + page_up max)
        ⊎ (dest + page_up max < min)
        ⊎ (min + word_mod k ≤ dest + page_up max)
  end-extent kernel_32 = ground (arith, small)
  end-extent kernel_64 = ground (arith, small)

  end-page :
      (k : Kernel)
      → dest % 2 ^ page_bits ≡ 0
      → min % 2 ^ page_bits ≡ 0
      → end_of k dest min (page_up max % 2 ^ 64) % 2 ^ page_bits ≡ 0
  end-page kernel_32 page page' = omega (arith, small)
  end-page kernel_64 page page' = omega (arith, small)

end-lt : (k : Kernel) (dest min max : ℕ) → end_of k dest min max < word_mod k
end-lt kernel_32 dest min max = omega arith
end-lt kernel_64 dest min max = omega arith

-- Where the next image goes: to the end of the image, or a page behind it where the headers are kept.
unfoldable pub next_address : Kernel → Bool → ℕ → ℕ
next_address k true phys_end = (phys_end + 2 ^ page_bits) % word_mod k
next_address k false phys_end = phys_end

next_address-page :
    (k : Kernel) (keep : Bool) (e : ℕ)
    → e % 2 ^ page_bits ≡ 0
    → next_address k keep e % 2 ^ page_bits ≡ 0
unfolding next_address
next_address-page kernel_32 true e h = omega arith
next_address-page kernel_64 true e h = omega arith
next_address-page k false e h = h

-- What holds of an image loaded to `dest_paddr` from the file at `elf`; `m1` is the memory behind
-- the hash check, `keep` whether the headers are kept, and `min_vaddr` and `max_vaddr` the bounds of the
-- file's virtual addresses. The image ends as far behind `dest_paddr` as the first page boundary at or
-- behind `max_vaddr` is behind `min_vaddr`: modulo a word, and as it stands where that fits a word.
pub record Placed (k : Kernel) (site : Site) (m1 : Memory) (keep : Bool)
    (elf min_vaddr max_vaddr dest_paddr : ℕ) (info : ImageInfo) (next : ℕ) : Type 0 where
  pub valid : Generic.check_file m1 elf ≡ pos 0
  pub page : dest_paddr % 2 ^ page_bits ≡ 0
  pub virtual_page : min_vaddr % 2 ^ page_bits ≡ 0
  pub starts : info.phys_region_start ≡ dest_paddr
  pub small : info.phys_region_end < word_mod k
  pub span :
      (info.phys_region_end + min_vaddr) % word_mod k
      ≡ (dest_paddr + page_up max_vaddr) % word_mod k
  pub extent :
      (info.phys_region_end + min_vaddr ≡ dest_paddr + page_up max_vaddr)
      ⊎ (dest_paddr + page_up max_vaddr < min_vaddr)
      ⊎ (min_vaddr + word_mod k ≤ dest_paddr + page_up max_vaddr)
  pub end_page : info.phys_region_end % 2 ^ page_bits ≡ 0
  pub apart : ensure_phys_range_valid k site info.phys_region_start info.phys_region_end ≡ done tt
  pub virtual : info.virt_region_start ≡ min_vaddr % word_mod k
  pub virtual_end : info.virt_region_end ≡ page_up max_vaddr % word_mod k
  pub translates :
      (info.virt_region_start + info.phys_virt_offset) % word_mod k ≡ info.phys_region_start
  pub behind : next ≡ next_address k keep info.phys_region_end

is_zero-eq : (r : ℤ) → is_zero r ≡ true → r ≡ pos 0
is_zero-eq (pos zero) h = refl
is_zero-eq (pos (suc d)) h = cc
is_zero-eq (negsuc d) h = cc

unit : (a : Outcome (Unit {0})) (u : Unit {0}) → a ≡ done u → a ≡ done tt
unit a tt h = h

finish_elf-Returns :
    (k : Kernel) (config : HashConfig) (site : Site) (cpio_get_file : Memory → String → ℕ × ℕ)
    (cpio_get_entry : Memory → ℕ → ℕ × ℕ × ℕ) (info : ImageInfo) (next elf : ℕ) (keep : Bool)
    (m : Memory) (P : ImageInfo → ℕ → Type 0)
    → next ≡ info.phys_region_end
    → P info (next_address k keep info.phys_region_end)
    → Returns
        (λ (m', i, n). P i n)
        (finish_elf k config site cpio_get_file cpio_get_entry info next elf keep m)
unfolding finish_elf Returns next_address
finish_elf-Returns k config site cpio_get_file cpio_get_entry info next elf true m P at h =
    Returns->>= _ (put_headers k elf next m) _ λ m' _. rw at h
finish_elf-Returns k config site cpio_get_file cpio_get_entry info next elf false m P at h = rw at h

word_cut : (k : Kernel) (n : ℕ) → n % 2 ^ 64 % word_mod k ≡ n % word_mod k
word_cut kernel_32 n = omega arith
word_cut kernel_64 n = omega arith

-- Where load_elf returns, the ELF file is valid, the image starts and ends on a page, in physical and
-- in virtual memory, its physical range has passed the overlap test, the record states where it
-- stands, how far it goes by the bounds of the file and how virtual addresses translate, and the next
-- address is the end of the image, or a page behind it where the headers are kept.
-- The destination is an address below the word size, and the bound that is read where the file has none an
-- unsigned 64-bit number.
pub load_elf-Placed :
    (k : Kernel) (config : HashConfig) (site : Site) (cpio_get_file : Memory → String → ℕ × ℕ)
    (cpio_get_entry : Memory → ℕ → ℕ × ℕ × ℕ) (junk : ℕ × ℕ) (elf dest_paddr : ℕ) (keep : Bool)
    (size : ℕ) (hash : String) (m : Memory)
    → dest_paddr < word_mod k
    → junk.0 < 2 ^ 64
    → let bounds = bounds_or junk (Generic.get_memory_bounds k m elf false) in
      Returns
        (λ (m', info, next).
          (m1 : Memory) × (check_hash k config site cpio_get_file cpio_get_entry m elf size hash
            ≡ done m1)
          × Placed k site m1 keep elf bounds.0 bounds.1 dest_paddr info next)
        (load_elf k config site cpio_get_file cpio_get_entry junk elf dest_paddr keep size hash m)
unfolding load_elf
load_elf-Placed k config site cpio_get_file cpio_get_entry junk elf dest keep size hash m lt lt' =
    let w = word_mod k in
    let (lo, hi) = bounds_or junk (Generic.get_memory_bounds k m elf false) in
    let small : lo < 2 ^ 64 = bounds_or-lt k m elf false junk lt' in
    let up = round_up-page_up hi in
    let end = end_of k dest lo (round_up (2 ^ 64) hi page_bits) in
    Returns->>= _
      (require (is_aligned dest page_bits)
        "Attempting to load ELF at unaligned physical address!\n")
      _
      λ u1 aligned.
        Returns->>= _ (require (is_aligned dest 2) "Input ELF file not 4-byte aligned in memory!\n")
          _
          λ u2 _.
            Returns->>= _ (check_hash k config site cpio_get_file cpio_get_entry m elf size hash) _
              λ m1 checked.
                Returns->>= _
                  (require (is_zero (Generic.check_file m1 elf))
                    "Attempting to load invalid ELF file '%s'.\n")
                  _
                  λ u3 valid.
                    Returns->>= _
                      (require (is_aligned lo page_bits) "Start of image '%s' is not 4K-aligned!\n")
                      _
                      λ u4 paged.
                        Returns->>= _ (ensure_phys_range_valid k site dest end) _ λ u5 apart.
                          Returns->>= _ (unpack_elf_to_paddr k junk elf dest m1) _ λ m2 _.
                            let page =
                              (is_aligned_iff dest page_bits).0 (require-done _ _ u1 aligned) in
                            let page' =
                              (is_aligned_iff lo page_bits).0 (require-done _ _ u4 paged) in
                            let on_page : end % 2 ^ page_bits ≡ 0 =
                              rw up (end-page dest lo hi small k page page') in
                            finish_elf-Returns k config site cpio_get_file cpio_get_entry _ _ elf
                              keep m2 _ (round_up-page k end (end-lt k dest lo _) on_page)
                              (
                                m1,
                                checked,
                                record {
                                  valid = is_zero-eq _ (require-done _ _ u3 valid);
                                  page = page;
                                  virtual_page = page';
                                  starts = refl;
                                  small = end-lt k dest lo _;
                                  span = rw up (end-span dest lo hi small k);
                                  extent = rw up (end-extent dest lo hi small k);
                                  end_page = on_page;
                                  apart = unit _ u5 apart;
                                  virtual = refl;
                                  virtual_end = rw up (word_cut k (page_up hi));
                                  translates = offset_wraps k dest lo lt;
                                  behind = refl;
                                },
                              )
