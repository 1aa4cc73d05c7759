-- ===== src/Loader/Layout.antt =====
-- Where load_images puts the kernel and the user images (src/common.c).
use Prim.Native.String.{String}
use mathlib.Core.Bool.{not}
use se_l4_tools.Common.{
  ℕ, zero, suc, ◌+◌, ◌%◌, ◌^◌, ◌≤◌, ◌<◌, ◌≡◌, refl, true, false, Bool, arith, done, Returns,
  Returns->>=, require, List, [], ◌∷◌, Bool-cases, inl, inr, ◌==◌, ◌⊎◌,
}
use se_l4_tools.Memory.{Kernel, kernel_32, kernel_64, word_mod, Memory}
use se_l4_tools.Elf.Generic
use se_l4_tools.Strops.{strcmp}
use se_l4_tools.Loader.{
  HashConfig, ImageInfo, Site, page_bits, bounds_or, ensure_phys_range_valid, load_elf,
  load_user_images, load_rest, load_images, is_zero,
}
use se_l4_tools.Loader.Place.{Placed, page_up, next_address, load_elf-Placed}
use se_l4_tools.Loader.Runs.{ReturnsIn, ReturnsIn-map, option_cases, go_on, each_result}

-- An image at a page, virtually and physically, apart from the loader, with the offset on record, of a
-- file whose virtual addresses have the bounds `lo` and `hi`. It ends as far behind `dest_paddr` as the
-- first page boundary at or behind `hi` is behind `lo`: modulo a word, and as it stands where that fits a
-- word.
pub record Stands (k : Kernel) (site : Site) (lo hi dest_paddr : ℕ) (info : ImageInfo)
    : Type 0 where
  pub starts : info.phys_region_start ≡ dest_paddr
  pub page : info.phys_region_start % 2 ^ page_bits ≡ 0
  pub span :
      (info.phys_region_end + lo) % word_mod k ≡ (info.phys_region_start + page_up hi) % word_mod k
  pub extent :
      (info.phys_region_end + lo ≡ info.phys_region_start + page_up hi)
      ⊎ (info.phys_region_start + page_up hi < lo)
      ⊎ (lo + word_mod k ≤ info.phys_region_start + page_up hi)
  pub end_page : info.phys_region_end % 2 ^ page_bits ≡ 0
  pub virtual : info.virt_region_start ≡ lo % word_mod k
  pub virtual_page : info.virt_region_start % 2 ^ page_bits ≡ 0
  pub virtual_end : info.virt_region_end ≡ page_up hi % word_mod k
  pub apart : ensure_phys_range_valid k site info.phys_region_start info.phys_region_end ≡ done tt
  pub translates :
      (info.virt_region_start + info.phys_virt_offset) % word_mod k ≡ info.phys_region_start

next_address-small :
    (k : Kernel) (keep : Bool) (e : ℕ) → e < word_mod k → next_address k keep e < word_mod k
unfolding next_address
next_address-small kernel_32 true e lt = omega arith
next_address-small kernel_64 true e lt = omega arith
next_address-small k false e lt = lt

word_bound : (k : Kernel) (n : ℕ) → n % word_mod k < word_mod k
word_bound kernel_32 n = omega arith
word_bound kernel_64 n = omega arith

page_of_word : (k : Kernel) (n : ℕ) → n % 2 ^ page_bits ≡ 0 → n % word_mod k % 2 ^ page_bits ≡ 0
page_of_word kernel_32 n h = omega arith
page_of_word kernel_64 n h = omega arith

Placed-Stands :
    (k : Kernel) (site : Site) (m1 : Memory) (keep : Bool) (elf lo hi dest_paddr : ℕ)
    (info : ImageInfo) (next : ℕ)
    → Placed k site m1 keep elf lo hi dest_paddr info next
    → Stands k site lo hi dest_paddr info
Placed-Stands k site m1 keep elf lo hi dest_paddr info next p = record {
  starts = p.starts;
  page = rw p.starts p.page;
  span = rw p.starts p.span;
  extent = rw p.starts p.extent;
  end_page = p.end_page;
  virtual = p.virtual;
  virtual_page = rw p.virtual (page_of_word k lo p.virtual_page);
  virtual_end = p.virtual_end;
  apart = p.apart;
  translates = p.translates;
}

module _ (k : Kernel) (config : HashConfig) (site : Site) (cpio_get_file : Memory → String → ℕ × ℕ)
    (cpio_get_entry : Memory → ℕ → ℕ × ℕ × ℕ) (junk : ℕ × ℕ) where
  -- The bounds of the virtual addresses of a file in a memory.
  abbrev pub bounds_in : Memory → ℕ → ℕ × ℕ
  bounds_in m elf = bounds_or junk (Generic.get_memory_bounds k m elf false)

  -- Images with their headers, one behind the other from the address `next` on. Each is the one that
  -- load_elf leaves for its entry of the archive, the `i`-th of the user images and the ones behind it, and
  -- `m` is the memory that it is loaded in; the next one finds the memory that load_elf leaves.
  unfoldable pub LaidOut : ℕ → ℕ → Memory → List ImageInfo → Type 0
  LaidOut i next m [] = Unit
  LaidOut i next m (info ∷ rest) =
      let entry = cpio_get_entry m (i + 1) in
      (a : Memory × ImageInfo × ℕ) × (load_elf k config site cpio_get_file cpio_get_entry junk
          entry.0 next true entry.2 "app.bin" m
        ≡ done a)
      × (a.1 ≡ info)
      × Stands k site (bounds_in m entry.0).0 (bounds_in m entry.0).1 next info
      × LaidOut (i + 1) (next_address k true info.phys_region_end) a.0 rest

  load_elf-Stands :
      (elf dest_paddr : ℕ) (keep : Bool) (size : ℕ) (hash : String) (m : Memory)
      (a : Memory × ImageInfo × ℕ)
      → dest_paddr < word_mod k
      → junk.0 < 2 ^ 64
      → load_elf k config site cpio_get_file cpio_get_entry junk elf dest_paddr keep size hash m
        ≡ done a
      → Stands k site (bounds_in m elf).0 (bounds_in m elf).1 dest_paddr a.1
        × (a.2 ≡ next_address k keep a.1.phys_region_end)
        × (a.2 < word_mod k)
  unfolding Returns
  load_elf-Stands elf dest_paddr keep size hash m a lt lt' e =
      let placed = rw e at (
        load_elf-Placed k config site cpio_get_file cpio_get_entry junk elf dest_paddr keep size
          hash m lt lt') in
      (
        Placed-Stands k site _ keep elf _ _ dest_paddr a.1 a.2 placed.2,
        placed.2.behind,
        rw placed.2.behind (next_address-small k keep a.1.phys_region_end placed.2.small),
      )

  load_user_images-LaidOut :
      (left i next : ℕ) (m : Memory)
      → next < word_mod k
      → junk.0 < 2 ^ 64
      → Returns
          (λ (m', infos). LaidOut i next m infos)
          (load_user_images k config site cpio_get_file cpio_get_entry junk left i next m)
  unfolding load_user_images LaidOut Returns
  load_user_images-LaidOut zero i next m lt lt' = tt
  load_user_images-LaidOut (suc left) i next m lt lt' =
      let (user_elf, elf_filename, size) = cpio_get_entry m (i + 1) in
      elim (Bool-cases (user_elf == 0)) [
        | inl last ↦ rw (last, Returns) tt
        | inr more ↦
            rw (more, Returns)
              (Returns->>= _
                (load_elf k config site cpio_get_file cpio_get_entry junk user_elf next true size
                  "app.bin" m)
                _
                λ a e.
                  let here = load_elf-Stands user_elf next true size "app.bin" m a lt lt' e in
                  Returns->>= _
                    (load_user_images k config site cpio_get_file cpio_get_entry junk left (i + 1)
                      a.2 a.0)
                    _
                    λ b e'. (
                      a,
                      e,
                      refl,
                      here.0,
                      rw (← here.1)
                          (rw e' at (load_user_images-LaidOut left (i + 1) a.2 a.0 here.2 lt')),
                    ))
      ]

  -- The kernel's record and what is laid out behind it, from the memory `start` on: the kernel is the one
  -- that load_elf leaves, and the first user image finds the memory that it leaves.
  abbrev pub Loaded : Memory → Memory × ImageInfo × List ImageInfo → Type 0
  Loaded start (m, kernel_info, infos) =
      let kernel = cpio_get_file start "kernel.elf" in
      let bounds = bounds_in start kernel.0 in
      let dest =
        (bounds_or junk (Generic.get_memory_bounds k start kernel.0 true)).0 % word_mod k in
      (a : Memory × ImageInfo × ℕ) × (load_elf k config site cpio_get_file cpio_get_entry junk
          kernel.0 dest false kernel.1 "kernel.bin" start
        ≡ done a)
      × (a.1 ≡ kernel_info)
      × Stands k site bounds.0 bounds.1 dest kernel_info
      × LaidOut 0 (next_address k false kernel_info.phys_region_end) a.0 infos

  -- What is laid out behind a kernel that load_elf has left.
  abbrev Behind : Memory × ImageInfo × ℕ → Memory × ImageInfo × List ImageInfo → Type 0
  Behind a (m, kernel_info, infos) =
      (a.1 ≡ kernel_info) × LaidOut 0 (next_address k false a.1.phys_region_end) a.0 infos

  load_rest-LaidOut :
      (f kernel_name max_user_images : ℕ) (a : Memory × ImageInfo × ℕ)
      → junk.0 < 2 ^ 64
      → a.2 ≡ next_address k false a.1.phys_region_end
      → a.2 < word_mod k
      → ReturnsIn (Behind a) (
          load_rest k config site cpio_get_file cpio_get_entry f kernel_name junk max_user_images a)
  unfolding load_rest ReturnsIn Returns
  load_rest-LaidOut f kernel_name max_user_images (m, kernel_info, next) lt' at lt =
      elim (option_cases (strcmp f m (cpio_get_entry m 0).1 kernel_name)) [
        | inl out ↦ rw (out, ReturnsIn) tt
        | inr (r, compared) ↦
            rw (compared, ReturnsIn)
              (Returns->>= _ (require (is_zero r) "Kernel image not first image in archive.\n") _
                λ u e.
                  Returns->>= _
                    (load_user_images k config site cpio_get_file cpio_get_entry junk
                      max_user_images 0 next m)
                    _
                    λ b e'. (
                      refl,
                      rw (← at)
                          (rw e' at (load_user_images-LaidOut max_user_images 0 next m lt lt')),
                    ))
      ]

  -- Where load_images returns: the kernel stands at the physical address of its ELF file, the user
  -- images one behind the other from the end of the kernel on, the next always a page behind the end of
  -- the one before it; each at a page, virtually and physically, ending as far behind its start as the
  -- bounds of its own file are apart, rounded up to a page, with its range past the overlap test with the
  -- loader and the offset of its addresses on record.
  -- The bound that is read where a file has none is an unsigned 64-bit number.
  pub load_images-LaidOut :
      (f kernel_name max_user_images : ℕ) (m : Memory)
      → junk.0 < 2 ^ 64
      → ReturnsIn (Loaded m) (
          load_images k config site cpio_get_file cpio_get_entry f kernel_name junk max_user_images
            m)
  unfolding load_images ReturnsIn Returns
  load_images-LaidOut f kernel_name max_user_images m lt' =
      let (kernel_elf, size) = cpio_get_file m "kernel.elf" in
      let start = (bounds_or junk (Generic.get_memory_bounds k m kernel_elf true)).0 in
      go_on (Loaded m) _
        (load_rest k config site cpio_get_file cpio_get_entry f kernel_name junk max_user_images)
        (Returns->>= _ (require (not (kernel_elf == 0)) "No kernel image present in archive!\n") _
          λ u1 e1.
            Returns->>= _
              (require (is_zero (Generic.check_file m kernel_elf))
                "Kernel image not a valid ELF file!\n")
              _
              λ u2 e2.
                each_result _
                  (load_elf k config site cpio_get_file cpio_get_entry junk kernel_elf
                    (start % word_mod k) false size "kernel.bin" m)
                  λ a e.
                    let here =
                      load_elf-Stands kernel_elf (start % word_mod k) false size "kernel.bin" m a
                        (word_bound k start) lt' e in
                    ReturnsIn-map (Behind a) (Loaded m)
                      (λ b h. (a, e, h.0, rw (← h.0) here.0, rw (← h.0) h.1)) _
                      (load_rest-LaidOut f kernel_name max_user_images a lt' here.1 here.2))
