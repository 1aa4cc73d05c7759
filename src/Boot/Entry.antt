-- ===== src/Boot/Entry.antt =====
-- What main has done when it enters the kernel (src/arch-arm/sys_boot.c and src/arch-riscv/boot.c).
use Prim.Native.String.{String}
use se_l4_tools.Common.{
  ℕ, ◌+◌, ◌-◌, ◌*◌, ◌/◌, ◌%◌, ◌^◌, ◌≤◌, ◌<◌, ◌≡◌, refl, ◌∙◌, arith, Bool, true, false, ◌&&◌, List,
  [], ◌∷◌, Option, none, some, Outcome, done, aborted, Returns, Returns->>=,
}
use se_l4_tools.Memory.{Kernel, kernel_64, word_mod, cut_word, Memory}
use se_l4_tools.Elf.Generic
use se_l4_tools.Loader.{HashConfig, ImageInfo, Site, bounds_or}
use se_l4_tools.Loader.Layout.{Loaded, load_images-LaidOut}
use se_l4_tools.Loader.Runs.{ReturnsIn}
use se_l4_tools.Mmu.Arm64
use se_l4_tools.Mmu.Arm64.Walk.{ArePlaced}
use se_l4_tools.Mmu.Arm64.BootMap.{zeroed}
use se_l4_tools.Mmu.Riscv
use se_l4_tools.Mmu.Riscv.{rv64, map_kernel_window, riscv_pgshift, word_bits}
use se_l4_tools.Mmu.Riscv.Sv39
use se_l4_tools.Mmu.Riscv.BootMap
use se_l4_tools.Boot.{Jump, only_app, enter, after, arm64_main, riscv_main, boot_tables, kernel_of}
use se_l4_tools.Boot.Linked.{
  IsLinked, seen, wanted, linked_physical, linked_virtual, tables_lem, satp_lem,
}

after-Returns {ℓ κ} :
    {A : Type ℓ} {B : Type κ} (Q : A → Type 0) (P : B → Type 0) (x : Option (Outcome A))
    (g : A → Outcome B)
    → ReturnsIn Q x
    → ((a : A) → Q a → Returns P (g a))
    → ReturnsIn P (after x g)
unfolding after ReturnsIn Returns
after-Returns Q P none g h step = tt
after-Returns Q P (some (done a)) g h step = step a h
after-Returns Q P (some (aborted message)) g h step = tt

only_app-done :
    (infos : List ImageInfo) (user_info : ImageInfo)
    → only_app infos ≡ done user_info
    → infos ≡ user_info ∷ []
unfolding only_app
only_app-done [] user_info e = cc
only_app-done (info ∷ []) user_info e = cc
only_app-done (info ∷ other ∷ rest) user_info e = cc

module _ (config : HashConfig) (site : Site) (cpio_get_file : Memory → String → ℕ × ℕ)
    (cpio_get_entry : Memory → ℕ → ℕ × ℕ × ℕ) (f kernel_name : ℕ) (junk : ℕ × ℕ) where
  -- A jump into the kernel with the images that have been loaded from the memory `m`.
  pub record Ready {ℓ} {T : Type ℓ} (k : Kernel) (m : Memory) (j : Jump T) : Type ℓ where
    pub loaded :
        Loaded k config site cpio_get_file cpio_get_entry junk m
          (j.memory, j.kernel_info, j.user_info ∷ [])
    pub entry : j.entry ≡ j.kernel_info.virt_entry
    pub arguments : j.arguments ≡ (
      j.user_info.phys_region_start, j.user_info.phys_region_end, j.user_info.phys_virt_offset,
      j.user_info.virt_entry,
    )

  images :
      {T : Type 0} (k : Kernel) (m : Memory) (a : Memory × ImageInfo × List ImageInfo)
      (user_info : ImageInfo) (made : T)
      → Loaded k config site cpio_get_file cpio_get_entry junk m a
      → only_app a.2 ≡ done user_info
      → Ready k m (enter a.1 user_info made a.0)
  unfolding enter
  images k m a user_info made h e = record {
    loaded = rw (only_app-done a.2 user_info e) at h;
    entry = refl;
    arguments = refl;
  }

  -- The least virtual and physical address of the kernel's file.
  abbrev pub first_virtual : Kernel → Memory → ℕ
  first_virtual k m =
      (bounds_or junk (Generic.get_memory_bounds k m (cpio_get_file m "kernel.elf").0 false)).0

  abbrev pub first_physical : Kernel → Memory → ℕ
  first_physical k m =
      (bounds_or junk (Generic.get_memory_bounds k m (cpio_get_file m "kernel.elf").0 true)).0

  module _ (k : Kernel) (m : Memory) (a : Memory × ImageInfo × List ImageInfo)
      (h : Loaded k config site cpio_get_file cpio_get_entry junk m a) where
    at_virtual : a.1.virt_region_start ≡ first_virtual k m % word_mod k
    at_virtual = h.3.virtual

    at_physical : a.1.phys_region_start ≡ first_physical k m % word_mod k
    at_physical = h.3.starts

  linked :
      (hyp : Bool) (m : Memory) (a : Memory × ImageInfo × List ImageInfo)
      → Loaded kernel_64 config site cpio_get_file cpio_get_entry junk m a
      → IsLinked hyp (first_virtual kernel_64 m) (first_physical kernel_64 m)
      → IsLinked hyp a.1.virt_region_start a.1.phys_region_start
  linked hyp m a h is =
      let virt = first_virtual kernel_64 m in
      let phys = first_physical kernel_64 m in
      let e : a.1.virt_region_start ≡ virt =
        at_virtual kernel_64 m a h ∙ cut_word kernel_64 virt (linked_virtual hyp virt phys is) in
      let e' : a.1.phys_region_start ≡ phys =
        at_physical kernel_64 m a h
        ∙ cut_word kernel_64 phys (omega (arith, linked_physical hyp virt phys is)) in
      rw (e, e') is

  abbrev pub Entered : Bool → Arm64.Places → Memory → ℕ → Jump Arm64.Tables → Type 0
  Entered hyp places m vaddr j =
      Ready kernel_64 m j × (seen hyp places j.tables vaddr ≡ wanted hyp j.kernel_info vaddr)

  -- For zeroed tables in pages of their own and a kernel that is linked as IsLinked says for the mode in
  -- which main goes on. Where main on AArch64 enters the kernel: the kernel and one user image are laid
  -- out as load_images leaves them from the memory at the start; the jump goes to the kernel's entry with
  -- the user image's range, offset and entry; and the processor, as a hypervisor or otherwise, finds each
  -- address below 2 ^ 64 where the map of this kernel for that mode has it, and a fault where it has none.
  -- The bound that is read where a file has none is an unsigned 64-bit number.
  pub arm64_main-Entered :
      (exited in_hyp hyp_support : Bool) (cpus : Outcome (Unit {0})) (smp : Bool)
      (places : Arm64.Places) (m : Memory) (vaddr : ℕ)
      → junk.0 < 2 ^ 64
      → ArePlaced places
      → IsLinked (in_hyp && hyp_support) (first_virtual kernel_64 m) (first_physical kernel_64 m)
      → vaddr < 2 ^ 64
      → ReturnsIn (Entered (in_hyp && hyp_support) places m vaddr) (
          arm64_main config site cpio_get_file cpio_get_entry f kernel_name junk exited in_hyp
            hyp_support cpus smp places zeroed m)
  unfolding arm64_main after enter ReturnsIn Returns
  arm64_main-Entered false in_hyp hyp_support cpus smp places m vaddr lt placed is small = tt
  arm64_main-Entered true in_hyp hyp_support cpus smp places m vaddr lt placed is small =
      let hyp = in_hyp && hyp_support in
      let P : Jump Arm64.Tables → Type 0 = Entered hyp places m vaddr in
      after-Returns {A = Memory × ImageInfo × List ImageInfo} {B = Jump Arm64.Tables} _ P _ _
        (load_images-LaidOut kernel_64 config site cpio_get_file cpio_get_entry junk f kernel_name 1
          m lt)
        λ a h. Returns->>= {B = Jump Arm64.Tables} P (only_app a.2) _ λ user_info e.
          Returns->>= {B = Jump Arm64.Tables} P cpus
            (λ u. done (enter a.1 user_info (boot_tables hyp smp places a.1 zeroed) a.0))
            λ u e'. (
              images kernel_64 m a user_info _ h e,
              tables_lem hyp smp places a.1 vaddr placed (linked hyp m a h is) small,
            )

  -- satp of a 64-bit machine: the mode is in bits 60 to 63 (8 is Sv39), the page number of the first table
  -- in bits 0 to 43.
  abbrev pub RiscvEntered : ℕ → ℕ → Memory → ℕ → Jump (Riscv.Tables × ℕ) → Type 0
  RiscvEntered l1pt_place l2pt_place m vaddr j =
      Ready kernel_64 m j
      × (done (Sv39.translate l2pt_place j.tables.0 vaddr) ≡ BootMap.boot_map j.kernel_info vaddr)
      × (j.tables.1 / 2 ^ 60 ≡ 8)
      × (j.tables.1 % 2 ^ 44 * 2 ^ 12 ≡ l1pt_place)

  -- For three levels on a 64-bit machine, zeroed tables, each in a page below 2 ^ 56, and a kernel whose
  -- virtual addresses start in the top 2 GiB and whose physical ones start 2 GiB or more below 2 ^ 56.
  -- Where main on RISC-V enters the kernel: the images and the jump are as on AArch64; the second table
  -- and the first translate each address of Sv39 as the map of this kernel says, faults included; and satp
  -- selects Sv39 and the first table.
  -- The bound that is read where a file has none is an unsigned 64-bit number.
  pub riscv_main-Entered :
      (l1pt_place l2pt_place : ℕ) (m : Memory) (vaddr : ℕ)
      → junk.0 < 2 ^ 64
      → l1pt_place % 2 ^ 12 ≡ 0
      → l1pt_place < 2 ^ 56
      → l2pt_place % 2 ^ 12 ≡ 0
      → l2pt_place < 2 ^ 56
      → 2 ^ 64 - 2 ^ 31 ≤ first_virtual kernel_64 m
      → first_virtual kernel_64 m < 2 ^ 64
      → first_physical kernel_64 m + 2 ^ 31 ≤ 2 ^ 56
      → vaddr < 2 ^ 64
      → BootMap.is_canonical vaddr ≡ true
      → ReturnsIn (RiscvEntered l1pt_place l2pt_place m vaddr) (
          riscv_main config site cpio_get_file cpio_get_entry f kernel_name junk rv64 3 l1pt_place
            l2pt_place Sv39.zeroed m)
  unfolding riscv_main enter kernel_of Returns
  riscv_main-Entered l1 l2 m vaddr lt page1 fits1 page2 fits2 high end room small canonical =
      let P : Jump (Riscv.Tables × ℕ) → Type 0 = RiscvEntered l1 l2 m vaddr in
      let virt = first_virtual kernel_64 m in
      let phys = first_physical kernel_64 m in
      after-Returns {A = Memory × ImageInfo × List ImageInfo} {B = Jump (Riscv.Tables × ℕ)} _ P _ _
        (load_images-LaidOut kernel_64 config site cpio_get_file cpio_get_entry junk f kernel_name 1
          m lt)
        λ a h. Returns->>= {B = Jump (Riscv.Tables × ℕ)} P (only_app a.2) _ λ user_info e.
          Returns->>= {B = Jump (Riscv.Tables × ℕ)} P (map_kernel_window rv64 3 l2 a.1 Sv39.zeroed)
            _
            λ made e'.
              let v : a.1.virt_region_start ≡ virt =
                at_virtual kernel_64 m a h ∙ cut_word kernel_64 virt end in
              let p : a.1.phys_region_start ≡ phys =
                at_physical kernel_64 m a h ∙ cut_word kernel_64 phys (omega (arith, room)) in
              let walk = rw e' at (
                BootMap.map_kernel_window-refines-boot_map l2 a.1 vaddr page2 fits2 small canonical
                  (rw v high) (rw v end) (rw p room)) in
              let satp = satp_lem l1 page1 fits1 in
              (images kernel_64 m a user_info _ h e, walk, satp.0, satp.1)
