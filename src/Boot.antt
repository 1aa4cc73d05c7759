-- ===== src/Boot.antt =====
-- main of src/arch-arm/sys_boot.c, for AArch64, and of src/arch-riscv/boot.c, up to the jump into the
-- kernel. The messages are left out, except those of an abort.
pub mod Linked
pub mod Entry
use Prim.Native.String.{String}
use se_l4_tools.Common.{
  ℕ, zero, suc, ◌+◌, ◌*◌, ◌/◌, ◌%◌, ◌^◌, Bool, true, false, ◌==◌, ◌&&◌, ◌||◌, if◌then◌else◌, bit_or,
  List, [], ◌∷◌, Option, none, some, Outcome, done, aborted, ◌>>=◌, ◌>>◌, require,
}
use mathlib.Core.Bool.{not}
use se_l4_tools.Memory.{Kernel, kernel_32, kernel_64, Memory}
use se_l4_tools.Loader.{HashConfig, ImageInfo, Site, load_images}
use se_l4_tools.Mmu.Arm64
use se_l4_tools.Mmu.Riscv.{Xlen, rv32, rv64, map_kernel_window, riscv_pgshift, word_bits}
use se_l4_tools.Mmu.Riscv

-- `if (num_apps != 1) { ... abort(); }`, with the record in user_info
unfoldable pub only_app : List ImageInfo → Outcome ImageInfo
only_app (info ∷ []) = done info
only_app [] = aborted "No user images loaded!\n"
only_app (info ∷ other ∷ rest) = aborted "No user images loaded!\n"

-- The jump into the kernel: where it goes, its first four arguments, and what it finds.
pub record Jump {ℓ} (T : Type ℓ) : Type ℓ where
  pub entry : ℕ
  pub arguments : ℕ × ℕ × ℕ × ℕ
  pub kernel_info : ImageInfo
  pub user_info : ImageInfo
  pub tables : T
  pub memory : Memory

unfoldable pub enter {ℓ} : {T : Type ℓ} → ImageInfo → ImageInfo → T → Memory → Jump T
enter kernel_info user_info tables m = record {
  entry = kernel_info.virt_entry;
  arguments = (
    user_info.phys_region_start, user_info.phys_region_end, user_info.phys_virt_offset,
    user_info.virt_entry,
  );
  kernel_info = kernel_info;
  user_info = user_info;
  tables = tables;
  memory = m;
}

-- The steps behind load_images, where it has ended.
unfoldable pub after {ℓ κ} :
    {A : Type ℓ} {B : Type κ} → Option (Outcome A) → (A → Outcome B) → Option (Outcome B)
after none next = none
after (some o) next = some (o >>= next)

-- The tables of the mode in which main goes on.
unfoldable pub boot_tables : Bool → Bool → Arm64.Places → ImageInfo → Arm64.Tables → Arm64.Tables
boot_tables true smp places kernel_info t = Arm64.init_hyp_boot_vspace smp places kernel_info t
boot_tables false smp places kernel_info t = Arm64.init_boot_vspace smp places kernel_info t

-- The memory of a RISC-V machine has its word size.
unfoldable pub kernel_of : Xlen → Kernel
kernel_of rv32 = kernel_32
kernel_of rv64 = kernel_64

-- vm_mode, for the levels 2, 3 and 4 that the source knows
unfoldable pub vm_mode : ℕ → ℕ
vm_mode pt_levels =
    if pt_levels == 2 then 1 * 2 ^ 31 else if pt_levels == 3 then 8 * 2 ^ 60 else 9 * 2 ^ 60

module _ (config : HashConfig) (site : Site) (cpio_get_file : Memory → String → ℕ × ℕ)
    (cpio_get_entry : Memory → ℕ → ℕ × ℕ × ℕ) (f kernel_name : ℕ) (junk : ℕ × ℕ) where
  -- `exited` is whether efi_exit_boot_services succeeded, if it is called; `in_hyp` is is_hyp_mode() at
  -- the start and `hyp_support` CONFIG_ARM_HYPERVISOR_SUPPORT, without which leave_hyp is called;
  -- `cpus` is how smp_boot ends.
  unfoldable pub arm64_main :
      Bool
      → Bool
      → Bool
      → Outcome (Unit {0})
      → Bool
      → Arm64.Places
      → Arm64.Tables
      → Memory
      → Option (Outcome (Jump Arm64.Tables))
  arm64_main exited in_hyp hyp_support cpus smp places t m =
      after
        (elim exited [
          | true ↦
              load_images kernel_64 config site cpio_get_file cpio_get_entry f kernel_name junk 1 m
          | false ↦ some (aborted "Unable to exit UEFI boot services!\n")
        ])
        λ (m', kernel_info, infos). only_app infos >>= λ user_info.
          cpus
          >> done (
              enter kernel_info user_info
                (boot_tables (in_hyp && hyp_support) smp places kernel_info t) m')

  -- The value for satp is beside the tables.
  unfoldable pub riscv_main :
      Xlen → ℕ → ℕ → ℕ → Riscv.Tables → Memory → Option (Outcome (Jump (Riscv.Tables × ℕ)))
  riscv_main xlen pt_levels l1pt_place l2pt_place t m =
      after
        (load_images (kernel_of xlen) config site cpio_get_file cpio_get_entry f kernel_name junk 1
          m)
        λ (m', kernel_info, infos). only_app infos >>= λ user_info.
          map_kernel_window xlen pt_levels l2pt_place kernel_info t >>= λ made. done (
            enter kernel_info user_info
              (
                made,
                bit_or (vm_mode pt_levels) (l1pt_place / 2 ^ riscv_pgshift) % 2 ^ word_bits xlen,
              )
              m')
