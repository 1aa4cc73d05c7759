-- ===== src/Platform.antt =====
-- What platform_init of src/plat/tk1/platform_init.c and src/plat/imx6/platform_init.c share: the machine
-- before the kernel, and the switch to monitor mode. A register keeps what is written to it. The inline
-- assembly that reads and writes one is the access alone; caches and barriers are left out.
pub mod Tk1
pub mod Imx6
pub mod Zynq
use Prim.Native.String.{String}
use se_l4_tools.Common.{
  ℕ, ◌^◌, ◌%◌, ◌==◌, ◌||◌, if◌then◌else◌, Bool, true, false, Outcome, done, aborted, bit_or,
}
use se_l4_tools.Memory.{Memory}
use se_l4_tools.Mmu.Table.{Table}
use se_l4_tools.Gic.{Gicd, Gicc, route_irqs_to_nonsecure}

-- `scr`, `nsacr`, `acr` and `mvbar` are the registers of coprocessor 15 with these names, `mode` the mode
-- field of CPSR. `regs` has the other registers, by their addresses.
pub record Machine : Type 0 where
  pub scr : ℕ
  pub nsacr : ℕ
  pub acr : ℕ
  pub mvbar : ℕ
  pub mode : ℕ
  pub mon_init_done : ℕ
  pub gicd : Gicd
  pub gicc : Gicc
  pub regs : Table
  pub memory : Memory

-- `BIT(n)`
abbrev pub bit_of : ℕ → ℕ
bit_of n = 2 ^ n

abbrev pub scr_ns : ℕ
scr_ns = 0

abbrev pub scr_scd : ℕ
scr_scd = 7

abbrev pub scr_hce : ℕ
scr_hce = 8

abbrev pub scr_sif : ℕ
scr_sif = 9

abbrev pub monitor_mode : ℕ
monitor_mode = 0x16

abbrev pub supervisor_mode : ℕ
supervisor_mode = 0x13

abbrev pub hypervisor_mode : ℕ
hypervisor_mode = 0x1a

-- arm_halt waits forever; it ends the run with the message printed before it.
unfoldable pub arm_halt {ℓ} : {A : Type ℓ} → String → Outcome A
arm_halt message = aborted message

abbrev pub in_nonsecure_world : String
in_nonsecure_world = "In nonsecure world, you should never see this!\n"

abbrev pub undefined_instruction : String
undefined_instruction = "Undefined instruction"

-- The processor is in the secure world: the NS bit of SCR is clear, or it is in monitor mode.
unfoldable pub is_secure : Machine → Bool
is_secure m = m.mode == monitor_mode || m.scr % 2 == 0

-- `part` starts with an access that the secure world alone has: to SCR, to MVBAR, or a write to NSACR. In
-- the non-secure world the instruction fails, as the comment on the read of SCR says, and ends the run.
unfoldable pub secure_access : Machine → Outcome Machine → Outcome Machine
secure_access m part = if is_secure m then part else aborted undefined_instruction

-- A part that an `#ifdef` takes in.
unfoldable pub if_configured : Bool → (Machine → Outcome Machine) → Machine → Outcome Machine
if_configured true part m = part m
if_configured false part m = done m

-- route_irqs_to_nonsecure, on the machine's interrupt controller.
unfoldable pub route_irqs : Machine → Machine
route_irqs m =
    let routed = route_irqs_to_nonsecure m.gicd m.gicc in
    record m { gicd = routed.0; gicc = routed.1 }
