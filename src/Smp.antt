-- ===== src/Smp.antt =====
-- The start of the other cores on AArch64: init_cpus of src/plat/hikey/smp.c and src/plat/tx1/smp.c,
-- core_entry of src/arch-arm/armv/armv8-a/64/smp.c, psci.c beside it, and smp_boot and non_boot_main of
-- src/arch-arm/smp_boot.c. The cores run side by side: a step is one access to what they share.
pub mod Steps
pub mod Invariant
pub mod Moves
pub mod Keeps
pub mod Order
pub mod Alive
pub mod Progress
pub mod Registers
use se_l4_tools.Common.{
  ℕ, zero, suc, ◌+◌, ◌-◌, ◌*◌, ◌/◌, ◌%◌, ◌^◌, Bool, true, false, ◌==◌, ltb, if◌then◌else◌, bit_or,
}

pub data Board : Type 0 where
  hikey : Board
  tx1 : Board

unfoldable pub max_cores : Board → ℕ
max_cores hikey = 8
max_cores tx1 = 4

-- What psci_cpu_on is asked to start for the logical core `i`.
unfoldable pub target : Board → ℕ → ℕ
target hikey i = bit_or (i % 4) (i / 4 * 2 ^ 8)
target tx1 i = i

abbrev pub stack_size : ℕ
stack_size = 4096

-- `&core_stacks[i][0]`, for an array that starts at `base`
unfoldable pub core_stack : ℕ → ℕ → ℕ
core_stack base i = base + i * stack_size

-- The logical number in core_entry.
unfoldable pub core_id : ℕ → ℕ → ℕ
core_id base sp = (sp + 2 ^ 64 - base) % 2 ^ 64 / stack_size % 2 ^ 32

-- The last parameter of psci_cpu_on; TX1 leaves the stack in memory instead.
unfoldable pub context : Board → ℕ → ℕ → ℕ
context hikey base i = core_stack base i
context tx1 base i = 0

-- The first word of core_stacks after the write of TX1 to it.
unfoldable pub mailbox_for : Board → ℕ → ℕ → ℕ → ℕ
mailbox_for hikey base i old = old
mailbox_for tx1 base i old = core_stack base i

-- core_entry_head: the stack is in x0, or in the first word of core_stacks.
unfoldable pub stack_given : Board → ℕ → ℕ → ℕ
stack_given hikey x0 mailbox = x0
stack_given tx1 x0 mailbox = mailbox

unfoldable pub is_core_up : (ℕ → ℕ) → ℕ → Bool
is_core_up core_up i = core_up i == i

-- The calls of the firmware, which takes its function's number and three words.
module _ (psci_func : ℕ → ℕ → ℕ → ℕ → ℕ) where
  unfoldable pub psci_version : ℕ
  psci_version = psci_func 0x84000000 0 0 0

  unfoldable pub psci_cpu_suspend : ℕ → ℕ → ℕ → ℕ
  psci_cpu_suspend power_state entry_point context_id =
      psci_func 0xc4000001 power_state entry_point context_id

  unfoldable pub psci_cpu_off : ℕ
  psci_cpu_off = psci_func 0x84000002 0 0 0

  unfoldable pub psci_cpu_on : ℕ → ℕ → ℕ → ℕ
  psci_cpu_on target_cpu entry_point context_id =
      psci_func 0xc4000003 target_cpu entry_point context_id

  unfoldable pub psci_system_reset : ℕ
  psci_system_reset = psci_func 0x84000009 0 0 0

-- The first core, in init_cpus (with the loop counter) and after it.
pub data Boot : Type 0 where
  bringing : ℕ → Boot
  calling : ℕ → Boot
  waiting : ℕ → Boot
  cpus_up : Boot
  unlocked : Boot
  boot_in_kernel : Boot
  boot_aborted : ℕ → Boot

-- Another core: core_entry_head with its x0, core_entry with its stack, the loop of non_boot_main, and
-- behind it.
pub data Core : Type 0 where
  off : Core
  head : ℕ → Core
  started : ℕ → Core
  spinning : Core
  released : Core
  in_kernel : Core

-- The cores are named as the firmware does; `mailbox` is the first word of core_stacks.
pub record System : Type 0 where
  pub core_up : ℕ → ℕ
  pub non_boot_lock : ℕ
  pub mailbox : ℕ
  pub boot_tpidr : ℕ
  pub tpidr : ℕ → ℕ
  pub boot : Boot
  pub core : ℕ → Core

unfoldable pub update {ℓ} : {A : Type ℓ} → (ℕ → A) → ℕ → A → ℕ → A
update f i x j = if i == j then x else f j

-- The check of init_cpus before its loop.
unfoldable pub begin : Board → ℕ → Boot
begin board nodes = if ltb (max_cores board) nodes then boot_aborted 1 else bringing 1

unfoldable pub initial : Board → ℕ → System
initial board nodes = record {
  core_up = λ i. 0;
  non_boot_lock = 0;
  mailbox = 0;
  boot_tpidr = 0;
  tpidr = λ i. 0;
  boot = begin board nodes;
  core = λ i. off;
}

-- core_entry up to the call of non_boot_main
unfoldable pub core_entry : ℕ → ℕ → ℕ → System → System
core_entry base cpu sp s =
    let id = core_id base sp in
    record s {
      tpidr = update s.tpidr cpu id;
      core_up = update s.core_up id id;
      core = update s.core cpu spinning;
    }
