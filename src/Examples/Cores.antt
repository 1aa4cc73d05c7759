-- ===== src/Examples/Cores.antt =====
-- Two cores of HiKey, from init_cpus into the kernel (src/plat/hikey/smp.c, src/arch-arm/smp_boot.c).
use se_l4_tools.Common.{
  done, true, ◌+◌, ◌*◌, ℕ, ◌-◌, ◌<◌, ◌≡◌, ◌^◌, refl, arith, if◌then◌else◌, ◌==◌,
}
use se_l4_tools.Smp.{
  hikey, target, core_stack, core_id, context, stack_given, is_core_up, psci_cpu_on, Core, off,
  head, started, spinning, released, in_kernel, System, update, initial, begin, max_cores,
  core_entry,
}
use se_l4_tools.Smp.Steps.{
  Machine, Reach, here, next, place_stack, power_on, see_up, all_up, unlock, load_stack, announce,
  leave, core_enters,
}
use se_l4_tools.Smp.Invariant.{IsMachine}
use se_l4_tools.Smp.Alive.{StartsCores}
use se_l4_tools.Mmu.Table.{Table}
use se_l4_tools.Smp.Registers.{imx6_init_cpus, scu_get_core_count, src_base, src_gpr1}
use se_l4_tools.Smp.Registers.Bits.{bit}
use se_l4_tools.Smp.Registers.Started.{imx6_init_cpus-Started}
use se_l4_tools.Gic.{Gicd, route_irqs_to_nonsecure}
use se_l4_tools.Gic.Routed.{route_irqs-Routed}
use se_l4_tools.Smp.Order.{in_kernel-after_all}
use se_l4_tools.Smp.Progress.{Leads}
use se_l4_tools.Smp.Progress.Rest.{AllInKernel-reachable, AllInKernel}

-- PSCI_SUCCESS for a core that is off, and PSCI_ALREADY_ON
abbrev reply : Core → ℕ
reply off = 0
reply (head _) = 2 ^ 32 - 4
reply (started _) = 2 ^ 32 - 4
reply spinning = 2 ^ 32 - 4
reply released = 2 ^ 32 - 4
reply in_kernel = 2 ^ 32 - 4

abbrev firmware : System → ℕ → ℕ → ℕ → ℕ → ℕ
firmware s id cpu entry x0 = if id == 0xc4000003 then reply (s.core cpu) else 0

abbrev machine : Machine
machine = record {
  board = hikey;
  nodes = 2;
  core_stacks = 0x100000;
  core_entry_head = 0x80000;
  psci_func = firmware;
}

machine-IsMachine : IsMachine machine
unfolding max_cores
machine-IsMachine = record { one = omega arith; fits = omega arith }

machine-StartsCores : StartsCores machine
unfolding max_cores psci_cpu_on
machine-StartsCores = record { few = omega arith; starts = λ s i h. rw h refl }

-- The state after the nine steps, and the way there.
abbrev run : (s : System) × Reach machine (initial hikey 2) s
unfolding initial begin max_cores psci_cpu_on update target core_entry is_core_up core_id
    stack_given context core_stack
run = (
  _,
  next
      (next
        (next
          (next
            (next
              (next
                (next (next (next here (place_stack 1 refl (omega arith))) (power_on 1 refl refl))
                  (load_stack 1 _ refl))
                (announce 1 _ refl))
              (see_up 1 refl refl))
            (all_up 2 refl (omega arith)))
          (unlock refl))
        (leave 1 refl (λ e. omega arith)))
      (core_enters 1 refl),
)

in_kernel-after_all_example :
    (0 < run.0.tpidr 1)
    × (run.0.tpidr 1 < 2)
    × (1 ≡ target hikey (run.0.tpidr 1))
    × (run.0.core_up 1 ≡ 1)
unfolding initial begin max_cores psci_cpu_on update target core_entry is_core_up core_id
    stack_given context core_stack
in_kernel-after_all_example =
    in_kernel-after_all machine run.0 machine-IsMachine run.1 1 refl 1 (omega arith) (omega arith)

AllInKernel-reachable_example : Leads machine (initial hikey 2) (AllInKernel machine 1)
AllInKernel-reachable_example =
    AllInKernel-reachable machine (initial hikey 2) machine-IsMachine machine-StartsCores here

-- The second cluster of HiKey starts with the core 0x100.
second_cluster : target hikey 4 ≡ 0x100
unfolding target
second_cluster = refl

-- An SCU that reports four cores.
abbrev registers : Table
registers p = if p == 0xa00004 then 3 else 0

count : scu_get_core_count 0xa00000 registers ≡ 4
unfolding scu_get_core_count
count = refl

imx6_init_cpus-Started_example :
    (after : Table) × (imx6_init_cpus true 0x412fc09a 0xa00000 0x10000000 4 registers ≡ done after)
    × (after (src_base + src_gpr1 + 2 * 8) ≡ 0x10000000)
    × (bit (22 + 2 - 1) (after src_base) ≡ 1)
imx6_init_cpus-Started_example =
    imx6_init_cpus-Started true 0x412fc09a 0xa00000 0x10000000 4 registers 2 (λ e. omega arith)
      (omega (arith, count)) (omega arith) (omega arith)

-- A distributor with 64 interrupts.
abbrev distributor : Gicd
distributor = record { enable = 1; ic_type = 0x21; security = λ i. 0; priority = λ i. 7 }

route_irqs-Routed_example :
    let routed = (route_irqs_to_nonsecure distributor (record { ctrl = 1; pri_mask = 0 })).0 in
    (routed.security 1 ≡ 0xffffffff) × (routed.priority 1 ≡ 0x80808080)
route_irqs-Routed_example = route_irqs-Routed distributor (record { ctrl = 1; pri_mask = 0 }) 1
