-- ===== src/Examples/Boards.antt =====
-- The boards' start, with a machine in the secure world.
use Prim.Native.String.{String}
use se_l4_tools.Memory.{kernel_64, Memory}
use se_l4_tools.Printf.{codes}
use se_l4_tools.Printf.Number.{number_text, digits_of, digit_char}
use se_l4_tools.Cpuid.{cpuid_get_implementer_str, cpuid_get_arch_str, print_cpuid}
use se_l4_tools.Cpuid.Printed.{line, print_cpuid-line}
use se_l4_tools.Common.{
  ◌-◌, some, [], ◌++◌, length, get_or, ℕ, ◌+◌, ◌%◌, ◌^◌, ◌≡◌, refl, arith, ◌⊎◌, inr, true, false,
  ◌==◌, ◌||◌, if◌then◌else◌, ltb, done, aborted,
}
use se_l4_tools.Strops.Bytes.{copy_bytes}
use se_l4_tools.Smp.Registers.Bits.{bit}
use se_l4_tools.Platform.{
  Machine, supervisor_mode, hypervisor_mode, monitor_mode, in_nonsecure_world,
  undefined_instruction,
}
use se_l4_tools.Platform.Tk1
use se_l4_tools.Platform.Tk1.{Config, mon_vector_start}
use se_l4_tools.Platform.Tk1.Switched.{tk1_platform_init-Switched}
use se_l4_tools.Mmu.Table.{Table}
use se_l4_tools.Smp.Registers.{scu_get_core_count}
use se_l4_tools.Common.{◌≢◌, ◌&&◌}
use se_l4_tools.Platform.Zynq.{zynq_init_cpus, cpu_jump_ptr, a9_cpu_rst_ctrl}
use se_l4_tools.Platform.Zynq.Started.{zynq_init_cpus-Started}
use se_l4_tools.Platform.Imx6
use se_l4_tools.Platform.Imx6.Switched.{is_opened_bit, opened, imx6_platform_init-Switched}
use se_l4_tools.Examples.Sample.{memory, memory-IsBytes, matches-IsText}

abbrev machine : Machine
machine = record {
  scr = 0;
  nsacr = 0x1000;
  acr = 1;
  mvbar = 0;
  mode = supervisor_mode;
  mon_init_done = 0;
  gicd = record { enable = 1; ic_type = 0x24; security = λ i. 0; priority = λ i. 7 };
  gicc = record { ctrl = 1; pri_mask = 0 };
  regs = λ p. 0;
  memory = memory;
}

-- The kernel is started in hypervisor mode, with the hook.
abbrev config : Config
config = record {
  monitor_hook = true;
  ns_supervisor_mode = false;
  hypervisor_mode = true;
  monitor_mode = false;
}

tk1_platform_init-Switched_example :
    ((machine.scr % 2 ≡ 0)
      × ((config.ns_supervisor_mode && config.hypervisor_mode) ≡ false)
      × ((after : Machine) × (Tk1.platform_init config 4096 4352 machine ≡ done after)
          × (after.mode ≡ hypervisor_mode)
          × (after.scr ≡ 0x101)
          × ((j : ℕ) → bit j after.nsacr ≡ (if j == 10 || j == 11 then 1 else bit j 0x1000))
          × (after.memory ≡ copy_bytes memory mon_vector_start 4096 256)
          × (after.mvbar ≡ mon_vector_start)))
    ⊎ ((machine.scr % 2 ≡ 0)
        × ((config.ns_supervisor_mode && config.hypervisor_mode) ≡ true)
        × (Tk1.platform_init config 4096 4352 machine ≡ aborted undefined_instruction))
    ⊎ ((machine.scr % 2 ≡ 1)
        × (machine.mode ≡ monitor_mode)
        × (Tk1.platform_init config 4096 4352 machine ≡ aborted in_nonsecure_world))
    ⊎ ((machine.scr % 2 ≡ 1)
        × (machine.mode ≢ monitor_mode)
        × (Tk1.platform_init config 4096 4352 machine ≡ aborted undefined_instruction))
tk1_platform_init-Switched_example =
    tk1_platform_init-Switched config 4096 4352 machine memory-IsBytes (inr (omega arith)) refl refl

imx6_platform_init-Switched_example :
    ((machine.scr % 2 ≡ 0)
      × ((after : Machine) × (Imx6.platform_init true false machine ≡ done after)
          × (after.mode ≡ supervisor_mode)
          × (after.scr ≡ 1)
          × ((j : ℕ) → bit j after.nsacr ≡ (if is_opened_bit j then 1 else bit j 0x1000))
          × ((j : ℕ) → bit j after.acr ≡ (if j == 6 then 1 else bit j 1))
          × ((p : ℕ) → after.regs p ≡ opened (λ p. 0) p)
          × ((j : ℕ)
              → after.gicd.security j ≡ (if ltb j (0x24 % 2 ^ 5 + 1) then 0xffffffff else 0))))
    ⊎ ((machine.scr % 2 ≡ 1)
        × (machine.mode ≡ monitor_mode)
        × (Imx6.platform_init true false machine ≡ aborted in_nonsecure_world))
    ⊎ ((machine.scr % 2 ≡ 1)
        × (machine.mode ≢ monitor_mode)
        × (Imx6.platform_init true false machine ≡ aborted undefined_instruction))
imx6_platform_init-Switched_example = imx6_platform_init-Switched false machine

-- Where two of the strings of cpuid.c could be.
abbrev place : String → ℕ
place s = if length (codes s) == 8 then 0 else 100

abbrev strings : Memory
strings p =
    if ltb p 100
    then get_or (codes "ARM Ltd.") p 0
    else get_or (codes "Defined by CPUID scheme") (p - 100) 0

implementer : cpuid_get_implementer_str 0x410fd034 ≡ "ARM Ltd."
unfolding cpuid_get_implementer_str
implementer = refl

scheme : cpuid_get_arch_str 0x410fd034 ≡ "Defined by CPUID scheme"
unfolding cpuid_get_arch_str
scheme = refl

print_cpuid-line_example :
    print_cpuid 64 kernel_64 strings strings place 0x410fd034 [] ≡ some ([] ++ line 0x410fd034)
print_cpuid-line_example =
    print_cpuid-line 64 kernel_64 strings strings place 0x410fd034 [] (omega arith)
      (rw implementer (matches-IsText strings 0 (codes "ARM Ltd.") refl))
      (rw scheme (matches-IsText strings 100 (codes "Defined by CPUID scheme") refl))

-- A Cortex-A53, and a Cortex-A72.
cortex_a53 : line 0x410fd034 ≡ codes "CPU: ARM Ltd. Cortex-A53 r0p4\n"
unfolding cpuid_get_implementer_str number_text digits_of digit_char
cortex_a53 = refl

cortex_a72 : line 0x410fd083 ≡ codes "CPU: ARM Ltd. Cortex-A58 r0p3\n"
unfolding cpuid_get_implementer_str number_text digits_of digit_char
cortex_a72 = refl

-- An SCU with two cores.
abbrev two_cores : Table
two_cores p = if p == 0xF8F00004 then 1 else 0xff

enough_cores : scu_get_core_count 0xF8F00000 two_cores ≡ 2
unfolding scu_get_core_count
enough_cores = refl

zynq_init_cpus-Started_example :
    (after : Table) × (zynq_init_cpus 0xF8F00000 0x8000 2 two_cores ≡ done after)
    × (((◌≡◌ {A = ℕ} 2 1) × (after ≡ two_cores))
        ⊎ ((◌≢◌ {A = ℕ} 2 1)
            × (after cpu_jump_ptr ≡ 0x8000)
            × (bit 1 (after a9_cpu_rst_ctrl) ≡ 0)
            × (bit 5 (after a9_cpu_rst_ctrl) ≡ 0)
            × ((p : ℕ)
                → (if p == a9_cpu_rst_ctrl || p == cpu_jump_ptr then 0 else after p)
                  ≡ (if p == a9_cpu_rst_ctrl || p == cpu_jump_ptr then 0 else two_cores p))))
zynq_init_cpus-Started_example =
    zynq_init_cpus-Started 0xF8F00000 0x8000 2 two_cores (omega (arith, enough_cores))
