-- ===== src/Platform/Imx6.antt =====
-- src/plat/imx6/platform_init.c. With CONFIG_ARM_MONITOR_HOOK the file is refused (`#error`), so the
-- hook is left out.
pub mod Switched
use se_l4_tools.Common.{
  ℕ, zero, suc, ◌+◌, ◌-◌, ◌*◌, ◌/◌, ◌%◌, ◌^◌, Bool, true, false, ◌==◌, if◌then◌else◌, Outcome, done,
  ◌>>=◌, bit_or, bit_and,
}
use se_l4_tools.Mmu.Table.{Table, put}
use se_l4_tools.Platform.{
  Machine, bit_of, scr_ns, monitor_mode, arm_halt, in_nonsecure_world, if_configured, route_irqs,
  secure_access,
}

abbrev pub scu_paddr : ℕ
scu_paddr = 0x00a00000

abbrev pub scu_sacr_paddr : ℕ
scu_sacr_paddr = scu_paddr + 0x50

abbrev pub scu_nsacr_paddr : ℕ
scu_nsacr_paddr = scu_paddr + 0x54

abbrev pub csu_paddr : ℕ
csu_paddr = 0x021c0000

abbrev pub csu_size : ℕ
csu_size = 160

unfoldable pub switch_to_mon_mode : Machine → Outcome Machine
switch_to_mon_mode m =
    if m.mon_init_done == 0
    then secure_access m (
        if bit_and m.scr (bit_of scr_ns) == 0
        then done (record m { mode = monitor_mode; mon_init_done = 1 })
        else arm_halt in_nonsecure_world)
    else done m

unfoldable pub enable_ns_access_cp : Machine → Outcome Machine
enable_ns_access_cp m = secure_access m (
    done (record m {
      nsacr =
          bit_or m.nsacr (bit_or (bit_or (bit_or (bit_of 10) (bit_of 11)) (bit_of 17)) (bit_of 16));
    }))

-- The loop of set_csu, with the rounds that are left.
unfoldable pub csu_loop : ℕ → ℕ → Table → Table
csu_loop zero addr regs = regs
csu_loop (suc left) addr regs = csu_loop left (addr + 4) (put regs addr 0x00ff00ff)

unfoldable pub set_csu : Machine → Machine
set_csu m = record m { regs = csu_loop (csu_size / 4) csu_paddr m.regs }

unfoldable pub set_smp_bit : Machine → Outcome Machine
set_smp_bit m =
    let smp = record m { acr = bit_or m.acr (bit_of 6) } in
    secure_access smp (done (record smp { nsacr = bit_or m.nsacr (bit_of 18) }))

unfoldable pub enable_scu_ns_access : Machine → Machine
enable_scu_ns_access m = record m {
  regs = put (put m.regs scu_sacr_paddr 0xf) scu_nsacr_paddr 0x1fff;
}

-- The assembly at the end: 1 goes to SCR, and `movs` takes the mode from the 0x1d3 in SPSR.
unfoldable pub mode_switch : Machine → Outcome Machine
mode_switch m = secure_access m (done (record m { scr = 1; mode = 0x1d3 % 2 ^ 5 }))

-- CONFIG_ARM_NS_SUPERVISOR_MODE and CONFIG_ARM_MONITOR_MODE; the first returns before the second.
unfoldable pub platform_init : Bool → Bool → Machine → Outcome Machine
platform_init ns_supervisor_mode in_monitor_mode m =
    let start = record m { mon_init_done = 0 } in
    if ns_supervisor_mode
    then (switch_to_mon_mode start >>= λ s. enable_ns_access_cp (enable_scu_ns_access s) >>= λ s.
        set_smp_bit s >>= λ s. mode_switch (route_irqs (set_csu s)))
    else if_configured in_monitor_mode switch_to_mon_mode start
