-- ===== src/Platform/Tk1.antt =====
-- src/plat/tk1/platform_init.c.
pub mod World
pub mod Switched
use se_l4_tools.Common.{
  ℕ, ◌+◌, ◌-◌, ◌*◌, ◌%◌, ◌^◌, Bool, ◌==◌, if◌then◌else◌, Outcome, done, ◌>>=◌, bit_or, bit_and,
}
use se_l4_tools.Memory.{kernel_32}
use se_l4_tools.Strops.{memcpy}
use se_l4_tools.Platform.{
  Machine, bit_of, scr_ns, scr_scd, scr_hce, scr_sif, monitor_mode, supervisor_mode,
  hypervisor_mode, arm_halt, in_nonsecure_world, if_configured, route_irqs, secure_access,
}

-- MON_PA_START
abbrev pub mon_vector_start : ℕ
mon_vector_start = 0x80000000 + 0x27f00000

unfoldable pub switch_to_mon_mode : Machine → Outcome Machine
switch_to_mon_mode m =
    if m.mon_init_done == 0
    then secure_access m (
        if bit_and m.scr (bit_of scr_ns) == 0
        then done (record m { scr = bit_of scr_hce; mode = monitor_mode; mon_init_done = 1 })
        else arm_halt in_nonsecure_world)
    else done m

-- `vector` and `vector_end` are arm_monitor_vector and arm_monitor_vector_end.
unfoldable pub install_monitor_hook : ℕ → ℕ → Machine → Outcome Machine
install_monitor_hook vector vector_end m =
    let size = (vector_end + 2 ^ 32 - vector) % 2 ^ 32 in
    switch_to_mon_mode m >>= λ m'.
    memcpy kernel_32 m'.memory mon_vector_start vector size >>= λ copied.
    secure_access m' (done (record m' { memory = copied; mvbar = mon_vector_start }))

unfoldable pub switch_to_hyp_mode : Machine → Outcome Machine
switch_to_hyp_mode m =
    let with_hce = bit_or m.scr (bit_of scr_hce) in
    let with_smc = bit_and with_hce (2 ^ 32 - 1 - bit_of scr_scd) in
    let nonsecure = bit_or with_smc (bit_of scr_ns) in
    secure_access m (
      done (record m {
        scr = bit_and nonsecure (2 ^ 32 - 1 - bit_of scr_sif);
        mode = hypervisor_mode;
      }))

-- The mode changes before SCR is read.
unfoldable pub switch_to_ns_svc_mode : Machine → Outcome Machine
switch_to_ns_svc_mode m =
    let svc = record m { mode = supervisor_mode } in
    secure_access svc (done (record svc { scr = bit_or m.scr (bit_of scr_ns) }))

unfoldable pub enable_ns_access_cp : Machine → Outcome Machine
enable_ns_access_cp m =
    secure_access m (done (record m { nsacr = bit_or m.nsacr (bit_or (bit_of 10) (bit_of 11)) }))

-- CONFIG_ARM_MONITOR_HOOK and so on.
pub record Config : Type 0 where
  pub monitor_hook : Bool
  pub ns_supervisor_mode : Bool
  pub hypervisor_mode : Bool
  pub monitor_mode : Bool

unfoldable pub platform_init : Config → ℕ → ℕ → Machine → Outcome Machine
platform_init config vector vector_end m =
    if_configured config.monitor_hook (install_monitor_hook vector vector_end) m >>= λ hooked.
    enable_ns_access_cp hooked >>= λ enabled.
    if_configured config.ns_supervisor_mode
      (λ s. switch_to_mon_mode s >>= λ t. switch_to_ns_svc_mode (route_irqs t)) enabled
    >>= λ s.
        if_configured config.hypervisor_mode
          (λ s. switch_to_mon_mode s >>= λ t. switch_to_hyp_mode (route_irqs t)) s
        >>= λ s. if_configured config.monitor_mode switch_to_mon_mode s
