-- ===== src/Platform/Tk1/World.antt =====
-- The accesses of src/plat/tk1/platform_init.c to SCR and NSACR in the two worlds, and platform_init
-- from monitor mode on.
use se_l4_tools.Common.{
  ℕ, ◌%◌, ◌≡◌, refl, ◌∙◌, arith, Bool, true, false, ◌==◌, ◌||◌, ◌&&◌, ◌≢◌, inl, inr, Bool-cases,
  if◌then◌else◌, Outcome, done, aborted, bit_or, bit_and, bit_and_mask,
}
use se_l4_tools.Platform.{
  Machine, hypervisor_mode, supervisor_mode, monitor_mode, arm_halt, in_nonsecure_world,
  if_configured, route_irqs, is_secure, secure_access, undefined_instruction,
}
use se_l4_tools.Platform.Tk1.{
  switch_to_mon_mode, switch_to_hyp_mode, switch_to_ns_svc_mode, enable_ns_access_cp, Config,
  platform_init,
}

-- The machine behind the first switch to monitor mode.

-- The machine behind the first switch to monitor mode.
abbrev pub in_monitor : Machine → Machine
in_monitor m = record m { scr = 0x100; mode = monitor_mode; mon_init_done = 1 }

abbrev pub enabled : Machine → Machine
enabled m = record m { nsacr = bit_or m.nsacr 0xc00 }

odd_test : (n : ℕ) → n ≡ 1 → (n == 0) ≡ false
odd_test n e = rw e refl

other_test : (n mode : ℕ) → n ≢ mode → (n == mode) ≡ false
other_test n mode ne = ground arith

-- The accesses of the secure world, by the world.
module _ (m : Machine) where
  access-secure : m.scr % 2 ≡ 0 → (o : Outcome Machine) → secure_access m o ≡ o
  unfolding secure_access is_secure
  access-secure secure o = elim (Bool-cases (m.mode == monitor_mode)) [
    | inl monitor ↦ rw monitor refl
    | inr out ↦ rw (out, secure) refl
  ]

  access-monitor : m.mode ≡ monitor_mode → (o : Outcome Machine) → secure_access m o ≡ o
  unfolding secure_access is_secure
  access-monitor mode o = rw mode refl

  access-fails :
      m.scr % 2 ≡ 1
      → m.mode ≢ monitor_mode
      → (o : Outcome Machine) → secure_access m o ≡ aborted undefined_instruction
  unfolding secure_access is_secure
  access-fails nonsecure other o =
      rw (odd_test (m.scr % 2) nonsecure, other_test m.mode monitor_mode other) refl

  pub enable-secure : m.scr % 2 ≡ 0 → enable_ns_access_cp m ≡ done (enabled m)
  unfolding enable_ns_access_cp
  enable-secure secure = access-secure secure (done (enabled m))

  pub enable-monitor : m.mode ≡ monitor_mode → enable_ns_access_cp m ≡ done (enabled m)
  unfolding enable_ns_access_cp
  enable-monitor mode = access-monitor mode (done (enabled m))

  pub enable-fails :
      m.scr % 2 ≡ 1 → m.mode ≢ monitor_mode → enable_ns_access_cp m ≡ aborted undefined_instruction
  unfolding enable_ns_access_cp
  enable-fails nonsecure other = access-fails nonsecure other (done (enabled m))

module _ (m : Machine) (first : m.mon_init_done ≡ 0) where
  abbrev is_first : (m.mon_init_done == 0) ≡ true
  is_first = rw first refl

  abbrev ns_clear : m.scr % 2 ≡ 0 → (bit_and m.scr 1 == 0) ≡ true
  ns_clear secure =
      let low : bit_and m.scr 1 ≡ m.scr % 2 = bit_and_mask 1 m.scr in rw (low, secure) refl

  pub mon_mode-secure : m.scr % 2 ≡ 0 → switch_to_mon_mode m ≡ done (in_monitor m)
  unfolding switch_to_mon_mode
  mon_mode-secure secure = rw is_first (access-secure m secure _ ∙ rw (ns_clear secure) refl)

  pub mon_mode-halts :
      m.scr % 2 ≡ 1 → m.mode ≡ monitor_mode → switch_to_mon_mode m ≡ aborted in_nonsecure_world
  unfolding switch_to_mon_mode arm_halt
  mon_mode-halts nonsecure mode =
      let low : bit_and m.scr 1 ≡ m.scr % 2 = bit_and_mask 1 m.scr in
      rw is_first (access-monitor m mode _ ∙ rw (low, nonsecure) refl)

  pub mon_mode-fails :
      m.scr % 2 ≡ 1 → m.mode ≢ monitor_mode → switch_to_mon_mode m ≡ aborted undefined_instruction
  unfolding switch_to_mon_mode
  mon_mode-fails nonsecure other = rw is_first (access-fails m nonsecure other _)

-- The modes that need the switch, and what is left of it at the end.
abbrev pub enters_monitor : Config → Bool
enters_monitor config =
    config.monitor_hook || config.ns_supervisor_mode || config.hypervisor_mode
    || config.monitor_mode

abbrev pub last_mode : Config → ℕ
last_mode config =
    if config.hypervisor_mode
    then hypervisor_mode
    else if config.ns_supervisor_mode
    then supervisor_mode
    else monitor_mode

abbrev pub leaves_secure : Config → Bool
leaves_secure config = config.ns_supervisor_mode || config.hypervisor_mode

abbrev pub options : Bool → Bool → Bool → Bool → Config
options hook ns hyp mon = record {
  monitor_hook = hook;
  ns_supervisor_mode = ns;
  hypervisor_mode = hyp;
  monitor_mode = mon;
}

abbrev pub without_hook : Bool → Bool → Bool → Config
without_hook ns hyp mon = record {
  monitor_hook = false;
  ns_supervisor_mode = ns;
  hypervisor_mode = hyp;
  monitor_mode = mon;
}

abbrev pub Ends : Config → Machine → (ℕ → ℕ) → ℕ → Outcome Machine → Type 0
Ends config m memory mvbar o =
    (after : Machine) × (o ≡ done after)
    × (after.mode ≡ last_mode config)
    × (after.scr ≡ (if leaves_secure config then 0x101 else 0x100))
    × (after.nsacr ≡ bit_or m.nsacr 0xc00)
    × (after.memory ≡ memory)
    × (after.mvbar ≡ mvbar)

-- From monitor mode on.
pub monitored-Ends :
    (ns hyp mon : Bool) (vector vector_end : ℕ) (m : Machine)
    → (ns && hyp) ≡ false
    → Ends
        (without_hook ns hyp mon)
        m
        m.memory
        m.mvbar
        (platform_init (without_hook ns hyp mon) vector vector_end (in_monitor m))
unfolding platform_init if_configured switch_to_mon_mode route_irqs enable_ns_access_cp
    switch_to_ns_svc_mode switch_to_hyp_mode secure_access is_secure
monitored-Ends true true mon v e m both = absurd (ground (arith, both))
monitored-Ends true false true v e m both = (_, refl, refl, refl, refl, refl, refl)
monitored-Ends true false false v e m both = (_, refl, refl, refl, refl, refl, refl)
monitored-Ends false true true v e m both = (_, refl, refl, refl, refl, refl, refl)
monitored-Ends false true false v e m both = (_, refl, refl, refl, refl, refl, refl)
monitored-Ends false false true v e m both = (_, refl, refl, refl, refl, refl, refl)
monitored-Ends false false false v e m both = (_, refl, refl, refl, refl, refl, refl)

-- With both modes the hypervisor's read of SCR comes from the non-secure world.
pub monitored-fails :
    (mon : Bool) (vector vector_end : ℕ) (m : Machine)
    → platform_init (without_hook true true mon) vector vector_end (in_monitor m)
      ≡ aborted undefined_instruction
unfolding platform_init if_configured switch_to_mon_mode route_irqs enable_ns_access_cp
    switch_to_ns_svc_mode switch_to_hyp_mode secure_access is_secure
monitored-fails true v e m = refl
monitored-fails false v e m = refl
