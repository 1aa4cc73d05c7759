-- ===== src/Platform/Tk1/Switched.antt =====
-- The world and the mode in which platform_init of src/plat/tk1/platform_init.c ends.
use se_l4_tools.Common.{
  ℕ, ◌+◌, ◌-◌, ◌%◌, ◌^◌, ◌≡◌, refl, ◌∙◌, ap, arith, Bool, true, false, ◌==◌, ◌||◌, ◌&&◌, ◌≢◌, ◌⊎◌,
  inl, inr, Bool-cases, if◌then◌else◌, done, aborted, bit_or,
}
use se_l4_tools.Memory.{kernel_32, IsBytes}
use se_l4_tools.Strops.Bytes.{Disjoint, copy_bytes}
use se_l4_tools.Strops.Memcpy.{memcpy-copy_bytes}
use se_l4_tools.Smp.Registers.Bits.{bit, bit-set, bit-set_more}
use se_l4_tools.Platform.{
  Machine, monitor_mode, in_nonsecure_world, if_configured, is_secure, secure_access,
  undefined_instruction,
}
use se_l4_tools.Platform.Tk1.{
  mon_vector_start, switch_to_mon_mode, install_monitor_hook, Config, platform_init,
}
-- The machine behind the first switch to monitor mode.
use se_l4_tools.Platform.Tk1.World.{
  in_monitor, enabled, enable-secure, enable-monitor, enable-fails, mon_mode-secure, mon_mode-halts,
  mon_mode-fails, enters_monitor, last_mode, leaves_secure, options, without_hook, Ends,
  monitored-Ends, monitored-fails,
}

nsacr_bits : (j n : ℕ) → bit j (bit_or n 0xc00) ≡ (if j == 10 || j == 11 then 1 else bit j n)
nsacr_bits j n = ground (arith, bit-set_more j n (2 ^ 10) 11, bit-set j n 10)

module _ (vector vector_end : ℕ) where
  abbrev hook_size : ℕ
  hook_size = (vector_end + 2 ^ 32 - vector) % 2 ^ 32

  abbrev hooked : Machine → Machine
  hooked m = record m {
    memory = copy_bytes m.memory mon_vector_start vector hook_size;
    mvbar = mon_vector_start;
  }

  module _ (m : Machine) (first : m.mon_init_done ≡ 0) where
    early_switch :
        (ns hyp mon : Bool)
        → m.scr % 2 ≡ 0
        → (ns || hyp || mon) ≡ true
        → platform_init (without_hook ns hyp mon) vector vector_end m
          ≡ platform_init (without_hook ns hyp mon) vector vector_end (in_monitor m)
    unfolding platform_init if_configured switch_to_mon_mode
    early_switch true hyp mon secure some =
        rw
          (
            enable-secure m secure,
            mon_mode-secure (enabled m) first secure,
            enable-secure (in_monitor m) refl,
          )
          refl
    early_switch false true mon secure some =
        rw
          (
            enable-secure m secure,
            mon_mode-secure (enabled m) first secure,
            enable-secure (in_monitor m) refl,
          )
          refl
    early_switch false false true secure some =
        rw
          (
            enable-secure m secure,
            mon_mode-secure (enabled m) first secure,
            enable-secure (in_monitor m) refl,
          )
          refl
    early_switch false false false secure some = absurd (ground (arith, some))

    hooked_switch :
        (ns hyp mon : Bool)
        → m.scr % 2 ≡ 0
        → IsBytes m.memory
        → Disjoint mon_vector_start hook_size vector hook_size
        → platform_init
            (record (without_hook ns hyp mon) { monitor_hook = true })
            vector
            vector_end
            m
          ≡ platform_init (without_hook ns hyp mon) vector vector_end (in_monitor (hooked m))
    unfolding platform_init if_configured install_monitor_hook secure_access is_secure
    hooked_switch ns hyp mon secure bytes apart =
        rw
          (
            mon_mode-secure m first secure,
            memcpy-copy_bytes kernel_32 m.memory mon_vector_start vector hook_size bytes apart,
          )
          refl

    -- The options, in the order of the source.
    halts :
        (hook ns hyp mon : Bool)
        → m.scr % 2 ≡ 1
        → m.mode ≡ monitor_mode
        → (hook || ns || hyp || mon) ≡ true
        → platform_init (options hook ns hyp mon) vector vector_end m ≡ aborted in_nonsecure_world
    unfolding platform_init if_configured install_monitor_hook
    halts true ns hyp mon nonsecure mode some = rw (mon_mode-halts m first nonsecure mode) refl
    halts false true hyp mon nonsecure mode some =
        rw (enable-monitor m mode, mon_mode-halts (enabled m) first nonsecure mode) refl
    halts false false true mon nonsecure mode some =
        rw (enable-monitor m mode, mon_mode-halts (enabled m) first nonsecure mode) refl
    halts false false false true nonsecure mode some =
        rw (enable-monitor m mode, mon_mode-halts (enabled m) first nonsecure mode) refl
    halts false false false false nonsecure mode some = absurd (ground (arith, some))

    fails :
        (hook ns hyp mon : Bool)
        → m.scr % 2 ≡ 1
        → m.mode ≢ monitor_mode
        → platform_init (options hook ns hyp mon) vector vector_end m
          ≡ aborted undefined_instruction
    unfolding platform_init if_configured install_monitor_hook
    fails true ns hyp mon nonsecure other = rw (mon_mode-fails m first nonsecure other) refl
    fails false ns hyp mon nonsecure other = rw (enable-fails m nonsecure other) refl

    -- What the secure world comes to, from the machine in monitor mode.
    switched :
        (hook ns hyp mon : Bool)
        → m.scr % 2 ≡ 0
        → (hook || ns || hyp || mon) ≡ true
        → IsBytes m.memory
        → Disjoint mon_vector_start hook_size vector hook_size
        → platform_init (options hook ns hyp mon) vector vector_end m
          ≡ platform_init
              (without_hook ns hyp mon)
              vector
              vector_end
              (in_monitor (if hook then hooked m else m))
    switched true ns hyp mon secure some bytes apart = hooked_switch ns hyp mon secure bytes apart
    switched false ns hyp mon secure some bytes apart = early_switch ns hyp mon secure some

    secured :
        (hook ns hyp mon : Bool)
        → m.scr % 2 ≡ 0
        → (hook || ns || hyp || mon) ≡ true
        → (ns && hyp) ≡ false
        → IsBytes m.memory
        → Disjoint mon_vector_start hook_size vector hook_size
        → Ends
            (without_hook ns hyp mon)
            m
            (if hook then (hooked m).memory else m.memory)
            (if hook then mon_vector_start else m.mvbar)
            (platform_init (options hook ns hyp mon) vector vector_end m)
    secured true ns hyp mon secure some both bytes apart =
        rw (switched true ns hyp mon secure some bytes apart)
          (monitored-Ends ns hyp mon vector vector_end (hooked m) both)
    secured false ns hyp mon secure some both bytes apart =
        rw (switched false ns hyp mon secure some bytes apart)
          (monitored-Ends ns hyp mon vector vector_end m both)

    both_fail :
        (hook ns hyp mon : Bool)
        → m.scr % 2 ≡ 0
        → (hook || ns || hyp || mon) ≡ true
        → (ns && hyp) ≡ true
        → IsBytes m.memory
        → Disjoint mon_vector_start hook_size vector hook_size
        → platform_init (options hook ns hyp mon) vector vector_end m
          ≡ aborted undefined_instruction
    both_fail hook true true mon secure some both bytes apart =
        switched hook true true mon secure some bytes apart
        ∙ monitored-fails mon vector vector_end (if hook then hooked m else m)
    both_fail hook true false mon secure some both bytes apart = absurd (ground (arith, both))
    both_fail hook false hyp mon secure some both bytes apart = absurd (ground (arith, both))

-- On bytes, before the first switch to monitor mode, for a monitor vector apart from its place, where the
-- configuration takes the processor to monitor mode. In the secure world, with the supervisor and the
-- hypervisor mode not both configured, platform_init ends: in hypervisor mode where that is configured,
-- else in supervisor mode where that is, else in monitor mode; with HCE alone set in SCR, and with NS as
-- well for the first two; with coprocessors 10 and 11 of NSACR open and its other bits as they were; and
-- with the vector copied to its place and installed exactly where the hook is configured. With both
-- configured it ends at an undefined instruction, the read of SCR from the non-secure world. With NS set
-- at the start it halts with a message in monitor mode, and ends at an undefined instruction in every
-- other mode.
pub tk1_platform_init-Switched :
    (config : Config) (vector vector_end : ℕ) (m : Machine)
    → IsBytes m.memory
    → Disjoint mon_vector_start (hook_size vector vector_end) vector (hook_size vector vector_end)
    → m.mon_init_done ≡ 0
    → enters_monitor config ≡ true
    → ((m.scr % 2 ≡ 0)
        × ((config.ns_supervisor_mode && config.hypervisor_mode) ≡ false)
        × ((after : Machine) × (platform_init config vector vector_end m ≡ done after)
            × (after.mode ≡ last_mode config)
            × (after.scr ≡ (if leaves_secure config then 0x101 else 0x100))
            × ((j : ℕ) → bit j after.nsacr ≡ (if j == 10 || j == 11 then 1 else bit j m.nsacr))
            × (after.memory ≡ (
                if config.monitor_hook
                then copy_bytes m.memory mon_vector_start vector (hook_size vector vector_end)
                else m.memory))
            × (after.mvbar ≡ (if config.monitor_hook then mon_vector_start else m.mvbar))))
      ⊎ ((m.scr % 2 ≡ 0)
          × ((config.ns_supervisor_mode && config.hypervisor_mode) ≡ true)
          × (platform_init config vector vector_end m ≡ aborted undefined_instruction))
      ⊎ ((m.scr % 2 ≡ 1)
          × (m.mode ≡ monitor_mode)
          × (platform_init config vector vector_end m ≡ aborted in_nonsecure_world))
      ⊎ ((m.scr % 2 ≡ 1)
          × (m.mode ≢ monitor_mode)
          × (platform_init config vector vector_end m ≡ aborted undefined_instruction))
tk1_platform_init-Switched config v e m bytes apart first some =
    let hook = config.monitor_hook in
    let ns = config.ns_supervisor_mode in
    let hyp = config.hypervisor_mode in
    let mon = config.monitor_mode in
    elim (Bool-cases (m.scr % 2 == 0)) [
      | inl even ↦
          let secure : m.scr % 2 ≡ 0 = ground arith in
          elim (Bool-cases (ns && hyp)) [
            | inl both ↦
                let fail = both_fail v e m first hook ns hyp mon secure some both bytes apart in
                inr (inl (secure, both, fail))
            | inr one ↦
                let (after, ends, mode, scr, nsacr, memory, mvbar) =
                  secured v e m first hook ns hyp mon secure some one bytes apart in
                inl (
                  secure,
                  one,
                  (
                    after,
                    ends,
                    mode,
                    scr,
                    λ j. ap (bit j) nsacr ∙ nsacr_bits j m.nsacr,
                    memory,
                    mvbar,
                  ),
                )
          ]
      | inr odd ↦
          let nonsecure : m.scr % 2 ≡ 1 = ground arith in
          elim (Bool-cases (m.mode == monitor_mode)) [
            | inl monitor ↦
                let mode : m.mode ≡ monitor_mode = ground arith in
                inr (
                  inr
                    (inl (nonsecure, mode, halts v e m first hook ns hyp mon nonsecure mode some)))
            | inr out ↦
                let other : m.mode ≢ monitor_mode = ground arith in
                inr
                  (inr (inr (nonsecure, other, fails v e m first hook ns hyp mon nonsecure other)))
          ]
    ]
