-- ===== src/Platform/Imx6/Switched.antt =====
-- What platform_init of src/plat/imx6/platform_init.c opens to the non-secure world before it goes there.
use se_l4_tools.Common.{
  ℕ, zero, suc, ◌+◌, ◌-◌, ◌*◌, ◌%◌, ◌^◌, ◌≡◌, refl, ◌∙◌, arith, Bool, true, ◌==◌, ltb, leb, ◌&&◌,
  ◌||◌, ◌≢◌, false, ap, ◌⊎◌, inl, inr, Bool-cases, if◌then◌else◌, done, aborted, bit_or, bit_and,
  bit_and_mask,
}
use se_l4_tools.Mmu.Table.{Table, put}
use se_l4_tools.Smp.Registers.Bits.{bit, bit-set, bit-set_more}
use se_l4_tools.Gic.Routed.{route_irqs-Routed}
use se_l4_tools.Platform.{
  Machine, monitor_mode, supervisor_mode, arm_halt, in_nonsecure_world, route_irqs, is_secure,
  secure_access, undefined_instruction,
}
use se_l4_tools.Platform.Imx6.{
  scu_sacr_paddr, scu_nsacr_paddr, csu_paddr, switch_to_mon_mode, enable_ns_access_cp, csu_loop,
  set_csu, set_smp_bit, enable_scu_ns_access, mode_switch, platform_init,
}

-- The words at `addr + 4 * i` for the rounds.
abbrev pub is_csu_word : ℕ → ℕ → ℕ → Bool
is_csu_word left addr p = leb addr p && ltb p (addr + 4 * left) && (p - addr) % 4 == 0

csu_loop_at :
    (left addr : ℕ) (regs : Table) (p : ℕ)
    → csu_loop left addr regs p ≡ (if is_csu_word left addr p then 0x00ff00ff else regs p)
unfolding csu_loop put
csu_loop_at zero addr regs p = ground arith
csu_loop_at (suc left) addr regs p =
    csu_loop_at left (addr + 4) (put regs addr 0x00ff00ff) p ∙ ground arith

-- The registers that are opened, and with what.
abbrev pub opened : Table → Table
opened regs p =
    if is_csu_word 40 csu_paddr p
    then 0x00ff00ff
    else if p == scu_sacr_paddr
    then 0xf
    else if p == scu_nsacr_paddr
    then 0x1fff
    else regs p

opened-regs :
    (regs : Table) (p : ℕ)
    → csu_loop 40 csu_paddr (put (put regs scu_sacr_paddr 0xf) scu_nsacr_paddr 0x1fff) p
      ≡ opened regs p
unfolding put
opened-regs regs p =
    csu_loop_at 40 csu_paddr (put (put regs scu_sacr_paddr 0xf) scu_nsacr_paddr 0x1fff) p
    ∙ ground arith

-- The bits of NSACR that are opened.
abbrev pub is_opened_bit : ℕ → Bool
is_opened_bit j = j == 10 || j == 11 || j == 16 || j == 17 || j == 18

nsacr_bits :
    (j n : ℕ) → bit j (bit_or (bit_or n 0x30c00) 0x40000) ≡ (if is_opened_bit j then 1 else bit j n)
nsacr_bits j n = ground (
  arith,
  bit-set j (bit_or n 0x30c00) 18,
  bit-set_more j n 0x20c00 16,
  bit-set_more j n 0xc00 17,
  bit-set_more j n 0x400 11,
  bit-set j n 10,
)

-- The three ways.
module _ (m : Machine) (in_monitor_mode : Bool) where
  mon_mode-secure :
      m.scr % 2 ≡ 0
      → switch_to_mon_mode (record m { mon_init_done = 0 })
        ≡ done (record m { mode = monitor_mode; mon_init_done = 1 })
  unfolding switch_to_mon_mode secure_access is_secure
  mon_mode-secure secure =
      let low : bit_and m.scr 1 ≡ m.scr % 2 = bit_and_mask 1 m.scr in
      elim (Bool-cases (m.mode == monitor_mode)) [
        | inl monitor ↦ rw (monitor, low, secure) refl
        | inr out ↦ rw (out, low, secure) refl
      ]

  secure-ends :
      m.scr % 2 ≡ 0
      → (after : Machine) × (platform_init true in_monitor_mode m ≡ done after)
        × (after.mode ≡ supervisor_mode)
        × (after.scr ≡ 1)
        × (after.nsacr ≡ bit_or (bit_or m.nsacr 0x30c00) 0x40000)
        × (after.acr ≡ bit_or m.acr 0x40)
        × (after.regs
            ≡ csu_loop 40 csu_paddr (put (put m.regs scu_sacr_paddr 0xf) scu_nsacr_paddr 0x1fff))
        × (after.gicd ≡ (route_irqs m).gicd)
  unfolding platform_init mode_switch route_irqs set_csu set_smp_bit enable_ns_access_cp
      enable_scu_ns_access secure_access is_secure
  secure-ends secure =
      let routed = (route_irqs m) in
      (
        record m {
          mode = supervisor_mode;
          scr = 1;
          mon_init_done = 1;
          nsacr = bit_or (bit_or m.nsacr 0x30c00) 0x40000;
          acr = bit_or m.acr 0x40;
          regs = csu_loop 40 csu_paddr (put (put m.regs scu_sacr_paddr 0xf) scu_nsacr_paddr 0x1fff);
          gicd = routed.gicd;
          gicc = routed.gicc;
        },
        rw (mon_mode-secure secure) refl,
        refl,
        refl,
        refl,
        refl,
        refl,
        refl,
      )

  monitor-halts :
      m.scr % 2 ≡ 1
      → m.mode ≡ monitor_mode
      → platform_init true in_monitor_mode m ≡ aborted in_nonsecure_world
  unfolding platform_init switch_to_mon_mode arm_halt secure_access is_secure
  monitor-halts nonsecure mode =
      let low : bit_and m.scr 1 ≡ m.scr % 2 = bit_and_mask 1 m.scr in rw (low, nonsecure, mode) refl

  other-fails :
      m.scr % 2 ≡ 1
      → m.mode ≢ monitor_mode
      → platform_init true in_monitor_mode m ≡ aborted undefined_instruction
  unfolding platform_init switch_to_mon_mode secure_access is_secure
  other-fails nonsecure other =
      let test : (m.mode == monitor_mode) ≡ false = ground arith in rw (nonsecure, test) refl

-- With CONFIG_ARM_NS_SUPERVISOR_MODE. In the secure world platform_init of i.MX6 ends in supervisor mode
-- of the non-secure world, with SCR set to 1; bits 10, 11, 16, 17 and 18 of NSACR and bit 6 of the
-- auxiliary control register are set and the others are as they were; the 40 words of the CSU are
-- 0x00ff00ff, the two access registers of the SCU are 0xf and 0x1fff, and the other registers are as
-- they were; and, with L the low five bits of ic_type, the first L + 1 words of security are all ones and the
-- others as they were. With NS set at the start it halts with a message in monitor mode, and ends at an
-- undefined instruction in every other mode.
pub imx6_platform_init-Switched :
    (in_monitor_mode : Bool) (m : Machine)
    → ((m.scr % 2 ≡ 0)
        × ((after : Machine) × (platform_init true in_monitor_mode m ≡ done after)
            × (after.mode ≡ supervisor_mode)
            × (after.scr ≡ 1)
            × ((j : ℕ) → bit j after.nsacr ≡ (if is_opened_bit j then 1 else bit j m.nsacr))
            × ((j : ℕ) → bit j after.acr ≡ (if j == 6 then 1 else bit j m.acr))
            × ((p : ℕ) → after.regs p ≡ opened m.regs p)
            × ((j : ℕ)
                → after.gicd.security j ≡ (
                    if ltb j (m.gicd.ic_type % 2 ^ 5 + 1) then 0xffffffff else m.gicd.security j))))
      ⊎ ((m.scr % 2 ≡ 1)
          × (m.mode ≡ monitor_mode)
          × (platform_init true in_monitor_mode m ≡ aborted in_nonsecure_world))
      ⊎ ((m.scr % 2 ≡ 1)
          × (m.mode ≢ monitor_mode)
          × (platform_init true in_monitor_mode m ≡ aborted undefined_instruction))
unfolding route_irqs
imx6_platform_init-Switched mon m = elim (Bool-cases (m.scr % 2 == 0)) [
  | inl even ↦
      let secure : m.scr % 2 ≡ 0 = ground arith in
      let (after, ends, mode, scr, nsacr, acr, regs, gicd) = secure-ends m mon secure in
      inl (
        secure,
        (
          after,
          ends,
          mode,
          scr,
          λ j. ap (bit j) nsacr ∙ nsacr_bits j m.nsacr,
          λ j. ap (bit j) acr ∙ ground (arith, bit-set j m.acr 6),
          λ p. ap (λ r. r p) regs ∙ opened-regs m.regs p,
          λ j. ap (λ g. g.security j) gicd ∙ (route_irqs-Routed m.gicd m.gicc j).0,
        ),
      )
  | inr odd ↦
      let nonsecure : m.scr % 2 ≡ 1 = ground arith in
      elim (Bool-cases (m.mode == monitor_mode)) [
        | inl monitor ↦
            let mode : m.mode ≡ monitor_mode = ground arith in
            inr (inl (nonsecure, mode, monitor-halts m mon nonsecure mode))
        | inr out ↦
            let other : m.mode ≢ monitor_mode = ground arith in
            inr (inr (nonsecure, other, other-fails m mon nonsecure other))
      ]
]
