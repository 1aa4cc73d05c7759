-- ===== src/Platform/Zynq/Started.antt =====
-- What init_cpus of src/plat/zynq7000/smp.c leaves in the registers.
use se_l4_tools.Common.{
  ℕ, ◌-◌, ◌^◌, ◌≤◌, ◌≡◌, ◌≢◌, ◌∙◌, refl, arith, ◌==◌, ◌||◌, ◌⊎◌, Bool-cases, inl, inr,
  if◌then◌else◌, done, bit_or, bit_and,
}
use se_l4_tools.Mmu.Table.{Table, put}
use se_l4_tools.Smp.Registers.Started.{at_most}
use se_l4_tools.Smp.Registers.{scu_get_core_count}
use se_l4_tools.Smp.Registers.Bits.{bit, bit-bit_and}
use se_l4_tools.Platform.Zynq.{
  set_bits, clear_bits, zynq_stop_core1, zynq_start_core1, boot_cpus, zynq_init_cpus, cpu_jump_ptr,
  a9_cpu_rst_ctrl,
}

boot_cpus_at :
    (entry : ℕ) (r : Table) (p : ℕ)
    → boot_cpus entry r p ≡ (
        if p == a9_cpu_rst_ctrl
        then bit_and
            (bit_and (bit_or (bit_or (r a9_cpu_rst_ctrl) 2) 32) (2 ^ 32 - 1 - 2))
            (2 ^ 32 - 1 - 32)
        else if p == cpu_jump_ptr
        then entry
        else r p)
unfolding boot_cpus zynq_start_core1 zynq_stop_core1 set_bits clear_bits put
boot_cpus_at entry r p = ground arith

-- Bits 1 and 5 are cleared.
released_bits :
    (v : ℕ)
    → (bit 1 (bit_and (bit_and v (2 ^ 32 - 1 - 2)) (2 ^ 32 - 1 - 32)) ≡ 0)
      × (bit 5 (bit_and (bit_and v (2 ^ 32 - 1 - 2)) (2 ^ 32 - 1 - 32)) ≡ 0)
released_bits v =
    let first : bit 1 (2 ^ 32 - 1 - 2) ≡ 0 = unfold bit in refl in
    let second : bit 5 (2 ^ 32 - 1 - 32) ≡ 0 = unfold bit in refl in
    let cut = bit_and v (2 ^ 32 - 1 - 2) in
    (
      omega (arith, bit-bit_and 1 cut (2 ^ 32 - 1 - 32), bit-bit_and 1 v (2 ^ 32 - 1 - 2), first),
      omega (arith, bit-bit_and 5 cut (2 ^ 32 - 1 - 32), second),
    )

-- Where the Snoop Control Unit reports at least as many cores as are configured, init_cpus of Zynq ends
-- without an abort: with one core the registers are as they were; else the loader's entry is in the
-- jump pointer, core 1 is out of reset and has its clock (bits 1 and 5 of the reset control register
-- are 0), and the registers apart from these two are as they were.
pub zynq_init_cpus-Started :
    (scu non_boot_core nodes : ℕ) (regs : Table)
    → nodes ≤ scu_get_core_count scu regs
    → (after : Table) × (zynq_init_cpus scu non_boot_core nodes regs ≡ done after)
      × (((nodes ≡ 1) × (after ≡ regs))
          ⊎ ((nodes ≢ 1)
              × (after cpu_jump_ptr ≡ non_boot_core)
              × (bit 1 (after a9_cpu_rst_ctrl) ≡ 0)
              × (bit 5 (after a9_cpu_rst_ctrl) ≡ 0)
              × ((p : ℕ)
                  → (if p == a9_cpu_rst_ctrl || p == cpu_jump_ptr then 0 else after p)
                    ≡ (if p == a9_cpu_rst_ctrl || p == cpu_jump_ptr then 0 else regs p))))
unfolding zynq_init_cpus
zynq_init_cpus-Started scu entry nodes regs enough =
    let num = scu_get_core_count scu regs in
    let runs : zynq_init_cpus scu entry nodes regs
        ≡ done (if nodes == 1 then regs else boot_cpus entry regs) =
      at_most num nodes (λ n. done (if n == 1 then regs else boot_cpus entry regs)) _ enough in
    elim (Bool-cases (nodes == 1)) [
      | inl one ↦ (regs, runs ∙ rw one refl, inl (ground arith, refl))
      | inr more ↦
          let v = bit_or (bit_or (regs a9_cpu_rst_ctrl) 2) 32 in
          (
            boot_cpus entry regs,
            runs ∙ rw more refl,
            inr (
              ground arith,
              boot_cpus_at entry regs cpu_jump_ptr,
              rw (boot_cpus_at entry regs a9_cpu_rst_ctrl) ((released_bits v).0),
              rw (boot_cpus_at entry regs a9_cpu_rst_ctrl) ((released_bits v).1),
              λ p. ground (arith, boot_cpus_at entry regs p),
            ),
          )
    ]
