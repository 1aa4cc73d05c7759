-- ===== src/Smp/Registers.antt =====
-- The start of cores through memory-mapped registers: src/arch-arm/scu.c and src/plat/imx6/smp.c. A
-- register holds the 32 bits that were written to it last.
pub mod Bits
pub mod Started
use Prim.Native.String.{String}
use se_l4_tools.Common.{
  ℕ, zero, suc, ◌+◌, ◌-◌, ◌*◌, ◌/◌, ◌%◌, ◌^◌, Bool, true, false, ◌==◌, ltb, ◌&&◌, if◌then◌else◌,
  bit_or, bit_and, Outcome, done, aborted,
}
use se_l4_tools.Mmu.Table.{Table, put}

abbrev pub scu_ctrl : ℕ
scu_ctrl = 0

abbrev pub scu_config : ℕ
scu_config = 1

-- `errata` is CONFIG_ARM_ERRATA_764369, and `cpuid` what read_cpuid_id() gives.
unfoldable pub scu_enable : Bool → ℕ → ℕ → Table → Table
scu_enable errata cpuid scu_base regs =
    let diagnostic = scu_base + 0x30 in
    let r =
      if errata && bit_and cpuid 0xff0ffff0 == 0x410fc090
      then (if bit_and (regs diagnostic) 1 == 0
          then put regs diagnostic (bit_or (regs diagnostic) 1)
          else regs)
      else regs in
    let ctrl = r (scu_base + 4 * scu_ctrl) in
    if bit_and ctrl 1 == 0 then put r (scu_base + 4 * scu_ctrl) (bit_or ctrl 1) else r

unfoldable pub scu_get_core_count : ℕ → Table → ℕ
scu_get_core_count scu_base regs = bit_and (regs (scu_base + 4 * scu_config)) 3 + 1

abbrev pub src_base : ℕ
src_base = 0x020d8000

abbrev pub src_scr : ℕ
src_scr = 0

abbrev pub src_gpr1 : ℕ
src_gpr1 = 0x20

abbrev pub bp_src_scr_core1_enable : ℕ
bp_src_scr_core1_enable = 22

unfoldable pub src_init : Table → Table
src_init regs =
    put regs (src_base + src_scr) (bit_and (regs (src_base + src_scr)) (2 ^ 32 - 1 - 2 ^ 0))

unfoldable pub src_enable_cpu : ℕ → Table → Table
src_enable_cpu cpu regs =
    let mask = 2 ^ (bp_src_scr_core1_enable + cpu - 1) in
    put regs (src_base + src_scr) (bit_or (regs (src_base + src_scr)) mask)

unfoldable pub src_set_cpu_jump : ℕ → ℕ → Table → Table
src_set_cpu_jump cpu jump_addr regs = put regs (src_base + src_gpr1 + cpu * 8) jump_addr

-- The loop of init_cpus from the core `i` on, with the rounds that are left; `imx_non_boot` is the address
-- of the entry.
unfoldable pub start_cpus : ℕ → ℕ → ℕ → Table → Table
start_cpus imx_non_boot zero i regs = regs
start_cpus imx_non_boot (suc left) i regs =
    start_cpus imx_non_boot left (i + 1) (src_enable_cpu i (src_set_cpu_jump i imx_non_boot regs))

unfoldable pub imx6_init_cpus : Bool → ℕ → ℕ → ℕ → ℕ → Table → Outcome Table
imx6_init_cpus errata cpuid scu_base imx_non_boot nodes regs =
    let ready = src_init (scu_enable errata cpuid scu_base regs) in
    let num = scu_get_core_count scu_base ready in
    if ltb nodes num
    then done (start_cpus imx_non_boot (nodes - 1) 1 ready)
    else if ltb num nodes
    then aborted
        "Error: Unsupported number of CPUs! This platform has %u CPUs, while static configuration provided is %u CPUs\n"
    else done (start_cpus imx_non_boot (num - 1) 1 ready)
