-- ===== src/Platform/Zynq.antt =====
-- src/plat/zynq7000/platform_init.c and smp.c, and enable_uart of sys_fputc.c. Registers are in one
-- table, by their addresses.
pub mod Started
use Prim.Native.String.{String}
use se_l4_tools.Common.{
  ℕ, ◌+◌, ◌-◌, ◌*◌, ◌%◌, ◌^◌, ◌==◌, ltb, if◌then◌else◌, Outcome, done, aborted, bit_or, bit_and,
}
use se_l4_tools.Mmu.Table.{Table, put}
use se_l4_tools.Smp.Registers.{scu_get_core_count}
use se_l4_tools.Platform.{bit_of}

abbrev pub scu_base : ℕ
scu_base = 0xF8F00000

abbrev pub slcr_base : ℕ
slcr_base = 0xF8000000

-- `*address |= mask` and `*address &= ~mask`
unfoldable pub set_bits : ℕ → ℕ → Table → Table
set_bits address mask regs = put regs address (bit_or (regs address) mask)

unfoldable pub clear_bits : ℕ → ℕ → Table → Table
clear_bits address mask regs = put regs address (bit_and (regs address) (2 ^ 32 - 1 - mask))

unfoldable pub remap_ram : Table → Table
remap_ram regs =
    let unlocked = put regs (slcr_base + 0x008) 0xDF0D in
    let high =
      set_bits (slcr_base + 0x910)
        (bit_or (bit_or (bit_or (bit_of 0) (bit_of 1)) (bit_of 2)) (bit_of 3)) unlocked in
    let locked = put high (slcr_base + 0x004) 0x767B in
    let from_start = put locked (scu_base + 0x040) 0x00000000 in
    let to_end = put from_start (scu_base + 0x044) 0xFFE00000 in
    set_bits (scu_base + 0x000) (bit_or (bit_of 0) (bit_of 1)) to_end

-- `uart` is UART_PPTR, which the build sets.
unfoldable pub enable_uart : ℕ → Table → Table
enable_uart uart regs =
    let v = bit_or (regs (uart + 0x00)) (bit_of 4) in
    put regs (uart + 0x00) (bit_and v (2 ^ 32 - 1 - bit_of 5))

unfoldable pub zynq_platform_init : ℕ → Table → Table
zynq_platform_init uart regs = enable_uart uart (remap_ram regs)

abbrev pub cpu_jump_ptr : ℕ
cpu_jump_ptr = 0xFFFFFFF0

abbrev pub a9_cpu_rst_ctrl : ℕ
a9_cpu_rst_ctrl = 0xF8000244

abbrev pub a9_clkstop1_bit : ℕ
a9_clkstop1_bit = 5

abbrev pub a9_rst1_bit : ℕ
a9_rst1_bit = 1

unfoldable pub zynq_stop_core1 : Table → Table
zynq_stop_core1 regs =
    set_bits a9_cpu_rst_ctrl (bit_of a9_clkstop1_bit)
      (set_bits a9_cpu_rst_ctrl (bit_of a9_rst1_bit) regs)

unfoldable pub zynq_start_core1 : Table → Table
zynq_start_core1 regs =
    clear_bits a9_cpu_rst_ctrl (bit_of a9_clkstop1_bit)
      (clear_bits a9_cpu_rst_ctrl (bit_of a9_rst1_bit) regs)

unfoldable pub boot_cpus : ℕ → Table → Table
boot_cpus entry regs = zynq_start_core1 (put (zynq_stop_core1 regs) cpu_jump_ptr entry)

-- `scu` is what get_scu_base gives, and `nodes` is CONFIG_MAX_NUM_NODES.
unfoldable pub zynq_init_cpus : ℕ → ℕ → ℕ → Table → Outcome Table
zynq_init_cpus scu non_boot_core nodes regs =
    let num = scu_get_core_count scu regs in
    if ltb nodes num
    then done (if nodes == 1 then regs else boot_cpus non_boot_core regs)
    else if ltb num nodes
    then aborted
        "Error: Unsupported number of CPUs! This platform has %u CPUs, while static configuration provided is %u CPUs\n"
    else done (if num == 1 then regs else boot_cpus non_boot_core regs)
