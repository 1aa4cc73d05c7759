-- ===== src/Examples/Booting.antt =====
-- From the images to the jump into the kernel (src/common.c, src/arch-arm/sys_boot.c,
-- src/arch-riscv/boot.c), with the sample both as the kernel and as the user image.
use Prim.Native.String.{String}
use se_l4_tools.Common.{
  ℕ, ◌-◌, ◌≡◌, refl, ap, arith, ltb, leb, ◌&&◌, get_or, some, ◌==◌, true, false, done,
  if◌then◌else◌, replicate,
}
use se_l4_tools.Memory.{kernel_64, Memory, load}
use se_l4_tools.Elf.Generic
use se_l4_tools.Elf.Elf64
use se_l4_tools.Elf.Format.{is_elf32}
use se_l4_tools.Loader.{Site, hash_none, bounds_or, load_images}
use se_l4_tools.Loader.Runs.{ReturnsIn}
use se_l4_tools.Loader.Layout.{Loaded, load_images-LaidOut}
use se_l4_tools.Mmu.Arm64
use se_l4_tools.Mmu.Riscv
use se_l4_tools.Mmu.Riscv.{rv64}
use se_l4_tools.Boot.{arm64_main, riscv_main}
use se_l4_tools.Boot.Linked.{IsLinked}
use se_l4_tools.Boot.Entry.{
  first_virtual, first_physical, Entered, RiscvEntered, arm64_main-Entered, riscv_main-Entered,
}
use se_l4_tools.Examples.Sample.{memory, field}
use se_l4_tools.Mmu.Arm64.Walk.{ArePlaced}

abbrev site : Site
site = record {
  start = 0x800000;
  end = 0x900000;
  calculated_hash = 0x870000;
  junk = replicate 64 7;
}

abbrev cpio_get_file : Memory → String → ℕ × ℕ
cpio_get_file m name = (4096, 260)

-- "kernel.elf" and one more, with the same name
abbrev cpio_get_entry : Memory → ℕ → ℕ × ℕ × ℕ
cpio_get_entry m i = if i == 2 then (0, 0, 0) else (4096, 4345, 260)

abbrev arm64_places : Arm64.Places
arm64_places = record { pud_up = 0x810000; pmd_up = 0x811000; pud_down = 0x812000 }

load_images-LaidOut_example :
    ReturnsIn
      (Loaded kernel_64 hash_none site cpio_get_file cpio_get_entry (0, 0) memory)
      (load_images kernel_64 hash_none site cpio_get_file cpio_get_entry 40 4345 (0, 0) 1 memory)
load_images-LaidOut_example =
    load_images-LaidOut kernel_64 hash_none site cpio_get_file cpio_get_entry (0, 0) 40 4345 1
      memory (omega arith)

-- A kernel is linked to the top 2 GiB.
abbrev kernel_memory : Memory
kernel_memory p =
    if leb 4176 p && ltb p 4184
    then get_or (field 8 0xffffffff80000000) (p - 4176) 0
    else if leb 4184 p && ltb p 4192
    then get_or (field 8 0x40200000) (p - 4184) 0
    else memory p

virtual_bounds :
    Generic.get_memory_bounds kernel_64 kernel_memory 4096 false
    ≡ some (0xffffffff80000000, 0xffffffff80000020)
unfolding Generic.get_memory_bounds Generic.bounds_loop Generic.check_file Elf64.check_file is_elf32
    Generic.widen Generic.get_num_program_headers Generic.get_program_header_memory_size
    Generic.header_start Generic.get_program_header_vaddr Elf64.get_num_program_headers
    Elf64.get_program_header_memory_size Elf64.get_program_header_vaddr Elf64.read64 load
virtual_bounds = refl

physical_bounds :
    Generic.get_memory_bounds kernel_64 kernel_memory 4096 true ≡ some (0x40200000, 0x40200020)
unfolding Generic.get_memory_bounds Generic.bounds_loop Generic.check_file Elf64.check_file is_elf32
    Generic.widen Generic.get_num_program_headers Generic.get_program_header_memory_size
    Generic.header_start Generic.get_program_header_paddr Elf64.get_num_program_headers
    Elf64.get_program_header_memory_size Elf64.get_program_header_paddr Elf64.read64 load
physical_bounds = refl

abbrev virtual_start : ℕ
virtual_start =
    first_virtual hash_none site cpio_get_file cpio_get_entry 40 4345 (0, 0) kernel_64 kernel_memory

abbrev physical_start : ℕ
physical_start =
    first_physical hash_none site cpio_get_file cpio_get_entry 40 4345 (0, 0) kernel_64
      kernel_memory

virtual_at : virtual_start ≡ 0xffffffff80000000
unfolding bounds_or
virtual_at = ap (λ b. (bounds_or (0, 0) b).0) virtual_bounds

physical_at : physical_start ≡ 0x40200000
unfolding bounds_or
physical_at = ap (λ b. (bounds_or (0, 0) b).0) physical_bounds

arm64_places-ArePlaced : ArePlaced arm64_places
arm64_places-ArePlaced = record {
  pud_up = (refl, omega arith);
  pmd_up = (refl, omega arith);
  pud_down = (refl, omega arith);
  pud_up-ne-pmd_up = λ e. omega arith;
  pud_up-ne-pud_down = λ e. omega arith;
  pmd_up-ne-pud_down = λ e. omega arith;
}

is_linked : IsLinked false virtual_start physical_start
is_linked = rw (virtual_at, physical_at) ((omega arith, omega arith, omega arith, omega arith))

arm64_main-Entered_example :
    ReturnsIn
      (Entered hash_none site cpio_get_file cpio_get_entry 40 4345
        (0, 0)
        false
        arm64_places
        kernel_memory
        0xffffffff80000123)
      (arm64_main hash_none site cpio_get_file cpio_get_entry 40 4345
        (0, 0)
        true
        false
        true
        (done tt)
        true
        arm64_places
        Arm64.BootMap.zeroed
        kernel_memory)
arm64_main-Entered_example =
    arm64_main-Entered hash_none site cpio_get_file cpio_get_entry 40 4345 (0, 0) true false true
      (done tt) true arm64_places kernel_memory 0xffffffff80000123 (omega arith)
      arm64_places-ArePlaced is_linked (omega arith)

riscv_main-Entered_example :
    ReturnsIn
      (RiscvEntered hash_none site cpio_get_file cpio_get_entry 40 4345
        (0, 0)
        0x810000
        0x811000
        kernel_memory
        0xffffffff80000123)
      (riscv_main hash_none site cpio_get_file cpio_get_entry 40 4345
        (0, 0)
        rv64
        3
        0x810000
        0x811000
        Riscv.Sv39.zeroed
        kernel_memory)
riscv_main-Entered_example =
    riscv_main-Entered hash_none site cpio_get_file cpio_get_entry 40 4345 (0, 0) 0x810000 0x811000
      kernel_memory 0xffffffff80000123 (omega arith) refl (omega arith) refl (omega arith)
      (omega (arith, virtual_at)) (omega (arith, virtual_at)) (omega (arith, physical_at))
      (omega arith) refl
