-- ===== src/Examples/Tables.antt =====
-- The page tables of src/arch-arm/64/mmu.c, src/arch-arm/32/mmu.c and src/arch-riscv/boot.c.
use se_l4_tools.Common.{ℕ, ◌+◌, ◌*◌, ◌%◌, ◌^◌, ◌≡◌, refl, true, false, arith, some, done, ◌>>=◌}
use se_l4_tools.Loader.{ImageInfo}
use se_l4_tools.Mmu.Arm64
use se_l4_tools.Mmu.Arm64.Walk.{ArePlaced}
use se_l4_tools.Mmu.Arm64.KernelMap.{init_boot_vspace-refines-boot_map}
use se_l4_tools.Mmu.Arm64.HypMap.{init_hyp_boot_vspace-refines-hyp_boot_map}
use se_l4_tools.Mmu.Arm32
use se_l4_tools.Mmu.Arm32.Sections.{arm32_boot_vspace-refines-boot_map}
use se_l4_tools.Mmu.Arm32.Lpae.{arm32_hyp_boot_vspace-refines-boot_map}
use se_l4_tools.Mmu.Riscv
use se_l4_tools.Mmu.Riscv.Sv39
use se_l4_tools.Mmu.Riscv.BootMap.{map_kernel_window-refines-boot_map}

abbrev kernel_at : ℕ → ℕ → ImageInfo
kernel_at virt phys = record {
  phys_region_start = phys;
  phys_region_end = phys + 0x100000;
  virt_region_start = virt;
  virt_region_end = virt + 0x100000;
  virt_entry = virt;
  phys_virt_offset = 0;
}

abbrev places : Arm64.Places
places = record { pud_up = 0x10000; pmd_up = 0x11000; pud_down = 0x12000 }

places-ArePlaced : ArePlaced places
places-ArePlaced = record {
  pud_up = (refl, omega arith);
  pmd_up = (refl, omega arith);
  pud_down = (refl, omega arith);
  pud_up-ne-pmd_up = λ e. omega arith;
  pud_up-ne-pud_down = λ e. omega arith;
  pmd_up-ne-pud_down = λ e. omega arith;
}

init_boot_vspace-refines-boot_map_example :
    Arm64.BootMap.translate places
      (Arm64.init_boot_vspace true places
        (kernel_at 0xffffff8040000000 0x40200000)
        Arm64.BootMap.zeroed)
      0xffffff8040300123
    ≡ Arm64.BootMap.boot_map (kernel_at 0xffffff8040000000 0x40200000) 0xffffff8040300123
init_boot_vspace-refines-boot_map_example =
    init_boot_vspace-refines-boot_map true places (kernel_at 0xffffff8040000000 0x40200000)
      places-ArePlaced 0xffffff8040300123 (omega arith) (omega arith) (omega arith) refl
      (omega arith)

init_hyp_boot_vspace-refines-hyp_boot_map_example :
    Arm64.BootMap.hyp_translate places
      (Arm64.init_hyp_boot_vspace false places
        (kernel_at 0x8000200000 0x40200000)
        Arm64.BootMap.zeroed)
      0x8000300123
    ≡ Arm64.BootMap.hyp_boot_map (kernel_at 0x8000200000 0x40200000) 0x8000300123
init_hyp_boot_vspace-refines-hyp_boot_map_example =
    init_hyp_boot_vspace-refines-hyp_boot_map false places (kernel_at 0x8000200000 0x40200000)
      places-ArePlaced 0x8000300123 (omega arith) (omega arith) (omega arith) refl refl
      (omega arith)

abbrev arm32_places : Arm32.Places
arm32_places = record { boot_pt = 0x10000400; vectors = 0x10001000; lpae_boot_pmd = 0x10004000 }

arm32_boot_vspace-refines-boot_map_example :
    Arm32.Sections.translate arm32_places
      (Arm32.init_boot_vspace arm32_places (kernel_at 0xe0000000 0x10000000) Arm32.Sections.zeroed)
      0xffff0008
    ≡ Arm32.Sections.boot_map arm32_places (kernel_at 0xe0000000 0x10000000) 0xffff0008
arm32_boot_vspace-refines-boot_map_example =
    arm32_boot_vspace-refines-boot_map arm32_places (kernel_at 0xe0000000 0x10000000) 0xffff0008
      (omega arith) refl (omega arith) (omega arith) refl (omega arith) refl refl

arm32_hyp_boot_vspace-refines-boot_map_example :
    Arm32.Lpae.translate arm32_places
      (Arm32.init_hyp_boot_vspace arm32_places
        (kernel_at 0xe0000000 0x10000000)
        Arm32.Sections.zeroed)
      0xe0300123
    ≡ Arm32.Lpae.boot_map (kernel_at 0xe0000000 0x10000000) 0xe0300123
arm32_hyp_boot_vspace-refines-boot_map_example =
    arm32_hyp_boot_vspace-refines-boot_map arm32_places (kernel_at 0xe0000000 0x10000000)
      Arm32.Sections.zeroed 0xe0300123 (omega arith) refl (omega arith) (omega arith) refl
      (omega arith) refl (omega arith)

map_kernel_window-refines-boot_map_example :
    (Riscv.map_kernel_window Riscv.rv64 3 0x80201000
        (kernel_at 0xffffffff80200000 0x80200000)
        Sv39.zeroed
      >>= λ made. done (Sv39.translate 0x80201000 made 0xffffffff80312345))
    ≡ Riscv.BootMap.boot_map (kernel_at 0xffffffff80200000 0x80200000) 0xffffffff80312345
map_kernel_window-refines-boot_map_example =
    map_kernel_window-refines-boot_map 0x80201000 (kernel_at 0xffffffff80200000 0x80200000)
      0xffffffff80312345 refl (omega arith) (omega arith) refl (omega arith) (omega arith)
      (omega arith)

-- The window of AArch64 is at the right place only from the start of a GiB: the kernel's first address
-- itself is 2 MiB off here.
offset_is_lost :
    Arm64.BootMap.boot_map (kernel_at 0xffffff8000200000 0x40000000) 0xffffff8000200000
    ≡ some 0x40200000
unfolding Arm64.BootMap.boot_map
offset_is_lost = refl

-- The first loop of RISC-V sends the 17th GiB to the first.
alias_of_memory : Riscv.pte_create (16 * 2 ^ 28 % 2 ^ 64) ≡ Riscv.pte_create (0 * 2 ^ 28 % 2 ^ 64)
unfolding Riscv.pte_create
alias_of_memory = refl
