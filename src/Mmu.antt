-- ===== src/Mmu.antt =====
-- The boot page tables: src/arch-arm/64/mmu.c and src/arch-arm/32/mmu.c, and map_kernel_window of
-- src/arch-riscv/boot.c. A table is a function from the index of an entry to the entry.
pub mod Table
pub mod Arm64
pub mod Arm32
pub mod Riscv
