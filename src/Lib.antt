-- ===== src/Lib.antt =====
-- The ELF-loader of seL4 (elfloader-tool), which unpacks the kernel and the user images from a CPIO
-- archive into physical memory before the kernel starts.
--
-- The parts, each with the file that models it:
--
--   * Memory: include/types.h. Memory is a function from addresses to bytes; a Kernel chooses
--     between the 32-bit and the 64-bit build, and with it the size of a word.
--   * Strops: src/string.c. Strops/Bytes has the byte-wise meaning of memset and memcpy, Strops/Text
--     the strings; Strops/Memset, Strops/Memcpy and Strops/Compare are about the routines.
--   * Printf: src/printf.c. vxprintf is a function of a character sink, with printf, puts and sprintf
--     as instances. Printf/Number is about numbers, Printf/Format about formats, Printf/Output about
--     the three instances. Arguments are a list of typed values.
--   * Elf: src/binaries/elf and include/binaries/elf. Elf/Format has the constants, Elf/Elf32 and
--     Elf/Elf64 the accessors of the two classes, Elf/Generic the functions of elf.c that choose
--     between them, Elf/Load elf_loadFile. Elf/Bounds and Elf/Sections are about them,
--     Elf/Frame about the bytes that they read, Elf/Loaded about the memory that elf_loadFile leaves.
--   * Hash: src/utils/hash.c, crypt_md5.c and crypt_sha256.c. Hash/Stream is the text that the two
--     digests share, over the functions that differ. Hash/Blocks, Hash/Update, Hash/Close,
--     Hash/Padding and Hash/Digest lead to the digest of the padded file; Hash/Print is print_hash.
--   * Loader: src/common.c, with the macros and image_info of include/elfloader_common.h.
--     Loader/Regions is about address ranges, Loader/Digest about the hash check, Loader/Unpack about
--     a segment, Loader/Image about the memory that all of them leave and how
--     load_elf puts it there, Loader/Place about the image
--     that load_elf leaves, Loader/Layout about the images that load_images leaves, Loader/Runs about
--     results of runs on fuel.
--   * Mmu: the boot page tables. Mmu/Arm64 (src/arch-arm/64/mmu.c) with the walk of the architecture in
--     Mmu/Arm64/Walk and the map as a whole in BootMap, KernelMap and HypMap; Mmu/Arm32
--     (src/arch-arm/32/mmu.c) with Sections for the short descriptors and Lpae for the long ones;
--     Mmu/Riscv (map_kernel_window of src/arch-riscv/boot.c) with Sv39 and BootMap. A table is a
--     function of the index.
--   * Smp: the start of the other cores on AArch64 (src/arch-arm/smp_boot.c,
--     src/arch-arm/armv/armv8-a/64/smp.c and psci.c, src/plat/hikey/smp.c, src/plat/tx1/smp.c), as a
--     relation of steps of which each is one access of one core to what they share. The firmware is
--     a parameter. Smp/Steps has the relation, Smp/Invariant what holds between steps, Smp/Moves and
--     Smp/Keeps that it stays, Smp/Order and Smp/Progress what follows. Smp/Registers is init_cpus of
--     src/plat/imx6/smp.c with src/arch-arm/scu.c, on registers that keep what is written.
--   * Boot: main of src/arch-arm/sys_boot.c for AArch64 and of src/arch-riscv/boot.c, from load_images
--     to the jump into the kernel; Boot/Entry is about what has been done by then, Boot/Linked about
--     where a linked kernel is found through the tables. The start of the
--     other cores is there only by how it ends.
--   * Efi: efi_exit_boot_services of src/binaries/efi/efi_init.c, with the firmware as a parameter;
--     Efi/Exited is about how it ends.
--   * Cpuid: src/arch-arm/cpuid.c, on the printf of Printf; Cpuid/Said and Cpuid/Printed are about the
--     line it prints.
--   * Gic: route_irqs_to_nonsecure of src/plat/tk1/platform_init.c and src/plat/imx6/platform_init.c.
--   * Platform: the rest of these two files, Platform/Tk1 and Platform/Imx6, each with Switched about
--     the world and the mode in which platform_init ends, after Platform/Tk1/World about the two worlds. The inline assembly there is modelled where
--     it reads or writes a register or changes the mode, with the accesses that fail in the non-secure world;
--     caches and barriers are left out.
--     Platform/Zynq is src/plat/zynq7000, where Started is about init_cpus.
--   * CpioStrip: misc/cpio-strip.c, the loop over the entries of an archive in memory, with libcpio as a
--     parameter. CpioStrip/Header is about get_header, CpioStrip/Identical about the whole.
--
-- All paths but the last are below elfloader-tool. The loader calls the ELF library, the digests and
-- the string routines; the ELF library calls strcmp. A function of the source has its name here in
-- snake case, without the prefixes elf_, elf32_, elf64_, md5_ and sha256_, which the module names stand for; the
-- loops and the long bodies have functions of their own. `abort()` ends a run with its message, as
-- an Outcome. Bytes that the source reads before it writes them (a buffer, the variables for the
-- bounds of an invalid file) are parameters.
--
-- Numbers are natural; casts, sums and shifts that can wrap have the modulus written out. Alignment
-- is modelled where the source tests it; an access itself never faults. Code and data of the loader
-- are not in memory, apart from what a function is given the address of.
--
-- Fuel: the loops over a NUL-terminated string (strlen, strcmp, write_string, vxprintf) run on fuel,
-- and a fuel above the length of the string is enough. memset and memcpy give each loop one round for
-- each byte that is left, a digest one round for each byte of the input. The loops over program
-- headers read their bound again in each round and have 2 ^ 16 rounds, above every e_phnum. The loop of
-- write_num has 65 rounds, enough for 64 bits in base 2. efi_exit_boot_services runs on fuel as well: each
-- round's buffer grows by more than a descriptor, so a fortieth of the size of the largest memory map is
-- enough. Where a model could run out of fuel, that is an end of its own.
--
-- The page tables are described by what the hardware's walk finds in them, where the source only writes
-- entries; the walks follow the manuals of the architectures as far as the loader's entries go, without
-- permissions and memory types.
--
-- Not modelled: the printing of diagnostics by the loader; the CPIO library, which is
-- not in the repository and whose two lookups are parameters; main for 32-bit ARM, the start of
-- cores on the other boards, the rest of the platform drivers and of EFI, and the assembly; the build tools,
-- but for cpio-strip.
pub mod Common
pub mod Memory
pub mod Strops
pub mod Printf
pub mod Elf
pub mod Hash
pub mod Loader
pub mod Mmu
pub mod Smp
pub mod Boot
pub mod Gic
pub mod Efi
pub mod CpioStrip
pub mod Cpuid
pub mod Platform
pub mod Examples
