-- ===== src/Elf.antt =====
-- The ELF library, src/binaries/elf and include/binaries/elf: files read in place from memory.
pub mod Format
pub mod Elf32
pub mod Elf64
pub mod Generic
pub mod Bounds
pub mod Frame
pub mod Sections
pub mod Load
pub mod Loaded
