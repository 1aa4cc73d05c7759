-- ===== src/Elf/Elf32/Struct.antt =====
-- The structures of elf32.h, each read from memory field by field at its offset.
use se_l4_tools.Common.{ℕ, ◌+◌}
use se_l4_tools.Memory.{Memory, load}

-- struct Elf32_Header
pub record Header : Type 0 where
  pub e_ident : ℕ → ℕ
  pub e_type : ℕ
  pub e_machine : ℕ
  pub e_version : ℕ
  pub e_entry : ℕ
  pub e_phoff : ℕ
  pub e_shoff : ℕ
  pub e_flags : ℕ
  pub e_ehsize : ℕ
  pub e_phentsize : ℕ
  pub e_phnum : ℕ
  pub e_shentsize : ℕ
  pub e_shnum : ℕ
  pub e_shstrndx : ℕ

abbrev pub header : Memory → ℕ → Header
header m file = record {
  e_ident = λ i. m (file + i);
  e_type = load 2 m (file + 16);
  e_machine = load 2 m (file + 18);
  e_version = load 4 m (file + 20);
  e_entry = load 4 m (file + 24);
  e_phoff = load 4 m (file + 28);
  e_shoff = load 4 m (file + 32);
  e_flags = load 4 m (file + 36);
  e_ehsize = load 2 m (file + 40);
  e_phentsize = load 2 m (file + 42);
  e_phnum = load 2 m (file + 44);
  e_shentsize = load 2 m (file + 46);
  e_shnum = load 2 m (file + 48);
  e_shstrndx = load 2 m (file + 50);
}

-- struct Elf32_Shdr
pub record Shdr : Type 0 where
  pub sh_name : ℕ
  pub sh_type : ℕ
  pub sh_flags : ℕ
  pub sh_addr : ℕ
  pub sh_offset : ℕ
  pub sh_size : ℕ
  pub sh_link : ℕ
  pub sh_info : ℕ
  pub sh_addralign : ℕ
  pub sh_entsize : ℕ

abbrev pub shdr : Memory → ℕ → Shdr
shdr m p = record {
  sh_name = load 4 m (p + 0);
  sh_type = load 4 m (p + 4);
  sh_flags = load 4 m (p + 8);
  sh_addr = load 4 m (p + 12);
  sh_offset = load 4 m (p + 16);
  sh_size = load 4 m (p + 20);
  sh_link = load 4 m (p + 24);
  sh_info = load 4 m (p + 28);
  sh_addralign = load 4 m (p + 32);
  sh_entsize = load 4 m (p + 36);
}

abbrev pub shdr_size : ℕ
shdr_size = 40

-- struct Elf32_Phdr
pub record Phdr : Type 0 where
  pub p_type : ℕ
  pub p_offset : ℕ
  pub p_vaddr : ℕ
  pub p_paddr : ℕ
  pub p_filesz : ℕ
  pub p_memsz : ℕ
  pub p_flags : ℕ
  pub p_align : ℕ

abbrev pub phdr : Memory → ℕ → Phdr
phdr m p = record {
  p_type = load 4 m (p + 0);
  p_offset = load 4 m (p + 4);
  p_vaddr = load 4 m (p + 8);
  p_paddr = load 4 m (p + 12);
  p_filesz = load 4 m (p + 16);
  p_memsz = load 4 m (p + 20);
  p_flags = load 4 m (p + 24);
  p_align = load 4 m (p + 28);
}

abbrev pub phdr_size : ℕ
phdr_size = 32
