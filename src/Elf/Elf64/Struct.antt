-- ===== src/Elf/Elf64/Struct.antt =====
-- The structures of elf64.h, each read from memory field by field at its offset.
use se_l4_tools.Common.{ℕ, ◌+◌}
use se_l4_tools.Memory.{Memory, load}

-- struct Elf64_Header
pub record Header : Type 0 where
  pub e_ident : ℕ → ℕ
  pub e_type : ℕ
  pub e_machine : ℕ
  pub e_version : ℕ
  pub e_entry : ℕ
  pub e_phoff : ℕ
  pub e_shoff : ℕ
  pub e_flags : ℕ
  pub e_ehsize : ℕ
  pub e_phentsize : ℕ
  pub e_phnum : ℕ
  pub e_shentsize : ℕ
  pub e_shnum : ℕ
  pub e_shstrndx : ℕ

abbrev pub header : Memory → ℕ → Header
header m file = record {
  e_ident = λ i. m (file + i);
  e_type = load 2 m (file + 16);
  e_machine = load 2 m (file + 18);
  e_version = load 4 m (file + 20);
  e_entry = load 8 m (file + 24);
  e_phoff = load 8 m (file + 32);
  e_shoff = load 8 m (file + 40);
  e_flags = load 4 m (file + 48);
  e_ehsize = load 2 m (file + 52);
  e_phentsize = load 2 m (file + 54);
  e_phnum = load 2 m (file + 56);
  e_shentsize = load 2 m (file + 58);
  e_shnum = load 2 m (file + 60);
  e_shstrndx = load 2 m (file + 62);
}

-- struct Elf64_Shdr
pub record Shdr : Type 0 where
  pub sh_name : ℕ
  pub sh_type : ℕ
  pub sh_flags : ℕ
  pub sh_addr : ℕ
  pub sh_offset : ℕ
  pub sh_size : ℕ
  pub sh_link : ℕ
  pub sh_info : ℕ
  pub sh_addralign : ℕ
  pub sh_entsize : ℕ

abbrev pub shdr : Memory → ℕ → Shdr
shdr m p = record {
  sh_name = load 4 m (p + 0);
  sh_type = load 4 m (p + 4);
  sh_flags = load 8 m (p + 8);
  sh_addr = load 8 m (p + 16);
  sh_offset = load 8 m (p + 24);
  sh_size = load 8 m (p + 32);
  sh_link = load 4 m (p + 40);
  sh_info = load 4 m (p + 44);
  sh_addralign = load 8 m (p + 48);
  sh_entsize = load 8 m (p + 56);
}

abbrev pub shdr_size : ℕ
shdr_size = 64

-- struct Elf64_Phdr
pub record Phdr : Type 0 where
  pub p_type : ℕ
  pub p_flags : ℕ
  pub p_offset : ℕ
  pub p_vaddr : ℕ
  pub p_paddr : ℕ
  pub p_filesz : ℕ
  pub p_memsz : ℕ
  pub p_align : ℕ

abbrev pub phdr : Memory → ℕ → Phdr
phdr m p = record {
  p_type = load 4 m (p + 0);
  p_flags = load 4 m (p + 4);
  p_offset = load 8 m (p + 8);
  p_vaddr = load 8 m (p + 16);
  p_paddr = load 8 m (p + 24);
  p_filesz = load 8 m (p + 32);
  p_memsz = load 8 m (p + 40);
  p_align = load 8 m (p + 48);
}

abbrev pub phdr_size : ℕ
phdr_size = 56
