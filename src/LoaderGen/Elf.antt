-- ===== src/LoaderGen/Elf.antt =====
-- src/loader_gen/x86_64/elf.rs: constants and headers of the ELF format.
use linux_loader.Base.{ℕ, List, take}
use linux_loader.LoaderGen.{field}

abbrev pub pt_load : ℕ
pt_load = 1

abbrev pub pt_note : ℕ
pt_note = 4

abbrev pub ei_mag0 : ℕ
ei_mag0 = 0

abbrev pub ei_mag1 : ℕ
ei_mag1 = 1

abbrev pub ei_mag2 : ℕ
ei_mag2 = 2

abbrev pub ei_mag3 : ℕ
ei_mag3 = 3

abbrev pub ei_data : ℕ
ei_data = 5

abbrev pub elfmag0 : ℕ
elfmag0 = 127

abbrev pub elfmag1 : ℕ
elfmag1 = b'E'

abbrev pub elfmag2 : ℕ
elfmag2 = b'L'

abbrev pub elfmag3 : ℕ
elfmag3 = b'F'

abbrev pub elfdata2lsb : ℕ
elfdata2lsb = 1

pub record Elf64Ehdr : Type 0 where
  pub e_ident : List ℕ
  pub e_type : ℕ
  pub e_machine : ℕ
  pub e_version : ℕ
  pub e_entry : ℕ
  pub e_phoff : ℕ
  pub e_shoff : ℕ
  pub e_flags : ℕ
  pub e_ehsize : ℕ
  pub e_phentsize : ℕ
  pub e_phnum : ℕ
  pub e_shentsize : ℕ
  pub e_shnum : ℕ
  pub e_shstrndx : ℕ

pub record Elf64Phdr : Type 0 where
  pub p_type : ℕ
  pub p_flags : ℕ
  pub p_offset : ℕ
  pub p_vaddr : ℕ
  pub p_paddr : ℕ
  pub p_filesz : ℕ
  pub p_memsz : ℕ
  pub p_align : ℕ

pub record Elf64Nhdr : Type 0 where
  pub n_namesz : ℕ
  pub n_descsz : ℕ
  pub n_type : ℕ

-- The sizes of the structures, and their fields at the offsets that `repr(C)` gives them.
abbrev pub ehdr_size : ℕ
ehdr_size = 64

abbrev pub phdr_size : ℕ
phdr_size = 56

abbrev pub nhdr_size : ℕ
nhdr_size = 12

unfoldable pub ehdr_of_bytes : List ℕ → Elf64Ehdr
ehdr_of_bytes bs = record {
  e_ident = take 16 bs;
  e_type = field bs 16 2;
  e_machine = field bs 18 2;
  e_version = field bs 20 4;
  e_entry = field bs 24 8;
  e_phoff = field bs 32 8;
  e_shoff = field bs 40 8;
  e_flags = field bs 48 4;
  e_ehsize = field bs 52 2;
  e_phentsize = field bs 54 2;
  e_phnum = field bs 56 2;
  e_shentsize = field bs 58 2;
  e_shnum = field bs 60 2;
  e_shstrndx = field bs 62 2;
}

unfoldable pub phdr_of_bytes : List ℕ → Elf64Phdr
phdr_of_bytes bs = record {
  p_type = field bs 0 4;
  p_flags = field bs 4 4;
  p_offset = field bs 8 8;
  p_vaddr = field bs 16 8;
  p_paddr = field bs 24 8;
  p_filesz = field bs 32 8;
  p_memsz = field bs 40 8;
  p_align = field bs 48 8;
}

unfoldable pub nhdr_of_bytes : List ℕ → Elf64Nhdr
nhdr_of_bytes bs = record {
  n_namesz = field bs 0 4;
  n_descsz = field bs 4 4;
  n_type = field bs 8 4;
}
