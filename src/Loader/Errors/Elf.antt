-- ===== src/Loader/Errors/Elf.antt =====
-- src/loader/x86_64/elf/mod.rs: errors.
use linux_loader.Base.{◌++◌}
use linux_loader.Text.{Str, codes}

pub data ElfError : Type 0 where
  align big_endian_elf_on_little invalid_elf_magic_number invalid_program_header_size : ElfError
  invalid_program_header_offset invalid_program_header_address invalid_entry_address : ElfError
  overflow read_elf_header read_kernel_image read_program_header seek_kernel_start : ElfError
  seek_elf_start seek_program_header seek_note_header read_note_header : ElfError
  invalid_pvh_note : ElfError

desc : ElfError → Str
desc align = codes "Invalid alignment"
desc big_endian_elf_on_little = codes "Trying to load big-endian binary on little-endian machine"
desc invalid_elf_magic_number = codes "Invalid Elf magic number"
desc invalid_program_header_size = codes "Invalid program header size"
desc invalid_program_header_offset = codes "Invalid program header offset"
desc invalid_program_header_address = codes "Invalid Program Header Address"
desc invalid_entry_address = codes "Invalid entry address"
desc overflow = codes "Overflow occurred during an arithmetic operation"
desc read_elf_header = codes "Unable to read elf header"
desc read_kernel_image = codes "Unable to read kernel image"
desc read_program_header = codes "Unable to read program header"
desc seek_kernel_start = codes "Unable to seek to kernel start"
desc seek_elf_start = codes "Unable to seek to elf start"
desc seek_program_header = codes "Unable to seek to program header"
desc seek_note_header = codes "Unable to seek to note header"
desc read_note_header = codes "Unable to read note header"
desc invalid_pvh_note = codes "Invalid PVH note header"

unfoldable pub display : ElfError → Str
unfolding desc
display e = codes "Kernel Loader: " ++ desc e
