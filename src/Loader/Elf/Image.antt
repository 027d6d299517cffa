-- ===== src/Loader/Elf/Image.antt =====
-- What an ELF image means, as functions of its bytes: the reference that `Elf::load` of
-- src/loader/x86_64/elf/mod.rs is compared with.
use linux_loader.Base.{
  ℕ, zero, suc, ◌+◌, ◌-◌, List, [], ◌∷◌, Option, ◌&&◌, if◌then◌else◌, take, drop, get_elem?, ◌==◌,
  ◌≡◌, none, some,
}
use linux_loader.Base.Splice.{inside}
use linux_loader.LoaderGen.Elf.{
  Elf64Ehdr, Elf64Phdr, ehdr_size, phdr_size, ehdr_of_bytes, phdr_of_bytes,
}
use linux_loader.Loader.{PvhBootCapability, pvh_entry_ignored}
use linux_loader.LoaderGen.Elf.{pt_note}
use linux_loader.Loader.Elf.Notes.{IsFoundNote}
use linux_loader.Loader.Elf.Segments.{moved, is_loaded}

abbrev pub header_of : List ℕ → Elf64Ehdr
header_of image = ehdr_of_bytes (take ehdr_size image)

-- The first `n` program headers of a table.
unfoldable pub phdr_table : ℕ → List ℕ → List Elf64Phdr
phdr_table zero table = []
phdr_table (suc n) table =
    phdr_of_bytes (take phdr_size table) ∷ phdr_table n (drop phdr_size table)

abbrev pub phdrs_of : List ℕ → List Elf64Phdr
phdrs_of image = phdr_table (header_of image).e_phnum (drop (header_of image).e_phoff image)

-- The byte at the guest address `x` after the segment has been copied over `old`.
abbrev pub after_segment : List ℕ → Option ℕ → Elf64Phdr → Option ℕ → ℕ → Option ℕ
after_segment image kernel_offset phdr old x =
    if is_loaded phdr && inside (moved kernel_offset phdr.p_paddr) phdr.p_filesz x
    then get_elem? image (phdr.p_offset + (x - moved kernel_offset phdr.p_paddr))
    else old

-- After all segments, in their order: a later one covers an earlier one.
unfoldable pub loaded_byte : List ℕ → Option ℕ → List Elf64Phdr → Option ℕ → ℕ → Option ℕ
loaded_byte image kernel_offset [] old x = old
loaded_byte image kernel_offset (phdr ∷ phdrs) old x =
    loaded_byte image kernel_offset phdrs (after_segment image kernel_offset phdr old x) x

-- The last note segment behind `found`.
unfoldable pub last_note : Option Elf64Phdr → List Elf64Phdr → Option Elf64Phdr
last_note found [] = found
last_note found (phdr ∷ phdrs) =
    last_note (if phdr.p_type == pt_note then some phdr else found) phdrs

-- What the boot capability means: what the last note segment holds, and nothing if there is none, or
-- if the kernel is moved.
abbrev pub IsCap : List ℕ → Option ℕ → Option Elf64Phdr → PvhBootCapability → Type 0
IsCap image none (some phdr) entry = IsFoundNote image phdr entry
IsCap image none none entry = entry ≡ pvh_entry_ignored
IsCap image (some kernel_offset) found entry = entry ≡ pvh_entry_ignored
