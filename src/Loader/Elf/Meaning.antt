-- ===== src/Loader/Elf/Meaning.antt =====
-- What `Elf::load` of src/loader/x86_64/elf/mod.rs gives for an image, as a function of its bytes.
use linux_loader.Base.{
  ℕ, ◌+◌, ◌-◌, ◌*◌, Bool, false, ◌&&◌, List, [], ◌∷◌, Option, none, some, leb, ◌==◌, if◌then◌else◌,
  length, drop, max,
}
use linux_loader.Base.Word.{two_64}
use linux_loader.Base.Outcome.{Result, ok, err, map_err, and_then}
use linux_loader.LoaderGen.Elf.{Elf64Ehdr, Elf64Phdr, ehdr_size, phdr_size, pt_note}
use linux_loader.Loader.Errors.Elf.{
  invalid_program_header_address, invalid_entry_address, overflow, read_elf_header,
  read_kernel_image, read_program_header,
}
use linux_loader.Loader.{
  Error, elf, memory_overflow, pvh_entry_ignored, PvhBootCapability, KernelLoaderResult,
  default_result,
}
use linux_loader.Loader.Elf.{validate_header, is_low_entry}
use linux_loader.Loader.Elf.Note.{parse_elf_note}
use linux_loader.Reader.Cursor.{cursor}
use linux_loader.Loader.Elf.Image.{header_of, phdr_table}
use linux_loader.Loader.Elf.Segments.{moved, is_loaded}

-- An address that is moved past 2^64.
abbrev pub is_moved_out : Option ℕ → ℕ → Bool
is_moved_out none addr = false
is_moved_out (some k_offset) addr = leb two_64 (k_offset + addr)

-- A note segment, searched on a cursor over the image.
abbrev pub note_outcome : Option ℕ → List ℕ → Elf64Phdr → Result Error PvhBootCapability
note_outcome none image phdr =
    (parse_elf_note cursor phdr (record { bytes = image; position = 0 })).0
note_outcome (some k_offset) image phdr = ok pvh_entry_ignored

abbrev pub header_outcome : Option ℕ → List ℕ → Result Error Elf64Ehdr
header_outcome highmem_start image =
    if leb ehdr_size (length image)
    then and_then (map_err elf (validate_header (header_of image))) (λ _.
      if is_low_entry (header_of image) highmem_start
      then err (elf invalid_entry_address)
      else ok (header_of image))
    else err (elf read_elf_header)

-- The table of `n` program headers at `p`.
abbrev pub table_outcome : ℕ → ℕ → List ℕ → Result Error (List Elf64Phdr)
table_outcome n p image =
    if leb (n * phdr_size) (length image - p)
    then ok (phdr_table n (drop p image))
    else err (elf read_program_header)

module _ (kernel_offset : Option ℕ) (has_room : ℕ → ℕ → Bool) (image : List ℕ) where
  -- The end of a segment that is loaded.
  abbrev pub segment_outcome : Elf64Phdr → Result Error ℕ
  segment_outcome phdr =
      let at = moved kernel_offset phdr.p_paddr in
      if is_moved_out kernel_offset phdr.p_paddr
      then err (elf invalid_program_header_address)
      else if leb phdr.p_filesz (length image - phdr.p_offset) && has_room at phdr.p_filesz
      then (if leb two_64 (at + phdr.p_memsz) then err memory_overflow else ok (at + phdr.p_memsz))
      else err (elf read_kernel_image)

  abbrev pub phdr_outcome : Elf64Phdr → KernelLoaderResult → Result Error KernelLoaderResult
  phdr_outcome phdr result =
      if is_loaded phdr
      then and_then (segment_outcome phdr)
          (λ end. ok (record result { kernel_end = max result.kernel_end end }))
      else if phdr.p_type == pt_note
      then and_then (note_outcome kernel_offset image phdr)
          (λ cap. ok (record result { pvh_boot_cap = cap }))
      else ok result

  -- The segments in their order, until one fails.
  abbrev pub segments_outcome :
      List Elf64Phdr → KernelLoaderResult → Result Error KernelLoaderResult
  segments_outcome [] result = ok result
  segments_outcome (phdr ∷ phdrs) result =
      and_then (phdr_outcome phdr result) (λ r. segments_outcome phdrs r)

  abbrev pub program_outcome : Elf64Ehdr → Result Error KernelLoaderResult
  program_outcome h =
      if is_moved_out kernel_offset h.e_entry
      then err (elf overflow)
      else and_then (table_outcome h.e_phnum h.e_phoff image) (λ phdrs.
        and_then
          (segments_outcome phdrs
            (record default_result { kernel_load = moved kernel_offset h.e_entry }))
          (λ r. ok (record r { setup_header = none })))

abbrev pub elf_outcome :
    Option ℕ → Option ℕ → (ℕ → ℕ → Bool) → List ℕ → Result Error KernelLoaderResult
elf_outcome kernel_offset highmem_start has_room image =
    and_then (header_outcome highmem_start image) (program_outcome kernel_offset has_room image)
