-- ===== src/Loader/Elf.antt =====
-- src/loader/x86_64/elf/mod.rs: `Elf::validate_header` and `Elf::load`.
pub mod Note
pub mod NoteFuel
pub mod NoteKeeps
pub mod NoteCalm
pub mod NoteSafe
pub mod NoteAlike
pub mod Safe
pub mod Align
pub mod Notes
pub mod NoteSteps
pub mod NoteEntry
pub mod NoteFound
pub mod NoteRefines
pub mod Header
pub mod Segments
pub mod Loaded
pub mod Image
pub mod Placed
pub mod Cap
pub mod Program
pub mod Refines
pub mod Meaning
pub mod Steps
pub mod Outcome
use linux_loader.Base.{
  ℕ, zero, suc, Bool, true, false, ◌&&◌, ◌||◌, not, List, [], ◌∷◌, Option, none, some, ltb, max,
  ◌==◌, if◌then◌else◌, get_elem?,
}
use linux_loader.Base.Word.{checked_add}
use linux_loader.Base.Outcome.{
  Result, ok, err, Action, pure, lift, raise_if, ◌>>=◌, ◌>>◌, ok_or, map_err,
}
use linux_loader.Reader.{SeekFrom, start, ReadSeek, Machine, Transfer, on_image, on_machine}
use linux_loader.LoaderGen.Elf.{
  pt_load, pt_note, ei_mag0, ei_mag1, ei_mag2, ei_mag3, ei_data, elfmag0, elfmag1, elfmag2, elfmag3,
  elfdata2lsb, Elf64Ehdr, Elf64Phdr, ehdr_size, phdr_size, ehdr_of_bytes, phdr_of_bytes,
}
use linux_loader.Loader.Errors.Elf.{
  ElfError, big_endian_elf_on_little, invalid_elf_magic_number, invalid_program_header_size,
  invalid_program_header_offset, invalid_program_header_address, invalid_entry_address, overflow,
  read_elf_header, read_kernel_image, read_program_header, seek_kernel_start, seek_elf_start,
  seek_program_header,
}
use linux_loader.Loader.{
  Error, elf, memory_overflow, PvhBootCapability, pvh_entry_ignored, KernelLoaderResult,
  default_result,
}
use linux_loader.Loader.Elf.Note.{parse_elf_note}

is_byte : Option ℕ → ℕ → Bool
is_byte none c = false
is_byte (some b) c = b == c

-- `e_ident[i] == c`.
unfoldable pub ident_is : Elf64Ehdr → ℕ → ℕ → Bool
unfolding is_byte
ident_is ehdr i c = is_byte (get_elem? ehdr.e_ident i) c

unfoldable pub validate_header : Elf64Ehdr → Result ElfError (Unit {0})
validate_header ehdr =
    if not (ident_is ehdr ei_mag0 elfmag0)
      || not (ident_is ehdr ei_mag1 elfmag1)
      || not (ident_is ehdr ei_mag2 elfmag2)
      || not (ident_is ehdr ei_mag3 elfmag3)
    then err invalid_elf_magic_number
    else if not (ident_is ehdr ei_data elfdata2lsb)
    then err big_endian_elf_on_little
    else if not (ehdr.e_phentsize == phdr_size)
    then err invalid_program_header_size
    else if ltb ehdr.e_phoff ehdr_size
    then err invalid_program_header_offset
    else ok tt

-- The entry point is below high memory.
unfoldable pub is_low_entry : Elf64Ehdr → Option ℕ → Bool
is_low_entry ehdr none = false
is_low_entry ehdr (some highmem_start) = ltb ehdr.e_entry highmem_start

-- An address of the image, moved by the offset that is asked for.
unfoldable pub relocate : Option ℕ → ℕ → Error → Result Error ℕ
relocate none addr e = ok addr
relocate (some k_offset) addr e = ok_or (checked_add k_offset addr) e

module _ {R M : Type 0} (rs : ReadSeek R) (tr : Transfer R M) where
  unfoldable pub read_phdrs : ℕ → Action (Machine R M) Error (List Elf64Phdr)
  read_phdrs zero = pure []
  read_phdrs (suc n) = do
    bs ← on_image (rs.read_exact phdr_size) (elf read_program_header)
    phdrs ← read_phdrs n
    pure (phdr_of_bytes bs ∷ phdrs)

  -- A PT_LOAD segment: its end in guest memory.
  unfoldable pub load_segment : Option ℕ → Elf64Phdr → Action (Machine R M) Error ℕ
  load_segment kernel_offset phdr = do
    _ ← on_image (rs.seek (start phdr.p_offset)) (elf seek_kernel_start)
    mem_offset ← lift (relocate kernel_offset phdr.p_paddr (elf invalid_program_header_address))
    on_machine (tr.read_exact_from mem_offset phdr.p_filesz) (elf read_kernel_image)
    lift (ok_or (checked_add mem_offset phdr.p_memsz) memory_overflow)

  -- A PT_NOTE segment.
  unfoldable pub note_cap : Option ℕ → Elf64Phdr → Action (Machine R M) Error PvhBootCapability
  note_cap (some k_offset) phdr s = (ok pvh_entry_ignored, s)
  note_cap none phdr s = let (r, i) = parse_elf_note rs phdr s.image in (r, record s { image = i })

  -- The body of the loop over the program headers.
  unfoldable pub load_phdr :
      Option ℕ → Elf64Phdr → KernelLoaderResult → Action (Machine R M) Error KernelLoaderResult
  load_phdr kernel_offset phdr result s =
      if not (phdr.p_type == pt_load) || phdr.p_filesz == 0
      then (if phdr.p_type == pt_note
          then (note_cap kernel_offset phdr >>= λ cap. pure (record result { pvh_boot_cap = cap }))
              s
          else pure result s)
      else (load_segment kernel_offset phdr >>= λ end.
            pure (record result { kernel_end = max result.kernel_end end }))
          s

  unfoldable pub load_phdrs :
      Option ℕ → List Elf64Phdr → KernelLoaderResult → Action (Machine R M) Error KernelLoaderResult
  load_phdrs kernel_offset [] result = pure result
  load_phdrs kernel_offset (phdr ∷ phdrs) result = do
    result' ← load_phdr kernel_offset phdr result
    load_phdrs kernel_offset phdrs result'

  -- The header, read from the start of the image and checked.
  unfoldable pub read_header : Option ℕ → Action (Machine R M) Error Elf64Ehdr
  read_header highmem_start = do
    _ ← on_image (rs.seek (start 0)) (elf seek_elf_start)
    bs ← on_image (rs.read_exact ehdr_size) (elf read_elf_header)
    let ehdr = ehdr_of_bytes bs
    lift (map_err elf (validate_header ehdr))
    raise_if (is_low_entry ehdr highmem_start) (elf invalid_entry_address)
    pure ehdr

  -- What follows the checks.
  unfoldable pub load_program : Option ℕ → Elf64Ehdr → Action (Machine R M) Error KernelLoaderResult
  load_program kernel_offset ehdr = do
    kernel_load ← lift (relocate kernel_offset ehdr.e_entry (elf overflow))
    _ ← on_image (rs.seek (start ehdr.e_phoff)) (elf seek_program_header)
    phdrs ← read_phdrs ehdr.e_phnum
    result ← load_phdrs kernel_offset phdrs (record default_result { kernel_load = kernel_load })
    pure (record result { setup_header = none })

  unfoldable pub load_elf :
      (kernel_offset highmem_start : Option ℕ) → Action (Machine R M) Error KernelLoaderResult
  load_elf kernel_offset highmem_start =
      read_header highmem_start >>= λ ehdr. load_program kernel_offset ehdr
