-- ===== src/Loader/Elf/Notes.antt =====
-- What a note segment means, as a relation on the bytes of the image: the reference that
-- `parse_elf_note` of src/loader/x86_64/elf/mod.rs is compared with.
use linux_loader.Base.{ℕ, ◌+◌, ◌≤◌, ◌<◌, ◌⊎◌, List, [], ◌∷◌, ◌≡◌, take, drop}
use linux_loader.LoaderGen.Elf.{Elf64Phdr, Elf64Nhdr, nhdr_size, nhdr_of_bytes}
use linux_loader.LoaderGen.{from_le_bytes}
use linux_loader.Loader.{PvhBootCapability, pvh_entry_present, pvh_entry_not_present}
use linux_loader.Loader.Elf.Note.{xen_elfnote_phys32_entry, pvh_note_str_sz}
use linux_loader.Loader.Elf.Align.{IsAligned}

module _ (image : List ℕ) (phdr : Elf64Phdr) where
  -- The header of the note that starts `n` bytes into the segment.
  abbrev pub note_at : ℕ → Elf64Nhdr
  note_at n = nhdr_of_bytes (take nhdr_size (drop (phdr.p_offset + n) image))

  -- The note there holds the PVH entry point: it has the type and the name of the PVH ABI.
  abbrev pub IsPvhNote : ℕ → Type 0
  IsPvhNote n =
      ((note_at n).n_type ≡ xen_elfnote_phys32_entry)
      × ((note_at n).n_namesz ≡ pvh_note_str_sz)
      × (take pvh_note_str_sz (drop (phdr.p_offset + n + nhdr_size) image)
          ≡ b'X' ∷ b'e' ∷ b'n' ∷ 0 ∷ [])

  -- A note starts `n` bytes into the segment, if the first starts at 0 and each next one behind the
  -- padded name and descriptor of a note inside the segment that does not hold the entry point.
  pub data IsReached : ℕ → Type 0 where
    first : IsReached 0
    next :
        (n namesz descsz : ℕ)
        → IsReached n
        → n < phdr.p_filesz
        → ¬ IsPvhNote n
        → IsAligned (note_at n).n_namesz phdr.p_align namesz
        → IsAligned (note_at n).n_descsz phdr.p_align descsz
        → IsReached (n + nhdr_size + namesz + descsz)

  -- What a result of the search means: no note of the segment holds the entry point, or the first that
  -- does holds this one in its descriptor.
  abbrev pub IsFoundNote : PvhBootCapability → Type 0
  IsFoundNote entry =
      (n : ℕ) × IsReached n
      × (((phdr.p_filesz ≤ n) × (entry ≡ pvh_entry_not_present))
          ⊎ ((n < phdr.p_filesz)
              × IsPvhNote n
              × (4 ≤ (note_at n).n_descsz)
              × (namesz : ℕ) × IsAligned pvh_note_str_sz phdr.p_align namesz
              × (entry
                  ≡ pvh_entry_present (
                      from_le_bytes
                        (take 4 (drop (phdr.p_offset + n + nhdr_size + namesz) image))))))
