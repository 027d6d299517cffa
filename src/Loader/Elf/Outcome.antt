-- ===== src/Loader/Elf/Outcome.antt =====
-- `Elf::load` of src/loader/x86_64/elf/mod.rs gives what the image's bytes say, errors included.
use linux_loader.Base.{
  ℕ, Bool, not, ◌||◌, List, [], ◌∷◌, Option, none, some, ◌≡◌, refl, ap, ◌∙◌, ◌==◌, max, Bool-cases,
  inl, inr,
}
use linux_loader.Base.Outcome.{Result, ok, Action, pure, lift, ◌>>=◌, and_then}
use linux_loader.Reader.{start, ReadSeek, Machine, Transfer, IsImage, on_image}
use linux_loader.Reader.Working.{IsWorking}
use linux_loader.Reader.Gives.{Gives, Gives-lift, Gives-bind, GivesAt-bind, Gives-seek}
use linux_loader.LoaderGen.Elf.{Elf64Ehdr, Elf64Phdr, pt_load, pt_note}
use linux_loader.Loader.Errors.Elf.{overflow, seek_program_header}
use linux_loader.Loader.{Error, elf, PvhBootCapability, KernelLoaderResult, default_result}
use linux_loader.Loader.Elf.{
  relocate, read_phdrs, load_segment, note_cap, load_phdr, load_phdrs, read_header, load_program,
  load_elf,
}
use linux_loader.Loader.Elf.Note.{parse_elf_note}
use linux_loader.Loader.Elf.NoteAlike.{parse_elf_note-Alike}
use linux_loader.Loader.Elf.NoteKeeps.{parse_elf_note-Keeps}
use linux_loader.Reader.Cursor.{cursor}
use linux_loader.Loader.Elf.Segments.{moved}
use linux_loader.Loader.Elf.Meaning.{
  is_moved_out, note_outcome, header_outcome, table_outcome, segment_outcome, phdr_outcome,
  segments_outcome, program_outcome, elf_outcome,
}
use linux_loader.Loader.Elf.Steps.{
  relocate_lem, placed_lem, said, read_phdrs-Gives, load_segment-Gives, read_header-Gives,
}

module _ {R M : Type 0} {rs : ReadSeek R} {tr : Transfer R M} {image : IsImage rs}
    {has_room : M → ℕ → ℕ → Bool} (works : IsWorking tr image has_room) (s : Machine R M) where
  abbrev bytes : List ℕ
  bytes = image.bytes s.image

  -- The search does not depend on where the image is.
  search-Gives :
      (phdr : Elf64Phdr) (r : R)
      → image.bytes r ≡ bytes
      → (parse_elf_note rs phdr r).0
        ≡ (parse_elf_note cursor phdr (record { bytes = bytes; position = 0 })).0
  unfolding parse_elf_note
  search-Gives phdr r same =
      (parse_elf_note-Alike works phdr r
        (record { bytes = image.bytes r; position = image.position r }) (refl, refl)).0
      ∙ ap (λ b. (parse_elf_note cursor phdr (record { bytes = b; position = 0 })).0) same

  note_cap-Gives :
      (kernel_offset : Option ℕ) (phdr : Elf64Phdr)
      → Gives works s (note_cap rs tr kernel_offset phdr) (note_outcome kernel_offset bytes phdr)
  unfolding note_cap
  note_cap-Gives none phdr t (same, room) =
      (search-Gives phdr t.image same, (parse_elf_note-Keeps image phdr t.image ∙ same, room))
  note_cap-Gives (some k_offset) phdr t same = (refl, same)

  load_phdr-Gives :
      (kernel_offset : Option ℕ) (phdr : Elf64Phdr) (result : KernelLoaderResult)
      → Gives works s
          (load_phdr rs tr kernel_offset phdr result)
          (phdr_outcome kernel_offset (has_room s.memory) bytes phdr result)
  unfolding load_phdr
  load_phdr-Gives kernel_offset phdr result t same =
      let ended = λ (end : ℕ). record result { kernel_end = max result.kernel_end end } in
      let noted = λ (cap : PvhBootCapability). record result { pvh_boot_cap = cap } in
      elim (Bool-cases (not (phdr.p_type == pt_load) || phdr.p_filesz == 0)) [
        | inl skipped ↦ rw skipped (elim (Bool-cases (phdr.p_type == pt_note)) [
          | inl note ↦ rw note (
              Gives-bind works s (note_cap rs tr kernel_offset phdr) (λ cap. pure (noted cap))
                (note_outcome kernel_offset bytes phdr) (λ cap. ok (noted cap))
                (note_cap-Gives kernel_offset phdr) (λ cap _. Gives-lift works s (ok (noted cap))) t
                same)
          | inr other ↦ rw other (refl, same)
        ])
        | inr loaded ↦ rw loaded (
            Gives-bind works s (load_segment rs tr kernel_offset phdr) (λ end. pure (ended end))
              (segment_outcome kernel_offset (has_room s.memory) bytes phdr) (λ end. ok (ended end))
              (load_segment-Gives works s kernel_offset phdr)
              (λ end _. Gives-lift works s (ok (ended end))) t same)
      ]

  load_phdrs-Gives :
      (kernel_offset : Option ℕ) (phdrs : List Elf64Phdr) (result : KernelLoaderResult)
      → Gives works s
          (load_phdrs rs tr kernel_offset phdrs result)
          (segments_outcome kernel_offset (has_room s.memory) bytes phdrs result)
  unfolding load_phdrs
  load_phdrs-Gives kernel_offset [] result = Gives-lift works s (ok result)
  load_phdrs-Gives kernel_offset (phdr ∷ phdrs) result =
      Gives-bind works s (load_phdr rs tr kernel_offset phdr result)
        (λ r. load_phdrs rs tr kernel_offset phdrs r)
        (phdr_outcome kernel_offset (has_room s.memory) bytes phdr result)
        (λ r. segments_outcome kernel_offset (has_room s.memory) bytes phdrs r)
        (load_phdr-Gives kernel_offset phdr result) (λ r _. load_phdrs-Gives kernel_offset phdrs r)

  load_program-Gives :
      (kernel_offset : Option ℕ) (h : Elf64Ehdr)
      → Gives works s
          (load_program rs tr kernel_offset h)
          (program_outcome kernel_offset (has_room s.memory) bytes h)
  unfolding load_program
  load_program-Gives kernel_offset h t same =
      let first : ℕ → KernelLoaderResult = λ at. record default_result { kernel_load = at } in
      let last : KernelLoaderResult → KernelLoaderResult = λ r. record r { setup_header = none } in
      let segments : ℕ → List Elf64Phdr → Action (Machine R M) Error KernelLoaderResult =
        λ at phdrs. load_phdrs rs tr kernel_offset phdrs (first at) >>= λ r. pure (last r) in
      let loaded : ℕ → List Elf64Phdr → Result Error KernelLoaderResult = λ at phdrs.
        and_then (segments_outcome kernel_offset (has_room s.memory) bytes phdrs (first at))
          (λ r. ok (last r)) in
      let table = table_outcome h.e_phnum h.e_phoff bytes in
      let place = relocate kernel_offset h.e_entry (elf overflow) in
      said
        (ap (λ v. and_then v (λ at. and_then table (loaded at)))
            (relocate_lem kernel_offset h.e_entry (elf overflow))
          ∙ placed_lem (is_moved_out kernel_offset h.e_entry) (elf overflow)
              (moved kernel_offset h.e_entry) (λ at. and_then table (loaded at)))
        (Gives-bind works s (lift place)
          (λ at. on_image (rs.seek (start h.e_phoff)) (elf seek_program_header) >>= λ _.
            read_phdrs rs tr h.e_phnum >>= segments at)
          place (λ at. and_then table (loaded at)) (Gives-lift works s place)
          (λ at _.
            Gives-seek works s (elf seek_program_header) h.e_phoff
              (λ _. read_phdrs rs tr h.e_phnum >>= segments at) (and_then table (loaded at))
              (GivesAt-bind works s h.e_phoff (read_phdrs rs tr h.e_phnum) (segments at) table
                (loaded at) (read_phdrs-Gives works s h.e_phnum h.e_phoff)
                (λ phdrs _.
                  Gives-bind works s (load_phdrs rs tr kernel_offset phdrs (first at))
                    (λ r. pure (last r))
                    (segments_outcome kernel_offset (has_room s.memory) bytes phdrs (first at))
                    (λ r. ok (last r)) (load_phdrs-Gives kernel_offset phdrs (first at))
                    (λ r _. Gives-lift works s (ok (last r))))))
          t same)

  -- A load of an ELF image gives what its bytes say. The image can be read without a fault. The first
  -- of these that fails gives the error: the read of the header, its checks, the entry point against
  -- high memory, the moved entry point, the read of the program headers, and then for each program
  -- header, in their order, if it is loaded, the moved address, the copy (the image must have the bytes
  -- and memory the room) and the end, and if it is a note and the kernel is not moved, the search of the
  -- note, which gives what it gives on a cursor over the bytes. If none fails, the result has the moved
  -- entry point, the greatest end of a segment, and the capability that the last note says.
  pub load_elf-eq-outcome :
      (kernel_offset highmem_start : Option ℕ)
      → (load_elf rs tr kernel_offset highmem_start s).0
        ≡ elf_outcome kernel_offset highmem_start (has_room s.memory) bytes
  unfolding load_elf
  load_elf-eq-outcome kernel_offset highmem_start =
      (Gives-bind works s (read_header rs tr highmem_start)
        (λ h. load_program rs tr kernel_offset h) (header_outcome highmem_start bytes)
        (λ h. program_outcome kernel_offset (has_room s.memory) bytes h)
        (read_header-Gives works s highmem_start) (λ h _. load_program-Gives kernel_offset h) s
        (refl, λ a n. refl)).0
