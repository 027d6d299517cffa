-- ===== src/Loader/Elf/NoteKeeps.antt =====
-- `parse_elf_note` of src/loader/x86_64/elf/mod.rs leaves the image alone, whatever it returns.
use linux_loader.Base.{ℕ, zero, suc, Bool, true, false, List, refl, arith}
use linux_loader.Base.Outcome.{Action, ◌>>=◌, Keeps, Keeps-bind}
use linux_loader.Reader.{SeekFrom, start, ReadSeek, IsImage}
use linux_loader.LoaderGen.Elf.{Elf64Phdr, Elf64Nhdr, nhdr_size, nhdr_of_bytes}
use linux_loader.Loader.{Error, elf, PvhBootCapability}
use linux_loader.Loader.Errors.Elf.{read_note_header, seek_note_header}
use linux_loader.Loader.Elf.Note.{
  seek_or, read_or, is_pvh_note, skip_note, next_note, note_body, note_loop, read_entry, after_loop,
  parse_elf_note, default_nhdr,
}

module _ {R : Type 0} {rs : ReadSeek R} (image : IsImage rs) where
  abbrev KeepsImage : {A : Type 0} → Action R Error A → Type 0
  KeepsImage f = Keeps image.bytes f

  seek_or-Keeps : (t : SeekFrom) (e : Error) → KeepsImage (seek_or rs t e)
  seek_or-Keeps t e r = image.seek-same t r

  read_or-Keeps : (n : ℕ) (e : Error) → KeepsImage (read_or rs n e)
  read_or-Keeps n e r = image.read-same n r

  is_pvh_note-Keeps : (nhdr : Elf64Nhdr) → KeepsImage (is_pvh_note rs nhdr)
  unfolding is_pvh_note
  is_pvh_note-Keeps nhdr r = ground (arith, image.read-same 4 r)

  pub skip_note-Keeps :
      (phdr : Elf64Phdr) (nhdr : Elf64Nhdr) (n : ℕ) → KeepsImage (skip_note rs phdr nhdr n)
  unfolding skip_note
  skip_note-Keeps phdr nhdr n r = grind (arith, image.seek-same)

  next_note-Keeps :
      (phdr : Elf64Phdr) (nhdr : Elf64Nhdr) (n : ℕ) (again : ℕ → Action R Error (Elf64Nhdr × ℕ))
      (stop : Bool)
      → ((m : ℕ) → KeepsImage (again m))
      → KeepsImage (next_note rs phdr nhdr n again stop)
  next_note-Keeps phdr nhdr n again true h r = refl
  next_note-Keeps phdr nhdr n again false h r =
      Keeps-bind image.bytes (skip_note rs phdr nhdr n) again (skip_note-Keeps phdr nhdr n) h r

  note_body-Keeps :
      (phdr : Elf64Phdr) (n : ℕ) (again : Elf64Nhdr → ℕ → Action R Error (Elf64Nhdr × ℕ))
      → ((nhdr : Elf64Nhdr) (m : ℕ) → KeepsImage (again nhdr m))
      → KeepsImage (note_body rs phdr n again)
  note_body-Keeps phdr n again h =
      Keeps-bind image.bytes (read_or rs nhdr_size (elf read_note_header)) test
        (read_or-Keeps nhdr_size (elf read_note_header))
        λ bs.
          Keeps-bind image.bytes (is_pvh_note rs (nhdr_of_bytes bs)) (onward bs)
            (is_pvh_note-Keeps (nhdr_of_bytes bs))
            λ stop.
              next_note-Keeps phdr (nhdr_of_bytes bs) n (again (nhdr_of_bytes bs)) stop
                (h (nhdr_of_bytes bs))
    where
      onward : List ℕ → Bool → Action R Error (Elf64Nhdr × ℕ)
      onward bs stop = next_note rs phdr (nhdr_of_bytes bs) n (again (nhdr_of_bytes bs)) stop

      test : List ℕ → Action R Error (Elf64Nhdr × ℕ)
      test bs = is_pvh_note rs (nhdr_of_bytes bs) >>= onward bs

  note_loop-Keeps :
      (fuel : ℕ) (phdr : Elf64Phdr) (nhdr : Elf64Nhdr) (n : ℕ)
      → KeepsImage (note_loop rs fuel phdr nhdr n)
  unfolding note_loop
  note_loop-Keeps zero phdr nhdr n r = ground arith
  note_loop-Keeps (suc fuel) phdr nhdr n r =
      ground (arith, note_body-Keeps phdr n (note_loop rs fuel phdr) (note_loop-Keeps fuel phdr) r)

  read_entry-Keeps : (phdr : Elf64Phdr) (nhdr : Elf64Nhdr) → KeepsImage (read_entry rs phdr nhdr)
  unfolding read_entry
  read_entry-Keeps phdr nhdr r = grind (arith, image.seek-same, image.read-same)

  pub parse_elf_note-Keeps : (phdr : Elf64Phdr) → Keeps image.bytes (parse_elf_note rs phdr)
  unfolding parse_elf_note after_loop
  parse_elf_note-Keeps phdr =
      Keeps-bind image.bytes (seek_or rs (start phdr.p_offset) (elf seek_note_header)) search_notes
        (seek_or-Keeps (start phdr.p_offset) (elf seek_note_header))
        λ _.
          Keeps-bind image.bytes (note_loop rs phdr.p_filesz phdr default_nhdr 0)
            (after_loop rs phdr) (note_loop-Keeps phdr.p_filesz phdr default_nhdr 0)
            λ found r. ground (arith, read_entry-Keeps phdr found.0 r)
    where
      search_notes : ℕ → Action R Error PvhBootCapability
      search_notes _ = note_loop rs phdr.p_filesz phdr default_nhdr 0 >>= after_loop rs phdr
