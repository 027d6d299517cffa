-- ===== src/Loader/Elf/NoteCalm.antt =====
-- The steps of `parse_elf_note` in src/loader/x86_64/elf/mod.rs do not panic within bounds.
use linux_loader.Base.{ℕ, ◌+◌, ◌≤◌, ◌<◌, ◌^◌, true, List, some, ◌≡◌, ◌≢◌, arith, drop}
use linux_loader.Base.Word.{two_64}
use linux_loader.Base.Outcome.{panic}
use linux_loader.Reader.{ReadSeek, IsImage}
use linux_loader.LoaderGen.Bytes.{are_bytes, are_bytes-drop, from_le_bytes-bound}
use linux_loader.LoaderGen.Elf.{Elf64Phdr, Elf64Nhdr, nhdr_size, nhdr_of_bytes}
use linux_loader.Loader.Elf.Note.{pvh_note_str_sz, note_end, is_pvh_note, skip_note, read_entry}
use linux_loader.Loader.Elf.Align.{align_up_calm, align_up-small}

-- Sizes of 32 bits, which are rounded up without overflow.
abbrev pub IsSmall : Elf64Nhdr → Type 0
IsSmall nhdr = (nhdr.n_namesz < 2 ^ 32) × (nhdr.n_descsz < 2 ^ 32)

pub nhdr_of_bytes-IsSmall : (bs : List ℕ) → are_bytes bs ≡ true → IsSmall (nhdr_of_bytes bs)
unfolding nhdr_of_bytes
nhdr_of_bytes-IsSmall bs h =
    (from_le_bytes-bound 4 bs h, from_le_bytes-bound 4 (drop 4 bs) (are_bytes-drop 4 bs h))

note_end-small :
    (n namesz descsz m : ℕ)
    → note_end n namesz descsz ≡ some m
    → m ≡ n + nhdr_size + namesz + descsz
unfolding note_end
note_end-small n namesz descsz m h = ground arith

module _ {R : Type 0} {rs : ReadSeek R} (image : IsImage rs) where
  pub skip_note_calm :
      (phdr : Elf64Phdr) (nhdr : Elf64Nhdr) (n : ℕ) (r : R)
      → IsSmall nhdr
      → n < phdr.p_filesz
      → phdr.p_offset + phdr.p_filesz + 2 ^ 34 ≤ two_64
      → (skip_note rs phdr nhdr n r).0 ≢ panic
  unfolding skip_note
  skip_note_calm phdr nhdr n r (named, described) inside fits = grind (
    arith,
    align_up_calm nhdr.n_namesz phdr.p_align named,
    align_up_calm nhdr.n_descsz phdr.p_align described,
    note_end-small,
    image.seek_calm,
  )

  pub is_pvh_note_calm : (nhdr : Elf64Nhdr) (r : R) → (is_pvh_note rs nhdr r).0 ≢ panic
  unfolding is_pvh_note
  is_pvh_note_calm nhdr r = ground (arith, image.read_calm pvh_note_str_sz r)

  pub read_entry_calm :
      (phdr : Elf64Phdr) (nhdr : Elf64Nhdr) (r : R)
      → IsSmall nhdr
      → phdr.p_align ≢ 2 ^ 63
      → (read_entry rs phdr nhdr r).0 ≢ panic
  unfolding read_entry
  read_entry_calm phdr nhdr r small odd = grind (
    arith,
    align_up_calm nhdr.n_namesz phdr.p_align small.0,
    align_up-small,
    image.seek_calm,
    image.read_calm,
  )
