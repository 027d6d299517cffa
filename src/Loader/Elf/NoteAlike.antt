-- ===== src/Loader/Elf/NoteAlike.antt =====
-- `parse_elf_note` of src/loader/x86_64/elf/mod.rs on a reader that works, beside a cursor over the
-- same bytes.
use linux_loader.Base.{
  ℕ, zero, suc, ◌-◌, ◌^◌, Bool, true, false, ◌&&◌, ◌||◌, ltb, leb, ◌==◌, Bool-cases, inl, inr,
}
use linux_loader.Base.Int.{ℤ, as_i64, sub_i64}
use linux_loader.Base.Word.{add_word}
use linux_loader.Base.Outcome.{panic, ok, Action, pure, lift, raise_if, map_err, ◌>>=◌, ◌>>◌, ok_or}
use linux_loader.Reader.{start, current, ReadSeek, Transfer, IsImage}
use linux_loader.Reader.Working.{IsWorking}
use linux_loader.Reader.Cursor.{Cursor, cursor}
use linux_loader.Reader.Alike.{
  Alike, Alike-lift, Alike-step, Alike-raise, Alike-bind, Alike-map_err, seek_start-Alike,
  seek_current-Alike, read-Alike,
}
use linux_loader.LoaderGen.{from_le_bytes}
use linux_loader.LoaderGen.Elf.{Elf64Phdr, Elf64Nhdr, nhdr_size, nhdr_of_bytes}
use linux_loader.Loader.Errors.Elf.{overflow, seek_note_header, read_note_header, invalid_pvh_note}
use linux_loader.Loader.{Error, elf, PvhBootCapability, pvh_entry_present, pvh_entry_not_present}
use linux_loader.Loader.Elf.Note.{
  pvh_note_str_sz, xen_elfnote_phys32_entry, align_up, note_end, is_xen, seek_or, read_or,
  is_pvh_note, skip_note, next_note, note_body, note_loop, read_entry, after_loop, parse_elf_note,
  default_nhdr,
}

module _ {R : Type 0} (rs : ReadSeek R) where
  -- The last steps of `skip_note`.
  abbrev hop : Elf64Phdr → ℕ → Action R Error ℕ
  hop phdr m = lift (add_word phdr.p_offset m) >>= λ target.
      seek_or rs (start target) (elf seek_note_header) >>= λ _. pure m

  -- What follows the two aligned sizes in `skip_note`.
  abbrev padded : Elf64Phdr → ℕ → ℕ → ℕ → Action R Error ℕ
  padded phdr n namesz descsz =
      raise_if (ltb (2 ^ 32 - 1) namesz || ltb (2 ^ 32 - 1) descsz) (elf overflow)
      >> (lift (ok_or (note_end n namesz descsz) (elf overflow)) >>= hop phdr)

  -- The last step of `read_entry`.
  abbrev entry_word : Action R Error PvhBootCapability
  entry_word =
      read_or rs 4 (elf read_note_header) >>= λ bs. pure (pvh_entry_present (from_le_bytes bs))

  -- What follows the offset to the descriptor in `read_entry`.
  abbrev described : Elf64Nhdr → ℤ → Action R Error PvhBootCapability
  described nhdr offset = seek_or rs (current offset) (elf seek_note_header) >>= λ _.
      raise_if (ltb nhdr.n_descsz 4) (elf invalid_pvh_note) >> entry_word

module _ {R M : Type 0} {rs : ReadSeek R} {tr : Transfer R M} {image : IsImage rs}
    {has_room : M → ℕ → ℕ → Bool} (works : IsWorking tr image has_room) where
  seek_to-Alike :
      (n : ℕ) (e : Error) → Alike image (seek_or rs (start n) e) (seek_or cursor (start n) e)
  seek_to-Alike n e =
      Alike-map_err image e (rs.seek (start n)) (cursor.seek (start n)) (seek_start-Alike works n)

  seek_on-Alike :
      (d : ℤ) (e : Error) → Alike image (seek_or rs (current d) e) (seek_or cursor (current d) e)
  seek_on-Alike d e =
      Alike-map_err image e (rs.seek (current d)) (cursor.seek (current d))
        (seek_current-Alike works d)

  read_or-Alike : (n : ℕ) (e : Error) → Alike image (read_or rs n e) (read_or cursor n e)
  read_or-Alike n e =
      Alike-map_err image e (rs.read_exact n) (cursor.read_exact n) (read-Alike works n)

  is_pvh_note-Alike :
      (nhdr : Elf64Nhdr) → Alike image (is_pvh_note rs nhdr) (is_pvh_note cursor nhdr)
  unfolding is_pvh_note
  is_pvh_note-Alike nhdr r c same =
      elim (Bool-cases
        (nhdr.n_type == xen_elfnote_phys32_entry && nhdr.n_namesz == pvh_note_str_sz)) [
          | inl fits ↦ rw fits (
              Alike-bind image (read_or rs pvh_note_str_sz (elf read_note_header))
                (read_or cursor pvh_note_str_sz (elf read_note_header)) (λ bs. pure (is_xen bs))
                (λ bs. pure (is_xen bs)) (read_or-Alike pvh_note_str_sz (elf read_note_header))
                (λ bs. Alike-lift image (ok (is_xen bs))) r c same)
          | inr differs ↦ rw differs (Alike-lift image (ok false) r c same)
        ]

  hop-Alike : (phdr : Elf64Phdr) (m : ℕ) → Alike image (hop rs phdr m) (hop cursor phdr m)
  hop-Alike phdr m =
      Alike-step image (add_word phdr.p_offset m)
        (λ target. seek_or rs (start target) (elf seek_note_header) >>= λ _. pure m)
        (λ target. seek_or cursor (start target) (elf seek_note_header) >>= λ _. pure m)
        λ target.
          Alike-bind image (seek_or rs (start target) (elf seek_note_header))
            (seek_or cursor (start target) (elf seek_note_header)) (λ _. pure m) (λ _. pure m)
            (seek_to-Alike target (elf seek_note_header)) (λ _. Alike-lift image (ok m))

  padded-Alike :
      (phdr : Elf64Phdr) (n namesz descsz : ℕ)
      → Alike image (padded rs phdr n namesz descsz) (padded cursor phdr n namesz descsz)
  padded-Alike phdr n namesz descsz =
      Alike-raise image (ltb (2 ^ 32 - 1) namesz || ltb (2 ^ 32 - 1) descsz) (elf overflow)
        (lift (ok_or (note_end n namesz descsz) (elf overflow)) >>= hop rs phdr)
        (lift (ok_or (note_end n namesz descsz) (elf overflow)) >>= hop cursor phdr)
        (Alike-step image (ok_or (note_end n namesz descsz) (elf overflow)) (hop rs phdr)
          (hop cursor phdr) (hop-Alike phdr))

  skip_note-Alike :
      (phdr : Elf64Phdr) (nhdr : Elf64Nhdr) (n : ℕ)
      → Alike image (skip_note rs phdr nhdr n) (skip_note cursor phdr nhdr n)
  unfolding skip_note
  skip_note-Alike phdr nhdr n =
      let namesz = map_err elf (align_up nhdr.n_namesz phdr.p_align) in
      let descsz = map_err elf (align_up nhdr.n_descsz phdr.p_align) in
      Alike-step image namesz (λ a. lift descsz >>= padded rs phdr n a)
        (λ a. lift descsz >>= padded cursor phdr n a)
        λ a.
          Alike-step image descsz (padded rs phdr n a) (padded cursor phdr n a)
            (padded-Alike phdr n a)

  next_note-Alike :
      (phdr : Elf64Phdr) (nhdr : Elf64Nhdr) (n : ℕ) (again : ℕ → Action R Error (Elf64Nhdr × ℕ))
      (again' : ℕ → Action Cursor Error (Elf64Nhdr × ℕ)) (stop : Bool)
      → ((m : ℕ) → Alike image (again m) (again' m))
      → Alike image (next_note rs phdr nhdr n again stop) (next_note cursor phdr nhdr n again' stop)
  next_note-Alike phdr nhdr n again again' true h = Alike-lift image (ok (nhdr, n))
  next_note-Alike phdr nhdr n again again' false h =
      Alike-bind image (skip_note rs phdr nhdr n) (skip_note cursor phdr nhdr n) again again'
        (skip_note-Alike phdr nhdr n) h

  note_body-Alike :
      (phdr : Elf64Phdr) (n : ℕ) (again : Elf64Nhdr → ℕ → Action R Error (Elf64Nhdr × ℕ))
      (again' : Elf64Nhdr → ℕ → Action Cursor Error (Elf64Nhdr × ℕ))
      → ((nhdr : Elf64Nhdr) (m : ℕ) → Alike image (again nhdr m) (again' nhdr m))
      → Alike image (note_body rs phdr n again) (note_body cursor phdr n again')
  note_body-Alike phdr n again again' h =
      Alike-bind image (read_or rs nhdr_size (elf read_note_header))
        (read_or cursor nhdr_size (elf read_note_header))
        (λ bs.
          is_pvh_note rs (nhdr_of_bytes bs)
          >>= next_note rs phdr (nhdr_of_bytes bs) n (again (nhdr_of_bytes bs)))
        (λ bs.
          is_pvh_note cursor (nhdr_of_bytes bs)
          >>= next_note cursor phdr (nhdr_of_bytes bs) n (again' (nhdr_of_bytes bs)))
        (read_or-Alike nhdr_size (elf read_note_header))
        λ bs.
          Alike-bind image (is_pvh_note rs (nhdr_of_bytes bs))
            (is_pvh_note cursor (nhdr_of_bytes bs))
            (next_note rs phdr (nhdr_of_bytes bs) n (again (nhdr_of_bytes bs)))
            (next_note cursor phdr (nhdr_of_bytes bs) n (again' (nhdr_of_bytes bs)))
            (is_pvh_note-Alike (nhdr_of_bytes bs))
            λ stop.
              next_note-Alike phdr (nhdr_of_bytes bs) n (again (nhdr_of_bytes bs))
                (again' (nhdr_of_bytes bs)) stop (h (nhdr_of_bytes bs))

  note_loop-Alike :
      (fuel : ℕ) (phdr : Elf64Phdr) (nhdr : Elf64Nhdr) (n : ℕ)
      → Alike image (note_loop rs fuel phdr nhdr n) (note_loop cursor fuel phdr nhdr n)
  unfolding note_loop
  note_loop-Alike zero phdr nhdr n r c same = elim (Bool-cases (ltb n phdr.p_filesz)) [
    | inl more ↦ rw more (Alike-lift image panic r c same)
    | inr done ↦ rw done (Alike-lift image (ok (nhdr, n)) r c same)
  ]
  note_loop-Alike (suc fuel) phdr nhdr n r c same = elim (Bool-cases (ltb n phdr.p_filesz)) [
    | inl more ↦ rw more (
        note_body-Alike phdr n (note_loop rs fuel phdr) (note_loop cursor fuel phdr)
          (note_loop-Alike fuel phdr) r c same)
    | inr done ↦ rw done (Alike-lift image (ok (nhdr, n)) r c same)
  ]

  described-Alike :
      (nhdr : Elf64Nhdr) (offset : ℤ)
      → Alike image (described rs nhdr offset) (described cursor nhdr offset)
  described-Alike nhdr offset =
      Alike-bind image (seek_or rs (current offset) (elf seek_note_header))
        (seek_or cursor (current offset) (elf seek_note_header))
        (λ _. raise_if (ltb nhdr.n_descsz 4) (elf invalid_pvh_note) >> entry_word rs)
        (λ _. raise_if (ltb nhdr.n_descsz 4) (elf invalid_pvh_note) >> entry_word cursor)
        (seek_on-Alike offset (elf seek_note_header))
        λ _.
          Alike-raise image (ltb nhdr.n_descsz 4) (elf invalid_pvh_note) (entry_word rs)
            (entry_word cursor)
            (Alike-bind image (read_or rs 4 (elf read_note_header))
              (read_or cursor 4 (elf read_note_header))
              (λ bs. pure (pvh_entry_present (from_le_bytes bs)))
              (λ bs. pure (pvh_entry_present (from_le_bytes bs)))
              (read_or-Alike 4 (elf read_note_header))
              (λ bs. Alike-lift image (ok (pvh_entry_present (from_le_bytes bs)))))

  read_entry-Alike :
      (phdr : Elf64Phdr) (nhdr : Elf64Nhdr)
      → Alike image (read_entry rs phdr nhdr) (read_entry cursor phdr nhdr)
  unfolding read_entry
  read_entry-Alike phdr nhdr =
      let namesz = map_err elf (align_up nhdr.n_namesz phdr.p_align) in
      Alike-step image namesz (λ a. lift (sub_i64 (as_i64 a) pvh_note_str_sz) >>= described rs nhdr)
        (λ a. lift (sub_i64 (as_i64 a) pvh_note_str_sz) >>= described cursor nhdr)
        λ a.
          Alike-step image (sub_i64 (as_i64 a) pvh_note_str_sz) (described rs nhdr)
            (described cursor nhdr) (described-Alike nhdr)

  after_loop-Alike :
      (phdr : Elf64Phdr) (found : Elf64Nhdr × ℕ)
      → Alike image (after_loop rs phdr found) (after_loop cursor phdr found)
  unfolding after_loop
  after_loop-Alike phdr found r c same = elim (Bool-cases (leb phdr.p_filesz found.1)) [
    | inl over ↦ rw over (Alike-lift image (ok pvh_entry_not_present) r c same)
    | inr inside ↦ rw inside (read_entry-Alike phdr found.0 r c same)
  ]

  pub parse_elf_note-Alike :
      (phdr : Elf64Phdr) → Alike image (parse_elf_note rs phdr) (parse_elf_note cursor phdr)
  unfolding parse_elf_note
  parse_elf_note-Alike phdr =
      Alike-bind image (seek_or rs (start phdr.p_offset) (elf seek_note_header))
        (seek_or cursor (start phdr.p_offset) (elf seek_note_header))
        (λ _. note_loop rs phdr.p_filesz phdr default_nhdr 0 >>= after_loop rs phdr)
        (λ _. note_loop cursor phdr.p_filesz phdr default_nhdr 0 >>= after_loop cursor phdr)
        (seek_to-Alike phdr.p_offset (elf seek_note_header))
        λ _.
          Alike-bind image (note_loop rs phdr.p_filesz phdr default_nhdr 0)
            (note_loop cursor phdr.p_filesz phdr default_nhdr 0) (after_loop rs phdr)
            (after_loop cursor phdr) (note_loop-Alike phdr.p_filesz phdr default_nhdr 0)
            (after_loop-Alike phdr)
