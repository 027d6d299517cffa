-- ===== src/Loader/Elf/Note.antt =====
-- src/loader/x86_64/elf/mod.rs: `align_up` and `parse_elf_note`, which looks for the PVH entry point.
use linux_loader.Base.{
  ℕ, zero, suc, ◌-◌, ◌^◌, Bool, true, false, ◌&&◌, ◌||◌, not, List, [], ◌∷◌, Option, none, some,
  bit_and, bit_or, ltb, leb, ◌==◌, if◌then◌else◌,
}
use linux_loader.Base.Int.{as_i64, sub_i64}
use linux_loader.Base.Word.{checked_add, add_word}
use linux_loader.Base.Outcome.{
  Result, ok, err, panic, Action, pure, lift, raise_if, ◌>>=◌, ◌>>◌, ok_or, map_err,
}
use linux_loader.Reader.{SeekFrom, start, current, ReadSeek}
use linux_loader.LoaderGen.{from_le_bytes}
use linux_loader.LoaderGen.Elf.{Elf64Phdr, Elf64Nhdr, nhdr_size, nhdr_of_bytes}
use linux_loader.Loader.Errors.Elf.{
  ElfError, align, overflow, seek_note_header, read_note_header, invalid_pvh_note,
}
use linux_loader.Loader.{Error, elf, PvhBootCapability, pvh_entry_present, pvh_entry_not_present}

abbrev pub pvh_note_str_sz : ℕ
pvh_note_str_sz = 4

abbrev pub xen_elfnote_phys32_entry : ℕ
xen_elfnote_phys32_entry = 18

-- `u64::is_power_of_two`: one of 2^0 to 2^(w - 1).
unfoldable pub is_power_below : ℕ → ℕ → Bool
is_power_below zero n = false
is_power_below (suc w) n = n == 2 ^ w || is_power_below w n

unfoldable pub is_power_of_two : ℕ → Bool
is_power_of_two = is_power_below 64

unfoldable pub align_up : ℕ → ℕ → Result ElfError ℕ
align_up addr alignment =
    if not (is_power_of_two alignment)
    then err align
    else if bit_and addr (alignment - 1) == 0
    then ok addr
    else add_word (bit_or addr (alignment - 1)) 1

-- `read_size` plus the size of a note with the two aligned sizes, in `usize`.
unfoldable pub note_end : ℕ → ℕ → ℕ → Option ℕ
note_end read_size namesz descsz = plus (plus (checked_add read_size nhdr_size) namesz) descsz
  where
    plus : Option ℕ → ℕ → Option ℕ
    plus none n = none
    plus (some m) n = checked_add m n

abbrev pub default_nhdr : Elf64Nhdr
default_nhdr = record { n_namesz = 0; n_descsz = 0; n_type = 0 }

unfoldable pub is_xen : List ℕ → Bool
is_xen (a ∷ b ∷ c ∷ d ∷ []) = a == b'X' && b == b'e' && c == b'n' && d == 0
is_xen bs = false

module _ {R : Type 0} (rs : ReadSeek R) where
  abbrev pub seek_or : SeekFrom → Error → Action R Error ℕ
  seek_or target e r = let (a, r') = rs.seek target r in (map_err (λ _. e) a, r')

  abbrev pub read_or : ℕ → Error → Action R Error (List ℕ)
  read_or n e r = let (a, r') = rs.read_exact n r in (map_err (λ _. e) a, r')

  -- The test of the header that was just read, with the read of the name: whether to stop here.
  unfoldable pub is_pvh_note : Elf64Nhdr → Action R Error Bool
  unfolding is_xen
  is_pvh_note nhdr r =
      if nhdr.n_type == xen_elfnote_phys32_entry && nhdr.n_namesz == pvh_note_str_sz
      then (do buf ← read_or pvh_note_str_sz (elf read_note_header); pure (is_xen buf)) r
      else pure false r

  -- Behind the note `nhdr`: the new `read_size`.
  unfoldable pub skip_note : Elf64Phdr → Elf64Nhdr → ℕ → Action R Error ℕ
  skip_note phdr nhdr read_size = do
    namesz ← lift (map_err elf (align_up nhdr.n_namesz phdr.p_align))
    descsz ← lift (map_err elf (align_up nhdr.n_descsz phdr.p_align))
    raise_if (ltb (2 ^ 32 - 1) namesz || ltb (2 ^ 32 - 1) descsz) (elf overflow)
    read_size' ← lift (ok_or (note_end read_size namesz descsz) (elf overflow))
    target ← lift (add_word phdr.p_offset read_size')
    _ ← seek_or (start target) (elf seek_note_header)
    pure read_size'

  -- What follows the test: out of the loop, or on to the next note, `again` standing for the loop.
  abbrev pub next_note :
      Elf64Phdr
      → Elf64Nhdr
      → ℕ
      → (ℕ → Action R Error (Elf64Nhdr × ℕ))
      → Bool
      → Action R Error (Elf64Nhdr × ℕ)
  next_note phdr nhdr read_size again true = pure (nhdr, read_size)
  next_note phdr nhdr read_size again false = skip_note phdr nhdr read_size >>= again

  -- The loop's body, at a `read_size` below `p_filesz`.
  abbrev pub note_body :
      Elf64Phdr
      → ℕ
      → (Elf64Nhdr → ℕ → Action R Error (Elf64Nhdr × ℕ))
      → Action R Error (Elf64Nhdr × ℕ)
  note_body phdr read_size again = do
    bs ← read_or nhdr_size (elf read_note_header)
    stop ← is_pvh_note (nhdr_of_bytes bs)
    next_note phdr (nhdr_of_bytes bs) read_size (again (nhdr_of_bytes bs)) stop

  -- The loop: the note header read last, and `read_size`. Each round makes `read_size` grow, so
  -- `p_filesz` rounds are enough.
  unfoldable pub note_loop : ℕ → Elf64Phdr → Elf64Nhdr → ℕ → Action R Error (Elf64Nhdr × ℕ)
  note_loop zero phdr nhdr read_size r =
      if ltb read_size phdr.p_filesz then (panic, r) else (ok (nhdr, read_size), r)
  note_loop (suc fuel) phdr nhdr read_size r =
      if ltb read_size phdr.p_filesz
      then note_body phdr read_size (note_loop fuel phdr) r
      else (ok (nhdr, read_size), r)

  -- The entry point that the descriptor of the note holds.
  unfoldable pub read_entry : Elf64Phdr → Elf64Nhdr → Action R Error PvhBootCapability
  read_entry phdr nhdr = do
    namesz ← lift (map_err elf (align_up nhdr.n_namesz phdr.p_align))
    offset ← lift (sub_i64 (as_i64 namesz) pvh_note_str_sz)
    _ ← seek_or (current offset) (elf seek_note_header)
    raise_if (ltb nhdr.n_descsz 4) (elf invalid_pvh_note)
    bs ← read_or 4 (elf read_note_header)
    pure (pvh_entry_present (from_le_bytes bs))

  -- What follows the loop.
  unfoldable pub after_loop : Elf64Phdr → Elf64Nhdr × ℕ → Action R Error PvhBootCapability
  after_loop phdr found r =
      if leb phdr.p_filesz found.1 then (ok pvh_entry_not_present, r) else read_entry phdr found.0 r

  unfoldable pub parse_elf_note : Elf64Phdr → Action R Error PvhBootCapability
  parse_elf_note phdr = do
    _ ← seek_or (start phdr.p_offset) (elf seek_note_header)
    found ← note_loop phdr.p_filesz phdr default_nhdr 0
    after_loop phdr found
