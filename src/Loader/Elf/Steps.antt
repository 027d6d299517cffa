-- ===== src/Loader/Elf/Steps.antt =====
-- The steps of `Elf::load` of src/loader/x86_64/elf/mod.rs on an image that can be read without a fault.
use linux_loader.Base.{
  ℕ, zero, suc, ◌+◌, ◌-◌, Bool, true, false, ◌&&◌, List, ◌∷◌, Option, none, some, ◌≡◌, refl, ap,
  ◌∙◌, arith, leb, if◌then◌else◌, length, take, drop, drop-drop,
}
use linux_loader.Base.Word.{checked_add}
use linux_loader.Base.Outcome.{
  Result, ok, err, Action, pure, lift, raise_if, map_err, ◌>>=◌, ◌>>◌, ok_or, and_then,
}
use linux_loader.Reader.{ReadSeek, Machine, Transfer, IsImage, on_image, on_machine}
use linux_loader.Reader.Working.{IsWorking}
use linux_loader.Reader.Gives.{
  Gives, GivesAt, Gives-lift, Gives-bind, GivesAt-bind, GivesAt-lift, Gives-raise, Gives-seek,
  GivesAt-read, GivesAt-copy,
}
use linux_loader.LoaderGen.Elf.{
  Elf64Ehdr, Elf64Phdr, ehdr_size, phdr_size, ehdr_of_bytes, phdr_of_bytes,
}
use linux_loader.Loader.Errors.Elf.{
  invalid_program_header_address, invalid_entry_address, read_elf_header, read_kernel_image,
  read_program_header, seek_kernel_start, seek_elf_start,
}
use linux_loader.Loader.{Error, elf, memory_overflow}
use linux_loader.Loader.Elf.{
  validate_header, is_low_entry, relocate, read_phdrs, load_segment, read_header,
}
use linux_loader.Loader.Elf.Image.{header_of, phdr_table}
use linux_loader.Loader.Elf.Segments.{moved}
use linux_loader.Loader.Elf.Meaning.{is_moved_out, header_outcome, table_outcome, segment_outcome}
use native.Mathlib.Nat.{suc-mul}

pub relocate_lem :
    (kernel_offset : Option ℕ) (addr : ℕ) (e : Error)
    → relocate kernel_offset addr e
      ≡ (if is_moved_out kernel_offset addr then err e else ok (moved kernel_offset addr))
unfolding relocate
relocate_lem none addr e = refl
relocate_lem (some k_offset) addr e = ground arith

-- One header more.
table_more :
    (n p : ℕ) (image : List ℕ)
    → (if leb phdr_size (length image - p)
        then and_then
            (table_outcome n (p + phdr_size) image)
            (λ phdrs. ok (phdr_of_bytes (take phdr_size (drop p image)) ∷ phdrs))
        else err (elf read_program_header))
      ≡ table_outcome (suc n) p image
unfolding phdr_table
table_more n p image = ground (arith, suc-mul n phdr_size, drop-drop p phdr_size image)

-- The end of a segment, by the steps of the code.
segment_lem :
    (kernel_offset : Option ℕ) (has_room : ℕ → ℕ → Bool) (image : List ℕ) (phdr : Elf64Phdr)
    → and_then (relocate kernel_offset phdr.p_paddr (elf invalid_program_header_address)) (λ at.
      if leb phdr.p_filesz (length image - phdr.p_offset) && has_room at phdr.p_filesz
      then ok_or (checked_add at phdr.p_memsz) memory_overflow
      else err (elf read_kernel_image))
      ≡ segment_outcome kernel_offset has_room image phdr
segment_lem kernel_offset has_room image phdr =
    rw (relocate_lem kernel_offset phdr.p_paddr (elf invalid_program_header_address)) (ground arith)

pub placed_lem :
    {A B : Type 0} (out : Bool) (e : Error) (a : A) (w : A → Result Error B)
    → and_then (if out then err e else ok a) w ≡ (if out then err e else w a)
placed_lem true e a w = refl
placed_lem false e a w = refl

pub said {κ ℓ} : {A : Type κ} {K : Type ℓ} {r v w : A} → v ≡ w → (r ≡ v) × K → (r ≡ w) × K
said e (given, kept) = (given ∙ e, kept)

module _ {R M : Type 0} {rs : ReadSeek R} {tr : Transfer R M} {image : IsImage rs}
    {has_room : M → ℕ → ℕ → Bool} (works : IsWorking tr image has_room) (s : Machine R M) where
  abbrev pub bytes : List ℕ
  bytes = image.bytes s.image

  pub read_phdrs-Gives :
      (n p : ℕ) → GivesAt works s p (read_phdrs rs tr n) (table_outcome n p bytes)
  unfolding read_phdrs phdr_table
  read_phdrs-Gives zero p t same at = (ground arith, same)
  read_phdrs-Gives (suc n) p t same at =
      let join = λ (bs : List ℕ) (phdrs : List Elf64Phdr). phdr_of_bytes bs ∷ phdrs in
      let found = take phdr_size (drop p bytes) in
      said (table_more n p bytes) (
        GivesAt-read works s (elf read_program_header) p phdr_size
          (λ bs. read_phdrs rs tr n >>= λ phdrs. pure (join bs phdrs))
          (and_then (table_outcome n (p + phdr_size) bytes) (λ phdrs. ok (join found phdrs)))
          (GivesAt-bind works s (p + phdr_size) (read_phdrs rs tr n)
            (λ phdrs. pure (join found phdrs)) (table_outcome n (p + phdr_size) bytes)
            (λ phdrs. ok (join found phdrs)) (read_phdrs-Gives n (p + phdr_size))
            (λ phdrs _. Gives-lift works s (ok (join found phdrs))))
          t same at)

  pub load_segment-Gives :
      (kernel_offset : Option ℕ) (phdr : Elf64Phdr)
      → Gives works s
          (load_segment rs tr kernel_offset phdr)
          (segment_outcome kernel_offset (has_room s.memory) bytes phdr)
  unfolding load_segment
  load_segment-Gives kernel_offset phdr t same =
      let copy =
        λ (at : ℕ). on_machine (tr.read_exact_from at phdr.p_filesz) (elf read_kernel_image) in
      let finish = λ (at : ℕ). ok_or (checked_add at phdr.p_memsz) memory_overflow in
      let place = relocate kernel_offset phdr.p_paddr (elf invalid_program_header_address) in
      let copied = λ (at : ℕ).
        if leb phdr.p_filesz (length bytes - phdr.p_offset) && has_room s.memory at phdr.p_filesz
        then finish at
        else err (elf read_kernel_image) in
      said (segment_lem kernel_offset (has_room s.memory) bytes phdr) (
        Gives-seek works s (elf seek_kernel_start) phdr.p_offset
          (λ _. lift place >>= λ at. copy at >> lift (finish at)) (and_then place copied)
          (GivesAt-lift works s phdr.p_offset place (λ at. copy at >> lift (finish at)) copied
            λ at.
              GivesAt-copy works s (elf read_kernel_image) phdr.p_offset at phdr.p_filesz
                (lift (finish at)) (finish at) (Gives-lift works s (finish at)))
          t same)

  pub read_header-Gives :
      (highmem_start : Option ℕ)
      → Gives works s (read_header rs tr highmem_start) (header_outcome highmem_start bytes)
  unfolding read_header
  read_header-Gives highmem_start =
      let check : Elf64Ehdr → Action (Machine R M) Error Elf64Ehdr =
        λ h. raise_if (is_low_entry h highmem_start) (elf invalid_entry_address) >> pure h in
      let valid = λ (h : Elf64Ehdr). map_err elf (validate_header h) in
      let h = header_of bytes in
      let checked = λ (_ : Unit {0}).
        if is_low_entry h highmem_start then err (elf invalid_entry_address) else ok h in
      Gives-seek works s (elf seek_elf_start) 0
        (λ _. on_image (rs.read_exact ehdr_size) (elf read_elf_header) >>= λ bs.
          lift (valid (ehdr_of_bytes bs)) >> check (ehdr_of_bytes bs))
        (header_outcome highmem_start bytes)
        λ t same at.
          said
            (ap
              (λ k.
                if leb ehdr_size k then and_then (valid h) checked else err (elf read_elf_header))
              (omega arith))
            (GivesAt-read works s (elf read_elf_header) 0 ehdr_size
              (λ bs. lift (valid (ehdr_of_bytes bs)) >> check (ehdr_of_bytes bs))
              (and_then (valid h) checked)
              (λ u kept _.
                Gives-bind works s (lift (valid h)) (λ _. check h) (valid h) checked
                  (Gives-lift works s (valid h))
                  (λ _ _.
                    Gives-raise works s (is_low_entry h highmem_start) (elf invalid_entry_address)
                      (pure h) (ok h) (Gives-lift works s (ok h)))
                  u kept)
              t same at)
