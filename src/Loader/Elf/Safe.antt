-- ===== src/Loader/Elf/Safe.antt =====
-- `Elf::load` of src/loader/x86_64/elf/mod.rs does not panic on an image whose notes are within bounds.
use linux_loader.Loader.Elf.Program.{table_at, read_header-image}
use linux_loader.Loader.Elf.Image.{phdr_table, phdrs_of}
use linux_loader.Base.{
  ℕ, zero, suc, ◌+◌, ◌≤◌, ◌^◌, true, List, [], ◌∷◌, Option, none, some, ◌≡◌, ◌≢◌, ap, ◌∙◌, arith,
  ◌==◌, Bool-cases, inl, inr, drop, sym,
}
use mathlib.Core.Path.{subst}
use linux_loader.Base.Word.{two_64}
use linux_loader.Base.Outcome.{panic, pure, ◌>>=◌, bind_calm, lift, Action}
use linux_loader.Reader.{ReadSeek, Machine, Transfer, IsImage, IsTransfer, on_image, start}
use linux_loader.LoaderGen.Bytes.{are_bytes}
use linux_loader.LoaderGen.Elf.{Elf64Ehdr, Elf64Phdr, phdr_size, phdr_of_bytes}
use linux_loader.Loader.Errors.Elf.{read_program_header, overflow, seek_program_header}
use linux_loader.Loader.{Error, elf, KernelLoaderResult, default_result}
use linux_loader.Loader.Elf.{
  pt_note, validate_header, relocate, read_header, read_phdrs, load_segment, note_cap, load_phdr,
  load_phdrs, load_program, load_elf,
}
use linux_loader.Loader.Elf.NoteSafe.{parse_elf_note_calm}
use linux_loader.Loader.Elf.Placed.{load_phdr-copied}

-- A note segment that ends far below 2^64 and is not aligned to 2^63.
abbrev pub IsWithin : Elf64Phdr → Type 0
IsWithin phdr =
    phdr.p_type ≡ pt_note
    → (phdr.p_offset + phdr.p_filesz + 2 ^ 34 ≤ two_64) × (phdr.p_align ≢ 2 ^ 63)

abbrev pub AreWithin : List Elf64Phdr → Type 0
AreWithin [] = Unit
AreWithin (phdr ∷ phdrs) = IsWithin phdr × AreWithin phdrs

validate_header_calm : (ehdr : Elf64Ehdr) → validate_header ehdr ≢ panic
unfolding validate_header
validate_header_calm ehdr = ground arith

relocate_calm :
    (kernel_offset : Option ℕ) (addr : ℕ) (e : Error) → relocate kernel_offset addr e ≢ panic
unfolding relocate
relocate_calm none addr e = ground arith
relocate_calm (some k) addr e = ground arith

module _ {R M : Type 0} {rs : ReadSeek R} {tr : Transfer R M} {peek : M → ℕ → Option ℕ}
    (image : IsImage rs) (laws : IsTransfer rs tr peek)
    (calm : (addr count : ℕ) (s : Machine R M) → (tr.read_exact_from addr count s).0 ≢ panic) where
  read_header_calm :
      (highmem_start : Option ℕ) (s : Machine R M) → (read_header rs tr highmem_start s).0 ≢ panic
  unfolding read_header
  read_header_calm highmem_start s =
      grind (arith, image.seek_calm, image.read_calm, validate_header_calm)

  load_segment_calm :
      (kernel_offset : Option ℕ) (phdr : Elf64Phdr) (s : Machine R M)
      → (load_segment rs tr kernel_offset phdr s).0 ≢ panic
  unfolding load_segment
  load_segment_calm kernel_offset phdr s = grind (arith, image.seek_calm, calm, relocate_calm)

  note_cap_calm :
      (kernel_offset : Option ℕ) (phdr : Elf64Phdr) (s : Machine R M)
      → are_bytes (image.bytes s.image) ≡ true
      → phdr.p_offset + phdr.p_filesz + 2 ^ 34 ≤ two_64
      → phdr.p_align ≢ 2 ^ 63
      → (note_cap rs tr kernel_offset phdr s).0 ≢ panic
  unfolding note_cap
  note_cap_calm none phdr s bytes fits odd h =
      parse_elf_note_calm image phdr s.image bytes fits odd h
  note_cap_calm (some k) phdr s bytes fits odd h = cc

  load_phdr_calm :
      (kernel_offset : Option ℕ) (phdr : Elf64Phdr) (a : KernelLoaderResult) (s : Machine R M)
      → are_bytes (image.bytes s.image) ≡ true
      → IsWithin phdr
      → (load_phdr rs tr kernel_offset phdr a s).0 ≢ panic
  unfolding load_phdr
  load_phdr_calm kernel_offset phdr a s bytes within = elim (Bool-cases (phdr.p_type == pt_note)) [
    | inl note ↦
        (let (fits, odd) = within (ground arith) in
          ground (arith, note_cap_calm kernel_offset phdr s bytes fits odd))
    | inr other ↦ ground (arith, load_segment_calm kernel_offset phdr s)
  ]

  load_phdrs_calm :
      (kernel_offset : Option ℕ) (phdrs : List Elf64Phdr) (a : KernelLoaderResult) (s : Machine R M)
      → are_bytes (image.bytes s.image) ≡ true
      → AreWithin phdrs
      → (load_phdrs rs tr kernel_offset phdrs a s).0 ≢ panic
  unfolding load_phdrs
  load_phdrs_calm kernel_offset [] a s bytes within = λ h. cc
  load_phdrs_calm kernel_offset (phdr ∷ phdrs) a s bytes (first, others) =
      bind_calm (load_phdr rs tr kernel_offset phdr a) (load_phdrs rs tr kernel_offset phdrs) s
        (load_phdr_calm kernel_offset phdr a s bytes first)
        λ c s₁ e.
          load_phdrs_calm kernel_offset phdrs c s₁
            (ap are_bytes (load_phdr-copied image laws kernel_offset phdr a c s s₁ e).0 ∙ bytes)
            others

  read_phdrs_calm : (n : ℕ) (s : Machine R M) → (read_phdrs rs tr n s).0 ≢ panic
  unfolding read_phdrs
  read_phdrs_calm zero s = λ h. cc
  read_phdrs_calm (suc n) s =
      bind_calm (on_image (rs.read_exact phdr_size) (elf read_program_header))
        (λ bs. read_phdrs rs tr n >>= λ phdrs. pure (phdr_of_bytes bs ∷ phdrs)) s
        (ground (arith, image.read_calm phdr_size s.image))
        λ bs s₁ e.
          bind_calm (read_phdrs rs tr n) (λ phdrs. pure (phdr_of_bytes bs ∷ phdrs)) s₁
            (read_phdrs_calm n s₁) λ phdrs s₂ e₂ h. cc

  load_program_calm :
      (kernel_offset : Option ℕ) (ehdr : Elf64Ehdr) (s : Machine R M)
      → are_bytes (image.bytes s.image) ≡ true
      → AreWithin (phdr_table ehdr.e_phnum (drop ehdr.e_phoff (image.bytes s.image)))
      → (load_program rs tr kernel_offset ehdr s).0 ≢ panic
  unfolding load_program
  load_program_calm kernel_offset ehdr s bytes within =
      let finish : KernelLoaderResult → Action (Machine R M) Error KernelLoaderResult =
        λ result. pure (record result { setup_header = none }) in
      let rest : ℕ → List Elf64Phdr → Action (Machine R M) Error KernelLoaderResult = λ load phdrs.
        load_phdrs rs tr kernel_offset phdrs (record default_result { kernel_load = load })
        >>= finish in
      let sought : Action (Machine R M) Error ℕ =
        on_image (rs.seek (start ehdr.e_phoff)) (elf seek_program_header) in
      let table : ℕ → Action (Machine R M) Error KernelLoaderResult =
        λ load. sought >>= λ _. read_phdrs rs tr ehdr.e_phnum >>= rest load in
      bind_calm (lift (relocate kernel_offset ehdr.e_entry (elf overflow))) table s
        (relocate_calm kernel_offset ehdr.e_entry (elf overflow))
        λ load s₀ e₀.
          bind_calm sought (λ _. read_phdrs rs tr ehdr.e_phnum >>= rest load) s₀
            (ground (arith, image.seek_calm (start ehdr.e_phoff) s₀.image))
            λ a s₁ e₁.
              bind_calm (read_phdrs rs tr ehdr.e_phnum) (rest load) s₁
                (read_phdrs_calm ehdr.e_phnum s₁)
                λ phdrs s₂ e₂.
                  (let (spelled, (same, _)) =
                      table_at image laws ehdr.e_phnum ehdr.e_phoff a s₀ s₁ s₂ phdrs e₁ e₂ in
                    let from : s₀ ≡ s = ap (λ p. p.1) (sym e₀) in
                    bind_calm
                      (load_phdrs rs tr kernel_offset phdrs
                        (record default_result { kernel_load = load }))
                      finish s₂
                      (load_phdrs_calm kernel_offset phdrs
                        (record default_result { kernel_load = load }) s₂
                        (ap are_bytes (same ∙ ap (λ m. image.bytes m.image) from) ∙ bytes)
                        (subst AreWithin
                          (ap
                              (λ m.
                                phdr_table ehdr.e_phnum (drop ehdr.e_phoff (image.bytes m.image)))
                              (sym from)
                            ∙ sym spelled)
                          within))
                      λ c s₃ e₃ h. cc)

  -- A load of an ELF image does not panic, if the image consists of bytes, its note segments end at
  -- least 2^34 below 2^64 and are not aligned to 2^63, and the copy to guest memory does not panic:
  -- it returns a result or an error.
  pub load_elf_calm :
      (kernel_offset highmem_start : Option ℕ) (s : Machine R M)
      → are_bytes (image.bytes s.image) ≡ true
      → AreWithin (phdrs_of (image.bytes s.image))
      → (load_elf rs tr kernel_offset highmem_start s).0 ≢ panic
  unfolding load_elf
  load_elf_calm kernel_offset highmem_start s bytes within =
      bind_calm (read_header rs tr highmem_start) (load_program rs tr kernel_offset) s
        (read_header_calm highmem_start s)
        λ ehdr s₁ e.
          (let (spelled, _, _, (same, _)) =
              read_header-image image laws highmem_start s s₁ ehdr e in
            load_program_calm kernel_offset ehdr s₁ (ap are_bytes same ∙ bytes) (
              subst AreWithin
                (ap (λ h. phdr_table h.e_phnum (drop h.e_phoff (image.bytes s.image))) (sym spelled)
                  ∙ ap (λ b. phdr_table ehdr.e_phnum (drop ehdr.e_phoff b)) (sym same))
                within))
