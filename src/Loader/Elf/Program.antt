-- ===== src/Loader/Elf/Program.antt =====
-- `Elf::load` of src/loader/x86_64/elf/mod.rs in two parts: the header, and what follows it.
use linux_loader.Base.{
  ℕ, false, List, Option, none, ◌≡◌, refl, sym, ap, ◌∙◌, arith, max, take, drop,
}
use linux_loader.Base.Outcome.{
  ok, Action, pure, lift, raise_if, ◌>>=◌, ◌>>◌, map_err, bind-eq-ok, run_from_to,
}
use linux_loader.Reader.{start, ReadSeek, Machine, Transfer, IsImage, IsTransfer, on_image}
use linux_loader.Reader.Steps.{IsCalm, seek_start-ok, read_exact-step}
use linux_loader.LoaderGen.Elf.{Elf64Ehdr, Elf64Phdr, ehdr_size, ehdr_of_bytes}
use linux_loader.Loader.Errors.Elf.{
  overflow, seek_program_header, invalid_entry_address, seek_elf_start, read_elf_header,
}
use linux_loader.Loader.{Error, elf, KernelLoaderResult, default_result}
use linux_loader.Loader.Elf.{
  validate_header, is_low_entry, relocate, read_header, read_phdrs, load_phdrs, load_program,
}
use linux_loader.Loader.Elf.Segments.{moved, segments_end, relocate-ok, load_phdrs-ok}
use linux_loader.Loader.Elf.Cap.{none-IsCap, load_phdrs-IsCap}
use mathlib.Core.Path.{subst}
use linux_loader.Loader.Elf.Image.{last_note, IsCap, header_of, phdr_table, loaded_byte}
use linux_loader.Loader.Elf.Placed.{read_phdrs-table, load_phdrs-copied}

module _ {R M : Type 0} {rs : ReadSeek R} {tr : Transfer R M} {peek : M → ℕ → Option ℕ}
    (image : IsImage rs) (laws : IsTransfer rs tr peek) where
  pub read_header-image :
      (highmem_start : Option ℕ) (s s' : Machine R M) (ehdr : Elf64Ehdr)
      → read_header rs tr highmem_start s ≡ (ok ehdr, s')
      → (ehdr ≡ header_of (image.bytes s.image))
        × (validate_header ehdr ≡ ok tt)
        × (is_low_entry ehdr highmem_start ≡ false)
        × IsCalm image s s'
  unfolding read_header
  read_header-image highmem_start s s' ehdr h =
      let checked : List ℕ → Action (Machine R M) Error Elf64Ehdr = λ bs.
        lift (map_err elf (validate_header (ehdr_of_bytes bs)))
        >> (raise_if (is_low_entry (ehdr_of_bytes bs) highmem_start) (elf invalid_entry_address)
            >> pure (ehdr_of_bytes bs)) in
      let (a, s₁, e₁, h₁) =
        bind-eq-ok (on_image (rs.seek (start 0)) (elf seek_elf_start))
          (λ _. on_image (rs.read_exact ehdr_size) (elf read_elf_header) >>= checked) s s' ehdr h in
      let (bs, s₂, e₂, h₂) =
        bind-eq-ok (on_image (rs.read_exact ehdr_size) (elf read_elf_header)) checked s₁ s' ehdr
          h₁ in
      let (at, (same, kept)) = seek_start-ok image (elf seek_elf_start) 0 a s s₁ e₁ in
      let (taken, _, (same', kept')) =
        read_exact-step image (elf read_elf_header) ehdr_size s₁ s₂ bs e₂ in
      let end : s₂ ≡ s' = ground arith in
      let made : ehdr_of_bytes bs ≡ ehdr = ground arith in
      (
        sym made
            ∙ ap ehdr_of_bytes (
                taken
                ∙ ap (λ q. take ehdr_size (drop q (image.bytes s₁.image))) at
                ∙ ap (λ b. take ehdr_size b) same),
        ground arith,
        ground arith,
        (
          ap (λ m. image.bytes m.image) (sym end) ∙ same' ∙ same,
          ap (λ m. m.memory) (sym end) ∙ kept' ∙ kept,
        ),
      )

  -- The table, read behind a seek.
  pub table_at :
      (n offset a : ℕ) (s s₁ s₂ : Machine R M) (phdrs : List Elf64Phdr)
      → on_image (rs.seek (start offset)) (elf seek_program_header) s ≡ (ok a, s₁)
      → read_phdrs rs tr n s₁ ≡ (ok phdrs, s₂)
      → (phdrs ≡ phdr_table n (drop offset (image.bytes s.image))) × IsCalm image s s₂
  table_at n offset a s s₁ s₂ phdrs e₁ e₂ =
      let (sought, (same₁, kept₁)) =
        seek_start-ok image (elf seek_program_header) offset a s s₁ e₁ in
      let (table, (same₂, kept₂)) = read_phdrs-table image laws n s₁ s₂ phdrs e₂ in
      (
        table
            ∙ ap (λ q. phdr_table n (drop q (image.bytes s₁.image))) sought
            ∙ ap (λ t. phdr_table n (drop offset t)) same₁,
        (same₂ ∙ same₁, kept₂ ∙ kept₁),
      )

  -- The segments of a table that is spelled in another way, from a state like `s`.
  segments_at :
      (kernel_offset : Option ℕ) (phdrs phdrs' : List Elf64Phdr) (a c : KernelLoaderResult)
      (s s₂ s₃ : Machine R M)
      → phdrs ≡ phdrs'
      → IsCalm image s s₂
      → load_phdrs rs tr kernel_offset phdrs a s₂ ≡ (ok c, s₃)
      → (c.kernel_load ≡ a.kernel_load)
        × (c.kernel_end ≡ max a.kernel_end (segments_end kernel_offset phdrs'))
        × (image.bytes s₃.image ≡ image.bytes s.image)
        × ((x : ℕ)
            → peek s₃.memory x
              ≡ loaded_byte (image.bytes s.image) kernel_offset phdrs' (peek s.memory x) x)
  segments_at kernel_offset phdrs phdrs' a c s s₂ s₃ spelled (same, kept) run =
      let (load, last) = load_phdrs-ok rs tr kernel_offset phdrs a c s₂ s₃ run in
      let (same', bytes) = load_phdrs-copied image laws kernel_offset phdrs a c s₂ s₃ run in
      (
        load,
        last ∙ ap (λ t. max a.kernel_end (segments_end kernel_offset t)) spelled,
        same' ∙ same,
        λ x.
            bytes x
            ∙ ap (λ t. loaded_byte t kernel_offset phdrs (peek s₂.memory x) x) same
            ∙ ap (λ t. loaded_byte (image.bytes s.image) kernel_offset t (peek s₂.memory x) x)
                spelled
            ∙ ap (λ m. loaded_byte (image.bytes s.image) kernel_offset phdrs' (peek m x) x) kept,
      )

  -- What a program leaves: its bytes, and the result.
  abbrev pub IsProgram :
      Option ℕ
      → Elf64Ehdr
      → List Elf64Phdr
      → KernelLoaderResult
      → Machine R M
      → Machine R M
      → Type 0
  IsProgram kernel_offset ehdr phdrs b s s' =
      (b.kernel_load ≡ moved kernel_offset ehdr.e_entry)
      × (b.kernel_end ≡ segments_end kernel_offset phdrs)
      × (b.setup_header ≡ none)
      × IsCap (image.bytes s.image) kernel_offset (last_note none phdrs) b.pvh_boot_cap
      × (image.bytes s'.image ≡ image.bytes s.image)
      × ((x : ℕ)
          → peek s'.memory x
            ≡ loaded_byte (image.bytes s.image) kernel_offset phdrs (peek s.memory x) x)

  finished :
      (kernel_offset : Option ℕ) (ehdr : Elf64Ehdr) (load : ℕ) (phdrs phdrs' : List Elf64Phdr)
      (b c : KernelLoaderResult) (s s' : Machine R M)
      → load ≡ moved kernel_offset ehdr.e_entry
      → record c { setup_header = none } ≡ b
      → c.kernel_load ≡ load
      → c.kernel_end ≡ max 0 (segments_end kernel_offset phdrs)
      → phdrs' ≡ phdrs
      → IsCap (image.bytes s.image) kernel_offset (last_note none phdrs') c.pvh_boot_cap
      → image.bytes s'.image ≡ image.bytes s.image
      → ((x : ℕ)
          → peek s'.memory x
            ≡ loaded_byte (image.bytes s.image) kernel_offset phdrs (peek s.memory x) x)
      → IsProgram kernel_offset ehdr phdrs b s s'
  finished kernel_offset ehdr load phdrs phdrs' b c s s' at made loaded last spelled entry same
        bytes =
      (
        ground arith,
        ground arith,
        ground arith,
        subst (IsCap (image.bytes s.image) kernel_offset (last_note none phdrs))
            (ap (λ r. r.pvh_boot_cap) made)
            (subst
              (λ t. IsCap (image.bytes s.image) kernel_offset (last_note none t) c.pvh_boot_cap)
              spelled entry),
        same,
        bytes,
      )

  pub load_program-image :
      (kernel_offset : Option ℕ) (ehdr : Elf64Ehdr) (s s' : Machine R M) (b : KernelLoaderResult)
      → load_program rs tr kernel_offset ehdr s ≡ (ok b, s')
      → IsProgram kernel_offset ehdr
          (phdr_table ehdr.e_phnum (drop ehdr.e_phoff (image.bytes s.image)))
          b
          s
          s'
  unfolding load_program
  load_program-image kernel_offset ehdr s s' b h =
      let finish : KernelLoaderResult → Action (Machine R M) Error KernelLoaderResult =
        λ result. pure (record result { setup_header = none }) in
      let rest : ℕ → List Elf64Phdr → Action (Machine R M) Error KernelLoaderResult = λ load phdrs.
        load_phdrs rs tr kernel_offset phdrs (record default_result { kernel_load = load })
        >>= finish in
      let (load, s₀, e₀, h₀) =
        bind-eq-ok (lift (relocate kernel_offset ehdr.e_entry (elf overflow)))
          (λ load. on_image (rs.seek (start ehdr.e_phoff)) (elf seek_program_header) >>= λ _.
            read_phdrs rs tr ehdr.e_phnum >>= rest load)
          s s' b h in
      let (a, s₁, e₁, h₁) =
        bind-eq-ok (on_image (rs.seek (start ehdr.e_phoff)) (elf seek_program_header))
          (λ _. read_phdrs rs tr ehdr.e_phnum >>= rest load) s₀ s' b h₀ in
      let (phdrs, s₂, e₂, h₂) = bind-eq-ok (read_phdrs rs tr ehdr.e_phnum) (rest load) s₁ s' b h₁ in
      let (c, s₃, e₃, h₃) =
        bind-eq-ok
          (load_phdrs rs tr kernel_offset phdrs (record default_result { kernel_load = load }))
          finish s₂ s' b h₂ in
      let at = relocate-ok kernel_offset ehdr.e_entry load (elf overflow) (ap (λ p. p.0) e₀) in
      let sought =
        run_from_to (on_image (rs.seek (start ehdr.e_phoff)) (elf seek_program_header)) s s₀ s₁ s₁ a
          (ap (λ p. p.1) e₀) e₁ refl in
      let (table, calm) = table_at ehdr.e_phnum ehdr.e_phoff a s s₁ s₂ phdrs sought e₂ in
      let ended =
        run_from_to
          (load_phdrs rs tr kernel_offset phdrs (record default_result { kernel_load = load })) s₂
          s₂ s₃ s' c refl e₃ (ap (λ p. p.1) h₃) in
      let (loaded, last, same, bytes) =
        segments_at kernel_offset phdrs
          (phdr_table ehdr.e_phnum (drop ehdr.e_phoff (image.bytes s.image)))
          (record default_result { kernel_load = load }) c s s₂ s' table calm ended in
      finished kernel_offset ehdr load
        (phdr_table ehdr.e_phnum (drop ehdr.e_phoff (image.bytes s.image))) phdrs b c s s' at
        (ground arith) loaded last table
        (load_phdrs-IsCap image laws kernel_offset (image.bytes s.image) phdrs none
          (record default_result { kernel_load = load }) c s₂ s' calm.0
          (none-IsCap (image.bytes s.image) kernel_offset) ended)
        same bytes
