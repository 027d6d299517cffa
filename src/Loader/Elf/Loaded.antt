-- ===== src/Loader/Elf/Loaded.antt =====
-- What a successful `Elf::load` of src/loader/x86_64/elf/mod.rs returns.
use linux_loader.Base.{ℕ, false, List, Option, none, ◌≡◌, ap, sym, ◌∙◌, arith, length}
use linux_loader.Base.Outcome.{ok, Action, pure, lift, raise_if, ◌>>=◌, ◌>>◌, map_err, bind-eq-ok}
use linux_loader.Reader.{start, ReadSeek, Machine, Transfer, on_image}
use linux_loader.LoaderGen.Elf.{Elf64Ehdr, Elf64Phdr, ehdr_size, ehdr_of_bytes}
use linux_loader.Loader.Errors.Elf.{
  overflow, seek_program_header, invalid_entry_address, seek_elf_start, read_elf_header,
}
use linux_loader.Loader.{Error, elf, KernelLoaderResult, default_result}
use linux_loader.Loader.Elf.{
  validate_header, is_low_entry, relocate, read_header, read_phdrs, load_phdrs, load_program,
  load_elf,
}
use linux_loader.Loader.Elf.Segments.{
  moved, segments_end, relocate-ok, load_phdrs-ok, read_phdrs-ok,
}

module _ {R M : Type 0} (rs : ReadSeek R) (tr : Transfer R M) where
  read_header-ok :
      (highmem_start : Option ℕ) (s s' : Machine R M) (ehdr : Elf64Ehdr)
      → read_header rs tr highmem_start s ≡ (ok ehdr, s')
      → (bs : List ℕ) × ((rs.read_exact ehdr_size (rs.seek (start 0) s.image).1).0 ≡ ok bs)
        × (ehdr ≡ ehdr_of_bytes bs)
        × (validate_header ehdr ≡ ok tt)
        × (is_low_entry ehdr highmem_start ≡ false)
        × (s'.image ≡ (rs.read_exact ehdr_size (rs.seek (start 0) s.image).1).1)
  unfolding read_header
  read_header-ok highmem_start s s' ehdr h =
      let checked : List ℕ → Action (Machine R M) Error Elf64Ehdr = λ bs.
        lift (map_err elf (validate_header (ehdr_of_bytes bs)))
        >> (raise_if (is_low_entry (ehdr_of_bytes bs) highmem_start) (elf invalid_entry_address)
            >> pure (ehdr_of_bytes bs)) in
      let (_, s₁, e₁, h₁) =
        bind-eq-ok (on_image (rs.seek (start 0)) (elf seek_elf_start))
          (λ _. on_image (rs.read_exact ehdr_size) (elf read_elf_header) >>= checked) s s' ehdr h in
      let (bs, s₂, e₂, h₂) =
        bind-eq-ok (on_image (rs.read_exact ehdr_size) (elf read_elf_header)) checked s₁ s' ehdr
          h₁ in
      (bs, ground arith, ground arith, ground arith, ground arith, ground arith)

  load_program-ok :
      (kernel_offset : Option ℕ) (ehdr : Elf64Ehdr) (s s' : Machine R M) (b : KernelLoaderResult)
      → load_program rs tr kernel_offset ehdr s ≡ (ok b, s')
      → (phdrs : List Elf64Phdr) × (s₁ : Machine R M) × (s₂ : Machine R M) × (s₁.image
          ≡ (rs.seek (start ehdr.e_phoff) s.image).1)
        × (read_phdrs rs tr ehdr.e_phnum s₁ ≡ (ok phdrs, s₂))
        × (b.kernel_load ≡ moved kernel_offset ehdr.e_entry)
        × (b.kernel_end ≡ segments_end kernel_offset phdrs)
        × (b.setup_header ≡ none)
  unfolding load_program
  load_program-ok kernel_offset ehdr s s' b h =
      let rest : ℕ → List Elf64Phdr → Action (Machine R M) Error KernelLoaderResult = λ load phdrs.
        load_phdrs rs tr kernel_offset phdrs (record default_result { kernel_load = load })
        >>= λ result. pure (record result { setup_header = none }) in
      let (load, s₀, e₀, h₀) =
        bind-eq-ok (lift (relocate kernel_offset ehdr.e_entry (elf overflow)))
          (λ load. on_image (rs.seek (start ehdr.e_phoff)) (elf seek_program_header) >>= λ _.
            read_phdrs rs tr ehdr.e_phnum >>= rest load)
          s s' b h in
      let (_, s₁, _, h₁) =
        bind-eq-ok (on_image (rs.seek (start ehdr.e_phoff)) (elf seek_program_header))
          (λ _. read_phdrs rs tr ehdr.e_phnum >>= rest load) s₀ s' b h₀ in
      let (phdrs, s₂, e₂, h₂) = bind-eq-ok (read_phdrs rs tr ehdr.e_phnum) (rest load) s₁ s' b h₁ in
      let (c, s₃, e₃, h₃) =
        bind-eq-ok
          (load_phdrs rs tr kernel_offset phdrs (record default_result { kernel_load = load }))
          (λ result. pure (record result { setup_header = none })) s₂ s' b h₂ in
      let at = relocate-ok kernel_offset ehdr.e_entry load (elf overflow) (ap (λ p. p.0) e₀) in
      let segments = load_phdrs-ok rs tr kernel_offset phdrs _ c s₂ s₃ e₃ in
      (
        phdrs,
        s₁,
        s₂,
        ground arith,
        e₂,
        ground (arith, at, segments),
        ground (arith, at, segments),
        ground arith,
      )

  -- What is known of a result `b` of `load`.
  abbrev pub ElfLoaded : Option ℕ → Option ℕ → Machine R M → KernelLoaderResult → Type 0
  ElfLoaded kernel_offset highmem_start s b =
      (bs : List ℕ) × (phdrs : List Elf64Phdr) × (s₁ : Machine R M) × (s₂ : Machine R M)
      × ((rs.read_exact ehdr_size (rs.seek (start 0) s.image).1).0 ≡ ok bs)
      × (validate_header (ehdr_of_bytes bs) ≡ ok tt)
      × (is_low_entry (ehdr_of_bytes bs) highmem_start ≡ false)
      × (s₁.image
          ≡ (rs.seek (start (ehdr_of_bytes bs).e_phoff)
              (rs.read_exact ehdr_size (rs.seek (start 0) s.image).1).1).1)
      × (read_phdrs rs tr (ehdr_of_bytes bs).e_phnum s₁ ≡ (ok phdrs, s₂))
      × (length phdrs ≡ (ehdr_of_bytes bs).e_phnum)
      × (b.kernel_load ≡ moved kernel_offset (ehdr_of_bytes bs).e_entry)
      × (b.kernel_end ≡ segments_end kernel_offset phdrs)
      × (b.setup_header ≡ none)

  -- A successful load has read the header from the first 64 bytes after a seek to the start, and the
  -- header is valid with its entry point not below high memory. It has then sought the
  -- program headers' offset, and read as many of them as the header announces. The result is the entry point, moved by the offset, and the greatest end
  -- of a loaded segment, moved in the same way.
  pub load_elf_sound :
      (kernel_offset highmem_start : Option ℕ) (s s' : Machine R M) (b : KernelLoaderResult)
      → load_elf rs tr kernel_offset highmem_start s ≡ (ok b, s')
      → ElfLoaded kernel_offset highmem_start s b
  unfolding load_elf
  load_elf_sound kernel_offset highmem_start s s' b h =
      let (ehdr, s₀, first, rest) =
        bind-eq-ok (read_header rs tr highmem_start) (load_program rs tr kernel_offset) s s' b h in
      let (bs, read, same, valid, low, left) = read_header-ok highmem_start s s₀ ehdr first in
      let (phdrs, s₁, s₂, sought, table, load, end, none_left) =
        load_program-ok kernel_offset ehdr s₀ s' b rest in
      (
        bs,
        phdrs,
        s₁,
        s₂,
        read,
        cc,
        cc,
        sought
            ∙ ap (λ e. (rs.seek (start e.e_phoff) s₀.image).1) same
            ∙ ap (λ i. (rs.seek (start (ehdr_of_bytes bs).e_phoff) i).1) left,
        sym (ap (λ e. read_phdrs rs tr e.e_phnum s₁) same) ∙ table,
        read_phdrs-ok rs tr _ s₁ s₂ phdrs table ∙ ap (λ e. e.e_phnum) same,
        load ∙ ap (λ e. moved kernel_offset e.e_entry) same,
        end,
        none_left,
      )
