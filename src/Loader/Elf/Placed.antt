-- ===== src/Loader/Elf/Placed.antt =====
-- What `Elf::load` of src/loader/x86_64/elf/mod.rs leaves in guest memory, as a function of the image.
use linux_loader.Base.{
  ℕ, zero, suc, ◌+◌, true, false, List, [], ◌∷◌, Option, none, some, ◌≡◌, sym, ap, ◌∙◌, arith, max,
  take, drop, drop-drop, Bool-cases, inl, inr,
}
use linux_loader.Base.Outcome.{ok, Action, pure, lift, ◌>>=◌, ok_or, bind-eq-ok}
use linux_loader.Base.Word.{checked_add}
use linux_loader.Reader.{
  start, ReadSeek, Machine, Transfer, IsImage, IsTransfer, on_image, on_machine,
}
use linux_loader.LoaderGen.Elf.{Elf64Phdr, phdr_size, phdr_of_bytes}
use linux_loader.Loader.Errors.Elf.{
  read_program_header, seek_kernel_start, read_kernel_image, invalid_program_header_address,
}
use linux_loader.Loader.{Error, elf, memory_overflow, KernelLoaderResult}
use linux_loader.Loader.Elf.{relocate, read_phdrs, load_segment, note_cap, load_phdr, load_phdrs}
use linux_loader.Loader.Elf.NoteKeeps.{parse_elf_note-Keeps}
use linux_loader.Loader.Elf.Segments.{moved, is_loaded, relocate-ok}
use linux_loader.Reader.Steps.{
  IsCalm, copied_byte, seek_start-ok, read_exact-step, read_exact_from-step,
}
use linux_loader.Loader.Elf.Image.{phdr_table, after_segment, loaded_byte}

module _ {R M : Type 0} {rs : ReadSeek R} {tr : Transfer R M} {peek : M → ℕ → Option ℕ}
    (image : IsImage rs) (laws : IsTransfer rs tr peek) where
  phdr_table_step :
      (n p : ℕ) (bytes : List ℕ)
      → phdr_table (suc n) (drop p bytes)
        ≡ phdr_of_bytes (take phdr_size (drop p bytes)) ∷ phdr_table n (drop (p + phdr_size) bytes)
  unfolding phdr_table
  phdr_table_step n p bytes = rw (drop-drop p phdr_size bytes)

  -- The table is read from the position on, and nothing but the position changes.
  pub read_phdrs-table :
      (n : ℕ) (s s' : Machine R M) (phdrs : List Elf64Phdr)
      → read_phdrs rs tr n s ≡ (ok phdrs, s')
      → (phdrs ≡ phdr_table n (drop (image.position s.image) (image.bytes s.image)))
        × IsCalm image s s'
  unfolding read_phdrs
  read_phdrs-table zero s s' phdrs h =
      (unfold phdr_table in ground arith, (ground arith, ground arith))
  read_phdrs-table (suc n) s s' phdrs h =
      let (bs, s₁, e₁, h₁) =
        bind-eq-ok (on_image (rs.read_exact phdr_size) (elf read_program_header))
          (λ bs. read_phdrs rs tr n >>= λ rest. pure (phdr_of_bytes bs ∷ rest)) s s' phdrs h in
      let (rest, s₂, e₂, h₂) =
        bind-eq-ok (read_phdrs rs tr n) (λ rest. pure (phdr_of_bytes bs ∷ rest)) s₁ s' phdrs h₁ in
      let (taken, at, (same, kept)) =
        read_exact-step image (elf read_program_header) phdr_size s s₁ bs e₁ in
      let (table, (same', kept')) = read_phdrs-table n s₁ s₂ rest e₂ in
      let made : phdr_of_bytes bs ∷ rest ≡ phdrs = ground arith in
      let end : s₂ ≡ s' = ap (λ p. p.1) h₂ in
      let p = image.position s.image in
      let all_bytes = image.bytes s.image in
      (
        sym made
            ∙ ap (λ b. phdr_of_bytes b ∷ rest) taken
            ∙ ap (λ t. phdr_of_bytes (take phdr_size (drop p all_bytes)) ∷ t)
                (table
                  ∙ ap (λ q. phdr_table n (drop q (image.bytes s₁.image))) at
                  ∙ ap (λ b. phdr_table n (drop (p + phdr_size) b)) same)
            ∙ sym (phdr_table_step n p all_bytes),
        (
          ap (λ m. image.bytes m.image) (sym end) ∙ same' ∙ same,
          ap (λ m. m.memory) (sym end) ∙ kept' ∙ kept,
        ),
      )

  -- One program header: what it leaves in memory.
  load_segment-copied :
      (kernel_offset : Option ℕ) (phdr : Elf64Phdr) (s s' : Machine R M) (n : ℕ)
      → load_segment rs tr kernel_offset phdr s ≡ (ok n, s')
      → (image.bytes s'.image ≡ image.bytes s.image)
        × ((x : ℕ)
            → peek s'.memory x
              ≡ copied_byte
                  (image.bytes s.image)
                  phdr.p_offset
                  (moved kernel_offset phdr.p_paddr)
                  phdr.p_filesz
                  x
                  (peek s.memory x))
  unfolding load_segment
  load_segment-copied kernel_offset phdr s s' n h =
      let copy : ℕ → Action (Machine R M) Error (Unit {0}) =
        λ addr. on_machine (tr.read_exact_from addr phdr.p_filesz) (elf read_kernel_image) in
      let finish : ℕ → Unit {0} → Action (Machine R M) Error ℕ =
        λ addr _. lift (ok_or (checked_add addr phdr.p_memsz) memory_overflow) in
      let place : Action (Machine R M) Error ℕ =
        lift (relocate kernel_offset phdr.p_paddr (elf invalid_program_header_address)) in
      let (a, s₁, e₁, h₁) =
        bind-eq-ok (on_image (rs.seek (start phdr.p_offset)) (elf seek_kernel_start))
          (λ _. place >>= λ addr. copy addr >>= finish addr) s s' n h in
      let (addr, s₂, e₂, h₂) = bind-eq-ok place (λ addr. copy addr >>= finish addr) s₁ s' n h₁ in
      let (_, s₃, e₃, h₃) = bind-eq-ok (copy addr) (finish addr) s₂ s' n h₂ in
      let (at, (same, kept)) =
        seek_start-ok image (elf seek_kernel_start) phdr.p_offset a s s₁ e₁ in
      let stay : s₁ ≡ s₂ = ap (λ p. p.1) e₂ in
      let end : s₃ ≡ s' = ap (λ p. p.1) h₃ in
      let where_ : addr ≡ moved kernel_offset phdr.p_paddr =
        relocate-ok kernel_offset phdr.p_paddr addr (elf invalid_program_header_address)
          (ap (λ p. p.0) e₂) in
      let (same', bytes) =
        read_exact_from-step image laws (elf read_kernel_image) addr phdr.p_filesz s₂ s₃ e₃ in
      (
        ap (λ m. image.bytes m.image) (sym end)
            ∙ same'
            ∙ ap (λ m. image.bytes m.image) (sym stay)
            ∙ same,
        λ x.
            ap (λ m. peek m.memory x) (sym end)
            ∙ bytes x
            ∙ ap
                (λ m.
                  copied_byte (image.bytes m.image) (image.position m.image) addr phdr.p_filesz x
                    (peek m.memory x))
                (sym stay)
            ∙ ap
                (λ b.
                  copied_byte b (image.position s₁.image) addr phdr.p_filesz x (peek s₁.memory x))
                same
            ∙ ap (λ q. copied_byte (image.bytes s.image) q addr phdr.p_filesz x (peek s₁.memory x))
                at
            ∙ ap
                (λ q.
                  copied_byte (image.bytes s.image) phdr.p_offset q phdr.p_filesz x
                    (peek s₁.memory x))
                where_
            ∙ ap
                (λ m.
                  copied_byte (image.bytes s.image) phdr.p_offset (moved kernel_offset phdr.p_paddr)
                    phdr.p_filesz x (peek m x))
                kept,
      )

  -- A program header that is not loaded changes the image's position at most.
  load_phdr-passed :
      (kernel_offset : Option ℕ) (phdr : Elf64Phdr) (a b : KernelLoaderResult) (s s' : Machine R M)
      → is_loaded phdr ≡ false
      → load_phdr rs tr kernel_offset phdr a s ≡ (ok b, s')
      → IsCalm image s s'
  unfolding load_phdr note_cap
  load_phdr-passed none phdr a b s s' skipped h =
      (ground (arith, parse_elf_note-Keeps image phdr s.image), ground arith)
  load_phdr-passed (some k) phdr a b s s' skipped h = (ground arith, ground arith)

  load_phdr-segment :
      (kernel_offset : Option ℕ) (phdr : Elf64Phdr) (a b : KernelLoaderResult) (s s' : Machine R M)
      → is_loaded phdr ≡ true
      → load_phdr rs tr kernel_offset phdr a s ≡ (ok b, s')
      → (n : ℕ) × (load_segment rs tr kernel_offset phdr s ≡ (ok n, s'))
  unfolding load_phdr
  load_phdr-segment kernel_offset phdr a b s s' loaded h =
      let finish : ℕ → Action (Machine R M) Error KernelLoaderResult =
        λ end. pure (record a { kernel_end = max a.kernel_end end }) in
      let run : (load_segment rs tr kernel_offset phdr >>= finish) s ≡ (ok b, s') = ground arith in
      let (n, s₁, e₁, h₁) = bind-eq-ok (load_segment rs tr kernel_offset phdr) finish s s' b run in
      (n, e₁ ∙ ap (λ m. (ok n, m)) (ap (λ p. p.1) h₁))

  pub load_phdr-copied :
      (kernel_offset : Option ℕ) (phdr : Elf64Phdr) (a b : KernelLoaderResult) (s s' : Machine R M)
      → load_phdr rs tr kernel_offset phdr a s ≡ (ok b, s')
      → (image.bytes s'.image ≡ image.bytes s.image)
        × ((x : ℕ)
            → peek s'.memory x
              ≡ after_segment (image.bytes s.image) kernel_offset phdr (peek s.memory x) x)
  load_phdr-copied kernel_offset phdr a b s s' h = elim (Bool-cases (is_loaded phdr)) [
    | inl loaded ↦
        let (n, run) = load_phdr-segment kernel_offset phdr a b s s' loaded h in
        let (same, bytes) = load_segment-copied kernel_offset phdr s s' n run in
        (same, λ x. bytes x ∙ ground (arith, loaded))
    | inr skipped ↦
        let (same, kept) = load_phdr-passed kernel_offset phdr a b s s' skipped h in
        (same, λ x. ap (λ m. peek m x) kept ∙ ground (arith, skipped))
  ]

  pub load_phdrs-copied :
      (kernel_offset : Option ℕ) (phdrs : List Elf64Phdr) (a b : KernelLoaderResult)
      (s s' : Machine R M)
      → load_phdrs rs tr kernel_offset phdrs a s ≡ (ok b, s')
      → (image.bytes s'.image ≡ image.bytes s.image)
        × ((x : ℕ)
            → peek s'.memory x
              ≡ loaded_byte (image.bytes s.image) kernel_offset phdrs (peek s.memory x) x)
  unfolding load_phdrs loaded_byte
  load_phdrs-copied kernel_offset [] a b s s' h =
      let end : s ≡ s' = ap (λ p. p.1) h in
      (ap (λ m. image.bytes m.image) (sym end), λ x. ap (λ m. peek m.memory x) (sym end))
  load_phdrs-copied kernel_offset (phdr ∷ phdrs) a b s s' h =
      let (c, s₁, first, rest) =
        bind-eq-ok (load_phdr rs tr kernel_offset phdr a) (load_phdrs rs tr kernel_offset phdrs) s
          s' b h in
      let (same, bytes) = load_phdr-copied kernel_offset phdr a c s s₁ first in
      let (same', bytes') = load_phdrs-copied kernel_offset phdrs c b s₁ s' rest in
      (
        same' ∙ same,
        λ x.
            bytes' x
            ∙ ap (λ b. loaded_byte b kernel_offset phdrs (peek s₁.memory x) x) same
            ∙ ap (λ old. loaded_byte (image.bytes s.image) kernel_offset phdrs old x) (bytes x),
      )
