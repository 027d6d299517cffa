-- ===== src/Loader/Elf/Segments.antt =====
-- What the loops of `Elf::load` in src/loader/x86_64/elf/mod.rs compute.
use linux_loader.Base.{
  ℕ, zero, suc, ◌+◌, ◌<◌, Bool, not, ◌||◌, List, [], ◌∷◌, Option, none, some, ◌≡◌, arith, ◌==◌, max,
  if◌then◌else◌, length,
}
use linux_loader.Base.Word.{two_64}
use linux_loader.Base.Outcome.{ok, pure, ◌>>=◌, bind-eq-ok}
use linux_loader.Reader.{ReadSeek, Machine, Transfer, on_image}
use linux_loader.LoaderGen.Elf.{Elf64Phdr, phdr_size, phdr_of_bytes, pt_load}
use linux_loader.Loader.{Error, elf, KernelLoaderResult}
use linux_loader.Loader.Elf.{relocate, read_phdrs, load_segment, load_phdr, load_phdrs}
use linux_loader.Loader.Errors.Elf.{read_program_header}

-- Where the segment at `addr` stands.
abbrev pub moved : Option ℕ → ℕ → ℕ
moved none addr = addr
moved (some k_offset) addr = k_offset + addr

-- The end of the kernel that the program headers describe, over the segments that are loaded.
abbrev pub is_loaded : Elf64Phdr → Bool
is_loaded phdr = not (not (phdr.p_type == pt_load) || phdr.p_filesz == 0)

unfoldable pub segments_end : Option ℕ → List Elf64Phdr → ℕ
segments_end kernel_offset [] = 0
segments_end kernel_offset (phdr ∷ phdrs) =
    let rest = segments_end kernel_offset phdrs in
    if is_loaded phdr then max (moved kernel_offset phdr.p_paddr + phdr.p_memsz) rest else rest

pub relocate-ok :
    (kernel_offset : Option ℕ) (addr n : ℕ) (e : Error)
    → relocate kernel_offset addr e ≡ ok n
    → n ≡ moved kernel_offset addr
unfolding relocate
relocate-ok none addr n e h = ground arith
relocate-ok (some k) addr n e h = ground arith

module _ {R M : Type 0} (rs : ReadSeek R) (tr : Transfer R M) where
  load_segment-ok :
      (kernel_offset : Option ℕ) (phdr : Elf64Phdr) (s s' : Machine R M) (n : ℕ)
      → load_segment rs tr kernel_offset phdr s ≡ (ok n, s')
      → (n ≡ moved kernel_offset phdr.p_paddr + phdr.p_memsz) × (n < two_64)
  unfolding load_segment relocate
  load_segment-ok none phdr s s' n h = ground arith
  load_segment-ok (some k) phdr s s' n h = ground arith

  loaded-ok :
      (kernel_offset : Option ℕ) (phdr : Elf64Phdr) (a b : KernelLoaderResult) (s s' : Machine R M)
      → (load_segment rs tr kernel_offset phdr >>= λ end.
            pure (record a { kernel_end = max a.kernel_end end }))
          s
        ≡ (ok b, s')
      → (b.kernel_load ≡ a.kernel_load)
        × (b.kernel_end ≡ max a.kernel_end (moved kernel_offset phdr.p_paddr + phdr.p_memsz))
  loaded-ok kernel_offset phdr a b s s' h =
      let (n, s₁, segment, rest) =
        bind-eq-ok (load_segment rs tr kernel_offset phdr)
          (λ end. pure (record a { kernel_end = max a.kernel_end end })) s s' b h in
      ground (arith, load_segment-ok kernel_offset phdr s s₁ n segment)

  load_phdr-ok :
      (kernel_offset : Option ℕ) (phdr : Elf64Phdr) (a b : KernelLoaderResult) (s s' : Machine R M)
      → load_phdr rs tr kernel_offset phdr a s ≡ (ok b, s')
      → (b.kernel_load ≡ a.kernel_load)
        × (b.kernel_end ≡ max a.kernel_end (segments_end kernel_offset (phdr ∷ [])))
  unfolding load_phdr segments_end
  load_phdr-ok kernel_offset phdr a b s s' h = ground (arith, loaded-ok kernel_offset phdr a b s s')

  pub load_phdrs-ok :
      (kernel_offset : Option ℕ) (phdrs : List Elf64Phdr) (a b : KernelLoaderResult)
      (s s' : Machine R M)
      → load_phdrs rs tr kernel_offset phdrs a s ≡ (ok b, s')
      → (b.kernel_load ≡ a.kernel_load)
        × (b.kernel_end ≡ max a.kernel_end (segments_end kernel_offset phdrs))
  unfolding load_phdrs segments_end
  load_phdrs-ok kernel_offset [] a b s s' h = ground arith
  load_phdrs-ok kernel_offset (phdr ∷ phdrs) a b s s' h =
      let (c, s₁, first, rest) =
        bind-eq-ok (load_phdr rs tr kernel_offset phdr a) (load_phdrs rs tr kernel_offset phdrs) s
          s' b h in
      ground (
        arith,
        load_phdr-ok kernel_offset phdr a c s s₁ first,
        load_phdrs-ok kernel_offset phdrs c b s₁ s' rest,
      )

  pub read_phdrs-ok :
      (n : ℕ) (s s' : Machine R M) (phdrs : List Elf64Phdr)
      → read_phdrs rs tr n s ≡ (ok phdrs, s')
      → length phdrs ≡ n
  unfolding read_phdrs
  read_phdrs-ok zero s s' phdrs h = ground arith
  read_phdrs-ok (suc n) s s' phdrs h =
      let (bs, s₁, _, h₁) =
        bind-eq-ok (on_image (rs.read_exact phdr_size) (elf read_program_header))
          (λ bs. read_phdrs rs tr n >>= λ rest. pure (phdr_of_bytes bs ∷ rest)) s s' phdrs h in
      let (rest, s₂, h₂, h₃) =
        bind-eq-ok (read_phdrs rs tr n) (λ rest. pure (phdr_of_bytes bs ∷ rest)) s₁ s' phdrs h₁ in
      ground (arith, read_phdrs-ok n s₁ s₂ rest h₂)
