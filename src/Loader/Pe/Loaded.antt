-- ===== src/Loader/Pe/Loaded.antt =====
-- What a successful `PE::load` or `load_dtb` of src/loader/aarch64/pe/mod.rs has done.
use linux_loader.Base.{ℕ, ◌+◌, ◌%◌, ◌<◌, false, Option, none, some, ◌≡◌, refl, ap, sym, ◌∙◌, arith}
use linux_loader.Base.Int.{pos}
use linux_loader.Base.Word.{two_64, checked_add}
use linux_loader.Base.Outcome.{ok, err, Action, lift, raise_if, ◌>>=◌, ◌>>◌, ok_or, bind-eq-ok}
use linux_loader.Reader.{end, ReadSeek, Machine, Transfer}
use linux_loader.Loader.{Error, pe, KernelLoaderResult}
use linux_loader.Loader.Errors.Pe.{dtb_too_big, invalid_image, invalid_base_addr_alignment}
use linux_loader.Loader.Pe.{
  Arm64ImageHeader, text_start, is_misaligned, base_address, load_pe, load_dtb, read_image,
  load_image,
}

pub aligned :
    (kernel_offset : Option ℕ)
    → is_misaligned kernel_offset ≡ false
    → base_address kernel_offset % 0x200000 ≡ 0
unfolding is_misaligned
aligned none h = refl
aligned (some k) h = ground arith

module _ {R M : Type 0} (rs : ReadSeek R) (tr : Transfer R M) where
  read_image-ok :
      (s s' : Machine R M) (n : ℕ) (h : Arm64ImageHeader)
      → read_image rs tr s ≡ (ok (n, h), s')
      → ((rs.seek (end (pos 0)) s.image).0 ≡ ok n) × (h.magic ≡ 0x644d5241)
  unfolding read_image
  read_image-ok s s' n h e = ground arith

  pub load_image-ok :
      (mem_offset n : ℕ) (s s' : Machine R M) (b : KernelLoaderResult)
      → load_image rs tr mem_offset n s ≡ (ok b, s')
      → (b.kernel_load ≡ mem_offset) × (b.kernel_end ≡ mem_offset + n) × (b.kernel_end < two_64)
  unfolding load_image
  load_image-ok mem_offset n s s' b e = ground arith

  -- What is known of a result `b` of `load`.
  abbrev pub PeLoaded : Option ℕ → Machine R M → KernelLoaderResult → Type 0
  PeLoaded kernel_offset s b =
      (n : ℕ) × (h : Arm64ImageHeader) × ((rs.seek (end (pos 0)) s.image).0 ≡ ok n)
      × (h.magic ≡ 0x644d5241)
      × (base_address kernel_offset % 0x200000 ≡ 0)
      × (b.kernel_load ≡ base_address kernel_offset + text_start h)
      × (b.kernel_end ≡ b.kernel_load + n)
      × (b.kernel_end < two_64)

  -- A successful load has found a header with the right magic number in the buffer that the read
  -- filled, and the base address is aligned to 2 MB. The kernel starts at the header's text offset (or
  -- at 0x80000 if the header gives no size) behind the base, and ends where the whole image ends.
  pub load_pe_sound :
      (kernel_offset highmem_start : Option ℕ) (s s' : Machine R M) (b : KernelLoaderResult)
      → load_pe rs tr kernel_offset highmem_start s ≡ (ok b, s')
      → PeLoaded kernel_offset s b
  unfolding load_pe
  load_pe_sound kernel_offset highmem_start s s' b e =
      let placed : ℕ × Arm64ImageHeader → Action (Machine R M) Error KernelLoaderResult = λ found.
        lift
          (ok_or (checked_add (base_address kernel_offset) (text_start found.1)) (pe invalid_image))
        >>= λ mem_offset. load_image rs tr mem_offset found.0 in
      let (found, s₁, e₁, h₁) =
        bind-eq-ok (read_image rs tr)
          (λ found.
            raise_if (is_misaligned kernel_offset) (pe invalid_base_addr_alignment) >> placed found)
          s s' b e in
      let (_, s₂, e₂, h₂) =
        bind-eq-ok (raise_if (is_misaligned kernel_offset) (pe invalid_base_addr_alignment))
          (λ _. placed found) s₁ s' b h₁ in
      let (mem_offset, s₃, e₃, h₃) =
        bind-eq-ok
          (lift (
            ok_or (checked_add (base_address kernel_offset) (text_start found.1))
              (pe invalid_image)))
          (λ mem_offset. load_image rs tr mem_offset found.0) s₂ s' b h₂ in
      let (size, magic) = read_image-ok s s₁ found.0 found.1 e₁ in
      let (load, last, bound) = load_image-ok mem_offset found.0 s₃ s' b h₃ in
      (
        found.0,
        found.1,
        size,
        magic,
        aligned kernel_offset (ground arith),
        ground arith,
        last ∙ ap (λ k. k + found.0) (sym load),
        bound,
      )

  -- Too big a device tree is refused, and guest memory is as before.
  pub load_dtb_refused :
      (guest_addr n : ℕ) (s : Machine R M)
      → (rs.seek (end (pos 0)) s.image).0 ≡ ok n
      → 0x200000 < n
      → ((load_dtb rs tr guest_addr s).0 ≡ err (pe dtb_too_big))
        × ((load_dtb rs tr guest_addr s).1.memory ≡ s.memory)
  unfolding load_dtb
  load_dtb_refused guest_addr n s h big = ground arith
