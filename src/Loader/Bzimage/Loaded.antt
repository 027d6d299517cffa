-- ===== src/Loader/Bzimage/Loaded.antt =====
-- What a successful `BzImage::load` of src/loader/x86_64/bzimage/mod.rs returns.
use linux_loader.Base.{
  ap, ◌∙◌, inl, inr, Option-cases, ℕ, ◌+◌, ◌-◌, ◌*◌, ◌%◌, ◌^◌, ◌≤◌, ◌<◌, false, Option, some, ◌≡◌,
  arith, if◌then◌else◌, ◌==◌,
}
use linux_loader.Base.Int.{pos}
use linux_loader.Base.Word.{two_64}
use linux_loader.Base.Outcome.{ok, lift, raise_if, ◌>>=◌, ◌>>◌, bind-eq-ok}
use linux_loader.Reader.{end, ReadSeek, Machine, Transfer}
use linux_loader.LoaderGen.Bootparam.{SetupHeader}
use linux_loader.Loader.{invalid_kernel_start_address, KernelLoaderResult}
use linux_loader.Loader.Bzimage.{
  read_boot_header, split_image, load_kernel, is_invalid, setup_size, is_below_highmem, load_offset,
  load_bzimage,
}

-- The size of the setup in bytes, where the count 0 stands for 4.
abbrev pub setup_bytes : SetupHeader → ℕ
setup_bytes h = 512 * ((if h.setup_sects == 0 then 4 else h.setup_sects) + 1)

setup_size-some : (h : SetupHeader) (n : ℕ) → setup_size h ≡ some n → n ≡ setup_bytes h
unfolding setup_size
setup_size-some h n e = ground arith

pub split_image-ok :
    (n : ℕ) (h : SetupHeader) (sizes : ℕ × ℕ)
    → split_image n h ≡ ok sizes
    → (setup_bytes h ≤ n) × (sizes.0 ≡ setup_bytes h) × (sizes.1 ≡ n - setup_bytes h)
unfolding split_image
split_image-ok n h sizes e = elim (Option-cases (setup_size h)) [
  | inl k ↦ absurd (ground arith)
  | inr (m, k) ↦ ground (arith, setup_size-some h m k)
]

module _ {R M : Type 0} (rs : ReadSeek R) (tr : Transfer R M) where
  read_boot_header-ok :
      (s s' : Machine R M) (n : ℕ) (h : SetupHeader)
      → read_boot_header rs tr s ≡ (ok (n, h), s')
      → ((rs.seek (end (pos 0)) s.image).0 ≡ ok n) × (is_invalid h ≡ false)
  unfolding read_boot_header
  read_boot_header-ok s s' n h e = ground arith

  pub load_kernel-ok :
      (mem_offset : ℕ) (sizes : ℕ × ℕ) (h : SetupHeader) (s s' : Machine R M)
      (b : KernelLoaderResult)
      → load_kernel rs tr mem_offset sizes h s ≡ (ok b, s')
      → (b.kernel_load ≡ mem_offset)
        × (b.kernel_end ≡ mem_offset + sizes.1)
        × (b.kernel_end < two_64)
        × (b.setup_header ≡ some (record h { code32_start = mem_offset % 2 ^ 32 }))
  unfolding load_kernel
  load_kernel-ok mem_offset sizes h s s' b e = ground arith

  -- What is known of a result `b` of `load`.
  abbrev pub BzimageLoaded : Option ℕ → Option ℕ → Machine R M → KernelLoaderResult → Type 0
  BzimageLoaded kernel_offset highmem_start s b =
      (n : ℕ) × (h : SetupHeader) × ((rs.seek (end (pos 0)) s.image).0 ≡ ok n)
      × (is_invalid h ≡ false)
      × (is_below_highmem h highmem_start ≡ false)
      × (setup_bytes h ≤ n)
      × (b.kernel_load ≡ load_offset h kernel_offset)
      × (b.kernel_end ≡ load_offset h kernel_offset + (n - setup_bytes h))
      × (b.kernel_end < two_64)
      × (b.setup_header ≡ some (record h { code32_start = load_offset h kernel_offset % 2 ^ 32 }))

  -- A successful load has found a setup header that is valid and whose own load address is not below
  -- high memory, in the buffer that the read filled. The kernel proper is what the image has behind
  -- the setup, it is loaded at the given offset or else at the header's own address, and the header
  -- that comes back holds this address, cut to 32 bits.
  pub load_bzimage_sound :
      (kernel_offset highmem_start : Option ℕ) (s s' : Machine R M) (b : KernelLoaderResult)
      → load_bzimage rs tr kernel_offset highmem_start s ≡ (ok b, s')
      → BzimageLoaded kernel_offset highmem_start s b
  unfolding load_bzimage
  load_bzimage_sound kernel_offset highmem_start s s' b e =
      let (found, s₁, e₁, h₁) =
        bind-eq-ok (read_boot_header rs tr)
          (λ found. lift (split_image found.0 found.1) >>= λ sizes.
            raise_if (is_below_highmem found.1 highmem_start) invalid_kernel_start_address
            >> load_kernel rs tr (load_offset found.1 kernel_offset) sizes found.1)
          s s' b e in
      let (sizes, s₂, e₂, h₂) =
        bind-eq-ok (lift (split_image found.0 found.1))
          (λ sizes.
            raise_if (is_below_highmem found.1 highmem_start) invalid_kernel_start_address
            >> load_kernel rs tr (load_offset found.1 kernel_offset) sizes found.1)
          s₁ s' b h₁ in
      let (_, s₃, e₃, h₃) =
        bind-eq-ok (raise_if (is_below_highmem found.1 highmem_start) invalid_kernel_start_address)
          (λ _. load_kernel rs tr (load_offset found.1 kernel_offset) sizes found.1) s₂ s' b h₂ in
      let (size, valid) = read_boot_header-ok s s₁ found.0 found.1 e₁ in
      let (fits, setup, kernel) = split_image-ok found.0 found.1 sizes (ap (λ p. p.0) e₂) in
      let (load, last, bound, header) =
        load_kernel-ok (load_offset found.1 kernel_offset) sizes found.1 s₃ s' b h₃ in
      (
        found.0,
        found.1,
        size,
        valid,
        ground arith,
        fits,
        load,
        last ∙ ap (λ k. load_offset found.1 kernel_offset + k) kernel,
        bound,
        header,
      )
