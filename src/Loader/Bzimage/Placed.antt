-- ===== src/Loader/Bzimage/Placed.antt =====
-- What a successful `BzImage::load` of src/loader/x86_64/bzimage/mod.rs leaves in guest memory.
use linux_loader.Base.{
  ℕ, ◌+◌, ◌-◌, ◌%◌, ◌^◌, false, List, Option, some, ◌≡◌, refl, ap, sym, ◌∙◌, arith, if◌then◌else◌,
  length, get_elem?,
}
use linux_loader.Base.Splice.{inside}
use linux_loader.Base.Outcome.{
  Result, ok, err, panic, Action, lift, raise_if, ◌>>=◌, ◌>>◌, bind-eq-ok,
}
use linux_loader.Reader.{start, ReadSeek, Machine, Transfer, IsTransfer}
use linux_loader.LoaderGen.Bootparam.{SetupHeader}
use linux_loader.Loader.{Error, invalid_kernel_start_address, KernelLoaderResult}
use linux_loader.Loader.Bzimage.{
  is_below_highmem, load_offset, read_boot_header, split_image, load_kernel, load_bzimage,
}
use linux_loader.Loader.Bzimage.Loaded.{setup_bytes, split_image-ok, load_kernel-ok}

module _ {R M : Type 0} (rs : ReadSeek R) (tr : Transfer R M) (peek : M → ℕ → Option ℕ)
    (laws : IsTransfer rs tr peek) where
  -- The kernel `bs`, which the image has behind the setup, stands at the load address, and reaches to
  -- the end that is returned; the byte at `x` is one of its bytes or as before.
  abbrev pub KernelPlaced : Machine R M → Machine R M → KernelLoaderResult → ℕ → Type 0
  KernelPlaced s s' b x =
      (bs : List ℕ) × (i : R) × (h : SetupHeader) × (b.setup_header ≡ some h)
      × ((rs.read_exact (length bs) (rs.seek (start (setup_bytes h)) i).1).0 ≡ ok bs)
      × (b.kernel_end ≡ b.kernel_load + length bs)
      × (peek s'.memory x ≡ (
          if inside b.kernel_load (length bs) x
          then get_elem? bs (x - b.kernel_load)
          else peek s.memory x))

  placed_from :
      (mem_offset setup count : ℕ) (h : SetupHeader) (s s' : Machine R M) (b : KernelLoaderResult)
      (bs : List ℕ) (x : ℕ)
      → b.setup_header ≡ some h
      → setup ≡ setup_bytes h
      → b.kernel_load ≡ mem_offset
      → b.kernel_end ≡ mem_offset + count
      → length bs ≡ count
      → (rs.read_exact count (rs.seek (start setup) s.image).1).0 ≡ ok bs
      → peek s'.memory x ≡ (
          if inside mem_offset (length bs) x
          then get_elem? bs (x - mem_offset)
          else peek s.memory x)
      → KernelPlaced s s' b x
  placed_from mem_offset setup count h s s' b bs x header at load last counted read bytes = (
    bs,
    s.image,
    h,
    header,
    ap (λ n. (rs.read_exact n (rs.seek (start (setup_bytes h)) s.image).1).0) counted
        ∙ ap (λ n. (rs.read_exact count (rs.seek (start n) s.image).1).0) (sym at)
        ∙ read,
    last ∙ ap (λ n. mem_offset + n) (sym counted) ∙ ap (λ n. n + length bs) (sym load),
    bytes
        ∙ ap (λ n. if inside n (length bs) x then get_elem? bs (x - n) else peek s.memory x)
            (sym load),
  )

  -- The read that a successful load ends with.
  load_kernel-copied :
      (mem_offset : ℕ) (sizes : ℕ × ℕ) (h : SetupHeader) (s s' : Machine R M)
      (b : KernelLoaderResult)
      → load_kernel rs tr mem_offset sizes h s ≡ (ok b, s')
      → tr.read_exact_from mem_offset sizes.1
          (record { image = (rs.seek (start sizes.0) s.image).1; memory = s.memory })
        ≡ (ok tt, s')
  unfolding load_kernel
  load_kernel-copied mem_offset sizes h s s' b e = ground arith

  load_kernel-placed :
      (mem_offset : ℕ) (sizes : ℕ × ℕ) (h : SetupHeader) (s s' : Machine R M)
      (b : KernelLoaderResult) (x : ℕ)
      → sizes.0 ≡ setup_bytes h
      → load_kernel rs tr mem_offset sizes h s ≡ (ok b, s')
      → KernelPlaced s s' b x
  load_kernel-placed mem_offset sizes h s s' b x setup e =
      let (load, last, bound, header) = load_kernel-ok rs tr mem_offset sizes h s s' b e in
      let (bs, counted, read, bytes) =
        laws.transferred (record { image = (rs.seek (start sizes.0) s.image).1; memory = s.memory })
          s' mem_offset sizes.1 (load_kernel-copied mem_offset sizes h s s' b e) in
      placed_from mem_offset sizes.0 sizes.1 (record h { code32_start = mem_offset % 2 ^ 32 }) s s'
        b bs x header setup load last counted (ap (λ p. p.0) read) (bytes x)

  read_boot_header_calm :
      (s s' : Machine R M) (found : ℕ × SetupHeader)
      → read_boot_header rs tr s ≡ (ok found, s')
      → s'.memory ≡ s.memory
  unfolding read_boot_header
  read_boot_header_calm s s' found e = ground arith

  -- What follows the header's check: it starts with the memory it is given.
  unfoldable pub rest_of_load :
      Option ℕ → Option ℕ → ℕ × SetupHeader → Action (Machine R M) Error KernelLoaderResult
  rest_of_load kernel_offset highmem_start found = lift (split_image found.0 found.1) >>= λ sizes.
      raise_if (is_below_highmem found.1 highmem_start) invalid_kernel_start_address
      >> load_kernel rs tr (load_offset found.1 kernel_offset) sizes found.1

  pub rest_of_load-ok :
      (kernel_offset highmem_start : Option ℕ) (found : ℕ × SetupHeader) (s s' : Machine R M)
      (b : KernelLoaderResult)
      → rest_of_load kernel_offset highmem_start found s ≡ (ok b, s')
      → (sizes : ℕ × ℕ) × (split_image found.0 found.1 ≡ ok sizes)
        × (is_below_highmem found.1 highmem_start ≡ false)
        × (load_kernel rs tr (load_offset found.1 kernel_offset) sizes found.1 s ≡ (ok b, s'))
  unfolding rest_of_load
  rest_of_load-ok kernel_offset highmem_start found s s' b e =
      by_sizes (split_image found.0 found.1) refl
    where
      by_sizes :
          (r : Result Error (ℕ × ℕ))
          → split_image found.0 found.1 ≡ r
          → (sizes : ℕ × ℕ) × (split_image found.0 found.1 ≡ ok sizes)
            × (is_below_highmem found.1 highmem_start ≡ false)
            × (load_kernel rs tr (load_offset found.1 kernel_offset) sizes found.1 s ≡ (ok b, s'))
      by_sizes (ok sizes) p = (sizes, p, ground arith, ground arith)
      by_sizes (err x) p = absurd (ground arith)
      by_sizes panic p = absurd (ground arith)

  -- After a successful load the kernel stands at the load address: the bytes that the image has behind
  -- the setup, up to the end that is returned. No other byte of guest memory has changed.
  pub load_bzimage_placed :
      (kernel_offset highmem_start : Option ℕ) (s s' : Machine R M) (b : KernelLoaderResult) (x : ℕ)
      → load_bzimage rs tr kernel_offset highmem_start s ≡ (ok b, s')
      → KernelPlaced s s' b x
  unfolding load_bzimage rest_of_load
  load_bzimage_placed kernel_offset highmem_start s s' b x e =
      let (found, s₁, first, rest) =
        bind-eq-ok (read_boot_header rs tr) (rest_of_load kernel_offset highmem_start) s s' b e in
      let (sizes, sized, high, loaded) =
        rest_of_load-ok kernel_offset highmem_start found s₁ s' b rest in
      let (fits, setup, kernel) = split_image-ok found.0 found.1 sizes sized in
      let (bs, i, h, header, read, last, bytes) =
        load_kernel-placed (load_offset found.1 kernel_offset) sizes found.1 s₁ s' b x setup
          loaded in
      (
        bs,
        i,
        h,
        header,
        read,
        last,
        bytes
            ∙ ap
                (λ m.
                  if inside b.kernel_load (length bs) x
                  then get_elem? bs (x - b.kernel_load)
                  else peek m x)
                (read_boot_header_calm s s₁ found first),
      )
