-- ===== src/Loader/Bzimage/Refines.antt =====
-- `BzImage::load` of src/loader/x86_64/bzimage/mod.rs against the bytes of the image.
use linux_loader.Base.{
  ℕ, ◌+◌, ◌-◌, ◌%◌, ◌^◌, ◌≤◌, ◌<◌, ◌++◌, false, List, Option, some, ◌≡◌, refl, sym, ap, ◌∙◌, arith,
  length, take, drop, replicate,
}
use linux_loader.Base.Int.{pos}
use linux_loader.Base.Word.{two_64, checked_add}
use linux_loader.Base.Outcome.{
  ok, Action, pure, lift, raise_if, ◌>>=◌, ◌>>◌, ok_or, bind-eq-ok, run_from_to,
}
use linux_loader.Reader.{
  start, end, ReadSeek, Machine, Transfer, IsImage, IsTransfer, IsFill, on_image, on_machine,
}
use linux_loader.Reader.Steps.{
  IsCalm, IsCopied, IsCopied-from, copied_byte, size-fill, size-fill-call, seek-copy,
}
use linux_loader.LoaderGen.Bootparam.{SetupHeader, setup_header_size, setup_header_of_bytes}
use linux_loader.Loader.Errors.Bzimage.{
  invalid_bz_image, read_bz_image_header, read_bz_image_compressed_kernel, seek_bz_image_end,
  seek_bz_image_header, seek_bz_image_compressed_kernel,
}
use linux_loader.Loader.{Error, bzimage, memory_overflow, KernelLoaderResult, default_result}
use linux_loader.Loader.Bzimage.{
  is_invalid, is_below_highmem, load_offset, read_boot_header, load_kernel, load_bzimage,
}
use linux_loader.Loader.Bzimage.Loaded.{setup_bytes, split_image-ok, load_kernel-ok}
use linux_loader.Loader.Bzimage.Placed.{rest_of_load, rest_of_load-ok}

-- The setup header that a read of `n` bytes of the image finds.
abbrev pub setup_header_at : List ℕ → ℕ → SetupHeader
setup_header_at image n =
    setup_header_of_bytes (take n (drop 0x1F1 image) ++ drop n (replicate setup_header_size 0))

module _ {R M : Type 0} {rs : ReadSeek R} (tr : Transfer R M) (image : IsImage rs) where
  -- A read of 119 bytes of the image, from 0x1F1 on into a buffer of 119 zeros, gave `n` bytes.
  abbrev pub IsHeaderRead : List ℕ → ℕ → Type 0
  IsHeaderRead bytes n =
      (r : R) × (r' : R) × (buf : List ℕ) × (image.bytes r ≡ bytes)
      × (image.position r ≡ 0x1F1)
      × (tr.read_from (replicate setup_header_size 0) setup_header_size r ≡ (ok (buf, n), r'))

module _ {R M : Type 0} {rs : ReadSeek R} {tr : Transfer R M} {peek : M → ℕ → Option ℕ}
    (image : IsImage rs) (laws : IsTransfer rs tr peek) (fill : IsFill tr image) where
  load_kernel-IsCopied :
      (at : ℕ) (sizes : ℕ × ℕ) (h : SetupHeader) (s s' : Machine R M) (b : KernelLoaderResult)
      → load_kernel rs tr at sizes h s ≡ (ok b, s')
      → IsCopied image laws sizes.0 at sizes.1 s s'
  unfolding load_kernel
  load_kernel-IsCopied at sizes h s s' b e =
      let result : ℕ → Action (Machine R M) Error KernelLoaderResult = λ last.
        pure (record default_result {
          setup_header = some (record h { code32_start = at % 2 ^ 32 });
          kernel_load = at;
          kernel_end = last;
        }) in
      let finish : Unit {0} → Action (Machine R M) Error KernelLoaderResult =
        λ _. lift (ok_or (checked_add at sizes.1) memory_overflow) >>= result in
      let copy : Action (Machine R M) Error (Unit {0}) =
        on_machine (tr.read_exact_from at sizes.1) (bzimage read_bz_image_compressed_kernel) in
      let (a, s₁, e₁, h₁) =
        bind-eq-ok (on_image (rs.seek (start sizes.0)) (bzimage seek_bz_image_compressed_kernel))
          (λ _. copy >>= finish) s s' b e in
      let (_, s₂, e₂, h₂) = bind-eq-ok copy finish s₁ s' b h₁ in
      seek-copy image laws (bzimage seek_bz_image_compressed_kernel)
        (bzimage read_bz_image_compressed_kernel) sizes.0 at sizes.1 a s s₁ s' e₁
        (run_from_to copy s₁ s₁ s₂ s' tt refl e₂ (ground arith))

  -- What a read of the header finds: the size of the image, and the setup header in the bytes that
  -- the read gave.
  abbrev pub IsFound : Machine R M → Machine R M → ℕ × SetupHeader → Type 0
  IsFound s s' found =
      (n : ℕ) × IsHeaderRead tr image (image.bytes s.image) n
      × (found.0 ≡ length (image.bytes s.image))
      × (found.1 ≡ setup_header_at (image.bytes s.image) n)
      × (is_invalid found.1 ≡ false)
      × IsCalm image s s'

  read_boot_header-image :
      (s s' : Machine R M) (found : ℕ × SetupHeader)
      → read_boot_header rs tr s ≡ (ok found, s')
      → IsFound s s' found
  unfolding read_boot_header
  read_boot_header-image s s' found h =
      let check : ℕ → List ℕ × ℕ → Action (Machine R M) Error (ℕ × SetupHeader) = λ size read.
        raise_if (is_invalid (setup_header_of_bytes read.0)) (bzimage invalid_bz_image)
        >> pure (size, setup_header_of_bytes read.0) in
      let get : Action (Machine R M) Error (List ℕ × ℕ) =
        on_image (tr.read_from (replicate setup_header_size 0) setup_header_size)
          (bzimage read_bz_image_header) in
      let to_header : Action (Machine R M) Error ℕ =
        on_image (rs.seek (start 0x1F1)) (bzimage seek_bz_image_header) in
      let (size, s₁, e₁, h₁) =
        bind-eq-ok (on_image (rs.seek (end (pos 0))) (bzimage seek_bz_image_end))
          (λ size. to_header >>= λ _. get >>= check size) s s' found h in
      let (a, s₂, e₂, h₂) = bind-eq-ok to_header (λ _. get >>= check size) s₁ s' found h₁ in
      let (read, s₃, e₃, h₃) = bind-eq-ok get (check size) s₂ s' found h₂ in
      let (same, at, call) =
        size-fill-call image fill (bzimage seek_bz_image_end) (bzimage seek_bz_image_header)
          (bzimage read_bz_image_header) 0x1F1 size a setup_header_size
          (replicate setup_header_size 0) read s s₁ s₂ s₃ e₁ e₂ e₃ in
      checked s s' found size read (s₂.image, s₃.image, read.0, same, at, call) (ground arith)
        (ground arith) (ground arith)
        (size-fill image fill (bzimage seek_bz_image_end) (bzimage seek_bz_image_header)
          (bzimage read_bz_image_header) 0x1F1 size a setup_header_size
          (replicate setup_header_size 0) read s s₁ s₂ s₃ s' e₁ e₂ e₃ (ground arith))
    where
      checked :
          (s s' : Machine R M) (found : ℕ × SetupHeader) (size : ℕ) (read : List ℕ × ℕ)
          → IsHeaderRead tr image (image.bytes s.image) read.1
          → found.0 ≡ size
          → found.1 ≡ setup_header_of_bytes read.0
          → is_invalid (setup_header_of_bytes read.0) ≡ false
          → (size ≡ length (image.bytes s.image))
            × (read.1 ≤ setup_header_size)
            × (read.0
                ≡ take read.1 (drop 0x1F1 (image.bytes s.image))
                  ++ drop read.1 (replicate setup_header_size 0))
            × IsCalm image s s'
          → IsFound s s' found
      checked s s' found size read asked sized which valid (length_, _, front, calm) = (
        read.1,
        asked,
        sized ∙ length_,
        which ∙ ap setup_header_of_bytes front,
        ap is_invalid which ∙ valid,
        calm,
      )

  -- What a successful load of an image with the setup header `h` means, where `x` is an address of
  -- guest memory.
  abbrev pub IsBzimageLoaded :
      Option ℕ
      → Option ℕ
      → SetupHeader
      → Machine R M
      → Machine R M
      → KernelLoaderResult
      → ℕ
      → Type 0
  IsBzimageLoaded kernel_offset highmem_start h s s' b x =
      (is_invalid h ≡ false)
      × (is_below_highmem h highmem_start ≡ false)
      × (setup_bytes h ≤ length (image.bytes s.image))
      × (b.kernel_load ≡ load_offset h kernel_offset)
      × (b.kernel_end ≡ b.kernel_load + (length (image.bytes s.image) - setup_bytes h))
      × (b.kernel_end < two_64)
      × (b.setup_header ≡ some (record h { code32_start = load_offset h kernel_offset % 2 ^ 32 }))
      × (image.bytes s'.image ≡ image.bytes s.image)
      × (peek s'.memory x
          ≡ copied_byte (image.bytes s.image) (setup_bytes h) b.kernel_load
              (length (image.bytes s.image) - setup_bytes h) x (peek s.memory x))

  bzimage_loaded :
      (kernel_offset highmem_start : Option ℕ) (x size : ℕ) (h : SetupHeader) (sizes : ℕ × ℕ)
      (s s₁ s' : Machine R M) (b : KernelLoaderResult)
      → size ≡ length (image.bytes s.image)
      → is_invalid h ≡ false
      → is_below_highmem h highmem_start ≡ false
      → IsCalm image s s₁
      → (setup_bytes h ≤ size) × (sizes.0 ≡ setup_bytes h) × (sizes.1 ≡ size - setup_bytes h)
      → (b.kernel_load ≡ load_offset h kernel_offset)
        × (b.kernel_end ≡ load_offset h kernel_offset + sizes.1)
        × (b.kernel_end < two_64)
        × (b.setup_header ≡ some (record h { code32_start = load_offset h kernel_offset % 2 ^ 32 }))
      → IsCopied image laws sizes.0 (load_offset h kernel_offset) sizes.1 s₁ s'
      → IsBzimageLoaded kernel_offset highmem_start h s s' b x
  bzimage_loaded kernel_offset highmem_start x size h sizes s s₁ s' b sized valid high calm
        (fits, setup, kernel) (load, last, bound, header) copied =
      let at = load_offset h kernel_offset in
      let (same, bytes) = IsCopied-from image laws sizes.0 at sizes.1 s s₁ s' calm copied in
      let count : sizes.1 ≡ length (image.bytes s.image) - setup_bytes h =
        kernel ∙ ap (λ n. n - setup_bytes h) sized in
      (
        valid,
        high,
        rw (sym sized) fits,
        load,
        last ∙ ap (λ k. k + sizes.1) (sym load) ∙ ap (λ k. b.kernel_load + k) count,
        bound,
        header,
        same,
        bytes x
            ∙ ap (λ k. copied_byte (image.bytes s.image) k at sizes.1 x (peek s.memory x)) setup
            ∙ ap (λ k. copied_byte (image.bytes s.image) (setup_bytes h) at k x (peek s.memory x))
                count
            ∙ ap
                (λ k.
                  copied_byte (image.bytes s.image) (setup_bytes h) k
                    (length (image.bytes s.image) - setup_bytes h) x (peek s.memory x))
                (sym load),
      )

  -- A successful load of a bzImage does what the image's bytes mean. It has read 119 bytes at 0x1F1,
  -- and its setup header is the `n` bytes that the read gave, with zeros behind them if the read was
  -- short. The header is valid, and its own load address is not below high memory. What the image has
  -- behind the setup stands at the offset given, or else at the header's load address, and ends below
  -- 2^64; the byte at any address `x` is the image's there, or as before outside. The header comes
  -- back with the load address, cut to 32 bits, and the image is unchanged.
  pub load_bzimage_refines :
      (kernel_offset highmem_start : Option ℕ) (s s' : Machine R M) (b : KernelLoaderResult) (x : ℕ)
      → load_bzimage rs tr kernel_offset highmem_start s ≡ (ok b, s')
      → (n : ℕ) × IsHeaderRead tr image (image.bytes s.image) n
        × IsBzimageLoaded kernel_offset highmem_start
            (setup_header_at (image.bytes s.image) n)
            s
            s'
            b
            x
  unfolding load_bzimage rest_of_load
  load_bzimage_refines kernel_offset highmem_start s s' b x e =
      let (found, s₁, first, rest) =
        bind-eq-ok (read_boot_header rs tr)
          (rest_of_load rs tr peek laws kernel_offset highmem_start) s s' b e in
      let (sizes, sized, high, loaded) =
        rest_of_load-ok rs tr peek laws kernel_offset highmem_start found s₁ s' b rest in
      let (n, asked, size, which, valid, calm) = read_boot_header-image s s₁ found first in
      (
        n,
        asked,
        rw (sym which) (
            bzimage_loaded kernel_offset highmem_start x found.0 found.1 sizes s s₁ s' b size valid
              high calm (split_image-ok found.0 found.1 sizes sized)
              (load_kernel-ok rs tr (load_offset found.1 kernel_offset) sizes found.1 s₁ s' b
                loaded)
              (load_kernel-IsCopied (load_offset found.1 kernel_offset) sizes found.1 s₁ s' b
                loaded)),
      )
