-- ===== src/Loader/Pe/Refines.antt =====
-- `PE::load` and `load_dtb` of src/loader/aarch64/pe/mod.rs against the bytes of the image.
use linux_loader.Base.{
  ℕ, ◌+◌, ◌%◌, ◌≤◌, ◌<◌, ◌++◌, not, List, Option, ◌≡◌, refl, sym, ap, ◌∙◌, arith, ltb, ◌==◌, length,
  take, drop, replicate,
}
use linux_loader.Base.Int.{pos}
use linux_loader.Base.Word.{two_64, checked_add}
use linux_loader.Base.Outcome.{
  ok, Action, pure, lift, raise_if, ◌>>=◌, ◌>>◌, ok_or, bind-eq-ok, run_from_to,
}
use linux_loader.Reader.{
  start, end, ReadSeek, Machine, Transfer, IsImage, IsTransfer, IsFill, on_image, on_machine,
}
use linux_loader.Reader.Steps.{
  IsCalm, IsCopied, IsCopied-from, copied_byte, seek_end-ok, size-fill, seek-copy,
}
use linux_loader.Loader.Errors.Pe.{
  seek_image_end, seek_image_header, seek_dtb_start, seek_dtb_end, dtb_too_big, read_kernel_image,
  read_image_header, read_dtb_image, invalid_image, invalid_image_magic_number,
  invalid_base_addr_alignment,
}
use linux_loader.Loader.{Error, pe, memory_overflow, KernelLoaderResult, default_result}
use linux_loader.Loader.Pe.{
  Arm64ImageHeader, image_header_size, image_header_of_bytes, text_start, is_misaligned,
  base_address, read_image, load_image, load_pe, load_dtb,
}
use linux_loader.Loader.Pe.Loaded.{load_image-ok, aligned}

-- The header that a read of `n` bytes of the image finds.
abbrev pub header_at : List ℕ → ℕ → Arm64ImageHeader
header_at image n = image_header_of_bytes (take n image ++ drop n (replicate image_header_size 0))

module _ {R M : Type 0} {rs : ReadSeek R} {tr : Transfer R M} {peek : M → ℕ → Option ℕ}
    (image : IsImage rs) (laws : IsTransfer rs tr peek) (fill : IsFill tr image) where
  load_image-IsCopied :
      (addr count : ℕ) (s s' : Machine R M) (b : KernelLoaderResult)
      → load_image rs tr addr count s ≡ (ok b, s')
      → IsCopied image laws 0 addr count s s'
  unfolding load_image
  load_image-IsCopied addr count s s' b h =
      let result : ℕ → Action (Machine R M) Error KernelLoaderResult =
        λ last. pure (record default_result { kernel_load = addr; kernel_end = last }) in
      let finish : Unit {0} → Action (Machine R M) Error KernelLoaderResult =
        λ _. lift (ok_or (checked_add addr count) memory_overflow) >>= result in
      let copy : Action (Machine R M) Error (Unit {0}) =
        on_machine (tr.read_exact_from addr count) (pe read_kernel_image) in
      let (a, s₁, e₁, h₁) =
        bind-eq-ok (on_image (rs.seek (start 0)) (pe seek_image_header)) (λ _. copy >>= finish) s s'
          b h in
      let (_, s₂, e₂, h₂) = bind-eq-ok copy finish s₁ s' b h₁ in
      seek-copy image laws (pe seek_image_header) (pe read_kernel_image) 0 addr count a s s₁ s' e₁
        (run_from_to copy s₁ s₁ s₂ s' tt refl e₂ (ground arith))

  -- What a read of the header finds: the size of the image, and the header in its first 64 bytes,
  -- or in fewer if the read was short.
  abbrev pub IsFound : Machine R M → Machine R M → ℕ × Arm64ImageHeader → Type 0
  IsFound s s' found =
      (n : ℕ) × (n ≤ image_header_size)
      × (found.0 ≡ length (image.bytes s.image))
      × (found.1 ≡ header_at (image.bytes s.image) n)
      × (found.1.magic ≡ 0x644d5241)
      × IsCalm image s s'

  read_image-image :
      (s s' : Machine R M) (found : ℕ × Arm64ImageHeader)
      → read_image rs tr s ≡ (ok found, s')
      → IsFound s s' found
  unfolding read_image
  read_image-image s s' found h =
      let check : ℕ → List ℕ × ℕ → Action (Machine R M) Error (ℕ × Arm64ImageHeader) = λ size read.
        raise_if (not ((image_header_of_bytes read.0).magic == 0x644d5241))
          (pe invalid_image_magic_number)
        >> pure (size, image_header_of_bytes read.0) in
      let get : Action (Machine R M) Error (List ℕ × ℕ) =
        on_image (tr.read_from (replicate image_header_size 0) image_header_size)
          (pe read_image_header) in
      let (size, s₁, e₁, h₁) =
        bind-eq-ok (on_image (rs.seek (end (pos 0))) (pe seek_image_end))
          (λ size. on_image (rs.seek (start 0)) (pe seek_image_header) >>= λ _. get >>= check size)
          s s' found h in
      let (a, s₂, e₂, h₂) =
        bind-eq-ok (on_image (rs.seek (start 0)) (pe seek_image_header)) (λ _. get >>= check size)
          s₁ s' found h₁ in
      let (read, s₃, e₃, h₃) = bind-eq-ok get (check size) s₂ s' found h₂ in
      checked s s' found size read (ground arith) (ground arith) (ground arith) (
        size-fill image fill (pe seek_image_end) (pe seek_image_header) (pe read_image_header) 0
          size a image_header_size (replicate image_header_size 0) read s s₁ s₂ s₃ s' e₁ e₂ e₃
          (ground arith))
    where
      checked :
          (s s' : Machine R M) (found : ℕ × Arm64ImageHeader) (size : ℕ) (read : List ℕ × ℕ)
          → found.0 ≡ size
          → found.1 ≡ image_header_of_bytes read.0
          → (image_header_of_bytes read.0).magic ≡ 0x644d5241
          → (size ≡ length (image.bytes s.image))
            × (read.1 ≤ image_header_size)
            × (read.0
                ≡ take read.1 (image.bytes s.image) ++ drop read.1 (replicate image_header_size 0))
            × IsCalm image s s'
          → IsFound s s' found
      checked s s' found size read sized which magic (length_, few, front, calm) = (
        read.1,
        few,
        sized ∙ length_,
        which ∙ ap image_header_of_bytes front,
        ap (λ h. h.magic) which ∙ magic,
        calm,
      )

  -- What a successful load of an image means, where `x` is an address of guest memory.
  abbrev pub IsPeLoaded : Option ℕ → Machine R M → Machine R M → KernelLoaderResult → ℕ → Type 0
  IsPeLoaded kernel_offset s s' b x =
      (n : ℕ) × (n ≤ image_header_size)
      × ((header_at (image.bytes s.image) n).magic ≡ 0x644d5241)
      × (base_address kernel_offset % 0x200000 ≡ 0)
      × (b.kernel_load
          ≡ base_address kernel_offset + text_start (header_at (image.bytes s.image) n))
      × (b.kernel_end ≡ b.kernel_load + length (image.bytes s.image))
      × (b.kernel_end < two_64)
      × (image.bytes s'.image ≡ image.bytes s.image)
      × (peek s'.memory x
          ≡ copied_byte (image.bytes s.image) 0 b.kernel_load (length (image.bytes s.image)) x
              (peek s.memory x))

  pe_loaded :
      (kernel_offset : Option ℕ) (at x : ℕ) (found : ℕ × Arm64ImageHeader) (s s₁ s' : Machine R M)
      (b : KernelLoaderResult)
      → base_address kernel_offset % 0x200000 ≡ 0
      → at ≡ base_address kernel_offset + text_start found.1
      → IsFound s s₁ found
      → (b.kernel_load ≡ at) × (b.kernel_end ≡ at + found.0) × (b.kernel_end < two_64)
      → IsCopied image laws 0 at found.0 s₁ s'
      → IsPeLoaded kernel_offset s s' b x
  pe_loaded kernel_offset at x found s s₁ s' b even placed (n, few, size, which, magic, calm)
        (load, last, bound) copied =
      let (same, bytes) = IsCopied-from image laws 0 at found.0 s s₁ s' calm copied in
      let spelled : b.kernel_load
          ≡ base_address kernel_offset + text_start (header_at (image.bytes s.image) n) =
        load ∙ placed ∙ ap (λ h. base_address kernel_offset + text_start h) which in
      (
        n,
        few,
        ap (λ h. h.magic) (sym which) ∙ magic,
        even,
        spelled,
        last ∙ ap (λ k. k + found.0) (sym load) ∙ ap (λ k. b.kernel_load + k) size,
        bound,
        same,
        bytes x
            ∙ ap (λ k. copied_byte (image.bytes s.image) 0 at k x (peek s.memory x)) size
            ∙ ap
                (λ k.
                  copied_byte (image.bytes s.image) 0 k (length (image.bytes s.image)) x
                    (peek s.memory x))
                (sym load),
      )

  -- A successful load of an arm64 image does what the image's bytes mean. The magic number is right
  -- in the header that its first 64 bytes spell (or fewer, with zeros behind them, if the read was
  -- short), and the base is a multiple of 2 MB. The load address is the base and the header's text
  -- offset (0x80000 if the header gives no size), and the end is where the whole image ends, below
  -- 2^64. The byte at any address `x` is the image's there, or as before outside; the image is
  -- unchanged.
  pub load_pe_refines :
      (kernel_offset highmem_start : Option ℕ) (s s' : Machine R M) (b : KernelLoaderResult) (x : ℕ)
      → load_pe rs tr kernel_offset highmem_start s ≡ (ok b, s')
      → IsPeLoaded kernel_offset s s' b x
  unfolding load_pe
  load_pe_refines kernel_offset highmem_start s s' b x e =
      let place : ℕ × Arm64ImageHeader → Action (Machine R M) Error ℕ = λ found. lift (
        ok_or (checked_add (base_address kernel_offset) (text_start found.1)) (pe invalid_image)) in
      let load : ℕ × Arm64ImageHeader → ℕ → Action (Machine R M) Error KernelLoaderResult =
        λ found at. load_image rs tr at found.0 in
      let check : Action (Machine R M) Error (Unit {0}) =
        raise_if (is_misaligned kernel_offset) (pe invalid_base_addr_alignment) in
      let (found, s₁, e₁, h₁) =
        bind-eq-ok (read_image rs tr) (λ found. check >> (place found >>= load found)) s s' b e in
      let (_, s₂, e₂, h₂) = bind-eq-ok check (λ _. place found >>= load found) s₁ s' b h₁ in
      let (at, s₃, e₃, h₃) = bind-eq-ok (place found) (load found) s₂ s' b h₂ in
      let run : load_image rs tr at found.0 s₁ ≡ (ok b, s') =
        run_from_to (load found at) s₁ s₃ s' s' b (ground arith) h₃ refl in
      pe_loaded kernel_offset at x found s s₁ s' b (aligned kernel_offset (ground arith))
        (ground arith) (read_image-image s s₁ found e₁) (load_image-ok rs tr at found.0 s₁ s' b run)
        (load_image-IsCopied at found.0 s₁ s' b run)

  -- A device tree that is loaded has at most 2 MB, and stands as a whole at the address given.
  pub load_dtb_refines :
      (guest_addr : ℕ) (s s' : Machine R M)
      → load_dtb rs tr guest_addr s ≡ (ok tt, s')
      → (length (image.bytes s.image) ≤ 0x200000)
        × IsCopied image laws 0 guest_addr (length (image.bytes s.image)) s s'
  unfolding load_dtb
  load_dtb_refines guest_addr s s' h =
      let copy : ℕ → Action (Machine R M) Error (Unit {0}) =
        λ size. on_machine (tr.read_exact_from guest_addr size) (pe read_dtb_image) in
      let check : ℕ → Action (Machine R M) Error (Unit {0}) =
        λ size. raise_if (ltb 0x200000 size) (pe dtb_too_big) in
      let back : Action (Machine R M) Error ℕ = on_image (rs.seek (start 0)) (pe seek_dtb_start) in
      let (size, s₁, e₁, h₁) =
        bind-eq-ok (on_image (rs.seek (end (pos 0))) (pe seek_dtb_end))
          (λ size. check size >> (back >>= λ _. copy size)) s s' tt h in
      let (_, s₂, e₂, h₂) = bind-eq-ok (check size) (λ _. back >>= λ _. copy size) s₁ s' tt h₁ in
      let (a, s₃, e₃, h₃) = bind-eq-ok back (λ _. copy size) s₂ s' tt h₂ in
      let (sized, calm) = seek_end-ok image (pe seek_dtb_end) size s s₁ e₁ in
      sized_copy guest_addr size s s' sized (ground arith) (
        IsCopied-from image laws 0 guest_addr size s s₁ s' calm (
          seek-copy image laws (pe seek_dtb_start) (pe read_dtb_image) 0 guest_addr size a s₁ s₃ s'
            (run_from_to back s₁ s₂ s₃ s₃ a (ground arith) e₃ refl) h₃))
    where
      sized_copy :
          (guest_addr size : ℕ) (s s' : Machine R M)
          → size ≡ length (image.bytes s.image)
          → size ≤ 0x200000
          → IsCopied image laws 0 guest_addr size s s'
          → (length (image.bytes s.image) ≤ 0x200000)
            × IsCopied image laws 0 guest_addr (length (image.bytes s.image)) s s'
      sized_copy guest_addr size s s' sized small copied = rw (sym sized) (small, copied)
