-- ===== src/Loader/Bzimage/Outcome.antt =====
-- `BzImage::load` of src/loader/x86_64/bzimage/mod.rs gives what the image's bytes say, errors
-- included.
use linux_loader.Base.{
  ℕ, ◌+◌, ◌-◌, ◌%◌, ◌^◌, ◌≤◌, ◌<◌, Bool, true, not, List, Option, some, ◌≡◌, sym, ap, ◌∙◌, arith,
  ltb, leb, if◌then◌else◌, length, drop, replicate, Bool-cases, inl, inr, ◌++◌,
}
use linux_loader.Base.Word.{two_64, IsU64, checked_add}
use linux_loader.Base.Outcome.{ok, err, Action, pure, lift, raise_if, ◌>>=◌, ◌>>◌, ok_or}
use linux_loader.Reader.{ReadSeek, Machine, Transfer, IsImage}
use linux_loader.Reader.Working.{
  IsWorking, bind-ok, bind-err, checked, size-fill-runs, seek-copy-runs,
}
use linux_loader.Reader.Padded.{padded, padded_lem}
use linux_loader.LoaderGen.Bytes.{
  are_bytes, are_bytes-append, are_bytes-replicate, are_bytes-take, are_bytes-drop,
  from_le_bytes-bound,
}
use linux_loader.LoaderGen.Bootparam.{SetupHeader, setup_header_size, setup_header_of_bytes}
use linux_loader.Loader.Errors.Bzimage.{
  invalid_bz_image, underflow, read_bz_image_header, read_bz_image_compressed_kernel,
  seek_bz_image_end, seek_bz_image_header, seek_bz_image_compressed_kernel,
}
use linux_loader.Loader.{
  Error, bzimage, memory_overflow, invalid_kernel_start_address, KernelLoaderResult, default_result,
}
use linux_loader.Loader.Bzimage.{
  is_invalid, is_below_highmem, load_offset, setup_size, split_image, read_boot_header, load_kernel,
  load_bzimage,
}
use linux_loader.Loader.Bzimage.Loaded.{setup_bytes}
use linux_loader.Loader.Bzimage.Meaning.{
  setup_header_in, outcome_by, bzimage_outcome, is_invalid_lem, is_below_highmem_lem,
  load_offset_lem,
}

-- The number of setup sectors is a byte.
setup_sects-bound :
    (image : List ℕ) → are_bytes image ≡ true → (setup_header_in image).setup_sects < 256
unfolding setup_header_of_bytes
setup_sects-bound image byte = from_le_bytes-bound 1 (padded setup_header_size (drop 0x1F1 image)) (
    are_bytes-take setup_header_size (drop 0x1F1 image ++ replicate setup_header_size 0) (
      are_bytes-append (drop 0x1F1 image) (replicate setup_header_size 0)
        (are_bytes-drop 0x1F1 image byte) (are_bytes-replicate setup_header_size)))

split_image_lem :
    (n : ℕ) (h : SetupHeader)
    → h.setup_sects < 256
    → split_image n h ≡ (
        if ltb n (setup_bytes h)
        then err (bzimage underflow)
        else ok (setup_bytes h, n - setup_bytes h))
unfolding split_image setup_size
split_image_lem n h few = ground arith

-- What `load` does behind the header.
place_kernel :
    {R M : Type 0} (rs : ReadSeek R) (tr : Transfer R M)
    → Option ℕ
    → Option ℕ
    → ℕ × SetupHeader
    → Action (Machine R M) Error KernelLoaderResult
place_kernel rs tr kernel_offset highmem_start found = do
  sizes ← lift (split_image found.0 found.1)
  raise_if (is_below_highmem found.1 highmem_start) invalid_kernel_start_address
  load_kernel rs tr (load_offset found.1 kernel_offset) sizes found.1

module _ {R M : Type 0} {rs : ReadSeek R} {tr : Transfer R M} {image : IsImage rs}
    {has_room : M → ℕ → ℕ → Bool} (works : IsWorking tr image has_room) where
  read_boot_header-runs :
      (s : Machine R M)
      → IsU64 (length (image.bytes s.image))
      → (r : R) × (image.bytes r ≡ image.bytes s.image)
        × (read_boot_header rs tr s ≡ (
          if is_invalid (setup_header_in (image.bytes s.image))
              then err (bzimage invalid_bz_image)
              else ok (length (image.bytes s.image), setup_header_in (image.bytes s.image)),
          record s { image = r },
        ))
  unfolding read_boot_header
  read_boot_header-runs s small =
      let check : ℕ → List ℕ × ℕ → Action (Machine R M) Error (ℕ × SetupHeader) = λ size read.
        raise_if (is_invalid (setup_header_of_bytes read.0)) (bzimage invalid_bz_image)
        >> pure (size, setup_header_of_bytes read.0) in
      let (r, same, run) =
        size-fill-runs works (bzimage seek_bz_image_end) (bzimage seek_bz_image_header)
          (bzimage read_bz_image_header) 0x1F1 setup_header_size (replicate setup_header_size 0)
          check s small in
      let s' : Machine R M = record s { image = r } in
      let bytes = image.bytes s.image in
      (
        r,
        same,
        run
            ∙ ap (λ buf. check (length bytes) (buf, 0) s')
                (padded_lem setup_header_size (drop 0x1F1 bytes))
            ∙ checked (is_invalid (setup_header_in bytes)) (bzimage invalid_bz_image)
                (length bytes, setup_header_in bytes) s',
      )

  load_kernel-runs :
      (at setup count : ℕ) (h : SetupHeader) (s : Machine R M)
      → setup + count ≤ length (image.bytes s.image)
      → (load_kernel rs tr at (setup, count) h s).0 ≡ (
          if not (has_room s.memory at count)
          then err (bzimage read_bz_image_compressed_kernel)
          else if leb two_64 (at + count)
          then err memory_overflow
          else ok (record default_result {
            setup_header = some (record h { code32_start = at % 2 ^ 32 });
            kernel_load = at;
            kernel_end = at + count;
          }))
  unfolding load_kernel
  load_kernel-runs at setup count h s fits =
      let finish : Action (Machine R M) Error KernelLoaderResult =
        lift (ok_or (checked_add at count) memory_overflow) >>= λ last.
        pure (record default_result {
          setup_header = some (record h { code32_start = at % 2 ^ 32 });
          kernel_load = at;
          kernel_end = last;
        }) in
      let (s', run) =
        seek-copy-runs works (bzimage seek_bz_image_compressed_kernel)
          (bzimage read_bz_image_compressed_kernel) setup at count finish s fits in
      ap (λ p. p.0) run ∙ ground arith

  place_kernel-runs :
      (kernel_offset highmem_start : Option ℕ) (n : ℕ) (h : SetupHeader) (s : Machine R M)
      → n ≡ length (image.bytes s.image)
      → h.setup_sects < 256
      → (place_kernel rs tr kernel_offset highmem_start (n, h) s).0 ≡ (
          let at = load_offset h kernel_offset in
          let count = n - setup_bytes h in
          if ltb n (setup_bytes h)
          then err (bzimage underflow)
          else if is_below_highmem h highmem_start
          then err invalid_kernel_start_address
          else if not (has_room s.memory at count)
          then err (bzimage read_bz_image_compressed_kernel)
          else if leb two_64 (at + count)
          then err memory_overflow
          else ok (record default_result {
            setup_header = some (record h { code32_start = at % 2 ^ 32 });
            kernel_load = at;
            kernel_end = at + count;
          }))
  unfolding place_kernel
  place_kernel-runs kernel_offset highmem_start n h s sized few =
      let at = load_offset h kernel_offset in
      elim (Bool-cases (ltb n (setup_bytes h))) [
        | inl short ↦ rw (split_image_lem n h few) (rw short)
        | inr long ↦ rw (split_image_lem n h few) (
            rw long (elim (Bool-cases (is_below_highmem h highmem_start)) [
              | inl low ↦ rw low
              | inr high ↦
                  rw high
                    (load_kernel-runs at (setup_bytes h) (n - setup_bytes h) h s (ground arith))
            ]))
      ]

  load_bzimage-runs :
      (kernel_offset highmem_start : Option ℕ) (s : Machine R M)
      → IsU64 (length (image.bytes s.image))
      → are_bytes (image.bytes s.image) ≡ true
      → (load_bzimage rs tr kernel_offset highmem_start s).0 ≡ (
          let h = setup_header_in (image.bytes s.image) in
          outcome_by
            (is_invalid h)
            (is_below_highmem h highmem_start)
            (load_offset h kernel_offset)
            (has_room s.memory)
            (image.bytes s.image))
  unfolding load_bzimage place_kernel
  load_bzimage-runs kernel_offset highmem_start s small byte =
      let rest = place_kernel rs tr kernel_offset highmem_start in
      let (r, same, run) = read_boot_header-runs s small in
      let s' : Machine R M = record s { image = r } in
      let bytes = image.bytes s.image in
      let header = setup_header_in bytes in
      elim (Bool-cases (is_invalid header)) [
        | inl bad ↦
            ap (λ p. p.0)
              (bind-err (read_boot_header rs tr) rest s s' (bzimage invalid_bz_image)
                (run ∙ rw bad))
            ∙ rw bad
        | inr good ↦
            ap (λ p. p.0)
              (bind-ok (read_boot_header rs tr) rest s s' (length bytes, header) (run ∙ rw good))
            ∙ place_kernel-runs kernel_offset highmem_start (length bytes) header s'
                (sym (ap length same)) (setup_sects-bound bytes byte)
            ∙ rw good
      ]

  -- A load of a bzImage gives what its bytes say. The image is of bytes, can be read without a fault and
  -- has a size of 64 bits. The checks are made in this order, and the first that fails gives the error:
  -- the setup header in the 119 bytes from 0x1F1 on (with zeros behind a shorter image), the room for
  -- the setup in the image, the header's load address against high memory, the room in memory for what
  -- is behind the setup, and the end of the kernel, of 64 bits. If none fails, the result has the load
  -- address, the end of the kernel there, and the header with the load address, cut to 32 bits. The
  -- size of the setup does not overflow.
  pub load_bzimage-eq-outcome :
      (kernel_offset highmem_start : Option ℕ) (s : Machine R M)
      → IsU64 (length (image.bytes s.image))
      → are_bytes (image.bytes s.image) ≡ true
      → (load_bzimage rs tr kernel_offset highmem_start s).0
        ≡ bzimage_outcome kernel_offset highmem_start (has_room s.memory) (image.bytes s.image)
  load_bzimage-eq-outcome kernel_offset highmem_start s small byte =
      let h = setup_header_in (image.bytes s.image) in
      load_bzimage-runs kernel_offset highmem_start s small byte ∙ λ i.
      outcome_by (is_invalid_lem h i) (is_below_highmem_lem h highmem_start i)
        (load_offset_lem h kernel_offset i) (has_room s.memory) (image.bytes s.image)
