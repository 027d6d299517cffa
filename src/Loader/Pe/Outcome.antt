-- ===== src/Loader/Pe/Outcome.antt =====
-- `PE::load` and `load_dtb` of src/loader/aarch64/pe/mod.rs as functions of the image's bytes: which
-- result or which error each image gives.
use linux_loader.Base.{
  ℕ, ◌+◌, ◌%◌, Bool, not, List, Option, none, some, ◌≡◌, sym, ap, ◌∙◌, arith, ltb, leb, ◌==◌,
  if◌then◌else◌, length, replicate, Bool-cases, inl, inr,
}
use linux_loader.Base.Int.{pos}
use linux_loader.Base.Word.{two_64, IsU64, checked_add}
use linux_loader.Base.Outcome.{Result, ok, err, Action, pure, lift, raise_if, ◌>>=◌, ◌>>◌, ok_or}
use linux_loader.Reader.{start, end, ReadSeek, Machine, Transfer, IsImage, on_image, on_machine}
use linux_loader.Reader.Working.{
  IsWorking, bind-ok, bind-err, bind-pure, checked, size-fill-runs, seek-copy-runs, seek_end-runs,
}
use linux_loader.Reader.Padded.{padded, padded_lem}
use linux_loader.Loader.Errors.Pe.{
  seek_image_end, seek_image_header, seek_dtb_start, seek_dtb_end, dtb_too_big, read_kernel_image,
  read_image_header, read_dtb_image, invalid_image, invalid_image_magic_number,
  invalid_base_addr_alignment,
}
use linux_loader.Loader.{Error, pe, memory_overflow, KernelLoaderResult, default_result}
use linux_loader.Loader.Pe.{
  Arm64ImageHeader, image_header_size, image_header_of_bytes, text_start, is_misaligned,
  base_address, read_image, load_image, load_pe, load_dtb,
}
use mathlib.Core.Path.{fun_ext}

-- The header that the image starts with, and the address that it asks for.
abbrev pub image_header_in : List ℕ → Arm64ImageHeader
image_header_in image = image_header_of_bytes (padded image_header_size image)

abbrev pub load_address : Option ℕ → List ℕ → ℕ
load_address kernel_offset image =
    base_address kernel_offset
    + (if (image_header_in image).image_size == 0
        then 0x80000
        else (image_header_in image).text_offset)

-- The checks in their order; `has_room addr count` says whether memory has that range.
abbrev pub pe_outcome : Option ℕ → (ℕ → ℕ → Bool) → List ℕ → Result Error KernelLoaderResult
pe_outcome kernel_offset has_room image =
    let at = load_address kernel_offset image in
    if not ((image_header_in image).magic == 0x644d5241)
    then err (pe invalid_image_magic_number)
    else if not (base_address kernel_offset % 0x200000 == 0)
    then err (pe invalid_base_addr_alignment)
    else if leb two_64 at
    then err (pe invalid_image)
    else if not (has_room at (length image))
    then err (pe read_kernel_image)
    else if leb two_64 (at + length image)
    then err memory_overflow
    else ok (record default_result { kernel_load = at; kernel_end = at + length image })

abbrev pub dtb_outcome : ℕ → (ℕ → ℕ → Bool) → List ℕ → Result Error (Unit {0})
dtb_outcome guest_addr has_room dtb =
    if ltb 0x200000 (length dtb)
    then err (pe dtb_too_big)
    else if not (has_room guest_addr (length dtb))
    then err (pe read_dtb_image)
    else ok tt

-- What `load` does behind the header.
place_image :
    {R M : Type 0} (rs : ReadSeek R) (tr : Transfer R M)
    → Option ℕ
    → ℕ × Arm64ImageHeader
    → Action (Machine R M) Error KernelLoaderResult
place_image rs tr kernel_offset found = do
  raise_if (is_misaligned kernel_offset) (pe invalid_base_addr_alignment)
  at ←
      lift
        (ok_or (checked_add (base_address kernel_offset) (text_start found.1)) (pe invalid_image))
  load_image rs tr at found.0

module _ {R M : Type 0} {rs : ReadSeek R} {tr : Transfer R M} {image : IsImage rs}
    {has_room : M → ℕ → ℕ → Bool} (works : IsWorking tr image has_room) where
  read_image-runs :
      (s : Machine R M)
      → IsU64 (length (image.bytes s.image))
      → (r : R) × (image.bytes r ≡ image.bytes s.image)
        × (read_image rs tr s ≡ (
          if not ((image_header_in (image.bytes s.image)).magic == 0x644d5241)
              then err (pe invalid_image_magic_number)
              else ok (length (image.bytes s.image), image_header_in (image.bytes s.image)),
          record s { image = r },
        ))
  unfolding read_image
  read_image-runs s small =
      let check : ℕ → List ℕ × ℕ → Action (Machine R M) Error (ℕ × Arm64ImageHeader) = λ size read.
        raise_if (not ((image_header_of_bytes read.0).magic == 0x644d5241))
          (pe invalid_image_magic_number)
        >> pure (size, image_header_of_bytes read.0) in
      let (r, same, run) =
        size-fill-runs works (pe seek_image_end) (pe seek_image_header) (pe read_image_header) 0
          image_header_size (replicate image_header_size 0) check s small in
      let s' : Machine R M = record s { image = r } in
      let bytes = image.bytes s.image in
      (
        r,
        same,
        run
            ∙ ap (λ buf. check (length bytes) (buf, 0) s') (padded_lem image_header_size bytes)
            ∙ checked (not ((image_header_in bytes).magic == 0x644d5241))
                (pe invalid_image_magic_number) (length bytes, image_header_in bytes) s',
      )

  load_image-runs :
      (at count : ℕ) (s : Machine R M)
      → count ≡ length (image.bytes s.image)
      → (load_image rs tr at count s).0 ≡ (
          if not (has_room s.memory at count)
          then err (pe read_kernel_image)
          else if leb two_64 (at + count)
          then err memory_overflow
          else ok (record default_result { kernel_load = at; kernel_end = at + count }))
  unfolding load_image
  load_image-runs at count s sized =
      let finish : Action (Machine R M) Error KernelLoaderResult =
        lift (ok_or (checked_add at count) memory_overflow) >>= λ last.
        pure (record default_result { kernel_load = at; kernel_end = last }) in
      let (s', run) =
        seek-copy-runs works (pe seek_image_header) (pe read_kernel_image) 0 at count finish s
          (omega (arith, sized)) in
      ap (λ p. p.0) run ∙ ground arith

  -- The checks behind the header, and the copy.
  place_image-runs :
      (kernel_offset : Option ℕ) (found : ℕ × Arm64ImageHeader) (s : Machine R M)
      → found.0 ≡ length (image.bytes s.image)
      → (place_image rs tr kernel_offset found s).0 ≡ (
          let at = base_address kernel_offset + text_start found.1 in
          if not (base_address kernel_offset % 0x200000 == 0)
          then err (pe invalid_base_addr_alignment)
          else if leb two_64 at
          then err (pe invalid_image)
          else if not (has_room s.memory at found.0)
          then err (pe read_kernel_image)
          else if leb two_64 (at + found.0)
          then err memory_overflow
          else ok (record default_result { kernel_load = at; kernel_end = at + found.0 }))
  unfolding place_image is_misaligned
  place_image-runs none found s sized =
      ground (arith, load_image-runs (0 + text_start found.1) found.0 s sized)
  place_image-runs (some k) found s sized =
      ground (arith, load_image-runs (k + text_start found.1) found.0 s sized)

  -- A load of an arm64 image gives what its bytes say. The image can be read without a fault and has a
  -- size of 64 bits. The checks are made in this order, and the first that fails gives the error: the
  -- magic number in the first 64 bytes (with zeros behind a shorter image), the alignment of the base
  -- to 2 MB, the sum of the base and the text offset, the room in memory, and the end of the kernel,
  -- both of 64 bits. If none fails, the result has the sum as load address, and the end of the image
  -- there.
  pub load_pe-eq-outcome :
      (kernel_offset highmem_start : Option ℕ) (s : Machine R M)
      → IsU64 (length (image.bytes s.image))
      → (load_pe rs tr kernel_offset highmem_start s).0
        ≡ pe_outcome kernel_offset (has_room s.memory) (image.bytes s.image)
  unfolding load_pe place_image text_start
  load_pe-eq-outcome kernel_offset highmem_start s small =
      let rest = place_image rs tr kernel_offset in
      let (r, same, run) = read_image-runs s small in
      let s' : Machine R M = record s { image = r } in
      let bytes = image.bytes s.image in
      let header = image_header_in bytes in
      elim (Bool-cases (not ((image_header_in bytes).magic == 0x644d5241))) [
        | inl bad ↦
            ap (λ p. p.0)
              (bind-err (read_image rs tr) rest s s' (pe invalid_image_magic_number) (run ∙ rw bad))
            ∙ rw bad
        | inr good ↦
            ap (λ p. p.0)
              (bind-ok (read_image rs tr) rest s s' (length bytes, header) (run ∙ rw good))
            ∙ place_image-runs kernel_offset (length bytes, header) s' (sym (ap length same))
            ∙ rw good
      ]

  -- A load of a device tree gives what its size says. The device tree can be read without a fault and
  -- has a size of 64 bits. One of more than 2 MB is refused first, then one that memory has no room
  -- for at the address given; any other is loaded.
  pub load_dtb-eq-outcome :
      (guest_addr : ℕ) (s : Machine R M)
      → IsU64 (length (image.bytes s.image))
      → (load_dtb rs tr guest_addr s).0
        ≡ dtb_outcome guest_addr (has_room s.memory) (image.bytes s.image)
  unfolding load_dtb
  load_dtb-eq-outcome guest_addr s small =
      let count = length (image.bytes s.image) in
      let copy : Action (Machine R M) Error (Unit {0}) =
        on_machine (tr.read_exact_from guest_addr count) (pe read_dtb_image) in
      let back : Action (Machine R M) Error ℕ = on_image (rs.seek (start 0)) (pe seek_dtb_start) in
      let s₁ : Machine R M = record s { image = (rs.seek (end (pos 0)) s.image).1 } in
      let same = image.seek-same (end (pos 0)) s.image in
      let (s', run) =
        seek-copy-runs works (pe seek_dtb_start) (pe read_dtb_image) 0 guest_addr count (pure tt) s₁
          (omega (arith, ap length same)) in
      let plain : (back >>= λ _. copy) s₁ ≡ (back >>= λ _. copy >> pure tt) s₁ =
        ap (λ (k : Action (Machine R M) Error (Unit {0})). (back >>= λ _. k) s₁)
          (sym (fun_ext (bind-pure copy))) in
      ap (λ p. p.0)
        (bind-ok (on_image (rs.seek (end (pos 0))) (pe seek_dtb_end))
          (λ size.
            raise_if (ltb 0x200000 size) (pe dtb_too_big)
            >> (back >>= λ _. on_machine (tr.read_exact_from guest_addr size) (pe read_dtb_image)))
          s s₁ count (seek_end-runs works (pe seek_dtb_end) s small))
      ∙ (elim (Bool-cases (ltb 0x200000 count)) [
        | inl big ↦ rw big
        | inr fits ↦ rw fits (ap (λ p. p.0) (plain ∙ run) ∙ ground arith)
      ])
