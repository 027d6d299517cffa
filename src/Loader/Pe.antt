-- ===== src/Loader/Pe.antt =====
-- src/loader/aarch64/pe/mod.rs: `PE::load` and `load_dtb`.
pub mod Loaded
pub mod Refines
pub mod Outcome
use linux_loader.Base.{
  ℕ, ◌+◌, ◌%◌, Bool, true, false, not, List, Option, none, some, ltb, ◌==◌, if◌then◌else◌,
  replicate,
}
use linux_loader.Base.Int.{ℤ, pos}
use linux_loader.Base.Word.{checked_add}
use linux_loader.Base.Outcome.{Result, Action, pure, lift, raise_if, ◌>>=◌, ◌>>◌, ok_or}
use linux_loader.Reader.{SeekFrom, start, end, ReadSeek, Machine, Transfer, on_image, on_machine}
use linux_loader.LoaderGen.{field}
use linux_loader.Loader.Errors.Pe.{
  PeError, seek_image_end, seek_image_header, seek_dtb_start, seek_dtb_end, dtb_too_big,
  read_kernel_image, read_image_header, read_dtb_image, invalid_image, invalid_image_magic_number,
  invalid_base_addr_alignment,
}
use linux_loader.Loader.{Error, pe, memory_overflow, KernelLoaderResult, default_result}

pub record Arm64ImageHeader : Type 0 where
  pub code0 : ℕ
  pub code1 : ℕ
  pub text_offset : ℕ
  pub image_size : ℕ
  pub flags : ℕ
  pub res2 : ℕ
  pub res3 : ℕ
  pub res4 : ℕ
  pub magic : ℕ
  pub res5 : ℕ

abbrev pub image_header_size : ℕ
image_header_size = 64

-- `repr(C)`; the machine is little endian, so `from_le` changes nothing.
unfoldable pub image_header_of_bytes : List ℕ → Arm64ImageHeader
image_header_of_bytes bs = record {
  code0 = field bs 0 4;
  code1 = field bs 4 4;
  text_offset = field bs 8 8;
  image_size = field bs 16 8;
  flags = field bs 24 8;
  res2 = field bs 32 8;
  res3 = field bs 40 8;
  res4 = field bs 48 8;
  magic = field bs 56 4;
  res5 = field bs 60 4;
}

-- Where the kernel starts in its image's slot.
unfoldable pub text_start : Arm64ImageHeader → ℕ
text_start h = if h.image_size == 0 then 0x80000 else h.text_offset

unfoldable pub is_misaligned : Option ℕ → Bool
is_misaligned none = false
is_misaligned (some kernel_offset) = not (kernel_offset % 0x200000 == 0)

-- `kernel_offset.unwrap_or(GuestAddress(0))`.
abbrev pub base_address : Option ℕ → ℕ
base_address none = 0
base_address (some kernel_offset) = kernel_offset

module _ {R M : Type 0} (rs : ReadSeek R) (tr : Transfer R M) where
  -- The size of the image, and its header if the magic number is right.
  unfoldable pub read_image : Action (Machine R M) Error (ℕ × Arm64ImageHeader)
  read_image = do
    kernel_size ← on_image (rs.seek (end (pos 0))) (pe seek_image_end)
    _ ← on_image (rs.seek (start 0)) (pe seek_image_header)
    read ←
        on_image (tr.read_from (replicate image_header_size 0) image_header_size)
          (pe read_image_header)
    raise_if (not ((image_header_of_bytes read.0).magic == 0x644d5241))
        (pe invalid_image_magic_number)
    pure (kernel_size, image_header_of_bytes read.0)

  -- The whole image into memory.
  unfoldable pub load_image : ℕ → ℕ → Action (Machine R M) Error KernelLoaderResult
  load_image mem_offset kernel_size = do
    _ ← on_image (rs.seek (start 0)) (pe seek_image_header)
    on_machine (tr.read_exact_from mem_offset kernel_size) (pe read_kernel_image)
    kernel_end ← lift (ok_or (checked_add mem_offset kernel_size) memory_overflow)
    pure (record default_result { kernel_load = mem_offset; kernel_end = kernel_end })

  unfoldable pub load_pe :
      (kernel_offset highmem_start : Option ℕ) → Action (Machine R M) Error KernelLoaderResult
  load_pe kernel_offset highmem_start = do
    found ← read_image
    raise_if (is_misaligned kernel_offset) (pe invalid_base_addr_alignment)
    mem_offset ←
        lift
          (ok_or (checked_add (base_address kernel_offset) (text_start found.1)) (pe invalid_image))
    load_image mem_offset found.0

  unfoldable pub load_dtb : (guest_addr : ℕ) → Action (Machine R M) Error (Unit {0})
  load_dtb guest_addr = do
    dtb_size ← on_image (rs.seek (end (pos 0))) (pe seek_dtb_end)
    raise_if (ltb 0x200000 dtb_size) (pe dtb_too_big)
    _ ← on_image (rs.seek (start 0)) (pe seek_dtb_start)
    on_machine (tr.read_exact_from guest_addr dtb_size) (pe read_dtb_image)
