-- ===== src/Loader/Bzimage.antt =====
-- src/loader/x86_64/bzimage/mod.rs: `BzImage::load`.
pub mod Loaded
pub mod Placed
pub mod Refines
pub mod Guest
pub mod Meaning
pub mod Outcome
use linux_loader.Base.{
  ℕ, ◌+◌, ◌*◌, ◌%◌, ◌^◌, Bool, true, false, ◌||◌, not, List, Option, none, some, bit_and, ltb, ◌==◌,
  if◌then◌else◌, replicate,
}
use linux_loader.Base.Int.{ℤ, pos}
use linux_loader.Base.Word.{checked_add, checked_sub, checked_mul}
use linux_loader.Base.Outcome.{
  Result, Action, pure, lift, raise_if, ◌>>=◌, ◌>>◌, ok_or, map_ok, and_then,
}
use linux_loader.Reader.{SeekFrom, start, end, ReadSeek, Machine, Transfer, on_image, on_machine}
use linux_loader.LoaderGen.Bootparam.{SetupHeader, setup_header_size, setup_header_of_bytes}
use linux_loader.Loader.Errors.Bzimage.{
  BzimageError, invalid_bz_image, overflow, read_bz_image_header, read_bz_image_compressed_kernel,
  seek_bz_image_end, seek_bz_image_header, seek_bz_image_compressed_kernel, underflow,
}
use linux_loader.Loader.{
  Error, bzimage, invalid_kernel_start_address, memory_overflow, KernelLoaderResult, default_result,
}

-- Not a bzImage of boot protocol 2.00 or later that loads high.
unfoldable pub is_invalid : SetupHeader → Bool
is_invalid h =
    not (h.header == 0x53726448) || ltb h.version 0x0200 || bit_and h.loadflags 0x1 == 0x0

-- The size of the boot sector and the setup code.
unfoldable pub setup_size : SetupHeader → Option ℕ
setup_size h = add_mul (if h.setup_sects == 0 then 4 else h.setup_sects)
  where
    add_mul : ℕ → Option ℕ
    add_mul n = elim (checked_add n 1) [ none ↦ none | some m ↦ checked_mul m 512 ]

-- The kernel's own load address is below high memory.
unfoldable pub is_below_highmem : SetupHeader → Option ℕ → Bool
is_below_highmem h none = false
is_below_highmem h (some highmem_start) = ltb h.code32_start highmem_start

unfoldable pub load_offset : SetupHeader → Option ℕ → ℕ
load_offset h none = h.code32_start
load_offset h (some kernel_offset) = kernel_offset

-- The sizes of the setup and of the kernel proper behind it.
unfoldable pub split_image : ℕ → SetupHeader → Result Error (ℕ × ℕ)
split_image image_size h = and_then (ok_or (setup_size h) (bzimage overflow)) λ setup.
    map_ok (λ kernel_size. (setup, kernel_size))
      (ok_or (checked_sub image_size setup) (bzimage underflow))

module _ {R M : Type 0} (rs : ReadSeek R) (tr : Transfer R M) where
  -- The size of the image, and its setup header if that is valid.
  unfoldable pub read_boot_header : Action (Machine R M) Error (ℕ × SetupHeader)
  read_boot_header = do
    image_size ← on_image (rs.seek (end (pos 0))) (bzimage seek_bz_image_end)
    _ ← on_image (rs.seek (start 0x1F1)) (bzimage seek_bz_image_header)
    read ←
        on_image (tr.read_from (replicate setup_header_size 0) setup_header_size)
          (bzimage read_bz_image_header)
    raise_if (is_invalid (setup_header_of_bytes read.0)) (bzimage invalid_bz_image)
    pure (image_size, setup_header_of_bytes read.0)

  -- Seek the compressed `vmlinux.bin` and read it to memory.
  unfoldable pub load_kernel :
      ℕ → ℕ × ℕ → SetupHeader → Action (Machine R M) Error KernelLoaderResult
  load_kernel mem_offset sizes h = do
    _ ← on_image (rs.seek (start sizes.0)) (bzimage seek_bz_image_compressed_kernel)
    on_machine (tr.read_exact_from mem_offset sizes.1) (bzimage read_bz_image_compressed_kernel)
    kernel_end ← lift (ok_or (checked_add mem_offset sizes.1) memory_overflow)
    pure (record default_result {
      setup_header = some (record h { code32_start = mem_offset % 2 ^ 32 });
      kernel_load = mem_offset;
      kernel_end = kernel_end;
    })

  unfoldable pub load_bzimage :
      (kernel_offset highmem_start : Option ℕ) → Action (Machine R M) Error KernelLoaderResult
  load_bzimage kernel_offset highmem_start = do
    found ← read_boot_header
    sizes ← lift (split_image found.0 found.1)
    raise_if (is_below_highmem found.1 highmem_start) invalid_kernel_start_address
    load_kernel (load_offset found.1 kernel_offset) sizes found.1
