-- ===== src/Loader/Bzimage/Meaning.antt =====
-- What `BzImage::load` of src/loader/x86_64/bzimage/mod.rs gives for an image, as a function of its
-- bytes.
use linux_loader.Base.{
  ℕ, ◌+◌, ◌-◌, ◌%◌, ◌^◌, Bool, false, not, List, Option, none, some, ◌≡◌, refl, arith, ltb, leb,
  ◌==◌, if◌then◌else◌, length, drop, ◌||◌, ◌/◌,
}
use linux_loader.Base.Bits.{bit_and_mask}
use linux_loader.Base.Word.{two_64}
use linux_loader.Base.Outcome.{Result, ok, err}
use linux_loader.Reader.Padded.{padded}
use linux_loader.LoaderGen.Bootparam.{SetupHeader, setup_header_size, setup_header_of_bytes}
use linux_loader.Loader.Errors.Bzimage.{
  invalid_bz_image, underflow, read_bz_image_compressed_kernel,
}
use linux_loader.Loader.{
  Error, bzimage, memory_overflow, invalid_kernel_start_address, KernelLoaderResult, default_result,
}
use linux_loader.Loader.Bzimage.{is_invalid, is_below_highmem, load_offset}
use linux_loader.Loader.Bzimage.Loaded.{setup_bytes}

-- The setup header of an image, and the size of what stands behind the setup.
abbrev pub setup_header_in : List ℕ → SetupHeader
setup_header_in image = setup_header_of_bytes (padded setup_header_size (drop 0x1F1 image))

abbrev pub kernel_size : List ℕ → ℕ
kernel_size image = length image - setup_bytes (setup_header_in image)

-- What a load gives, by whether the header is invalid, whether it asks for too low an address, and the
-- load address. The checks stand in their order; `has_room addr count` says whether memory has that
-- range.
abbrev pub outcome_by :
    (invalid low : Bool) (at : ℕ) → (ℕ → ℕ → Bool) → List ℕ → Result Error KernelLoaderResult
outcome_by invalid low at has_room image =
    if invalid
    then err (bzimage invalid_bz_image)
    else if ltb (length image) (setup_bytes (setup_header_in image))
    then err (bzimage underflow)
    else if low
    then err invalid_kernel_start_address
    else if not (has_room at (kernel_size image))
    then err (bzimage read_bz_image_compressed_kernel)
    else if leb two_64 (at + kernel_size image)
    then err memory_overflow
    else ok (record default_result {
      setup_header = some (record (setup_header_in image) { code32_start = at % 2 ^ 32 });
      kernel_load = at;
      kernel_end = at + kernel_size image;
    })

-- No "HdrS", a boot protocol before 2.00, or an image that does not load high.
abbrev pub asks_wrong : SetupHeader → Bool
asks_wrong h = not (h.header == 0x53726448) || (ltb h.version 0x0200 || h.loadflags % 2 == 0)

abbrev pub asks_too_low : SetupHeader → Option ℕ → Bool
asks_too_low h none = false
asks_too_low h (some highmem_start) = ltb h.code32_start highmem_start

abbrev pub load_address : SetupHeader → Option ℕ → ℕ
load_address h none = h.code32_start
load_address h (some kernel_offset) = kernel_offset

abbrev pub bzimage_outcome :
    Option ℕ → Option ℕ → (ℕ → ℕ → Bool) → List ℕ → Result Error KernelLoaderResult
bzimage_outcome kernel_offset highmem_start has_room image =
    let h = setup_header_in image in
    outcome_by (asks_wrong h) (asks_too_low h highmem_start) (load_address h kernel_offset) has_room
      image

-- The tests of the code are these.
pub is_invalid_lem : (h : SetupHeader) → is_invalid h ≡ asks_wrong h
unfolding is_invalid
is_invalid_lem h = ground (arith, bit_and_mask 1 (h.loadflags / 2) (h.loadflags % 2))

pub is_below_highmem_lem :
    (h : SetupHeader) (highmem_start : Option ℕ)
    → is_below_highmem h highmem_start ≡ asks_too_low h highmem_start
unfolding is_below_highmem
is_below_highmem_lem h none = refl
is_below_highmem_lem h (some highmem_start) = refl

pub load_offset_lem :
    (h : SetupHeader) (kernel_offset : Option ℕ)
    → load_offset h kernel_offset ≡ load_address h kernel_offset
unfolding load_offset
load_offset_lem h none = refl
load_offset_lem h (some kernel_offset) = refl
