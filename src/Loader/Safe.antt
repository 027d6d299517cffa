-- ===== src/Loader/Safe.antt =====
-- The loaders of src/loader/x86_64/bzimage/mod.rs and src/loader/aarch64/pe/mod.rs do not panic.
use linux_loader.Base.{ℕ, List, Option, ◌≢◌, arith}
use linux_loader.Base.Outcome.{panic}
use linux_loader.Reader.{ReadSeek, Machine, Transfer, IsImage}
use linux_loader.LoaderGen.Bootparam.{SetupHeader}
use linux_loader.Loader.Bzimage.{split_image, read_boot_header, load_kernel, load_bzimage}
use linux_loader.Loader.Pe.{read_image, load_image, load_pe}

split_image_calm : (n : ℕ) (h : SetupHeader) → split_image n h ≢ panic
unfolding split_image
split_image_calm n h = ground arith

module _ {R M : Type 0} {rs : ReadSeek R} (tr : Transfer R M) (image : IsImage rs)
    (calm : (addr count : ℕ) (s : Machine R M) → (tr.read_exact_from addr count s).0 ≢ panic)
    (fill_calm : (buf : List ℕ) (count : ℕ) (r : R) → (tr.read_from buf count r).0 ≢ panic) where
  read_boot_header_calm : (s : Machine R M) → (read_boot_header rs tr s).0 ≢ panic
  unfolding read_boot_header
  read_boot_header_calm s = grind (arith, image.seek_calm, fill_calm)

  load_kernel_calm :
      (at : ℕ) (sizes : ℕ × ℕ) (h : SetupHeader) (s : Machine R M)
      → (load_kernel rs tr at sizes h s).0 ≢ panic
  unfolding load_kernel
  load_kernel_calm at sizes h s = grind (arith, image.seek_calm, calm)

  -- A load of a bzImage returns a result or an error: it does not panic, if the copy to guest memory
  -- and the read into a buffer do not.
  pub load_bzimage_calm :
      (kernel_offset highmem_start : Option ℕ) (s : Machine R M)
      → (load_bzimage rs tr kernel_offset highmem_start s).0 ≢ panic
  unfolding load_bzimage
  load_bzimage_calm kernel_offset highmem_start s =
      grind (arith, read_boot_header_calm, split_image_calm, load_kernel_calm)

  read_image_calm : (s : Machine R M) → (read_image rs tr s).0 ≢ panic
  unfolding read_image
  read_image_calm s = grind (arith, image.seek_calm, fill_calm)

  load_image_calm : (at n : ℕ) (s : Machine R M) → (load_image rs tr at n s).0 ≢ panic
  unfolding load_image
  load_image_calm at n s = grind (arith, image.seek_calm, calm)

  -- A load of an arm64 image returns a result or an error: it does not panic, if the copy to guest
  -- memory and the read into a buffer do not.
  pub load_pe_calm :
      (kernel_offset highmem_start : Option ℕ) (s : Machine R M)
      → (load_pe rs tr kernel_offset highmem_start s).0 ≢ panic
  unfolding load_pe
  load_pe_calm kernel_offset highmem_start s = grind (arith, read_image_calm, load_image_calm)
