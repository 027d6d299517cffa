-- ===== src/Loader/Errors/Bzimage.antt =====
-- src/loader/x86_64/bzimage/mod.rs: errors.
use linux_loader.Base.{◌++◌}
use linux_loader.Text.{Str, codes}

pub data BzimageError : Type 0 where
  invalid_bz_image overflow read_bz_image_header read_bz_image_compressed_kernel : BzimageError
  seek_bz_image_end seek_bz_image_header seek_bz_image_compressed_kernel underflow : BzimageError

desc : BzimageError → Str
desc invalid_bz_image = codes "Invalid bzImage"
desc overflow = codes "Overflow occurred during an arithmetic operation"
desc read_bz_image_header = codes "Unable to read bzImage header"
desc read_bz_image_compressed_kernel = codes "Unable to read bzImage compressed kernel"
desc seek_bz_image_end = codes "Unable to seek bzImage end"
desc seek_bz_image_header = codes "Unable to seek bzImage header"
desc seek_bz_image_compressed_kernel = codes "Unable to seek bzImage compressed kernel"
desc underflow = codes "Underflow occurred during an arithmetic operation"

unfoldable pub display : BzimageError → Str
unfolding desc
display e = codes "Kernel Loader: " ++ desc e
