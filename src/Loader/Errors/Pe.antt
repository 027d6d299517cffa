-- ===== src/Loader/Errors/Pe.antt =====
-- src/loader/aarch64/pe/mod.rs: errors.
use linux_loader.Base.{◌++◌}
use linux_loader.Text.{Str, codes}

pub data PeError : Type 0 where
  seek_image_end seek_image_header seek_dtb_start seek_dtb_end dtb_too_big : PeError
  read_kernel_image read_image_header read_dtb_image invalid_image : PeError
  invalid_image_magic_number invalid_base_addr_alignment : PeError

desc : PeError → Str
desc seek_image_end = codes "unable to seek Image end"
desc seek_image_header = codes "unable to seek Image header"
desc read_image_header = codes "unable to read Image header"
desc read_dtb_image = codes "unable to read DTB image"
desc seek_dtb_start = codes "unable to seek DTB start"
desc seek_dtb_end = codes "unable to seek DTB end"
desc invalid_image = codes "invalid Image"
desc invalid_image_magic_number = codes "invalid Image magic number"
desc dtb_too_big = codes "device tree image too big"
desc read_kernel_image = codes "unable to read kernel image"
desc invalid_base_addr_alignment = codes "base address not aligned to 2 MB"

unfoldable pub display : PeError → Str
unfolding desc
display e = codes "PE Kernel Loader: " ++ desc e
