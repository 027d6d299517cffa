-- ===== src/LoaderGen/Bootparam/ScreenInfo.antt =====
-- src/loader_gen/x86_64/bootparam.rs: `screen_info`, the video mode that the boot loader leaves.
use linux_loader.Base.{ℕ, List, ◌≡◌, refl}
use linux_loader.LoaderGen.{field}
use linux_loader.LoaderGen.Pod.{Layout, num, array, ◌⊗◌, ◌&◌, El, read, array_field}
use linux_loader.LoaderGen.Pod.Struct.{Struct}

pub record ScreenInfo : Type 0 where
  pub orig_x : ℕ
  pub orig_y : ℕ
  pub ext_mem_k : ℕ
  pub orig_video_page : ℕ
  pub orig_video_mode : ℕ
  pub orig_video_cols : ℕ
  pub flags : ℕ
  pub unused2 : ℕ
  pub orig_video_ega_bx : ℕ
  pub unused3 : ℕ
  pub orig_video_lines : ℕ
  pub orig_video_is_vga : ℕ
  pub orig_video_points : ℕ
  pub lfb_width : ℕ
  pub lfb_height : ℕ
  pub lfb_depth : ℕ
  pub lfb_base : ℕ
  pub lfb_size : ℕ
  pub cl_magic : ℕ
  pub cl_offset : ℕ
  pub lfb_linelength : ℕ
  pub red_size : ℕ
  pub red_pos : ℕ
  pub green_size : ℕ
  pub green_pos : ℕ
  pub blue_size : ℕ
  pub blue_pos : ℕ
  pub rsvd_size : ℕ
  pub rsvd_pos : ℕ
  pub vesapm_seg : ℕ
  pub vesapm_off : ℕ
  pub pages : ℕ
  pub vesa_attributes : ℕ
  pub capabilities : ℕ
  pub ext_lfb_base : ℕ
  pub reserved : List ℕ

unfoldable pub screen_info_of_bytes : List ℕ → ScreenInfo
screen_info_of_bytes bs = record {
  orig_x = field bs 0 1;
  orig_y = field bs 1 1;
  ext_mem_k = field bs 2 2;
  orig_video_page = field bs 4 2;
  orig_video_mode = field bs 6 1;
  orig_video_cols = field bs 7 1;
  flags = field bs 8 1;
  unused2 = field bs 9 1;
  orig_video_ega_bx = field bs 10 2;
  unused3 = field bs 12 2;
  orig_video_lines = field bs 14 1;
  orig_video_is_vga = field bs 15 1;
  orig_video_points = field bs 16 2;
  lfb_width = field bs 18 2;
  lfb_height = field bs 20 2;
  lfb_depth = field bs 22 2;
  lfb_base = field bs 24 4;
  lfb_size = field bs 28 4;
  cl_magic = field bs 32 2;
  cl_offset = field bs 34 2;
  lfb_linelength = field bs 36 2;
  red_size = field bs 38 1;
  red_pos = field bs 39 1;
  green_size = field bs 40 1;
  green_pos = field bs 41 1;
  blue_size = field bs 42 1;
  blue_pos = field bs 43 1;
  rsvd_size = field bs 44 1;
  rsvd_pos = field bs 45 1;
  vesapm_seg = field bs 46 2;
  vesapm_off = field bs 48 2;
  pages = field bs 50 2;
  vesa_attributes = field bs 52 2;
  capabilities = field bs 54 4;
  ext_lfb_base = field bs 58 4;
  reserved = array_field bs 62 2 1;
}

abbrev screen_info_layout : Layout
screen_info_layout =
    num 1
    ⊗ num 1
    ⊗ num 2
    ⊗ num 2
    ⊗ num 1
    ⊗ num 1
    ⊗ num 1
    ⊗ num 1
    ⊗ num 2
    ⊗ num 2
    ⊗ num 1
    ⊗ num 1
    ⊗ num 2
    ⊗ num 2
    ⊗ num 2
    ⊗ num 2
    ⊗ num 4
    ⊗ num 4
    ⊗ num 2
    ⊗ num 2
    ⊗ num 2
    ⊗ num 1
    ⊗ num 1
    ⊗ num 1
    ⊗ num 1
    ⊗ num 1
    ⊗ num 1
    ⊗ num 1
    ⊗ num 1
    ⊗ num 2
    ⊗ num 2
    ⊗ num 2
    ⊗ num 2
    ⊗ num 4
    ⊗ num 4
    ⊗ array 2 (num 1)

abbrev screen_info_of_el : El screen_info_layout → ScreenInfo
screen_info_of_el
      (orig_x & orig_y & ext_mem_k & orig_video_page & orig_video_mode & orig_video_cols & flags
        & unused2 & orig_video_ega_bx & unused3 & orig_video_lines & orig_video_is_vga
        & orig_video_points & lfb_width & lfb_height & lfb_depth & lfb_base & lfb_size & cl_magic
        & cl_offset & lfb_linelength & red_size & red_pos & green_size & green_pos & blue_size
        & blue_pos & rsvd_size & rsvd_pos & vesapm_seg & vesapm_off & pages & vesa_attributes
        & capabilities & ext_lfb_base & reserved) =
    record {
      orig_x = orig_x;
      orig_y = orig_y;
      ext_mem_k = ext_mem_k;
      orig_video_page = orig_video_page;
      orig_video_mode = orig_video_mode;
      orig_video_cols = orig_video_cols;
      flags = flags;
      unused2 = unused2;
      orig_video_ega_bx = orig_video_ega_bx;
      unused3 = unused3;
      orig_video_lines = orig_video_lines;
      orig_video_is_vga = orig_video_is_vga;
      orig_video_points = orig_video_points;
      lfb_width = lfb_width;
      lfb_height = lfb_height;
      lfb_depth = lfb_depth;
      lfb_base = lfb_base;
      lfb_size = lfb_size;
      cl_magic = cl_magic;
      cl_offset = cl_offset;
      lfb_linelength = lfb_linelength;
      red_size = red_size;
      red_pos = red_pos;
      green_size = green_size;
      green_pos = green_pos;
      blue_size = blue_size;
      blue_pos = blue_pos;
      rsvd_size = rsvd_size;
      rsvd_pos = rsvd_pos;
      vesapm_seg = vesapm_seg;
      vesapm_off = vesapm_off;
      pages = pages;
      vesa_attributes = vesa_attributes;
      capabilities = capabilities;
      ext_lfb_base = ext_lfb_base;
      reserved = reserved;
    }

abbrev screen_info_to_el : ScreenInfo → El screen_info_layout
screen_info_to_el x =
    x.orig_x & x.orig_y & x.ext_mem_k & x.orig_video_page & x.orig_video_mode & x.orig_video_cols
    & x.flags & x.unused2 & x.orig_video_ega_bx & x.unused3 & x.orig_video_lines
    & x.orig_video_is_vga & x.orig_video_points & x.lfb_width & x.lfb_height & x.lfb_depth
    & x.lfb_base & x.lfb_size & x.cl_magic & x.cl_offset & x.lfb_linelength & x.red_size & x.red_pos
    & x.green_size & x.green_pos & x.blue_size & x.blue_pos & x.rsvd_size & x.rsvd_pos
    & x.vesapm_seg & x.vesapm_off & x.pages & x.vesa_attributes & x.capabilities & x.ext_lfb_base
    & x.reserved

pub screen_info_of_bytes_lem :
    (bs : List ℕ) → screen_info_to_el (screen_info_of_bytes bs) ≡ read screen_info_layout bs 0
unfolding screen_info_of_bytes read
screen_info_of_bytes_lem bs = refl

abbrev pub screen_info_struct : Struct ScreenInfo
screen_info_struct = record {
  layout = screen_info_layout;
  to_el = screen_info_to_el;
  of_el = screen_info_of_el;
  of_bytes = screen_info_of_bytes;
  of_el-to_el = λ x. refl;
  to_el-of_bytes = screen_info_of_bytes_lem;
}
