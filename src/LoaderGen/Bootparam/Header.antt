-- ===== src/LoaderGen/Bootparam/Header.antt =====
-- src/loader_gen/x86_64/bootparam.rs: the layout of `setup_header`.
use linux_loader.Base.{ℕ, List, ◌≡◌, refl}
use linux_loader.LoaderGen.Pod.{Layout, num, ◌⊗◌, ◌&◌, El, read}
use linux_loader.LoaderGen.Pod.Struct.{Struct}
use linux_loader.LoaderGen.Bootparam.{SetupHeader, setup_header_of_bytes}

abbrev setup_header_layout : Layout
setup_header_layout =
    num 1
    ⊗ num 2
    ⊗ num 4
    ⊗ num 2
    ⊗ num 2
    ⊗ num 2
    ⊗ num 2
    ⊗ num 2
    ⊗ num 4
    ⊗ num 2
    ⊗ num 4
    ⊗ num 2
    ⊗ num 2
    ⊗ num 1
    ⊗ num 1
    ⊗ num 2
    ⊗ num 4
    ⊗ num 4
    ⊗ num 4
    ⊗ num 4
    ⊗ num 2
    ⊗ num 1
    ⊗ num 1
    ⊗ num 4
    ⊗ num 4
    ⊗ num 4
    ⊗ num 1
    ⊗ num 1
    ⊗ num 2
    ⊗ num 4
    ⊗ num 4
    ⊗ num 8
    ⊗ num 4
    ⊗ num 4
    ⊗ num 8
    ⊗ num 8
    ⊗ num 4
    ⊗ num 4

abbrev setup_header_of_el : El setup_header_layout → SetupHeader
setup_header_of_el
      (setup_sects & root_flags & syssize & ram_size & vid_mode & root_dev & boot_flag & jump
        & header & version & realmode_swtch & start_sys_seg & kernel_version & type_of_loader
        & loadflags & setup_move_size & code32_start & ramdisk_image & ramdisk_size
        & bootsect_kludge & heap_end_ptr & ext_loader_ver & ext_loader_type & cmd_line_ptr
        & initrd_addr_max & kernel_alignment & relocatable_kernel & min_alignment & xloadflags
        & cmdline_size & hardware_subarch & hardware_subarch_data & payload_offset & payload_length
        & setup_data & pref_address & init_size & handover_offset) =
    record {
      setup_sects = setup_sects;
      root_flags = root_flags;
      syssize = syssize;
      ram_size = ram_size;
      vid_mode = vid_mode;
      root_dev = root_dev;
      boot_flag = boot_flag;
      jump = jump;
      header = header;
      version = version;
      realmode_swtch = realmode_swtch;
      start_sys_seg = start_sys_seg;
      kernel_version = kernel_version;
      type_of_loader = type_of_loader;
      loadflags = loadflags;
      setup_move_size = setup_move_size;
      code32_start = code32_start;
      ramdisk_image = ramdisk_image;
      ramdisk_size = ramdisk_size;
      bootsect_kludge = bootsect_kludge;
      heap_end_ptr = heap_end_ptr;
      ext_loader_ver = ext_loader_ver;
      ext_loader_type = ext_loader_type;
      cmd_line_ptr = cmd_line_ptr;
      initrd_addr_max = initrd_addr_max;
      kernel_alignment = kernel_alignment;
      relocatable_kernel = relocatable_kernel;
      min_alignment = min_alignment;
      xloadflags = xloadflags;
      cmdline_size = cmdline_size;
      hardware_subarch = hardware_subarch;
      hardware_subarch_data = hardware_subarch_data;
      payload_offset = payload_offset;
      payload_length = payload_length;
      setup_data = setup_data;
      pref_address = pref_address;
      init_size = init_size;
      handover_offset = handover_offset;
    }

abbrev setup_header_to_el : SetupHeader → El setup_header_layout
setup_header_to_el x =
    x.setup_sects & x.root_flags & x.syssize & x.ram_size & x.vid_mode & x.root_dev & x.boot_flag
    & x.jump & x.header & x.version & x.realmode_swtch & x.start_sys_seg & x.kernel_version
    & x.type_of_loader & x.loadflags & x.setup_move_size & x.code32_start & x.ramdisk_image
    & x.ramdisk_size & x.bootsect_kludge & x.heap_end_ptr & x.ext_loader_ver & x.ext_loader_type
    & x.cmd_line_ptr & x.initrd_addr_max & x.kernel_alignment & x.relocatable_kernel
    & x.min_alignment & x.xloadflags & x.cmdline_size & x.hardware_subarch & x.hardware_subarch_data
    & x.payload_offset & x.payload_length & x.setup_data & x.pref_address & x.init_size
    & x.handover_offset

pub setup_header_of_bytes_lem :
    (bs : List ℕ) → setup_header_to_el (setup_header_of_bytes bs) ≡ read setup_header_layout bs 0
unfolding setup_header_of_bytes read
setup_header_of_bytes_lem bs = refl

abbrev pub setup_header_struct : Struct SetupHeader
setup_header_struct = record {
  layout = setup_header_layout;
  to_el = setup_header_to_el;
  of_el = setup_header_of_el;
  of_bytes = setup_header_of_bytes;
  of_el-to_el = λ x. refl;
  to_el-of_bytes = setup_header_of_bytes_lem;
}
