-- ===== src/LoaderGen/Bootparam.antt =====
-- src/loader_gen/x86_64/bootparam.rs: the setup header of a bzImage.
pub mod KernelTypes
pub mod ScreenInfo
pub mod Firmware
pub mod Machine
pub mod InterfacePath
pub mod DevicePath
pub mod StoragePath
pub mod EddDeviceParams
pub mod Edd
pub mod SetupData
pub mod Header
pub mod BootParams
pub mod BootParamsLayout
pub mod Unions
pub mod Values
pub mod Structures
pub mod Tests
use linux_loader.Base.{ℕ, List}
use linux_loader.LoaderGen.{field}

pub record SetupHeader : Type 0 where
  pub setup_sects : ℕ
  pub root_flags : ℕ
  pub syssize : ℕ
  pub ram_size : ℕ
  pub vid_mode : ℕ
  pub root_dev : ℕ
  pub boot_flag : ℕ
  pub jump : ℕ
  pub header : ℕ
  pub version : ℕ
  pub realmode_swtch : ℕ
  pub start_sys_seg : ℕ
  pub kernel_version : ℕ
  pub type_of_loader : ℕ
  pub loadflags : ℕ
  pub setup_move_size : ℕ
  pub code32_start : ℕ
  pub ramdisk_image : ℕ
  pub ramdisk_size : ℕ
  pub bootsect_kludge : ℕ
  pub heap_end_ptr : ℕ
  pub ext_loader_ver : ℕ
  pub ext_loader_type : ℕ
  pub cmd_line_ptr : ℕ
  pub initrd_addr_max : ℕ
  pub kernel_alignment : ℕ
  pub relocatable_kernel : ℕ
  pub min_alignment : ℕ
  pub xloadflags : ℕ
  pub cmdline_size : ℕ
  pub hardware_subarch : ℕ
  pub hardware_subarch_data : ℕ
  pub payload_offset : ℕ
  pub payload_length : ℕ
  pub setup_data : ℕ
  pub pref_address : ℕ
  pub init_size : ℕ
  pub handover_offset : ℕ

abbrev pub setup_header_size : ℕ
setup_header_size = 119

-- `repr(C, packed)`: the fields stand one behind the other.
unfoldable pub setup_header_of_bytes : List ℕ → SetupHeader
setup_header_of_bytes bs = record {
  setup_sects = field bs 0 1;
  root_flags = field bs 1 2;
  syssize = field bs 3 4;
  ram_size = field bs 7 2;
  vid_mode = field bs 9 2;
  root_dev = field bs 11 2;
  boot_flag = field bs 13 2;
  jump = field bs 15 2;
  header = field bs 17 4;
  version = field bs 21 2;
  realmode_swtch = field bs 23 4;
  start_sys_seg = field bs 27 2;
  kernel_version = field bs 29 2;
  type_of_loader = field bs 31 1;
  loadflags = field bs 32 1;
  setup_move_size = field bs 33 2;
  code32_start = field bs 35 4;
  ramdisk_image = field bs 39 4;
  ramdisk_size = field bs 43 4;
  bootsect_kludge = field bs 47 4;
  heap_end_ptr = field bs 51 2;
  ext_loader_ver = field bs 53 1;
  ext_loader_type = field bs 54 1;
  cmd_line_ptr = field bs 55 4;
  initrd_addr_max = field bs 59 4;
  kernel_alignment = field bs 63 4;
  relocatable_kernel = field bs 67 1;
  min_alignment = field bs 68 1;
  xloadflags = field bs 69 2;
  cmdline_size = field bs 71 4;
  hardware_subarch = field bs 75 4;
  hardware_subarch_data = field bs 79 8;
  payload_offset = field bs 87 4;
  payload_length = field bs 91 4;
  setup_data = field bs 95 8;
  pref_address = field bs 103 8;
  init_size = field bs 111 4;
  handover_offset = field bs 115 4;
}
