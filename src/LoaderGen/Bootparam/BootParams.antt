-- ===== src/LoaderGen/Bootparam/BootParams.antt =====
-- src/loader_gen/x86_64/bootparam.rs: `boot_params`, the page that a Linux kernel is handed.
use linux_loader.Base.{ℕ, List, drop}
use linux_loader.LoaderGen.{field}
use linux_loader.LoaderGen.Pod.{array_field}
use linux_loader.LoaderGen.Pod.Struct.{items_of_bytes}
use linux_loader.LoaderGen.Bootparam.ScreenInfo.{ScreenInfo, screen_info_of_bytes}
use linux_loader.LoaderGen.Bootparam.Firmware.{
  ApmBiosInfo, apm_bios_info_of_bytes, IstInfo, ist_info_of_bytes, EfiInfo, efi_info_of_bytes,
}
use linux_loader.LoaderGen.Bootparam.Machine.{
  EdidInfo, edid_info_of_bytes, SysDescTable, sys_desc_table_of_bytes, OlpcOfwHeader,
  olpc_ofw_header_of_bytes,
}
use linux_loader.LoaderGen.Bootparam.Edd.{EddInfo, edd_info_struct, edd_info_of_bytes}
use linux_loader.LoaderGen.Bootparam.SetupData.{
  BootE820Entry, boot_e820_entry_struct, boot_e820_entry_of_bytes,
}
use linux_loader.LoaderGen.Bootparam.{SetupHeader, setup_header_of_bytes}

pub record BootParams : Type 0 where
  pub screen_info : ScreenInfo
  pub apm_bios_info : ApmBiosInfo
  pub pad2 : List ℕ
  pub tboot_addr : ℕ
  pub ist_info : IstInfo
  pub acpi_rsdp_addr : ℕ
  pub pad3 : List ℕ
  pub hd0_info : List ℕ
  pub hd1_info : List ℕ
  pub sys_desc_table : SysDescTable
  pub olpc_ofw_header : OlpcOfwHeader
  pub ext_ramdisk_image : ℕ
  pub ext_ramdisk_size : ℕ
  pub ext_cmd_line_ptr : ℕ
  pub pad4 : List ℕ
  pub edid_info : EdidInfo
  pub efi_info : EfiInfo
  pub alt_mem_k : ℕ
  pub scratch : ℕ
  pub e820_entries : ℕ
  pub eddbuf_entries : ℕ
  pub edd_mbr_sig_buf_entries : ℕ
  pub kbd_status : ℕ
  pub secure_boot : ℕ
  pub pad5 : List ℕ
  pub sentinel : ℕ
  pub pad6 : List ℕ
  pub hdr : SetupHeader
  pub pad7 : List ℕ
  pub edd_mbr_sig_buffer : List ℕ
  pub e820_table : List BootE820Entry
  pub pad8 : List ℕ
  pub eddbuf : List EddInfo
  pub pad9 : List ℕ

unfoldable pub boot_params_of_bytes : List ℕ → BootParams
unfolding apm_bios_info_of_bytes boot_e820_entry_of_bytes edd_info_of_bytes edid_info_of_bytes
    efi_info_of_bytes ist_info_of_bytes olpc_ofw_header_of_bytes screen_info_of_bytes
    setup_header_of_bytes sys_desc_table_of_bytes items_of_bytes
boot_params_of_bytes bs = record {
  screen_info = screen_info_of_bytes bs;
  apm_bios_info = apm_bios_info_of_bytes (drop 64 bs);
  pad2 = array_field bs 84 4 1;
  tboot_addr = field bs 88 8;
  ist_info = ist_info_of_bytes (drop 96 bs);
  acpi_rsdp_addr = field bs 112 8;
  pad3 = array_field bs 120 8 1;
  hd0_info = array_field bs 128 16 1;
  hd1_info = array_field bs 144 16 1;
  sys_desc_table = sys_desc_table_of_bytes (drop 160 bs);
  olpc_ofw_header = olpc_ofw_header_of_bytes (drop 176 bs);
  ext_ramdisk_image = field bs 192 4;
  ext_ramdisk_size = field bs 196 4;
  ext_cmd_line_ptr = field bs 200 4;
  pad4 = array_field bs 204 116 1;
  edid_info = edid_info_of_bytes (drop 320 bs);
  efi_info = efi_info_of_bytes (drop 448 bs);
  alt_mem_k = field bs 480 4;
  scratch = field bs 484 4;
  e820_entries = field bs 488 1;
  eddbuf_entries = field bs 489 1;
  edd_mbr_sig_buf_entries = field bs 490 1;
  kbd_status = field bs 491 1;
  secure_boot = field bs 492 1;
  pad5 = array_field bs 493 2 1;
  sentinel = field bs 495 1;
  pad6 = array_field bs 496 1 1;
  hdr = setup_header_of_bytes (drop 497 bs);
  pad7 = array_field bs 616 40 1;
  edd_mbr_sig_buffer = array_field bs 656 16 4;
  e820_table = items_of_bytes boot_e820_entry_struct 128 (drop 720 bs);
  pad8 = array_field bs 3280 48 1;
  eddbuf = items_of_bytes edd_info_struct 6 (drop 3328 bs);
  pad9 = array_field bs 3820 276 1;
}
