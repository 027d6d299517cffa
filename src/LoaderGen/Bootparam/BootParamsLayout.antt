-- ===== src/LoaderGen/Bootparam/BootParamsLayout.antt =====
-- src/loader_gen/x86_64/bootparam.rs: the layout of `boot_params`.
use linux_loader.Base.{ℕ, List, map, ◌≡◌}
use linux_loader.LoaderGen.{field}
use linux_loader.LoaderGen.Pod.{Layout, num, array, ◌⊗◌, ◌&◌, El, read, array_field}
use linux_loader.LoaderGen.Pod.Struct.{
  Struct, map-of_el-map-to_el, map-to_el-items_of_bytes, to_el-of_bytes_at,
}
use linux_loader.LoaderGen.Bootparam.ScreenInfo.{screen_info_struct}
use linux_loader.LoaderGen.Bootparam.Firmware.{
  apm_bios_info_struct, ist_info_struct, efi_info_struct,
}
use linux_loader.LoaderGen.Bootparam.Machine.{
  edid_info_struct, sys_desc_table_struct, olpc_ofw_header_struct,
}
use linux_loader.LoaderGen.Bootparam.Edd.{edd_info_struct}
use linux_loader.LoaderGen.Bootparam.SetupData.{boot_e820_entry_struct}
use linux_loader.LoaderGen.Bootparam.Header.{setup_header_struct}
use linux_loader.LoaderGen.Bootparam.BootParams.{BootParams, boot_params_of_bytes}

abbrev boot_params_layout : Layout
boot_params_layout =
    screen_info_struct.layout
    ⊗ apm_bios_info_struct.layout
    ⊗ array 4 (num 1)
    ⊗ num 8
    ⊗ ist_info_struct.layout
    ⊗ num 8
    ⊗ array 8 (num 1)
    ⊗ array 16 (num 1)
    ⊗ array 16 (num 1)
    ⊗ sys_desc_table_struct.layout
    ⊗ olpc_ofw_header_struct.layout
    ⊗ num 4
    ⊗ num 4
    ⊗ num 4
    ⊗ array 116 (num 1)
    ⊗ edid_info_struct.layout
    ⊗ efi_info_struct.layout
    ⊗ num 4
    ⊗ num 4
    ⊗ num 1
    ⊗ num 1
    ⊗ num 1
    ⊗ num 1
    ⊗ num 1
    ⊗ array 2 (num 1)
    ⊗ num 1
    ⊗ array 1 (num 1)
    ⊗ setup_header_struct.layout
    ⊗ array 40 (num 1)
    ⊗ array 16 (num 4)
    ⊗ array 128 boot_e820_entry_struct.layout
    ⊗ array 48 (num 1)
    ⊗ array 6 edd_info_struct.layout
    ⊗ array 276 (num 1)

abbrev boot_params_of_el : El boot_params_layout → BootParams
boot_params_of_el
      (screen_info & apm_bios_info & pad2 & tboot_addr & ist_info & acpi_rsdp_addr & pad3 & hd0_info
        & hd1_info & sys_desc_table & olpc_ofw_header & ext_ramdisk_image & ext_ramdisk_size
        & ext_cmd_line_ptr & pad4 & edid_info & efi_info & alt_mem_k & scratch & e820_entries
        & eddbuf_entries & edd_mbr_sig_buf_entries & kbd_status & secure_boot & pad5 & sentinel
        & pad6 & hdr & pad7 & edd_mbr_sig_buffer & e820_table & pad8 & eddbuf & pad9) =
    record {
      screen_info = screen_info_struct.of_el screen_info;
      apm_bios_info = apm_bios_info_struct.of_el apm_bios_info;
      pad2 = pad2;
      tboot_addr = tboot_addr;
      ist_info = ist_info_struct.of_el ist_info;
      acpi_rsdp_addr = acpi_rsdp_addr;
      pad3 = pad3;
      hd0_info = hd0_info;
      hd1_info = hd1_info;
      sys_desc_table = sys_desc_table_struct.of_el sys_desc_table;
      olpc_ofw_header = olpc_ofw_header_struct.of_el olpc_ofw_header;
      ext_ramdisk_image = ext_ramdisk_image;
      ext_ramdisk_size = ext_ramdisk_size;
      ext_cmd_line_ptr = ext_cmd_line_ptr;
      pad4 = pad4;
      edid_info = edid_info_struct.of_el edid_info;
      efi_info = efi_info_struct.of_el efi_info;
      alt_mem_k = alt_mem_k;
      scratch = scratch;
      e820_entries = e820_entries;
      eddbuf_entries = eddbuf_entries;
      edd_mbr_sig_buf_entries = edd_mbr_sig_buf_entries;
      kbd_status = kbd_status;
      secure_boot = secure_boot;
      pad5 = pad5;
      sentinel = sentinel;
      pad6 = pad6;
      hdr = setup_header_struct.of_el hdr;
      pad7 = pad7;
      edd_mbr_sig_buffer = edd_mbr_sig_buffer;
      e820_table = map boot_e820_entry_struct.of_el e820_table;
      pad8 = pad8;
      eddbuf = map edd_info_struct.of_el eddbuf;
      pad9 = pad9;
    }

abbrev boot_params_to_el : BootParams → El boot_params_layout
boot_params_to_el x =
    screen_info_struct.to_el x.screen_info
    & apm_bios_info_struct.to_el x.apm_bios_info
    & x.pad2
    & x.tboot_addr
    & ist_info_struct.to_el x.ist_info
    & x.acpi_rsdp_addr
    & x.pad3
    & x.hd0_info
    & x.hd1_info
    & sys_desc_table_struct.to_el x.sys_desc_table
    & olpc_ofw_header_struct.to_el x.olpc_ofw_header
    & x.ext_ramdisk_image
    & x.ext_ramdisk_size
    & x.ext_cmd_line_ptr
    & x.pad4
    & edid_info_struct.to_el x.edid_info
    & efi_info_struct.to_el x.efi_info
    & x.alt_mem_k
    & x.scratch
    & x.e820_entries
    & x.eddbuf_entries
    & x.edd_mbr_sig_buf_entries
    & x.kbd_status
    & x.secure_boot
    & x.pad5
    & x.sentinel
    & x.pad6
    & setup_header_struct.to_el x.hdr
    & x.pad7
    & x.edd_mbr_sig_buffer
    & map boot_e820_entry_struct.to_el x.e820_table
    & x.pad8
    & map edd_info_struct.to_el x.eddbuf
    & x.pad9

pub boot_params_of_bytes_lem :
    (bs : List ℕ) → boot_params_to_el (boot_params_of_bytes bs) ≡ read boot_params_layout bs 0
unfolding boot_params_of_bytes read
boot_params_of_bytes_lem bs = λ i.
    to_el-of_bytes_at screen_info_struct bs 0 i
    & to_el-of_bytes_at apm_bios_info_struct bs 64 i
    & array_field bs 84 4 1
    & field bs 88 8
    & to_el-of_bytes_at ist_info_struct bs 96 i
    & field bs 112 8
    & array_field bs 120 8 1
    & array_field bs 128 16 1
    & array_field bs 144 16 1
    & to_el-of_bytes_at sys_desc_table_struct bs 160 i
    & to_el-of_bytes_at olpc_ofw_header_struct bs 176 i
    & field bs 192 4
    & field bs 196 4
    & field bs 200 4
    & array_field bs 204 116 1
    & to_el-of_bytes_at edid_info_struct bs 320 i
    & to_el-of_bytes_at efi_info_struct bs 448 i
    & field bs 480 4
    & field bs 484 4
    & field bs 488 1
    & field bs 489 1
    & field bs 490 1
    & field bs 491 1
    & field bs 492 1
    & array_field bs 493 2 1
    & field bs 495 1
    & array_field bs 496 1 1
    & to_el-of_bytes_at setup_header_struct bs 497 i
    & array_field bs 616 40 1
    & array_field bs 656 16 4
    & map-to_el-items_of_bytes boot_e820_entry_struct 128 bs 720 i
    & array_field bs 3280 48 1
    & map-to_el-items_of_bytes edd_info_struct 6 bs 3328 i
    & array_field bs 3820 276 1

abbrev pub boot_params_struct : Struct BootParams
boot_params_struct = record {
  layout = boot_params_layout;
  to_el = boot_params_to_el;
  of_el = boot_params_of_el;
  of_bytes = boot_params_of_bytes;
  of_el-to_el = λ x i. record {
    screen_info = screen_info_struct.of_el-to_el x.screen_info i;
    apm_bios_info = apm_bios_info_struct.of_el-to_el x.apm_bios_info i;
    pad2 = x.pad2;
    tboot_addr = x.tboot_addr;
    ist_info = ist_info_struct.of_el-to_el x.ist_info i;
    acpi_rsdp_addr = x.acpi_rsdp_addr;
    pad3 = x.pad3;
    hd0_info = x.hd0_info;
    hd1_info = x.hd1_info;
    sys_desc_table = sys_desc_table_struct.of_el-to_el x.sys_desc_table i;
    olpc_ofw_header = olpc_ofw_header_struct.of_el-to_el x.olpc_ofw_header i;
    ext_ramdisk_image = x.ext_ramdisk_image;
    ext_ramdisk_size = x.ext_ramdisk_size;
    ext_cmd_line_ptr = x.ext_cmd_line_ptr;
    pad4 = x.pad4;
    edid_info = edid_info_struct.of_el-to_el x.edid_info i;
    efi_info = efi_info_struct.of_el-to_el x.efi_info i;
    alt_mem_k = x.alt_mem_k;
    scratch = x.scratch;
    e820_entries = x.e820_entries;
    eddbuf_entries = x.eddbuf_entries;
    edd_mbr_sig_buf_entries = x.edd_mbr_sig_buf_entries;
    kbd_status = x.kbd_status;
    secure_boot = x.secure_boot;
    pad5 = x.pad5;
    sentinel = x.sentinel;
    pad6 = x.pad6;
    hdr = setup_header_struct.of_el-to_el x.hdr i;
    pad7 = x.pad7;
    edd_mbr_sig_buffer = x.edd_mbr_sig_buffer;
    e820_table = map-of_el-map-to_el boot_e820_entry_struct x.e820_table i;
    pad8 = x.pad8;
    eddbuf = map-of_el-map-to_el edd_info_struct x.eddbuf i;
    pad9 = x.pad9;
  };
  to_el-of_bytes = boot_params_of_bytes_lem;
}
