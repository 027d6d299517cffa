-- ===== src/LoaderGen/Tests.antt =====
-- The structures of src/loader_gen/x86_64/start_info.rs at concrete values.
use linux_loader.Base.{◌≡◌, refl}
use linux_loader.LoaderGen.{from_le_bytes}
use linux_loader.LoaderGen.Layout.{encode, to_le_bytes}
use linux_loader.LoaderGen.StartInfo.{HvmStartInfo, start_info_bytes, start_info_of_bytes}

-- The start info of the unit tests of src/configurator/x86_64/pvh.rs.
abbrev info : HvmStartInfo
info = record {
  magic = 0x336ec578;
  version = 1;
  flags = 0;
  nr_modules = 1;
  modlist_paddr = 0x5000;
  cmdline_paddr = 0x20000;
  rsdp_paddr = 0;
  memmap_paddr = 0x7000;
  memmap_entries = 2;
  reserved = 0;
}

info_test : start_info_of_bytes (start_info_bytes.as_slice info) ≡ info
unfolding start_info_of_bytes from_le_bytes encode to_le_bytes
info_test = refl
