-- ===== src/Configurator/Display.antt =====
-- The texts of the errors of src/configurator: `Display` and `source`. An inner error, `dyn Error`, is
-- known by its text.
use linux_loader.Base.{◌++◌, Option, none, some}
use linux_loader.Text.{Str, codes}
use linux_loader.Configurator.{
  LinuxError, PvhError, FdtError, Error, zero_page_past_ram_end, zero_page_setup,
  memmap_table_address_missing, memmap_table_missing, memmap_table_past_ram_end, memmap_table_setup,
  start_info_past_ram_end, start_info_setup, fdt_past_ram_end, write_fdt_to_memory, linux, pvh, fdt,
  missing_start_address, overflow, invalid_address,
}

linux_desc : LinuxError → Str
linux_desc zero_page_past_ram_end = codes "the zero page extends past the end of guest memory."
linux_desc zero_page_setup = codes "error writing to the zero page of guest memory."

unfoldable pub linux_display : LinuxError → Str
unfolding linux_desc
linux_display e = codes "Linux Boot Configurator: " ++ linux_desc e

pvh_desc : PvhError → Str
pvh_desc memmap_table_address_missing =
    codes "the starting address for the memory map wasn't passed to the boot configurator."
pvh_desc memmap_table_missing = codes "no memory map was passed to the boot configurator."
pvh_desc memmap_table_past_ram_end =
    codes "the memory map table extends past the end of guest memory."
pvh_desc memmap_table_setup = codes "error writing memory map table to guest memory."
pvh_desc start_info_past_ram_end =
    codes "the hvm_start_info structure extends past the end of guest memory."
pvh_desc start_info_setup = codes "error writing hvm_start_info to guest memory."

unfoldable pub pvh_display : PvhError → Str
unfolding pvh_desc
pvh_display e = codes "PVH Boot Configurator: " ++ pvh_desc e

fdt_desc : FdtError → Str
fdt_desc fdt_past_ram_end = codes "FDT does not fit in guest memory."
fdt_desc write_fdt_to_memory = codes "error writing FDT in guest memory."

unfoldable pub fdt_display : FdtError → Str
unfolding fdt_desc
fdt_display e = codes "Device Tree Boot Configurator: " ++ fdt_desc e

config_desc : Error → Str
config_desc (linux e) = codes "failed to configure boot parameter by Linux Boot protocol."
config_desc (pvh e) = codes "failed to configure boot parameter by PVH."
config_desc (fdt e) = codes "failed to configure boot parameter by FDT."
config_desc missing_start_address =
    codes "boot parameter was specified without its starting address in guest memory."
config_desc overflow = codes "boot parameter address overflows."
config_desc invalid_address = codes "boot parameter address precedes the starting address."

unfoldable pub config_display : Error → Str
unfolding config_desc
config_display e = codes "Boot Configurator: " ++ config_desc e

unfoldable pub config_source : Error → Option Str
config_source (linux e) = some (linux_display e)
config_source (pvh e) = some (pvh_display e)
config_source (fdt e) = some (fdt_display e)
config_source _ = none
