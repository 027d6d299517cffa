-- ===== src/LoaderGen/Bootparam/Tests.antt =====
-- The sizes that the layout tests of src/loader_gen/x86_64/bootparam.rs assert, and reads of a union.
use linux_loader.Base.{◌≡◌, refl}
use linux_loader.LoaderGen.Pod.Struct.{size_of}
use linux_loader.LoaderGen.Bootparam.ScreenInfo.{screen_info_struct}
use linux_loader.LoaderGen.Bootparam.Firmware.{
  apm_bios_info_struct, ist_info_struct, efi_info_struct,
}
use linux_loader.LoaderGen.Bootparam.Machine.{
  edid_info_struct, sys_desc_table_struct, olpc_ofw_header_struct,
}
use linux_loader.LoaderGen.Bootparam.InterfacePath.{
  interface_path_isa_struct, interface_path_pci_struct, interface_path_ibnd_struct,
  interface_path_xprs_struct, interface_path_htpt_struct, interface_path_unknown_struct,
}
use linux_loader.LoaderGen.Bootparam.DevicePath.{
  device_path_ata_struct, device_path_atapi_struct, device_path_scsi_struct, device_path_usb_struct,
  device_path_i1394_struct,
}
use linux_loader.LoaderGen.Bootparam.StoragePath.{
  device_path_fibre_struct, device_path_i2o_struct, device_path_raid_struct,
  device_path_sata_struct, device_path_unknown_struct,
}
use linux_loader.LoaderGen.Bootparam.EddDeviceParams.{edd_device_params_struct}
use linux_loader.LoaderGen.Bootparam.Edd.{edd_info_struct, edd_struct}
use linux_loader.LoaderGen.Bootparam.SetupData.{
  boot_e820_entry_struct, setup_data_struct, jailhouse_setup_data_struct,
}
use linux_loader.LoaderGen.Bootparam.Header.{setup_header_struct}
use linux_loader.LoaderGen.Bootparam.BootParamsLayout.{boot_params_struct}

screen_info-size_of : size_of screen_info_struct ≡ 64
screen_info-size_of = refl

apm_bios_info-size_of : size_of apm_bios_info_struct ≡ 20
apm_bios_info-size_of = refl

ist_info-size_of : size_of ist_info_struct ≡ 16
ist_info-size_of = refl

efi_info-size_of : size_of efi_info_struct ≡ 32
efi_info-size_of = refl

edid_info-size_of : size_of edid_info_struct ≡ 128
edid_info-size_of = refl

sys_desc_table-size_of : size_of sys_desc_table_struct ≡ 16
sys_desc_table-size_of = refl

olpc_ofw_header-size_of : size_of olpc_ofw_header_struct ≡ 16
olpc_ofw_header-size_of = refl

interface_path_isa-size_of : size_of interface_path_isa_struct ≡ 8
interface_path_isa-size_of = refl

interface_path_pci-size_of : size_of interface_path_pci_struct ≡ 8
interface_path_pci-size_of = refl

interface_path_ibnd-size_of : size_of interface_path_ibnd_struct ≡ 8
interface_path_ibnd-size_of = refl

interface_path_xprs-size_of : size_of interface_path_xprs_struct ≡ 8
interface_path_xprs-size_of = refl

interface_path_htpt-size_of : size_of interface_path_htpt_struct ≡ 8
interface_path_htpt-size_of = refl

interface_path_unknown-size_of : size_of interface_path_unknown_struct ≡ 8
interface_path_unknown-size_of = refl

device_path_ata-size_of : size_of device_path_ata_struct ≡ 16
device_path_ata-size_of = refl

device_path_atapi-size_of : size_of device_path_atapi_struct ≡ 16
device_path_atapi-size_of = refl

device_path_scsi-size_of : size_of device_path_scsi_struct ≡ 16
device_path_scsi-size_of = refl

device_path_usb-size_of : size_of device_path_usb_struct ≡ 16
device_path_usb-size_of = refl

device_path_i1394-size_of : size_of device_path_i1394_struct ≡ 16
device_path_i1394-size_of = refl

device_path_fibre-size_of : size_of device_path_fibre_struct ≡ 16
device_path_fibre-size_of = refl

device_path_i2o-size_of : size_of device_path_i2o_struct ≡ 16
device_path_i2o-size_of = refl

device_path_raid-size_of : size_of device_path_raid_struct ≡ 16
device_path_raid-size_of = refl

device_path_sata-size_of : size_of device_path_sata_struct ≡ 16
device_path_sata-size_of = refl

device_path_unknown-size_of : size_of device_path_unknown_struct ≡ 16
device_path_unknown-size_of = refl

edd_device_params-size_of : size_of edd_device_params_struct ≡ 74
edd_device_params-size_of = refl

edd_info-size_of : size_of edd_info_struct ≡ 82
edd_info-size_of = refl

edd-size_of : size_of edd_struct ≡ 560
edd-size_of = refl

boot_e820_entry-size_of : size_of boot_e820_entry_struct ≡ 20
boot_e820_entry-size_of = refl

setup_data-size_of : size_of setup_data_struct ≡ 16
setup_data-size_of = refl

jailhouse_setup_data-size_of : size_of jailhouse_setup_data_struct ≡ 280
jailhouse_setup_data-size_of = refl

setup_header-size_of : size_of setup_header_struct ≡ 119
setup_header-size_of = refl

boot_params-size_of : size_of boot_params_struct ≡ 4096
boot_params-size_of = refl
