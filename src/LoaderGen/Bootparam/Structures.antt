-- ===== src/LoaderGen/Bootparam/Structures.antt =====
-- That each structure of src/loader_gen/x86_64/bootparam.rs is its bytes.
use linux_loader.Base.{ℕ, true, ◌≡◌, refl}
use linux_loader.LoaderGen.Pod.{is_dense}
use linux_loader.LoaderGen.Pod.Struct.{
  Struct, size_of, as_slice, Value, bytes_of_value, bytes_of_value-IsEquiv, of_bytes-as_slice_all,
}
use linux_loader.LoaderGen.Bootparam.KernelTypes.{kernel_fd_set_struct, kernel_fsid_struct}
use linux_loader.LoaderGen.Bootparam.ScreenInfo.{screen_info_struct}
use linux_loader.LoaderGen.Bootparam.Firmware.{
  apm_bios_info_struct, ist_info_struct, efi_info_struct,
}
use linux_loader.LoaderGen.Bootparam.Machine.{
  edid_info_struct, sys_desc_table_struct, olpc_ofw_header_struct,
}
use linux_loader.LoaderGen.Bootparam.InterfacePath.{
  interface_path_isa_struct, interface_path_pci_struct, interface_path_ibnd_struct,
  interface_path_xprs_struct, interface_path_htpt_struct, interface_path_unknown_struct,
}
use linux_loader.LoaderGen.Bootparam.DevicePath.{
  device_path_ata_struct, device_path_atapi_struct, device_path_scsi_struct, device_path_usb_struct,
  device_path_i1394_struct,
}
use linux_loader.LoaderGen.Bootparam.StoragePath.{
  device_path_fibre_struct, device_path_i2o_struct, device_path_raid_struct,
  device_path_sata_struct, device_path_unknown_struct,
}
use linux_loader.LoaderGen.Bootparam.EddDeviceParams.{edd_device_params_struct}
use linux_loader.LoaderGen.Bootparam.Edd.{edd_info_struct, edd_struct}
use linux_loader.LoaderGen.Bootparam.SetupData.{
  boot_e820_entry_struct, setup_data_struct, jailhouse_setup_data_struct,
}
use linux_loader.LoaderGen.Bootparam.Header.{setup_header_struct}
use linux_loader.LoaderGen.Bootparam.BootParamsLayout.{boot_params_struct}
use mathlib.Core.Equiv.{IsEquiv}

-- The structure has `n` bytes; its values correspond to the strings of so many bytes, one to one; and a
-- value is read from its bytes at the offsets of the fields.
abbrev pub IsItsBytes : {S : Type 0} → Struct S → ℕ → Type 0
IsItsBytes st n =
    (size_of st ≡ n)
    × IsEquiv (bytes_of_value st)
    × ((v : Value st) → st.of_bytes (as_slice st v.0) ≡ v.0)

struct-IsItsBytes :
    {S : Type 0} (st : Struct S) (n : ℕ)
    → size_of st ≡ n
    → is_dense st.layout ≡ true
    → IsItsBytes st n
struct-IsItsBytes st n sized dense =
    (sized, bytes_of_value-IsEquiv st dense, λ v. of_bytes-as_slice_all st v.0 v.1)

-- Each structure without padding, which is all but `edd` and the empty `__IncompleteArrayField`, is its
-- bytes: the values whose every field has the width of its type correspond, one to one, to the byte
-- strings of the size that its layout test asserts, and reading the fields at the offsets that the test
-- asserts gives the value back. For `edd`, which ends in padding, the size is the asserted one too, and
-- a value is read back, if its padding is written as zeros.
pub structures-IsItsBytes :
    IsItsBytes kernel_fd_set_struct 128
    × IsItsBytes kernel_fsid_struct 8
    × IsItsBytes screen_info_struct 64
    × IsItsBytes apm_bios_info_struct 20
    × IsItsBytes ist_info_struct 16
    × IsItsBytes efi_info_struct 32
    × IsItsBytes edid_info_struct 128
    × IsItsBytes sys_desc_table_struct 16
    × IsItsBytes olpc_ofw_header_struct 16
    × IsItsBytes interface_path_isa_struct 8
    × IsItsBytes interface_path_pci_struct 8
    × IsItsBytes interface_path_ibnd_struct 8
    × IsItsBytes interface_path_xprs_struct 8
    × IsItsBytes interface_path_htpt_struct 8
    × IsItsBytes interface_path_unknown_struct 8
    × IsItsBytes device_path_ata_struct 16
    × IsItsBytes device_path_atapi_struct 16
    × IsItsBytes device_path_scsi_struct 16
    × IsItsBytes device_path_usb_struct 16
    × IsItsBytes device_path_i1394_struct 16
    × IsItsBytes device_path_fibre_struct 16
    × IsItsBytes device_path_i2o_struct 16
    × IsItsBytes device_path_raid_struct 16
    × IsItsBytes device_path_sata_struct 16
    × IsItsBytes device_path_unknown_struct 16
    × IsItsBytes edd_device_params_struct 74
    × IsItsBytes edd_info_struct 82
    × IsItsBytes boot_e820_entry_struct 20
    × IsItsBytes setup_data_struct 16
    × IsItsBytes jailhouse_setup_data_struct 280
    × IsItsBytes setup_header_struct 119
    × IsItsBytes boot_params_struct 4096
    × (size_of edd_struct ≡ 560)
    × ((v : Value edd_struct) → edd_struct.of_bytes (as_slice edd_struct v.0) ≡ v.0)
unfolding is_dense
structures-IsItsBytes = (
  struct-IsItsBytes kernel_fd_set_struct 128 refl refl,
  struct-IsItsBytes kernel_fsid_struct 8 refl refl,
  struct-IsItsBytes screen_info_struct 64 refl refl,
  struct-IsItsBytes apm_bios_info_struct 20 refl refl,
  struct-IsItsBytes ist_info_struct 16 refl refl,
  struct-IsItsBytes efi_info_struct 32 refl refl,
  struct-IsItsBytes edid_info_struct 128 refl refl,
  struct-IsItsBytes sys_desc_table_struct 16 refl refl,
  struct-IsItsBytes olpc_ofw_header_struct 16 refl refl,
  struct-IsItsBytes interface_path_isa_struct 8 refl refl,
  struct-IsItsBytes interface_path_pci_struct 8 refl refl,
  struct-IsItsBytes interface_path_ibnd_struct 8 refl refl,
  struct-IsItsBytes interface_path_xprs_struct 8 refl refl,
  struct-IsItsBytes interface_path_htpt_struct 8 refl refl,
  struct-IsItsBytes interface_path_unknown_struct 8 refl refl,
  struct-IsItsBytes device_path_ata_struct 16 refl refl,
  struct-IsItsBytes device_path_atapi_struct 16 refl refl,
  struct-IsItsBytes device_path_scsi_struct 16 refl refl,
  struct-IsItsBytes device_path_usb_struct 16 refl refl,
  struct-IsItsBytes device_path_i1394_struct 16 refl refl,
  struct-IsItsBytes device_path_fibre_struct 16 refl refl,
  struct-IsItsBytes device_path_i2o_struct 16 refl refl,
  struct-IsItsBytes device_path_raid_struct 16 refl refl,
  struct-IsItsBytes device_path_sata_struct 16 refl refl,
  struct-IsItsBytes device_path_unknown_struct 16 refl refl,
  struct-IsItsBytes edd_device_params_struct 74 refl refl,
  struct-IsItsBytes edd_info_struct 82 refl refl,
  struct-IsItsBytes boot_e820_entry_struct 20 refl refl,
  struct-IsItsBytes setup_data_struct 16 refl refl,
  struct-IsItsBytes jailhouse_setup_data_struct 280 refl refl,
  struct-IsItsBytes setup_header_struct 119 refl refl,
  struct-IsItsBytes boot_params_struct 4096 refl refl,
  refl,
  λ v. of_bytes-as_slice_all edd_struct v.0 v.1,
)
