-- ===== src/LoaderGen/Bootparam/Unions.antt =====
-- src/loader_gen/x86_64/bootparam.rs: the two unions of `edd_device_params`. A union is its bytes; its
-- members all stand at offset 0, so each is read from the same bytes.
use linux_loader.Base.{ℕ, List, ◌≡◌}
use linux_loader.LoaderGen.Pod.Struct.{IsValid, as_slice, of_bytes-as_slice_all}
use linux_loader.LoaderGen.Bootparam.InterfacePath.{
  InterfacePathIsa, interface_path_isa_of_bytes, interface_path_isa_struct, InterfacePathPci,
  interface_path_pci_of_bytes, interface_path_pci_struct, InterfacePathIbnd,
  interface_path_ibnd_of_bytes, interface_path_ibnd_struct, InterfacePathXprs,
  interface_path_xprs_of_bytes, interface_path_xprs_struct, InterfacePathHtpt,
  interface_path_htpt_of_bytes, interface_path_htpt_struct, InterfacePathUnknown,
  interface_path_unknown_of_bytes, interface_path_unknown_struct,
}
use linux_loader.LoaderGen.Bootparam.DevicePath.{
  DevicePathAta, device_path_ata_of_bytes, device_path_ata_struct, DevicePathAtapi,
  device_path_atapi_of_bytes, device_path_atapi_struct, DevicePathScsi, device_path_scsi_of_bytes,
  device_path_scsi_struct, DevicePathUsb, device_path_usb_of_bytes, device_path_usb_struct,
  DevicePathI1394, device_path_i1394_of_bytes, device_path_i1394_struct,
}
use linux_loader.LoaderGen.Bootparam.StoragePath.{
  DevicePathFibre, device_path_fibre_of_bytes, device_path_fibre_struct, DevicePathI2o,
  device_path_i2o_of_bytes, device_path_i2o_struct, DevicePathRaid, device_path_raid_of_bytes,
  device_path_raid_struct, DevicePathSata, device_path_sata_of_bytes, device_path_sata_struct,
  DevicePathUnknown, device_path_unknown_of_bytes, device_path_unknown_struct,
}
use linux_loader.LoaderGen.Bootparam.EddDeviceParams.{EddDeviceParams}

-- What the bytes of `interface_path` are as each member.
pub record InterfacePath : Type 0 where
  pub isa : InterfacePathIsa
  pub pci : InterfacePathPci
  pub ibnd : InterfacePathIbnd
  pub xprs : InterfacePathXprs
  pub htpt : InterfacePathHtpt
  pub unknown : InterfacePathUnknown

-- What the bytes of `device_path` are as each member.
pub record DevicePath : Type 0 where
  pub ata : DevicePathAta
  pub atapi : DevicePathAtapi
  pub scsi : DevicePathScsi
  pub usb : DevicePathUsb
  pub i1394 : DevicePathI1394
  pub fibre : DevicePathFibre
  pub i2o : DevicePathI2o
  pub raid : DevicePathRaid
  pub sata : DevicePathSata
  pub unknown : DevicePathUnknown

unfoldable pub interface_path_of_bytes : List ℕ → InterfacePath
interface_path_of_bytes bs = record {
  isa = interface_path_isa_of_bytes bs;
  pci = interface_path_pci_of_bytes bs;
  ibnd = interface_path_ibnd_of_bytes bs;
  xprs = interface_path_xprs_of_bytes bs;
  htpt = interface_path_htpt_of_bytes bs;
  unknown = interface_path_unknown_of_bytes bs;
}

unfoldable pub device_path_of_bytes : List ℕ → DevicePath
device_path_of_bytes bs = record {
  ata = device_path_ata_of_bytes bs;
  atapi = device_path_atapi_of_bytes bs;
  scsi = device_path_scsi_of_bytes bs;
  usb = device_path_usb_of_bytes bs;
  i1394 = device_path_i1394_of_bytes bs;
  fibre = device_path_fibre_of_bytes bs;
  i2o = device_path_i2o_of_bytes bs;
  raid = device_path_raid_of_bytes bs;
  sata = device_path_sata_of_bytes bs;
  unknown = device_path_unknown_of_bytes bs;
}

-- `params.interface_path.isa` and so on.
abbrev pub interface_path_of : EddDeviceParams → InterfacePath
interface_path_of params = interface_path_of_bytes params.interface_path

abbrev pub device_path_of : EddDeviceParams → DevicePath
device_path_of params = device_path_of_bytes params.device_path

-- The member that was written to a union is read from it, for every member of the first union.
pub interface_path_of_bytes-as_slice :
    ((x : InterfacePathIsa)
      → IsValid interface_path_isa_struct x
      → (interface_path_of_bytes (as_slice interface_path_isa_struct x)).isa ≡ x)
    × ((x : InterfacePathPci)
        → IsValid interface_path_pci_struct x
        → (interface_path_of_bytes (as_slice interface_path_pci_struct x)).pci ≡ x)
    × ((x : InterfacePathIbnd)
        → IsValid interface_path_ibnd_struct x
        → (interface_path_of_bytes (as_slice interface_path_ibnd_struct x)).ibnd ≡ x)
    × ((x : InterfacePathXprs)
        → IsValid interface_path_xprs_struct x
        → (interface_path_of_bytes (as_slice interface_path_xprs_struct x)).xprs ≡ x)
    × ((x : InterfacePathHtpt)
        → IsValid interface_path_htpt_struct x
        → (interface_path_of_bytes (as_slice interface_path_htpt_struct x)).htpt ≡ x)
    × ((x : InterfacePathUnknown)
        → IsValid interface_path_unknown_struct x
        → (interface_path_of_bytes (as_slice interface_path_unknown_struct x)).unknown ≡ x)
unfolding interface_path_of_bytes
interface_path_of_bytes-as_slice = (
  of_bytes-as_slice_all interface_path_isa_struct,
  of_bytes-as_slice_all interface_path_pci_struct,
  of_bytes-as_slice_all interface_path_ibnd_struct,
  of_bytes-as_slice_all interface_path_xprs_struct,
  of_bytes-as_slice_all interface_path_htpt_struct,
  of_bytes-as_slice_all interface_path_unknown_struct,
)

-- The member that was written to a union is read from it, for every member of the second union.
pub device_path_of_bytes-as_slice :
    ((x : DevicePathAta)
      → IsValid device_path_ata_struct x
      → (device_path_of_bytes (as_slice device_path_ata_struct x)).ata ≡ x)
    × ((x : DevicePathAtapi)
        → IsValid device_path_atapi_struct x
        → (device_path_of_bytes (as_slice device_path_atapi_struct x)).atapi ≡ x)
    × ((x : DevicePathScsi)
        → IsValid device_path_scsi_struct x
        → (device_path_of_bytes (as_slice device_path_scsi_struct x)).scsi ≡ x)
    × ((x : DevicePathUsb)
        → IsValid device_path_usb_struct x
        → (device_path_of_bytes (as_slice device_path_usb_struct x)).usb ≡ x)
    × ((x : DevicePathI1394)
        → IsValid device_path_i1394_struct x
        → (device_path_of_bytes (as_slice device_path_i1394_struct x)).i1394 ≡ x)
    × ((x : DevicePathFibre)
        → IsValid device_path_fibre_struct x
        → (device_path_of_bytes (as_slice device_path_fibre_struct x)).fibre ≡ x)
    × ((x : DevicePathI2o)
        → IsValid device_path_i2o_struct x
        → (device_path_of_bytes (as_slice device_path_i2o_struct x)).i2o ≡ x)
    × ((x : DevicePathRaid)
        → IsValid device_path_raid_struct x
        → (device_path_of_bytes (as_slice device_path_raid_struct x)).raid ≡ x)
    × ((x : DevicePathSata)
        → IsValid device_path_sata_struct x
        → (device_path_of_bytes (as_slice device_path_sata_struct x)).sata ≡ x)
    × ((x : DevicePathUnknown)
        → IsValid device_path_unknown_struct x
        → (device_path_of_bytes (as_slice device_path_unknown_struct x)).unknown ≡ x)
unfolding device_path_of_bytes
device_path_of_bytes-as_slice = (
  of_bytes-as_slice_all device_path_ata_struct,
  of_bytes-as_slice_all device_path_atapi_struct,
  of_bytes-as_slice_all device_path_scsi_struct,
  of_bytes-as_slice_all device_path_usb_struct,
  of_bytes-as_slice_all device_path_i1394_struct,
  of_bytes-as_slice_all device_path_fibre_struct,
  of_bytes-as_slice_all device_path_i2o_struct,
  of_bytes-as_slice_all device_path_raid_struct,
  of_bytes-as_slice_all device_path_sata_struct,
  of_bytes-as_slice_all device_path_unknown_struct,
)
