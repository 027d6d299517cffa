-- ===== src/LoaderGen/Bootparam/DevicePath.antt =====
-- src/loader_gen/x86_64/bootparam.rs: members of the union `edd_device_params__bindgen_ty_2`, the field
-- `device_path` of `edd_device_params`: each is read from the sixteen bytes of the union.
use linux_loader.Base.{ℕ, List, ◌≡◌, refl}
use linux_loader.LoaderGen.{field}
use linux_loader.LoaderGen.Pod.{Layout, num, ◌⊗◌, ◌&◌, El, read}
use linux_loader.LoaderGen.Pod.Struct.{Struct}

pub record DevicePathAta : Type 0 where
  pub device : ℕ
  pub reserved1 : ℕ
  pub reserved2 : ℕ
  pub reserved3 : ℕ
  pub reserved4 : ℕ

unfoldable pub device_path_ata_of_bytes : List ℕ → DevicePathAta
device_path_ata_of_bytes bs = record {
  device = field bs 0 1;
  reserved1 = field bs 1 1;
  reserved2 = field bs 2 2;
  reserved3 = field bs 4 4;
  reserved4 = field bs 8 8;
}

abbrev device_path_ata_layout : Layout
device_path_ata_layout = num 1 ⊗ num 1 ⊗ num 2 ⊗ num 4 ⊗ num 8

abbrev device_path_ata_of_el : El device_path_ata_layout → DevicePathAta
device_path_ata_of_el (device & reserved1 & reserved2 & reserved3 & reserved4) = record {
  device = device;
  reserved1 = reserved1;
  reserved2 = reserved2;
  reserved3 = reserved3;
  reserved4 = reserved4;
}

abbrev device_path_ata_to_el : DevicePathAta → El device_path_ata_layout
device_path_ata_to_el x = x.device & x.reserved1 & x.reserved2 & x.reserved3 & x.reserved4

pub device_path_ata_of_bytes_lem :
    (bs : List ℕ)
    → device_path_ata_to_el (device_path_ata_of_bytes bs) ≡ read device_path_ata_layout bs 0
unfolding device_path_ata_of_bytes read
device_path_ata_of_bytes_lem bs = refl

abbrev pub device_path_ata_struct : Struct DevicePathAta
device_path_ata_struct = record {
  layout = device_path_ata_layout;
  to_el = device_path_ata_to_el;
  of_el = device_path_ata_of_el;
  of_bytes = device_path_ata_of_bytes;
  of_el-to_el = λ x. refl;
  to_el-of_bytes = device_path_ata_of_bytes_lem;
}

pub record DevicePathAtapi : Type 0 where
  pub device : ℕ
  pub lun : ℕ
  pub reserved1 : ℕ
  pub reserved2 : ℕ
  pub reserved3 : ℕ
  pub reserved4 : ℕ

unfoldable pub device_path_atapi_of_bytes : List ℕ → DevicePathAtapi
device_path_atapi_of_bytes bs = record {
  device = field bs 0 1;
  lun = field bs 1 1;
  reserved1 = field bs 2 1;
  reserved2 = field bs 3 1;
  reserved3 = field bs 4 4;
  reserved4 = field bs 8 8;
}

abbrev device_path_atapi_layout : Layout
device_path_atapi_layout = num 1 ⊗ num 1 ⊗ num 1 ⊗ num 1 ⊗ num 4 ⊗ num 8

abbrev device_path_atapi_of_el : El device_path_atapi_layout → DevicePathAtapi
device_path_atapi_of_el (device & lun & reserved1 & reserved2 & reserved3 & reserved4) = record {
  device = device;
  lun = lun;
  reserved1 = reserved1;
  reserved2 = reserved2;
  reserved3 = reserved3;
  reserved4 = reserved4;
}

abbrev device_path_atapi_to_el : DevicePathAtapi → El device_path_atapi_layout
device_path_atapi_to_el x = x.device & x.lun & x.reserved1 & x.reserved2 & x.reserved3 & x.reserved4

pub device_path_atapi_of_bytes_lem :
    (bs : List ℕ)
    → device_path_atapi_to_el (device_path_atapi_of_bytes bs) ≡ read device_path_atapi_layout bs 0
unfolding device_path_atapi_of_bytes read
device_path_atapi_of_bytes_lem bs = refl

abbrev pub device_path_atapi_struct : Struct DevicePathAtapi
device_path_atapi_struct = record {
  layout = device_path_atapi_layout;
  to_el = device_path_atapi_to_el;
  of_el = device_path_atapi_of_el;
  of_bytes = device_path_atapi_of_bytes;
  of_el-to_el = λ x. refl;
  to_el-of_bytes = device_path_atapi_of_bytes_lem;
}

pub record DevicePathScsi : Type 0 where
  pub id : ℕ
  pub lun : ℕ
  pub reserved1 : ℕ
  pub reserved2 : ℕ

unfoldable pub device_path_scsi_of_bytes : List ℕ → DevicePathScsi
device_path_scsi_of_bytes bs = record {
  id = field bs 0 2;
  lun = field bs 2 8;
  reserved1 = field bs 10 2;
  reserved2 = field bs 12 4;
}

abbrev device_path_scsi_layout : Layout
device_path_scsi_layout = num 2 ⊗ num 8 ⊗ num 2 ⊗ num 4

abbrev device_path_scsi_of_el : El device_path_scsi_layout → DevicePathScsi
device_path_scsi_of_el (id & lun & reserved1 & reserved2) = record {
  id = id;
  lun = lun;
  reserved1 = reserved1;
  reserved2 = reserved2;
}

abbrev device_path_scsi_to_el : DevicePathScsi → El device_path_scsi_layout
device_path_scsi_to_el x = x.id & x.lun & x.reserved1 & x.reserved2

pub device_path_scsi_of_bytes_lem :
    (bs : List ℕ)
    → device_path_scsi_to_el (device_path_scsi_of_bytes bs) ≡ read device_path_scsi_layout bs 0
unfolding device_path_scsi_of_bytes read
device_path_scsi_of_bytes_lem bs = refl

abbrev pub device_path_scsi_struct : Struct DevicePathScsi
device_path_scsi_struct = record {
  layout = device_path_scsi_layout;
  to_el = device_path_scsi_to_el;
  of_el = device_path_scsi_of_el;
  of_bytes = device_path_scsi_of_bytes;
  of_el-to_el = λ x. refl;
  to_el-of_bytes = device_path_scsi_of_bytes_lem;
}

pub record DevicePathUsb : Type 0 where
  pub serial_number : ℕ
  pub reserved : ℕ

unfoldable pub device_path_usb_of_bytes : List ℕ → DevicePathUsb
device_path_usb_of_bytes bs = record { serial_number = field bs 0 8; reserved = field bs 8 8 }

abbrev device_path_usb_layout : Layout
device_path_usb_layout = num 8 ⊗ num 8

abbrev device_path_usb_of_el : El device_path_usb_layout → DevicePathUsb
device_path_usb_of_el (serial_number & reserved) = record {
  serial_number = serial_number;
  reserved = reserved;
}

abbrev device_path_usb_to_el : DevicePathUsb → El device_path_usb_layout
device_path_usb_to_el x = x.serial_number & x.reserved

pub device_path_usb_of_bytes_lem :
    (bs : List ℕ)
    → device_path_usb_to_el (device_path_usb_of_bytes bs) ≡ read device_path_usb_layout bs 0
unfolding device_path_usb_of_bytes read
device_path_usb_of_bytes_lem bs = refl

abbrev pub device_path_usb_struct : Struct DevicePathUsb
device_path_usb_struct = record {
  layout = device_path_usb_layout;
  to_el = device_path_usb_to_el;
  of_el = device_path_usb_of_el;
  of_bytes = device_path_usb_of_bytes;
  of_el-to_el = λ x. refl;
  to_el-of_bytes = device_path_usb_of_bytes_lem;
}

pub record DevicePathI1394 : Type 0 where
  pub eui : ℕ
  pub reserved : ℕ

unfoldable pub device_path_i1394_of_bytes : List ℕ → DevicePathI1394
device_path_i1394_of_bytes bs = record { eui = field bs 0 8; reserved = field bs 8 8 }

abbrev device_path_i1394_layout : Layout
device_path_i1394_layout = num 8 ⊗ num 8

abbrev device_path_i1394_of_el : El device_path_i1394_layout → DevicePathI1394
device_path_i1394_of_el (eui & reserved) = record { eui = eui; reserved = reserved }

abbrev device_path_i1394_to_el : DevicePathI1394 → El device_path_i1394_layout
device_path_i1394_to_el x = x.eui & x.reserved

pub device_path_i1394_of_bytes_lem :
    (bs : List ℕ)
    → device_path_i1394_to_el (device_path_i1394_of_bytes bs) ≡ read device_path_i1394_layout bs 0
unfolding device_path_i1394_of_bytes read
device_path_i1394_of_bytes_lem bs = refl

abbrev pub device_path_i1394_struct : Struct DevicePathI1394
device_path_i1394_struct = record {
  layout = device_path_i1394_layout;
  to_el = device_path_i1394_to_el;
  of_el = device_path_i1394_of_el;
  of_bytes = device_path_i1394_of_bytes;
  of_el-to_el = λ x. refl;
  to_el-of_bytes = device_path_i1394_of_bytes_lem;
}
