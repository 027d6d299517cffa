-- ===== src/LoaderGen/Bootparam/StoragePath.antt =====
-- src/loader_gen/x86_64/bootparam.rs: the other members of the union `edd_device_params__bindgen_ty_2`, the
-- field `device_path` of `edd_device_params`.
use linux_loader.Base.{ℕ, List, ◌≡◌, refl}
use linux_loader.LoaderGen.{field}
use linux_loader.LoaderGen.Pod.{Layout, num, ◌⊗◌, ◌&◌, El, read}
use linux_loader.LoaderGen.Pod.Struct.{Struct}

pub record DevicePathFibre : Type 0 where
  pub wwid : ℕ
  pub lun : ℕ

unfoldable pub device_path_fibre_of_bytes : List ℕ → DevicePathFibre
device_path_fibre_of_bytes bs = record { wwid = field bs 0 8; lun = field bs 8 8 }

abbrev device_path_fibre_layout : Layout
device_path_fibre_layout = num 8 ⊗ num 8

abbrev device_path_fibre_of_el : El device_path_fibre_layout → DevicePathFibre
device_path_fibre_of_el (wwid & lun) = record { wwid = wwid; lun = lun }

abbrev device_path_fibre_to_el : DevicePathFibre → El device_path_fibre_layout
device_path_fibre_to_el x = x.wwid & x.lun

pub device_path_fibre_of_bytes_lem :
    (bs : List ℕ)
    → device_path_fibre_to_el (device_path_fibre_of_bytes bs) ≡ read device_path_fibre_layout bs 0
unfolding device_path_fibre_of_bytes read
device_path_fibre_of_bytes_lem bs = refl

abbrev pub device_path_fibre_struct : Struct DevicePathFibre
device_path_fibre_struct = record {
  layout = device_path_fibre_layout;
  to_el = device_path_fibre_to_el;
  of_el = device_path_fibre_of_el;
  of_bytes = device_path_fibre_of_bytes;
  of_el-to_el = λ x. refl;
  to_el-of_bytes = device_path_fibre_of_bytes_lem;
}

pub record DevicePathI2o : Type 0 where
  pub identity_tag : ℕ
  pub reserved : ℕ

unfoldable pub device_path_i2o_of_bytes : List ℕ → DevicePathI2o
device_path_i2o_of_bytes bs = record { identity_tag = field bs 0 8; reserved = field bs 8 8 }

abbrev device_path_i2o_layout : Layout
device_path_i2o_layout = num 8 ⊗ num 8

abbrev device_path_i2o_of_el : El device_path_i2o_layout → DevicePathI2o
device_path_i2o_of_el (identity_tag & reserved) = record {
  identity_tag = identity_tag;
  reserved = reserved;
}

abbrev device_path_i2o_to_el : DevicePathI2o → El device_path_i2o_layout
device_path_i2o_to_el x = x.identity_tag & x.reserved

pub device_path_i2o_of_bytes_lem :
    (bs : List ℕ)
    → device_path_i2o_to_el (device_path_i2o_of_bytes bs) ≡ read device_path_i2o_layout bs 0
unfolding device_path_i2o_of_bytes read
device_path_i2o_of_bytes_lem bs = refl

abbrev pub device_path_i2o_struct : Struct DevicePathI2o
device_path_i2o_struct = record {
  layout = device_path_i2o_layout;
  to_el = device_path_i2o_to_el;
  of_el = device_path_i2o_of_el;
  of_bytes = device_path_i2o_of_bytes;
  of_el-to_el = λ x. refl;
  to_el-of_bytes = device_path_i2o_of_bytes_lem;
}

pub record DevicePathRaid : Type 0 where
  pub array_number : ℕ
  pub reserved1 : ℕ
  pub reserved2 : ℕ

unfoldable pub device_path_raid_of_bytes : List ℕ → DevicePathRaid
device_path_raid_of_bytes bs = record {
  array_number = field bs 0 4;
  reserved1 = field bs 4 4;
  reserved2 = field bs 8 8;
}

abbrev device_path_raid_layout : Layout
device_path_raid_layout = num 4 ⊗ num 4 ⊗ num 8

abbrev device_path_raid_of_el : El device_path_raid_layout → DevicePathRaid
device_path_raid_of_el (array_number & reserved1 & reserved2) = record {
  array_number = array_number;
  reserved1 = reserved1;
  reserved2 = reserved2;
}

abbrev device_path_raid_to_el : DevicePathRaid → El device_path_raid_layout
device_path_raid_to_el x = x.array_number & x.reserved1 & x.reserved2

pub device_path_raid_of_bytes_lem :
    (bs : List ℕ)
    → device_path_raid_to_el (device_path_raid_of_bytes bs) ≡ read device_path_raid_layout bs 0
unfolding device_path_raid_of_bytes read
device_path_raid_of_bytes_lem bs = refl

abbrev pub device_path_raid_struct : Struct DevicePathRaid
device_path_raid_struct = record {
  layout = device_path_raid_layout;
  to_el = device_path_raid_to_el;
  of_el = device_path_raid_of_el;
  of_bytes = device_path_raid_of_bytes;
  of_el-to_el = λ x. refl;
  to_el-of_bytes = device_path_raid_of_bytes_lem;
}

pub record DevicePathSata : Type 0 where
  pub device : ℕ
  pub reserved1 : ℕ
  pub reserved2 : ℕ
  pub reserved3 : ℕ
  pub reserved4 : ℕ

unfoldable pub device_path_sata_of_bytes : List ℕ → DevicePathSata
device_path_sata_of_bytes bs = record {
  device = field bs 0 1;
  reserved1 = field bs 1 1;
  reserved2 = field bs 2 2;
  reserved3 = field bs 4 4;
  reserved4 = field bs 8 8;
}

abbrev device_path_sata_layout : Layout
device_path_sata_layout = num 1 ⊗ num 1 ⊗ num 2 ⊗ num 4 ⊗ num 8

abbrev device_path_sata_of_el : El device_path_sata_layout → DevicePathSata
device_path_sata_of_el (device & reserved1 & reserved2 & reserved3 & reserved4) = record {
  device = device;
  reserved1 = reserved1;
  reserved2 = reserved2;
  reserved3 = reserved3;
  reserved4 = reserved4;
}

abbrev device_path_sata_to_el : DevicePathSata → El device_path_sata_layout
device_path_sata_to_el x = x.device & x.reserved1 & x.reserved2 & x.reserved3 & x.reserved4

pub device_path_sata_of_bytes_lem :
    (bs : List ℕ)
    → device_path_sata_to_el (device_path_sata_of_bytes bs) ≡ read device_path_sata_layout bs 0
unfolding device_path_sata_of_bytes read
device_path_sata_of_bytes_lem bs = refl

abbrev pub device_path_sata_struct : Struct DevicePathSata
device_path_sata_struct = record {
  layout = device_path_sata_layout;
  to_el = device_path_sata_to_el;
  of_el = device_path_sata_of_el;
  of_bytes = device_path_sata_of_bytes;
  of_el-to_el = λ x. refl;
  to_el-of_bytes = device_path_sata_of_bytes_lem;
}

pub record DevicePathUnknown : Type 0 where
  pub reserved1 : ℕ
  pub reserved2 : ℕ

unfoldable pub device_path_unknown_of_bytes : List ℕ → DevicePathUnknown
device_path_unknown_of_bytes bs = record { reserved1 = field bs 0 8; reserved2 = field bs 8 8 }

abbrev device_path_unknown_layout : Layout
device_path_unknown_layout = num 8 ⊗ num 8

abbrev device_path_unknown_of_el : El device_path_unknown_layout → DevicePathUnknown
device_path_unknown_of_el (reserved1 & reserved2) = record {
  reserved1 = reserved1;
  reserved2 = reserved2;
}

abbrev device_path_unknown_to_el : DevicePathUnknown → El device_path_unknown_layout
device_path_unknown_to_el x = x.reserved1 & x.reserved2

pub device_path_unknown_of_bytes_lem :
    (bs : List ℕ)
    → device_path_unknown_to_el (device_path_unknown_of_bytes bs)
      ≡ read device_path_unknown_layout bs 0
unfolding device_path_unknown_of_bytes read
device_path_unknown_of_bytes_lem bs = refl

abbrev pub device_path_unknown_struct : Struct DevicePathUnknown
device_path_unknown_struct = record {
  layout = device_path_unknown_layout;
  to_el = device_path_unknown_to_el;
  of_el = device_path_unknown_of_el;
  of_bytes = device_path_unknown_of_bytes;
  of_el-to_el = λ x. refl;
  to_el-of_bytes = device_path_unknown_of_bytes_lem;
}
