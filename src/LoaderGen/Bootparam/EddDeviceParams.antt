-- ===== src/LoaderGen/Bootparam/EddDeviceParams.antt =====
-- src/loader_gen/x86_64/bootparam.rs: `edd_device_params`, what the firmware says of a disk.
-- The two unions are kept as their bytes.
use linux_loader.Base.{ℕ, List, ◌≡◌, refl}
use linux_loader.LoaderGen.{field}
use linux_loader.LoaderGen.Pod.{Layout, num, array, ◌⊗◌, ◌&◌, El, read, array_field}
use linux_loader.LoaderGen.Pod.Struct.{Struct}

pub record EddDeviceParams : Type 0 where
  pub length : ℕ
  pub info_flags : ℕ
  pub num_default_cylinders : ℕ
  pub num_default_heads : ℕ
  pub sectors_per_track : ℕ
  pub number_of_sectors : ℕ
  pub bytes_per_sector : ℕ
  pub dpte_ptr : ℕ
  pub key : ℕ
  pub device_path_info_length : ℕ
  pub reserved2 : ℕ
  pub reserved3 : ℕ
  pub host_bus_type : List ℕ
  pub interface_type : List ℕ
  pub interface_path : List ℕ
  pub device_path : List ℕ
  pub reserved4 : ℕ
  pub checksum : ℕ

unfoldable pub edd_device_params_of_bytes : List ℕ → EddDeviceParams
edd_device_params_of_bytes bs = record {
  length = field bs 0 2;
  info_flags = field bs 2 2;
  num_default_cylinders = field bs 4 4;
  num_default_heads = field bs 8 4;
  sectors_per_track = field bs 12 4;
  number_of_sectors = field bs 16 8;
  bytes_per_sector = field bs 24 2;
  dpte_ptr = field bs 26 4;
  key = field bs 30 2;
  device_path_info_length = field bs 32 1;
  reserved2 = field bs 33 1;
  reserved3 = field bs 34 2;
  host_bus_type = array_field bs 36 4 1;
  interface_type = array_field bs 40 8 1;
  interface_path = array_field bs 48 8 1;
  device_path = array_field bs 56 16 1;
  reserved4 = field bs 72 1;
  checksum = field bs 73 1;
}

abbrev edd_device_params_layout : Layout
edd_device_params_layout =
    num 2
    ⊗ num 2
    ⊗ num 4
    ⊗ num 4
    ⊗ num 4
    ⊗ num 8
    ⊗ num 2
    ⊗ num 4
    ⊗ num 2
    ⊗ num 1
    ⊗ num 1
    ⊗ num 2
    ⊗ array 4 (num 1)
    ⊗ array 8 (num 1)
    ⊗ array 8 (num 1)
    ⊗ array 16 (num 1)
    ⊗ num 1
    ⊗ num 1

abbrev edd_device_params_of_el : El edd_device_params_layout → EddDeviceParams
edd_device_params_of_el
      (length & info_flags & num_default_cylinders & num_default_heads & sectors_per_track
        & number_of_sectors & bytes_per_sector & dpte_ptr & key & device_path_info_length
        & reserved2 & reserved3 & host_bus_type & interface_type & interface_path & device_path
        & reserved4 & checksum) =
    record {
      length = length;
      info_flags = info_flags;
      num_default_cylinders = num_default_cylinders;
      num_default_heads = num_default_heads;
      sectors_per_track = sectors_per_track;
      number_of_sectors = number_of_sectors;
      bytes_per_sector = bytes_per_sector;
      dpte_ptr = dpte_ptr;
      key = key;
      device_path_info_length = device_path_info_length;
      reserved2 = reserved2;
      reserved3 = reserved3;
      host_bus_type = host_bus_type;
      interface_type = interface_type;
      interface_path = interface_path;
      device_path = device_path;
      reserved4 = reserved4;
      checksum = checksum;
    }

abbrev edd_device_params_to_el : EddDeviceParams → El edd_device_params_layout
edd_device_params_to_el x =
    x.length & x.info_flags & x.num_default_cylinders & x.num_default_heads & x.sectors_per_track
    & x.number_of_sectors & x.bytes_per_sector & x.dpte_ptr & x.key & x.device_path_info_length
    & x.reserved2 & x.reserved3 & x.host_bus_type & x.interface_type & x.interface_path
    & x.device_path & x.reserved4 & x.checksum

pub edd_device_params_of_bytes_lem :
    (bs : List ℕ)
    → edd_device_params_to_el (edd_device_params_of_bytes bs) ≡ read edd_device_params_layout bs 0
unfolding edd_device_params_of_bytes read
edd_device_params_of_bytes_lem bs = refl

abbrev pub edd_device_params_struct : Struct EddDeviceParams
edd_device_params_struct = record {
  layout = edd_device_params_layout;
  to_el = edd_device_params_to_el;
  of_el = edd_device_params_of_el;
  of_bytes = edd_device_params_of_bytes;
  of_el-to_el = λ x. refl;
  to_el-of_bytes = edd_device_params_of_bytes_lem;
}
