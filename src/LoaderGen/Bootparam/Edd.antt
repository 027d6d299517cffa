-- ===== src/LoaderGen/Bootparam/Edd.antt =====
-- src/loader_gen/x86_64/bootparam.rs: the disks that the firmware knows: `edd_info` and `edd`, whose
-- last two bytes are padding.
use linux_loader.Base.{ℕ, List, drop, map, ◌≡◌}
use linux_loader.LoaderGen.{field}
use linux_loader.LoaderGen.Pod.{Layout, num, array, ◌⊗◌, pad, ◌&◌, El, read, array_field}
use linux_loader.LoaderGen.Pod.Struct.{
  Struct, items_of_bytes, map-of_el-map-to_el, map-to_el-items_of_bytes, to_el-of_bytes_at,
}
use linux_loader.LoaderGen.Bootparam.EddDeviceParams.{
  EddDeviceParams, edd_device_params_struct, edd_device_params_of_bytes,
}

pub record EddInfo : Type 0 where
  pub device : ℕ
  pub version : ℕ
  pub interface_support : ℕ
  pub legacy_max_cylinder : ℕ
  pub legacy_max_head : ℕ
  pub legacy_sectors_per_track : ℕ
  pub params : EddDeviceParams

unfoldable pub edd_info_of_bytes : List ℕ → EddInfo
unfolding edd_device_params_of_bytes
edd_info_of_bytes bs = record {
  device = field bs 0 1;
  version = field bs 1 1;
  interface_support = field bs 2 2;
  legacy_max_cylinder = field bs 4 2;
  legacy_max_head = field bs 6 1;
  legacy_sectors_per_track = field bs 7 1;
  params = edd_device_params_of_bytes (drop 8 bs);
}

abbrev edd_info_layout : Layout
edd_info_layout = num 1 ⊗ num 1 ⊗ num 2 ⊗ num 2 ⊗ num 1 ⊗ num 1 ⊗ edd_device_params_struct.layout

abbrev edd_info_of_el : El edd_info_layout → EddInfo
edd_info_of_el
      (device & version & interface_support & legacy_max_cylinder & legacy_max_head
        & legacy_sectors_per_track & params) =
    record {
      device = device;
      version = version;
      interface_support = interface_support;
      legacy_max_cylinder = legacy_max_cylinder;
      legacy_max_head = legacy_max_head;
      legacy_sectors_per_track = legacy_sectors_per_track;
      params = edd_device_params_struct.of_el params;
    }

abbrev edd_info_to_el : EddInfo → El edd_info_layout
edd_info_to_el x =
    x.device
    & x.version
    & x.interface_support
    & x.legacy_max_cylinder
    & x.legacy_max_head
    & x.legacy_sectors_per_track
    & edd_device_params_struct.to_el x.params

pub edd_info_of_bytes_lem :
    (bs : List ℕ) → edd_info_to_el (edd_info_of_bytes bs) ≡ read edd_info_layout bs 0
unfolding edd_info_of_bytes read
edd_info_of_bytes_lem bs = λ i.
    field bs 0 1
    & field bs 1 1
    & field bs 2 2
    & field bs 4 2
    & field bs 6 1
    & field bs 7 1
    & to_el-of_bytes_at edd_device_params_struct bs 8 i

abbrev pub edd_info_struct : Struct EddInfo
edd_info_struct = record {
  layout = edd_info_layout;
  to_el = edd_info_to_el;
  of_el = edd_info_of_el;
  of_bytes = edd_info_of_bytes;
  of_el-to_el = λ x i. record {
    device = x.device;
    version = x.version;
    interface_support = x.interface_support;
    legacy_max_cylinder = x.legacy_max_cylinder;
    legacy_max_head = x.legacy_max_head;
    legacy_sectors_per_track = x.legacy_sectors_per_track;
    params = edd_device_params_struct.of_el-to_el x.params i;
  };
  to_el-of_bytes = edd_info_of_bytes_lem;
}

pub record Edd : Type 0 where
  pub mbr_signature : List ℕ
  pub edd_info : List EddInfo
  pub mbr_signature_nr : ℕ
  pub edd_info_nr : ℕ

unfoldable pub edd_of_bytes : List ℕ → Edd
unfolding edd_info_of_bytes items_of_bytes
edd_of_bytes bs = record {
  mbr_signature = array_field bs 0 16 4;
  edd_info = items_of_bytes edd_info_struct 6 (drop 64 bs);
  mbr_signature_nr = field bs 556 1;
  edd_info_nr = field bs 557 1;
}

abbrev edd_layout : Layout
edd_layout = array 16 (num 4) ⊗ array 6 edd_info_struct.layout ⊗ num 1 ⊗ num 1 ⊗ pad 2

abbrev edd_of_el : El edd_layout → Edd
edd_of_el (mbr_signature & edd_info & mbr_signature_nr & edd_info_nr & _) = record {
  mbr_signature = mbr_signature;
  edd_info = map edd_info_struct.of_el edd_info;
  mbr_signature_nr = mbr_signature_nr;
  edd_info_nr = edd_info_nr;
}

abbrev edd_to_el : Edd → El edd_layout
edd_to_el x =
    x.mbr_signature & map edd_info_struct.to_el x.edd_info & x.mbr_signature_nr & x.edd_info_nr & tt

pub edd_of_bytes_lem : (bs : List ℕ) → edd_to_el (edd_of_bytes bs) ≡ read edd_layout bs 0
unfolding edd_of_bytes read
edd_of_bytes_lem bs = λ i.
    array_field bs 0 16 4
    & map-to_el-items_of_bytes edd_info_struct 6 bs 64 i
    & field bs 556 1
    & field bs 557 1
    & tt

abbrev pub edd_struct : Struct Edd
edd_struct = record {
  layout = edd_layout;
  to_el = edd_to_el;
  of_el = edd_of_el;
  of_bytes = edd_of_bytes;
  of_el-to_el = λ x i. record {
    mbr_signature = x.mbr_signature;
    edd_info = map-of_el-map-to_el edd_info_struct x.edd_info i;
    mbr_signature_nr = x.mbr_signature_nr;
    edd_info_nr = x.edd_info_nr;
  };
  to_el-of_bytes = edd_of_bytes_lem;
}
