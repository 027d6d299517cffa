-- ===== src/LoaderGen/Bootparam/Firmware.antt =====
-- src/loader_gen/x86_64/bootparam.rs: what the firmware says of the machine: `apm_bios_info`, `ist_info` and
-- `efi_info`.
use linux_loader.Base.{ℕ, List, ◌≡◌, refl}
use linux_loader.LoaderGen.{field}
use linux_loader.LoaderGen.Pod.{Layout, num, ◌⊗◌, ◌&◌, El, read}
use linux_loader.LoaderGen.Pod.Struct.{Struct}

pub record ApmBiosInfo : Type 0 where
  pub version : ℕ
  pub cseg : ℕ
  pub offset : ℕ
  pub cseg_16 : ℕ
  pub dseg : ℕ
  pub flags : ℕ
  pub cseg_len : ℕ
  pub cseg_16_len : ℕ
  pub dseg_len : ℕ

unfoldable pub apm_bios_info_of_bytes : List ℕ → ApmBiosInfo
apm_bios_info_of_bytes bs = record {
  version = field bs 0 2;
  cseg = field bs 2 2;
  offset = field bs 4 4;
  cseg_16 = field bs 8 2;
  dseg = field bs 10 2;
  flags = field bs 12 2;
  cseg_len = field bs 14 2;
  cseg_16_len = field bs 16 2;
  dseg_len = field bs 18 2;
}

abbrev apm_bios_info_layout : Layout
apm_bios_info_layout = num 2 ⊗ num 2 ⊗ num 4 ⊗ num 2 ⊗ num 2 ⊗ num 2 ⊗ num 2 ⊗ num 2 ⊗ num 2

abbrev apm_bios_info_of_el : El apm_bios_info_layout → ApmBiosInfo
apm_bios_info_of_el
      (version & cseg & offset & cseg_16 & dseg & flags & cseg_len & cseg_16_len & dseg_len) =
    record {
      version = version;
      cseg = cseg;
      offset = offset;
      cseg_16 = cseg_16;
      dseg = dseg;
      flags = flags;
      cseg_len = cseg_len;
      cseg_16_len = cseg_16_len;
      dseg_len = dseg_len;
    }

abbrev apm_bios_info_to_el : ApmBiosInfo → El apm_bios_info_layout
apm_bios_info_to_el x =
    x.version & x.cseg & x.offset & x.cseg_16 & x.dseg & x.flags & x.cseg_len & x.cseg_16_len
    & x.dseg_len

pub apm_bios_info_of_bytes_lem :
    (bs : List ℕ) → apm_bios_info_to_el (apm_bios_info_of_bytes bs) ≡ read apm_bios_info_layout bs 0
unfolding apm_bios_info_of_bytes read
apm_bios_info_of_bytes_lem bs = refl

abbrev pub apm_bios_info_struct : Struct ApmBiosInfo
apm_bios_info_struct = record {
  layout = apm_bios_info_layout;
  to_el = apm_bios_info_to_el;
  of_el = apm_bios_info_of_el;
  of_bytes = apm_bios_info_of_bytes;
  of_el-to_el = λ x. refl;
  to_el-of_bytes = apm_bios_info_of_bytes_lem;
}

pub record IstInfo : Type 0 where
  pub signature : ℕ
  pub command : ℕ
  pub event : ℕ
  pub perf_level : ℕ

unfoldable pub ist_info_of_bytes : List ℕ → IstInfo
ist_info_of_bytes bs = record {
  signature = field bs 0 4;
  command = field bs 4 4;
  event = field bs 8 4;
  perf_level = field bs 12 4;
}

abbrev ist_info_layout : Layout
ist_info_layout = num 4 ⊗ num 4 ⊗ num 4 ⊗ num 4

abbrev ist_info_of_el : El ist_info_layout → IstInfo
ist_info_of_el (signature & command & event & perf_level) = record {
  signature = signature;
  command = command;
  event = event;
  perf_level = perf_level;
}

abbrev ist_info_to_el : IstInfo → El ist_info_layout
ist_info_to_el x = x.signature & x.command & x.event & x.perf_level

pub ist_info_of_bytes_lem :
    (bs : List ℕ) → ist_info_to_el (ist_info_of_bytes bs) ≡ read ist_info_layout bs 0
unfolding ist_info_of_bytes read
ist_info_of_bytes_lem bs = refl

abbrev pub ist_info_struct : Struct IstInfo
ist_info_struct = record {
  layout = ist_info_layout;
  to_el = ist_info_to_el;
  of_el = ist_info_of_el;
  of_bytes = ist_info_of_bytes;
  of_el-to_el = λ x. refl;
  to_el-of_bytes = ist_info_of_bytes_lem;
}

pub record EfiInfo : Type 0 where
  pub efi_loader_signature : ℕ
  pub efi_systab : ℕ
  pub efi_memdesc_size : ℕ
  pub efi_memdesc_version : ℕ
  pub efi_memmap : ℕ
  pub efi_memmap_size : ℕ
  pub efi_systab_hi : ℕ
  pub efi_memmap_hi : ℕ

unfoldable pub efi_info_of_bytes : List ℕ → EfiInfo
efi_info_of_bytes bs = record {
  efi_loader_signature = field bs 0 4;
  efi_systab = field bs 4 4;
  efi_memdesc_size = field bs 8 4;
  efi_memdesc_version = field bs 12 4;
  efi_memmap = field bs 16 4;
  efi_memmap_size = field bs 20 4;
  efi_systab_hi = field bs 24 4;
  efi_memmap_hi = field bs 28 4;
}

abbrev efi_info_layout : Layout
efi_info_layout = num 4 ⊗ num 4 ⊗ num 4 ⊗ num 4 ⊗ num 4 ⊗ num 4 ⊗ num 4 ⊗ num 4

abbrev efi_info_of_el : El efi_info_layout → EfiInfo
efi_info_of_el
      (efi_loader_signature & efi_systab & efi_memdesc_size & efi_memdesc_version & efi_memmap
        & efi_memmap_size & efi_systab_hi & efi_memmap_hi) =
    record {
      efi_loader_signature = efi_loader_signature;
      efi_systab = efi_systab;
      efi_memdesc_size = efi_memdesc_size;
      efi_memdesc_version = efi_memdesc_version;
      efi_memmap = efi_memmap;
      efi_memmap_size = efi_memmap_size;
      efi_systab_hi = efi_systab_hi;
      efi_memmap_hi = efi_memmap_hi;
    }

abbrev efi_info_to_el : EfiInfo → El efi_info_layout
efi_info_to_el x =
    x.efi_loader_signature & x.efi_systab & x.efi_memdesc_size & x.efi_memdesc_version
    & x.efi_memmap & x.efi_memmap_size & x.efi_systab_hi & x.efi_memmap_hi

pub efi_info_of_bytes_lem :
    (bs : List ℕ) → efi_info_to_el (efi_info_of_bytes bs) ≡ read efi_info_layout bs 0
unfolding efi_info_of_bytes read
efi_info_of_bytes_lem bs = refl

abbrev pub efi_info_struct : Struct EfiInfo
efi_info_struct = record {
  layout = efi_info_layout;
  to_el = efi_info_to_el;
  of_el = efi_info_of_el;
  of_bytes = efi_info_of_bytes;
  of_el-to_el = λ x. refl;
  to_el-of_bytes = efi_info_of_bytes_lem;
}
