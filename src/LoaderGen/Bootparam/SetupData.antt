-- ===== src/LoaderGen/Bootparam/SetupData.antt =====
-- src/loader_gen/x86_64/bootparam.rs: the memory map entry `boot_e820_entry`, and what is chained to the setup
-- header: `setup_data`, whose flexible array takes no room, and `jailhouse_setup_data`.
use linux_loader.Base.{ℕ, List, ◌≡◌, refl}
use linux_loader.LoaderGen.{field}
use linux_loader.LoaderGen.Pod.{Layout, num, array, ◌⊗◌, ◌&◌, El, read, array_field}
use linux_loader.LoaderGen.Pod.Struct.{Struct}

pub record BootE820Entry : Type 0 where
  pub addr : ℕ
  pub size : ℕ
  pub type_ : ℕ

unfoldable pub boot_e820_entry_of_bytes : List ℕ → BootE820Entry
boot_e820_entry_of_bytes bs = record {
  addr = field bs 0 8;
  size = field bs 8 8;
  type_ = field bs 16 4;
}

abbrev boot_e820_entry_layout : Layout
boot_e820_entry_layout = num 8 ⊗ num 8 ⊗ num 4

abbrev boot_e820_entry_of_el : El boot_e820_entry_layout → BootE820Entry
boot_e820_entry_of_el (addr & size & type_) = record { addr = addr; size = size; type_ = type_ }

abbrev boot_e820_entry_to_el : BootE820Entry → El boot_e820_entry_layout
boot_e820_entry_to_el x = x.addr & x.size & x.type_

pub boot_e820_entry_of_bytes_lem :
    (bs : List ℕ)
    → boot_e820_entry_to_el (boot_e820_entry_of_bytes bs) ≡ read boot_e820_entry_layout bs 0
unfolding boot_e820_entry_of_bytes read
boot_e820_entry_of_bytes_lem bs = refl

abbrev pub boot_e820_entry_struct : Struct BootE820Entry
boot_e820_entry_struct = record {
  layout = boot_e820_entry_layout;
  to_el = boot_e820_entry_to_el;
  of_el = boot_e820_entry_of_el;
  of_bytes = boot_e820_entry_of_bytes;
  of_el-to_el = λ x. refl;
  to_el-of_bytes = boot_e820_entry_of_bytes_lem;
}

pub record SetupData : Type 0 where
  pub next : ℕ
  pub type_ : ℕ
  pub len : ℕ

unfoldable pub setup_data_of_bytes : List ℕ → SetupData
setup_data_of_bytes bs = record { next = field bs 0 8; type_ = field bs 8 4; len = field bs 12 4 }

abbrev setup_data_layout : Layout
setup_data_layout = num 8 ⊗ num 4 ⊗ num 4

abbrev setup_data_of_el : El setup_data_layout → SetupData
setup_data_of_el (next & type_ & len) = record { next = next; type_ = type_; len = len }

abbrev setup_data_to_el : SetupData → El setup_data_layout
setup_data_to_el x = x.next & x.type_ & x.len

pub setup_data_of_bytes_lem :
    (bs : List ℕ) → setup_data_to_el (setup_data_of_bytes bs) ≡ read setup_data_layout bs 0
unfolding setup_data_of_bytes read
setup_data_of_bytes_lem bs = refl

abbrev pub setup_data_struct : Struct SetupData
setup_data_struct = record {
  layout = setup_data_layout;
  to_el = setup_data_to_el;
  of_el = setup_data_of_el;
  of_bytes = setup_data_of_bytes;
  of_el-to_el = λ x. refl;
  to_el-of_bytes = setup_data_of_bytes_lem;
}

pub record JailhouseSetupData : Type 0 where
  pub version : ℕ
  pub compatible_version : ℕ
  pub pm_timer_address : ℕ
  pub num_cpus : ℕ
  pub pci_mmconfig_base : ℕ
  pub tsc_khz : ℕ
  pub apic_khz : ℕ
  pub standard_ioapic : ℕ
  pub cpu_ids : List ℕ

unfoldable pub jailhouse_setup_data_of_bytes : List ℕ → JailhouseSetupData
jailhouse_setup_data_of_bytes bs = record {
  version = field bs 0 2;
  compatible_version = field bs 2 2;
  pm_timer_address = field bs 4 2;
  num_cpus = field bs 6 2;
  pci_mmconfig_base = field bs 8 8;
  tsc_khz = field bs 16 4;
  apic_khz = field bs 20 4;
  standard_ioapic = field bs 24 1;
  cpu_ids = array_field bs 25 255 1;
}

abbrev jailhouse_setup_data_layout : Layout
jailhouse_setup_data_layout =
    num 2 ⊗ num 2 ⊗ num 2 ⊗ num 2 ⊗ num 8 ⊗ num 4 ⊗ num 4 ⊗ num 1 ⊗ array 255 (num 1)

abbrev jailhouse_setup_data_of_el : El jailhouse_setup_data_layout → JailhouseSetupData
jailhouse_setup_data_of_el
      (version & compatible_version & pm_timer_address & num_cpus & pci_mmconfig_base & tsc_khz
        & apic_khz & standard_ioapic & cpu_ids) =
    record {
      version = version;
      compatible_version = compatible_version;
      pm_timer_address = pm_timer_address;
      num_cpus = num_cpus;
      pci_mmconfig_base = pci_mmconfig_base;
      tsc_khz = tsc_khz;
      apic_khz = apic_khz;
      standard_ioapic = standard_ioapic;
      cpu_ids = cpu_ids;
    }

abbrev jailhouse_setup_data_to_el : JailhouseSetupData → El jailhouse_setup_data_layout
jailhouse_setup_data_to_el x =
    x.version & x.compatible_version & x.pm_timer_address & x.num_cpus & x.pci_mmconfig_base
    & x.tsc_khz & x.apic_khz & x.standard_ioapic & x.cpu_ids

pub jailhouse_setup_data_of_bytes_lem :
    (bs : List ℕ)
    → jailhouse_setup_data_to_el (jailhouse_setup_data_of_bytes bs)
      ≡ read jailhouse_setup_data_layout bs 0
unfolding jailhouse_setup_data_of_bytes read
jailhouse_setup_data_of_bytes_lem bs = refl

abbrev pub jailhouse_setup_data_struct : Struct JailhouseSetupData
jailhouse_setup_data_struct = record {
  layout = jailhouse_setup_data_layout;
  to_el = jailhouse_setup_data_to_el;
  of_el = jailhouse_setup_data_of_el;
  of_bytes = jailhouse_setup_data_of_bytes;
  of_el-to_el = λ x. refl;
  to_el-of_bytes = jailhouse_setup_data_of_bytes_lem;
}
