-- ===== src/Configurator/GuestTests.antt =====
-- What a guest reads, at a concrete start info and memory map.
use linux_loader.Base.{ℕ, List, [], ◌∷◌, some, ◌≡◌, inl, refl, arith, get_elem?, replicate}
use linux_loader.Memory.ReadBack.{read_back}
use linux_loader.Memory.Flat.{flat, flat-IsGuestMemory}
use linux_loader.LoaderGen.Layout.{encode, to_le_bytes}
use linux_loader.LoaderGen.StartInfo.{
  HvmStartInfo, HvmMemmapTableEntry, start_info_bytes, memmap_entry_bytes, start_info_of_bytes,
}
use linux_loader.Configurator.{BootParams, new, set_sections}
use linux_loader.Configurator.Write.{pvh_write_bootparams}
use linux_loader.Configurator.Guest.{memmap_of_bytes, pvh_guest_reads}
use mathlib.Core.List.{flat_map}
use mathlib.Core.Option.{map}

abbrev info : HvmStartInfo
info = record {
  magic = 0x336ec578;
  version = 1;
  flags = 0;
  nr_modules = 0;
  modlist_paddr = 0;
  cmdline_paddr = 0x20000;
  rsdp_paddr = 0;
  memmap_paddr = 64;
  memmap_entries = 1;
  reserved = 0;
}

abbrev entries : List HvmMemmapTableEntry
entries = record { addr = 0x7000; size = 0x100; type_ = 1; reserved = 0 } ∷ []

abbrev memory : List ℕ
memory = replicate 100 7

-- Opens what the run computes with.
params : BootParams
unfolding pvh_write_bootparams new set_sections flat_map encode to_le_bytes
params = set_sections memmap_entry_bytes entries 64 (new start_info_bytes info 4)

pvh_guest_reads_example :
    (map start_info_of_bytes (
        read_back
          (get_elem?
            (pvh_write_bootparams flat
              (set_sections memmap_entry_bytes entries 64 (new start_info_bytes info 4))
              memory).1)
          4
          56)
      ≡ some info)
    × (map (memmap_of_bytes 1) (
          read_back
            (get_elem?
              (pvh_write_bootparams flat
                (set_sections memmap_entry_bytes entries 64 (new start_info_bytes info 4))
                memory).1)
            64
            24)
        ≡ some entries)
unfolding params
pvh_guest_reads_example =
    pvh_guest_reads flat flat-IsGuestMemory info entries 4 64 memory
      (pvh_write_bootparams flat
        (set_sections memmap_entry_bytes entries 64 (new start_info_bytes info 4)) memory).1
      (ground arith) (ground arith, tt) (inl (omega arith)) refl
