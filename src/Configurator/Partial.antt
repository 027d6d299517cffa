-- ===== src/Configurator/Partial.antt =====
-- What an error of the PVH configuration, src/configurator/x86_64/pvh.rs, leaves in guest memory.
use linux_loader.Base.{ℕ, ◌-◌, List, none, some, ◌≡◌, if◌then◌else◌, length, get_elem?}
use linux_loader.Base.Splice.{inside}
use linux_loader.Memory.{GuestMemory, IsGuestMemory}
use linux_loader.Configurator.{BootParams}

module _ {M : Type 0} (gm : GuestMemory M) (laws : IsGuestMemory gm) where
  -- The memory map `memmap` was written at `addr` and the start info does not fit; `x` is an address.
  abbrev pub IsMemmapLeft : BootParams → M → M → ℕ → Type 0
  IsMemmapLeft params m m' x =
      (memmap : List ℕ) × (addr : ℕ) × (params.sections ≡ some memmap)
      × (params.sections_start ≡ some addr)
      × (gm.checked_offset m' params.header_start (length params.header) ≡ none)
      × (laws.peek m' x
          ≡ (if inside addr (length memmap) x then get_elem? memmap (x - addr) else laws.peek m x))
