-- ===== src/LoaderGen/StartInfo.antt =====
-- src/loader_gen/x86_64/start_info.rs: the structures that a guest is booted with over PVH.
use linux_loader.Base.{ℕ, List, [], ◌∷◌, ◌≡◌, refl, get_elem?, some}
use linux_loader.LoaderGen.{field}
use linux_loader.LoaderGen.Layout.{encode, AllFit, field-encode, length-encode}
use linux_loader.Memory.{ByteValued}

pub record HvmStartInfo : Type 0 where
  pub magic : ℕ
  pub version : ℕ
  pub flags : ℕ
  pub nr_modules : ℕ
  pub modlist_paddr : ℕ
  pub cmdline_paddr : ℕ
  pub rsdp_paddr : ℕ
  pub memmap_paddr : ℕ
  pub memmap_entries : ℕ
  pub reserved : ℕ

pub record HvmModlistEntry : Type 0 where
  pub paddr : ℕ
  pub size : ℕ
  pub cmdline_paddr : ℕ
  pub reserved : ℕ

pub record HvmMemmapTableEntry : Type 0 where
  pub addr : ℕ
  pub size : ℕ
  pub type_ : ℕ
  pub reserved : ℕ

-- The fields with their widths in bytes.
abbrev pub start_info_fields : HvmStartInfo → List (ℕ × ℕ)
start_info_fields h =
    (4, h.magic)
    ∷ (4, h.version)
    ∷ (4, h.flags)
    ∷ (4, h.nr_modules)
    ∷ (8, h.modlist_paddr)
    ∷ (8, h.cmdline_paddr)
    ∷ (8, h.rsdp_paddr)
    ∷ (8, h.memmap_paddr)
    ∷ (4, h.memmap_entries)
    ∷ (4, h.reserved)
    ∷ []

abbrev pub modlist_entry_fields : HvmModlistEntry → List (ℕ × ℕ)
modlist_entry_fields e = (8, e.paddr) ∷ (8, e.size) ∷ (8, e.cmdline_paddr) ∷ (8, e.reserved) ∷ []

abbrev pub memmap_entry_fields : HvmMemmapTableEntry → List (ℕ × ℕ)
memmap_entry_fields e = (8, e.addr) ∷ (8, e.size) ∷ (4, e.type_) ∷ (4, e.reserved) ∷ []

-- `ByteValued` of the three structures.
abbrev pub start_info_bytes : ByteValued HvmStartInfo
start_info_bytes = record {
  size_of = 56;
  as_slice = λ h. encode (start_info_fields h);
  sized = λ h. length-encode (start_info_fields h);
}

abbrev pub modlist_entry_bytes : ByteValued HvmModlistEntry
modlist_entry_bytes = record {
  size_of = 32;
  as_slice = λ e. encode (modlist_entry_fields e);
  sized = λ e. length-encode (modlist_entry_fields e);
}

abbrev pub memmap_entry_bytes : ByteValued HvmMemmapTableEntry
memmap_entry_bytes = record {
  size_of = 24;
  as_slice = λ e. encode (memmap_entry_fields e);
  sized = λ e. length-encode (memmap_entry_fields e);
}

-- What a guest reads: the fields at the offsets of the layout tests.
unfoldable pub start_info_of_bytes : List ℕ → HvmStartInfo
start_info_of_bytes bs = record {
  magic = field bs 0 4;
  version = field bs 4 4;
  flags = field bs 8 4;
  nr_modules = field bs 12 4;
  modlist_paddr = field bs 16 8;
  cmdline_paddr = field bs 24 8;
  rsdp_paddr = field bs 32 8;
  memmap_paddr = field bs 40 8;
  memmap_entries = field bs 48 4;
  reserved = field bs 52 4;
}

unfoldable pub modlist_entry_of_bytes : List ℕ → HvmModlistEntry
modlist_entry_of_bytes bs = record {
  paddr = field bs 0 8;
  size = field bs 8 8;
  cmdline_paddr = field bs 16 8;
  reserved = field bs 24 8;
}

unfoldable pub memmap_entry_of_bytes : List ℕ → HvmMemmapTableEntry
memmap_entry_of_bytes bs = record {
  addr = field bs 0 8;
  size = field bs 8 8;
  type_ = field bs 16 4;
  reserved = field bs 20 4;
}

-- A start info whose values have the widths of their fields comes back from its bytes.
pub start_info_of_bytes-as_slice :
    (h : HvmStartInfo)
    → AllFit (start_info_fields h)
    → start_info_of_bytes (start_info_bytes.as_slice h) ≡ h
unfolding start_info_of_bytes
start_info_of_bytes-as_slice h fit =
    let at = λ (j w n : ℕ) (e : get_elem? (start_info_fields h) j ≡ some (w, n)).
      field-encode (start_info_fields h) j w n e fit in
    λ i. record {
      magic = at 0 4 h.magic refl i;
      version = at 1 4 h.version refl i;
      flags = at 2 4 h.flags refl i;
      nr_modules = at 3 4 h.nr_modules refl i;
      modlist_paddr = at 4 8 h.modlist_paddr refl i;
      cmdline_paddr = at 5 8 h.cmdline_paddr refl i;
      rsdp_paddr = at 6 8 h.rsdp_paddr refl i;
      memmap_paddr = at 7 8 h.memmap_paddr refl i;
      memmap_entries = at 8 4 h.memmap_entries refl i;
      reserved = at 9 4 h.reserved refl i;
    }

-- A module list entry whose values have the widths of their fields comes back from its bytes.
pub modlist_entry_of_bytes-as_slice :
    (e : HvmModlistEntry)
    → AllFit (modlist_entry_fields e)
    → modlist_entry_of_bytes (modlist_entry_bytes.as_slice e) ≡ e
unfolding modlist_entry_of_bytes
modlist_entry_of_bytes-as_slice e fit =
    let at = λ (j n : ℕ) (p : get_elem? (modlist_entry_fields e) j ≡ some (8, n)).
      field-encode (modlist_entry_fields e) j 8 n p fit in
    λ i. record {
      paddr = at 0 e.paddr refl i;
      size = at 1 e.size refl i;
      cmdline_paddr = at 2 e.cmdline_paddr refl i;
      reserved = at 3 e.reserved refl i;
    }

-- A memory map entry whose values have the widths of their fields comes back from its bytes.
pub memmap_entry_of_bytes-as_slice :
    (e : HvmMemmapTableEntry)
    → AllFit (memmap_entry_fields e)
    → memmap_entry_of_bytes (memmap_entry_bytes.as_slice e) ≡ e
unfolding memmap_entry_of_bytes
memmap_entry_of_bytes-as_slice e fit =
    let at = λ (j w n : ℕ) (p : get_elem? (memmap_entry_fields e) j ≡ some (w, n)).
      field-encode (memmap_entry_fields e) j w n p fit in
    λ i. record {
      addr = at 0 8 e.addr refl i;
      size = at 1 8 e.size refl i;
      type_ = at 2 4 e.type_ refl i;
      reserved = at 3 4 e.reserved refl i;
    }
