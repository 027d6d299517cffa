-- ===== src/LoaderGen/Bootparam/InterfacePath.antt =====
-- src/loader_gen/x86_64/bootparam.rs: the members of the union `edd_device_params__bindgen_ty_1`, the field
-- `interface_path` of `edd_device_params`: each is read from the eight bytes of the union.
use linux_loader.Base.{ℕ, List, ◌≡◌, refl}
use linux_loader.LoaderGen.{field}
use linux_loader.LoaderGen.Pod.{Layout, num, ◌⊗◌, ◌&◌, El, read}
use linux_loader.LoaderGen.Pod.Struct.{Struct}

pub record InterfacePathIsa : Type 0 where
  pub base_address : ℕ
  pub reserved1 : ℕ
  pub reserved2 : ℕ

unfoldable pub interface_path_isa_of_bytes : List ℕ → InterfacePathIsa
interface_path_isa_of_bytes bs = record {
  base_address = field bs 0 2;
  reserved1 = field bs 2 2;
  reserved2 = field bs 4 4;
}

abbrev interface_path_isa_layout : Layout
interface_path_isa_layout = num 2 ⊗ num 2 ⊗ num 4

abbrev interface_path_isa_of_el : El interface_path_isa_layout → InterfacePathIsa
interface_path_isa_of_el (base_address & reserved1 & reserved2) = record {
  base_address = base_address;
  reserved1 = reserved1;
  reserved2 = reserved2;
}

abbrev interface_path_isa_to_el : InterfacePathIsa → El interface_path_isa_layout
interface_path_isa_to_el x = x.base_address & x.reserved1 & x.reserved2

pub interface_path_isa_of_bytes_lem :
    (bs : List ℕ)
    → interface_path_isa_to_el (interface_path_isa_of_bytes bs)
      ≡ read interface_path_isa_layout bs 0
unfolding interface_path_isa_of_bytes read
interface_path_isa_of_bytes_lem bs = refl

abbrev pub interface_path_isa_struct : Struct InterfacePathIsa
interface_path_isa_struct = record {
  layout = interface_path_isa_layout;
  to_el = interface_path_isa_to_el;
  of_el = interface_path_isa_of_el;
  of_bytes = interface_path_isa_of_bytes;
  of_el-to_el = λ x. refl;
  to_el-of_bytes = interface_path_isa_of_bytes_lem;
}

pub record InterfacePathPci : Type 0 where
  pub bus : ℕ
  pub slot : ℕ
  pub function : ℕ
  pub channel : ℕ
  pub reserved : ℕ

unfoldable pub interface_path_pci_of_bytes : List ℕ → InterfacePathPci
interface_path_pci_of_bytes bs = record {
  bus = field bs 0 1;
  slot = field bs 1 1;
  function = field bs 2 1;
  channel = field bs 3 1;
  reserved = field bs 4 4;
}

abbrev interface_path_pci_layout : Layout
interface_path_pci_layout = num 1 ⊗ num 1 ⊗ num 1 ⊗ num 1 ⊗ num 4

abbrev interface_path_pci_of_el : El interface_path_pci_layout → InterfacePathPci
interface_path_pci_of_el (bus & slot & function & channel & reserved) = record {
  bus = bus;
  slot = slot;
  function = function;
  channel = channel;
  reserved = reserved;
}

abbrev interface_path_pci_to_el : InterfacePathPci → El interface_path_pci_layout
interface_path_pci_to_el x = x.bus & x.slot & x.function & x.channel & x.reserved

pub interface_path_pci_of_bytes_lem :
    (bs : List ℕ)
    → interface_path_pci_to_el (interface_path_pci_of_bytes bs)
      ≡ read interface_path_pci_layout bs 0
unfolding interface_path_pci_of_bytes read
interface_path_pci_of_bytes_lem bs = refl

abbrev pub interface_path_pci_struct : Struct InterfacePathPci
interface_path_pci_struct = record {
  layout = interface_path_pci_layout;
  to_el = interface_path_pci_to_el;
  of_el = interface_path_pci_of_el;
  of_bytes = interface_path_pci_of_bytes;
  of_el-to_el = λ x. refl;
  to_el-of_bytes = interface_path_pci_of_bytes_lem;
}

pub record InterfacePathIbnd : Type 0 where
  pub reserved : ℕ

unfoldable pub interface_path_ibnd_of_bytes : List ℕ → InterfacePathIbnd
interface_path_ibnd_of_bytes bs = record { reserved = field bs 0 8 }

abbrev interface_path_ibnd_layout : Layout
interface_path_ibnd_layout = num 8

abbrev interface_path_ibnd_of_el : El interface_path_ibnd_layout → InterfacePathIbnd
interface_path_ibnd_of_el (reserved) = record { reserved = reserved }

abbrev interface_path_ibnd_to_el : InterfacePathIbnd → El interface_path_ibnd_layout
interface_path_ibnd_to_el x = x.reserved

pub interface_path_ibnd_of_bytes_lem :
    (bs : List ℕ)
    → interface_path_ibnd_to_el (interface_path_ibnd_of_bytes bs)
      ≡ read interface_path_ibnd_layout bs 0
unfolding interface_path_ibnd_of_bytes read
interface_path_ibnd_of_bytes_lem bs = refl

abbrev pub interface_path_ibnd_struct : Struct InterfacePathIbnd
interface_path_ibnd_struct = record {
  layout = interface_path_ibnd_layout;
  to_el = interface_path_ibnd_to_el;
  of_el = interface_path_ibnd_of_el;
  of_bytes = interface_path_ibnd_of_bytes;
  of_el-to_el = λ x. refl;
  to_el-of_bytes = interface_path_ibnd_of_bytes_lem;
}

pub record InterfacePathXprs : Type 0 where
  pub reserved : ℕ

unfoldable pub interface_path_xprs_of_bytes : List ℕ → InterfacePathXprs
interface_path_xprs_of_bytes bs = record { reserved = field bs 0 8 }

abbrev interface_path_xprs_layout : Layout
interface_path_xprs_layout = num 8

abbrev interface_path_xprs_of_el : El interface_path_xprs_layout → InterfacePathXprs
interface_path_xprs_of_el (reserved) = record { reserved = reserved }

abbrev interface_path_xprs_to_el : InterfacePathXprs → El interface_path_xprs_layout
interface_path_xprs_to_el x = x.reserved

pub interface_path_xprs_of_bytes_lem :
    (bs : List ℕ)
    → interface_path_xprs_to_el (interface_path_xprs_of_bytes bs)
      ≡ read interface_path_xprs_layout bs 0
unfolding interface_path_xprs_of_bytes read
interface_path_xprs_of_bytes_lem bs = refl

abbrev pub interface_path_xprs_struct : Struct InterfacePathXprs
interface_path_xprs_struct = record {
  layout = interface_path_xprs_layout;
  to_el = interface_path_xprs_to_el;
  of_el = interface_path_xprs_of_el;
  of_bytes = interface_path_xprs_of_bytes;
  of_el-to_el = λ x. refl;
  to_el-of_bytes = interface_path_xprs_of_bytes_lem;
}

pub record InterfacePathHtpt : Type 0 where
  pub reserved : ℕ

unfoldable pub interface_path_htpt_of_bytes : List ℕ → InterfacePathHtpt
interface_path_htpt_of_bytes bs = record { reserved = field bs 0 8 }

abbrev interface_path_htpt_layout : Layout
interface_path_htpt_layout = num 8

abbrev interface_path_htpt_of_el : El interface_path_htpt_layout → InterfacePathHtpt
interface_path_htpt_of_el (reserved) = record { reserved = reserved }

abbrev interface_path_htpt_to_el : InterfacePathHtpt → El interface_path_htpt_layout
interface_path_htpt_to_el x = x.reserved

pub interface_path_htpt_of_bytes_lem :
    (bs : List ℕ)
    → interface_path_htpt_to_el (interface_path_htpt_of_bytes bs)
      ≡ read interface_path_htpt_layout bs 0
unfolding interface_path_htpt_of_bytes read
interface_path_htpt_of_bytes_lem bs = refl

abbrev pub interface_path_htpt_struct : Struct InterfacePathHtpt
interface_path_htpt_struct = record {
  layout = interface_path_htpt_layout;
  to_el = interface_path_htpt_to_el;
  of_el = interface_path_htpt_of_el;
  of_bytes = interface_path_htpt_of_bytes;
  of_el-to_el = λ x. refl;
  to_el-of_bytes = interface_path_htpt_of_bytes_lem;
}

pub record InterfacePathUnknown : Type 0 where
  pub reserved : ℕ

unfoldable pub interface_path_unknown_of_bytes : List ℕ → InterfacePathUnknown
interface_path_unknown_of_bytes bs = record { reserved = field bs 0 8 }

abbrev interface_path_unknown_layout : Layout
interface_path_unknown_layout = num 8

abbrev interface_path_unknown_of_el : El interface_path_unknown_layout → InterfacePathUnknown
interface_path_unknown_of_el (reserved) = record { reserved = reserved }

abbrev interface_path_unknown_to_el : InterfacePathUnknown → El interface_path_unknown_layout
interface_path_unknown_to_el x = x.reserved

pub interface_path_unknown_of_bytes_lem :
    (bs : List ℕ)
    → interface_path_unknown_to_el (interface_path_unknown_of_bytes bs)
      ≡ read interface_path_unknown_layout bs 0
unfolding interface_path_unknown_of_bytes read
interface_path_unknown_of_bytes_lem bs = refl

abbrev pub interface_path_unknown_struct : Struct InterfacePathUnknown
interface_path_unknown_struct = record {
  layout = interface_path_unknown_layout;
  to_el = interface_path_unknown_to_el;
  of_el = interface_path_unknown_of_el;
  of_bytes = interface_path_unknown_of_bytes;
  of_el-to_el = λ x. refl;
  to_el-of_bytes = interface_path_unknown_of_bytes_lem;
}
