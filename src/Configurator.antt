-- ===== src/Configurator.antt =====
-- src/configurator/mod.rs: the boot parameters and the errors of their configuration.
pub mod Write
pub mod Placing
pub mod Written
pub mod Partial
pub mod Sections
pub mod Order
pub mod Guest
pub mod GuestTests
pub mod ZeroPage
pub mod Display
pub mod Tests
use linux_loader.Base.{
  ℕ, ◌+◌, ◌-◌, ◌^◌, ◌≤◌, List, [], ◌∷◌, ◌++◌, Option, none, some, leb, ltb, if◌then◌else◌, length,
  take, drop, replicate, max,
}
use linux_loader.Base.Outcome.{
  Result, ok, err, panic, Action, pure, lift, gets, modify, ◌>>=◌, ◌>>◌, ok_or,
}
use linux_loader.Base.Word.{checked_add, checked_sub, add_word}
use linux_loader.Memory.{ByteValued}
use linux_loader.Text.{Str, codes}
use mathlib.Core.List.{flat_map}

-- The errors of src/configurator/x86_64/linux.rs, pvh.rs and aarch64/fdt.rs.
pub data LinuxError : Type 0 where
  zero_page_past_ram_end zero_page_setup : LinuxError

pub data PvhError : Type 0 where
  memmap_table_address_missing memmap_table_missing memmap_table_past_ram_end : PvhError
  memmap_table_setup start_info_past_ram_end start_info_setup : PvhError

pub data FdtError : Type 0 where
  fdt_past_ram_end write_fdt_to_memory : FdtError

pub data Error : Type 0 where
  linux : LinuxError → Error
  pvh : PvhError → Error
  fdt : FdtError → Error
  missing_start_address overflow invalid_address : Error

pub record BootParams : Type 0 where
  pub header : List ℕ
  pub header_start : ℕ
  pub sections : Option (List ℕ)
  pub sections_start : Option ℕ
  pub modules : Option (List ℕ)
  pub modules_start : Option ℕ

-- The variables behind the two `&mut` of `add_boot_parameter_to_list`.
pub record Listing : Type 0 where
  pub bytes_acc : List ℕ
  pub list_start : Option ℕ

-- The bytes that a `Vec<u8>` can hold: `isize::MAX`.
abbrev pub isize_max : ℕ
isize_max = 2 ^ 63 - 1

-- The list that `Vec::resize` makes at a length that is not shorter, with zeros.
abbrev pub resize : List ℕ → ℕ → List ℕ
resize xs n = xs ++ replicate (n - length xs) 0

-- `Vec::resize`: beyond the greatest size of a vector it panics.
abbrev pub try_resize : List ℕ → ℕ → Option (List ℕ)
try_resize xs n = if ltb isize_max n then none else some (resize xs n)

-- `Vec::splice` of a range: out of range it panics.
abbrev pub splice : List ℕ → ℕ → ℕ → List ℕ → Option (List ℕ)
splice xs from to new =
    if leb from to
    then (if leb to (length xs) then some (take from xs ++ (new ++ drop to xs)) else none)
    else none

abbrev pub or_panic {ℓ κ} : {E : Type κ} {A : Type ℓ} → Option A → Result E A
or_panic none = panic
or_panic (some a) = ok a

-- `unwrap_or`, whose argument is computed before the call.
abbrev pub unwrap_or {ℓ} : {A : Type ℓ} → Option A → A → A
unwrap_or none a = a
unwrap_or (some b) a = b

module _ {T : Type 0} (bv : ByteValued T) where
  unfoldable pub new : T → ℕ → BootParams
  new header header_addr = record {
    header = bv.as_slice header;
    header_start = header_addr;
    sections = none;
    sections_start = none;
    modules = none;
    modules_start = none;
  }

  unfoldable pub set_sections : List T → ℕ → BootParams → BootParams
  set_sections sections sections_addr params = record params {
    sections = some (flat_map bv.as_slice sections);
    sections_start = some sections_addr;
  }

  unfoldable pub set_modules : List T → ℕ → BootParams → BootParams
  set_modules modules modules_addr params = record params {
    modules = some (flat_map bv.as_slice modules);
    modules_start = some modules_addr;
  }

  unfoldable pub add_boot_parameter_to_list : T → Option ℕ → Action Listing Error ℕ
  add_boot_parameter_to_list elem elem_start_opt = do
    modify (λ l. record l {
      list_start = elim l.list_start [ none ↦ elem_start_opt | some a ↦ some a ];
    })
    l ← gets (λ l. l)
    list_start ← lift (ok_or l.list_start missing_start_address)
    behind ← lift (ok_or (checked_add list_start (length l.bytes_acc)) overflow)
    let elem_start = unwrap_or elem_start_opt behind
    elem_off ← lift (ok_or (checked_sub elem_start list_start) invalid_address)
    elem_end ← lift (add_word elem_off bv.size_of)
    resized ← lift (or_panic (try_resize l.bytes_acc (max elem_end (length l.bytes_acc))))
    modify (λ l. record l { bytes_acc = resized })
    l' ← gets (λ l. l)
    spliced ← lift (or_panic (splice l'.bytes_acc elem_off elem_end (bv.as_slice elem)))
    modify (λ l. record l { bytes_acc = spliced })
    pure elem_start

  -- `self.sections.get_or_insert(vec![])`: the list is there from then on, also after an error.
  unfoldable pub add_section : T → Option ℕ → Action BootParams Error ℕ
  add_section section section_addr params =
      let (r, l) =
        add_boot_parameter_to_list section section_addr (record {
          bytes_acc = unwrap_or params.sections [];
          list_start = params.sections_start;
        }) in
      (r, record params { sections = some l.bytes_acc; sections_start = l.list_start })

  unfoldable pub add_module : T → Option ℕ → Action BootParams Error ℕ
  add_module module_elem module_addr params =
      let (r, l) =
        add_boot_parameter_to_list module_elem module_addr
          (record { bytes_acc = unwrap_or params.modules []; list_start = params.modules_start }) in
      (r, record params { modules = some l.bytes_acc; modules_start = l.list_start })
