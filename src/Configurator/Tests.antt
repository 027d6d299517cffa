-- ===== src/Configurator/Tests.antt =====
-- Runs of src/configurator, after its unit tests, and the theorems at concrete inputs.
use linux_loader.Base.{
  ℕ, ◌-◌, List, [], ◌∷◌, Option, none, some, ◌≡◌, ◌≢◌, inr, refl, arith, length, get_elem?,
  replicate, if◌then◌else◌,
}
use linux_loader.Base.Outcome.{ok, err}
use linux_loader.Base.Splice.{inside}
use linux_loader.Memory.{ByteValued}
use linux_loader.Memory.Flat.{flat, flat-IsGuestMemory}
use linux_loader.Configurator.{
  BootParams, Listing, pvh, start_info_past_ram_end, set_sections, add_boot_parameter_to_list,
}
use linux_loader.Configurator.Write.{linux_write_bootparams, pvh_write_bootparams}
use linux_loader.Configurator.Placing.{Added, add_boot_parameter_sound}
use linux_loader.Configurator.Written.{linux_write_sound, pvh_write_sound}
use linux_loader.Configurator.Order.{add_in_any_order}
use linux_loader.Configurator.Sections.{add_sections, addresses, add_sections-set_sections}

-- Two bytes.
abbrev pair_bytes : ByteValued (ℕ × ℕ)
pair_bytes = record { size_of = 2; as_slice = λ p. p.0 ∷ p.1 ∷ []; sized = λ p. refl }

abbrev memory : List ℕ
memory = replicate 12 7

abbrev params : ℕ → BootParams
params header_start = record {
  header = 1 ∷ 2 ∷ 3 ∷ [];
  header_start = header_start;
  sections = some (4 ∷ 5 ∷ []);
  sections_start = some 8;
  modules = none;
  modules_start = none;
}

abbrev listing : Listing
listing = record { bytes_acc = 1 ∷ 2 ∷ []; list_start = some 100 }

past_end_test :
    pvh_write_bootparams flat (params 9) memory
    ≡ (err (pvh start_info_past_ram_end), 7 ∷ 7 ∷ 7 ∷ 7 ∷ 7 ∷ 7 ∷ 7 ∷ 7 ∷ 4 ∷ 5 ∷ 7 ∷ 7 ∷ [])
unfolding pvh_write_bootparams
past_end_test = refl

abbrev byte : ℕ → Option ℕ
byte b = some b

-- The memory with the header at 2, and with the memory map as well.
abbrev with_header : List ℕ
with_header = 7 ∷ 7 ∷ 1 ∷ 2 ∷ 3 ∷ 7 ∷ 7 ∷ 7 ∷ 7 ∷ 7 ∷ 7 ∷ 7 ∷ []

abbrev with_memmap : List ℕ
with_memmap = 7 ∷ 7 ∷ 7 ∷ 7 ∷ 7 ∷ 7 ∷ 7 ∷ 7 ∷ 4 ∷ 5 ∷ 7 ∷ 7 ∷ []

abbrev with_both : List ℕ
with_both = 7 ∷ 7 ∷ 1 ∷ 2 ∷ 3 ∷ 7 ∷ 7 ∷ 7 ∷ 4 ∷ 5 ∷ 7 ∷ 7 ∷ []

linux_write_sound_example : (byte 7 ≢ none) × (byte 2 ≡ byte 2)
unfolding linux_write_bootparams
linux_write_sound_example =
    linux_write_sound flat flat-IsGuestMemory (params 2) memory with_header 3 refl

pvh_write_sound_example :
    (memmap : List ℕ) × (addr : ℕ) × ((params 2).sections ≡ some memmap)
    × ((params 2).sections_start ≡ some addr)
    × (byte 5 ≡ (
        if inside 2 3 9
        then get_elem? (1 ∷ 2 ∷ 3 ∷ []) (9 - 2)
        else if inside addr (length memmap) 9
        then get_elem? memmap (9 - addr)
        else byte 7))
unfolding pvh_write_bootparams
pvh_write_sound_example = pvh_write_sound flat flat-IsGuestMemory (params 2) memory with_both 9 refl

placed_run :
    add_boot_parameter_to_list pair_bytes (8, 9) (some 103) listing
    ≡ (ok 103, record { bytes_acc = 1 ∷ 2 ∷ 0 ∷ 8 ∷ 9 ∷ []; list_start = some 100 })
unfolding add_boot_parameter_to_list
placed_run = refl

add_boot_parameter_sound_example :
    Added pair_bytes
      (8, 9)
      (some 103)
      listing
      103
      (record { bytes_acc = 1 ∷ 2 ∷ 0 ∷ 8 ∷ 9 ∷ []; list_start = some 100 })
      2
add_boot_parameter_sound_example =
    add_boot_parameter_sound pair_bytes (8, 9) (some 103) listing 103
      (record { bytes_acc = 1 ∷ 2 ∷ 0 ∷ 8 ∷ 9 ∷ []; list_start = some 100 }) 2 placed_run

abbrev listed : List ℕ → Listing
listed bytes = record { bytes_acc = bytes; list_start = some 100 }

add_in_any_order_example :
    listed (1 ∷ 2 ∷ 0 ∷ 6 ∷ 7 ∷ 8 ∷ 9 ∷ []) ≡ listed (1 ∷ 2 ∷ 0 ∷ 6 ∷ 7 ∷ 8 ∷ 9 ∷ [])
unfolding add_boot_parameter_to_list
add_in_any_order_example =
    add_in_any_order pair_bytes (8, 9) (6, 7) 105 103 100 listing
      (listed (1 ∷ 2 ∷ 0 ∷ 0 ∷ 0 ∷ 8 ∷ 9 ∷ [])) (listed (1 ∷ 2 ∷ 0 ∷ 6 ∷ 7 ∷ 8 ∷ 9 ∷ []))
      (listed (1 ∷ 2 ∷ 0 ∷ 6 ∷ 7 ∷ [])) (listed (1 ∷ 2 ∷ 0 ∷ 6 ∷ 7 ∷ 8 ∷ 9 ∷ [])) refl
      (inr (omega arith)) refl refl refl refl

add_sections-set_sections_example :
    add_sections pair_bytes ((1, 2) ∷ (3, 4) ∷ []) (set_sections pair_bytes [] 100 (params 2)) ≡ (
      ok (addresses pair_bytes 100 ((1, 2) ∷ (3, 4) ∷ [])),
      set_sections pair_bytes ((1, 2) ∷ (3, 4) ∷ []) 100 (params 2),
    )
add_sections-set_sections_example =
    add_sections-set_sections pair_bytes ((1, 2) ∷ (3, 4) ∷ []) (params 2) 100 (omega arith)
      (omega arith)
