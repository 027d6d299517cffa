-- ===== src/Loader/Tests/ZeroPage.antt =====
-- A bzImage and its zero page, of src/loader/x86_64/bzimage/mod.rs and src/configurator, at a small
-- image.
use linux_loader.Base.{
  ℕ, ◌+◌, ◌%◌, ◌^◌, ◌≤◌, ◌<◌, ◌⊎◌, List, ◌++◌, none, some, ◌≡◌, inl, refl, arith, get_elem?,
  replicate,
}
use linux_loader.Memory.Flat.{flat, flat-IsGuestMemory}
use linux_loader.Memory.ReadBack.{read_back}
use linux_loader.Reader.{Machine}
use linux_loader.Reader.Cursor.{
  Cursor, cursor, flat_transfer, cursor-IsImage, flat-IsTransfer, flat-IsFill, flat-IsWholeFill,
}
use linux_loader.LoaderGen.Pod.{fits, to_bytes}
use linux_loader.LoaderGen.Bootparam.{SetupHeader, setup_header_of_bytes}
use linux_loader.LoaderGen.Bootparam.BootParams.{BootParams, boot_params_of_bytes}
use linux_loader.LoaderGen.Bootparam.Values.{boot_params_bytes, boot_params_default}
use linux_loader.Configurator.{new}
use linux_loader.Configurator.Write.{linux_write_bootparams}
use linux_loader.Configurator.ZeroPage.{linux_guest_reads}
use linux_loader.Loader.Bzimage.{load_bzimage}
use linux_loader.Loader.Bzimage.Guest.{
  setup_header_in, header_found, kernel_in, bzimage_guest_boots,
}
use linux_loader.Loader.Tests.{machine, bz_header, bz_image, bz_loaded}
use mathlib.Core.Option.{map}

abbrev start : Machine Cursor (List ℕ)
start = machine bz_image 4200

abbrev header : SetupHeader
header = record (setup_header_of_bytes (bz_header ++ replicate 85 0)) { code32_start = 4 }

abbrev page : BootParams
page = record boot_params_default { hdr = header; e820_entries = 1 }

abbrev loaded : Machine Cursor (List ℕ)
loaded = (load_bzimage cursor flat_transfer (some 4) none start).1

abbrev written : List ℕ
written = (linux_write_bootparams flat (new boot_params_bytes page 16) loaded.memory).1

-- Opens what the run computes with.
opened : ℕ
unfolding machine fits to_bytes new linux_write_bootparams boot_params_of_bytes boot_params_default
opened = 0

linux_guest_reads_example :
    (map boot_params_of_bytes (read_back (get_elem? written) 16 4096) ≡ some page)
    × ((4 < 16) ⊎ (16 + 4096 ≤ 4) → get_elem? written 4 ≡ get_elem? loaded.memory 4)
unfolding opened
linux_guest_reads_example =
    linux_guest_reads flat flat-IsGuestMemory page 16 4 loaded.memory written refl refl

bzimage_guest_boots_example :
    (header_found (read_back (get_elem? written) 16 4096)
      ≡ some (record (setup_header_in bz_image) { code32_start = 4 % 2 ^ 32 }))
    × (read_back (get_elem? written) 4 3 ≡ some (kernel_in bz_image header))
unfolding opened
bzimage_guest_boots_example =
    bzimage_guest_boots flat-IsGuestMemory cursor-IsImage flat-IsTransfer flat-IsFill (some 4) none
      start loaded bz_loaded header refl refl flat-IsWholeFill page 16 written refl refl refl
      (inl (omega arith))
