-- ===== src/Loader/Display.antt =====
-- The text of a boot capability, in src/loader/x86_64/elf/mod.rs, and `source` of the loaders' error in
-- src/loader/mod.rs. An inner error, `dyn Error`, is known by its text.
use linux_loader.Base.{◌++◌, Option, none, some}
use linux_loader.Text.{Str, codes}
use linux_loader.Text.Number.{hexadecimal}
use linux_loader.Loader.Errors
use linux_loader.Loader.{
  PvhBootCapability, pvh_entry_present, pvh_entry_not_present, pvh_entry_ignored, Error, bzimage,
  elf, pe,
}

-- `{:#x}` is the hexadecimal number behind "0x".
unfoldable pub capability_display : PvhBootCapability → Str
capability_display (pvh_entry_present pvh_entry_addr) =
    codes "PVH entry point present at guest address: 0x" ++ hexadecimal pvh_entry_addr
capability_display pvh_entry_not_present = codes "PVH entry point not present"
capability_display pvh_entry_ignored = codes "PVH entry point ignored"

unfoldable pub loader_source : Error → Option Str
loader_source (bzimage e) = some (Errors.Bzimage.display e)
loader_source (elf e) = some (Errors.Elf.display e)
loader_source (pe e) = some (Errors.Pe.display e)
loader_source _ = none
