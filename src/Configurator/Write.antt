-- ===== src/Configurator/Write.antt =====
-- `write_bootparams` of the three boot configurators: src/configurator/x86_64/linux.rs and pvh.rs,
-- src/configurator/aarch64/fdt.rs.
use linux_loader.Base.{ℕ, List, length}
use linux_loader.Base.Outcome.{Action, lift, gets, ◌>>=◌, ◌>>◌, ok_or, map_err}
use linux_loader.Memory.{GuestMemory}
use linux_loader.Configurator.{
  BootParams, Error, linux, pvh, fdt, zero_page_past_ram_end, zero_page_setup, memmap_table_missing,
  memmap_table_address_missing, memmap_table_past_ram_end, memmap_table_setup,
  start_info_past_ram_end, start_info_setup, fdt_past_ram_end, write_fdt_to_memory,
}

module _ {M : Type 0} (gm : GuestMemory M) where
  -- `guest_memory.checked_offset(..).ok_or(..)?`
  abbrev pub check_offset : ℕ → ℕ → Error → Action M Error ℕ
  check_offset base n e = do m ← gets (λ m. m); lift (ok_or (gm.checked_offset m base n) e)

  -- `guest_memory.write_slice(..).map_err(..)?`
  abbrev pub write_slice : List ℕ → ℕ → Error → Action M Error (Unit {0})
  write_slice bs addr e m = let (r, m') = gm.write_slice bs addr m in (map_err (λ _. e) r, m')

  unfoldable pub linux_write_bootparams : BootParams → Action M Error (Unit {0})
  linux_write_bootparams params = do
    _ ← check_offset params.header_start (length params.header) (linux zero_page_past_ram_end)
    write_slice params.header params.header_start (linux zero_page_setup)

  unfoldable pub pvh_write_bootparams : BootParams → Action M Error (Unit {0})
  pvh_write_bootparams params = do
    memmap ← lift (ok_or params.sections (pvh memmap_table_missing))
    memmap_addr ← lift (ok_or params.sections_start (pvh memmap_table_address_missing))
    _ ← check_offset memmap_addr (length memmap) (pvh memmap_table_past_ram_end)
    write_slice memmap memmap_addr (pvh memmap_table_setup)
    _ ← check_offset params.header_start (length params.header) (pvh start_info_past_ram_end)
    write_slice params.header params.header_start (pvh start_info_setup)

  unfoldable pub fdt_write_bootparams : BootParams → Action M Error (Unit {0})
  fdt_write_bootparams params = do
    _ ← check_offset params.header_start (length params.header) (fdt fdt_past_ram_end)
    write_slice params.header params.header_start (fdt write_fdt_to_memory)
