-- ===== src/Configurator/Written.antt =====
-- What the boot configurators of src/configurator leave in guest memory.
use linux_loader.Base.{
  ℕ, ◌+◌, ◌-◌, List, none, some, ◌≡◌, ◌≢◌, inl, inr, ◌∙◌, arith, if◌then◌else◌, length, get_elem?,
  Option-cases,
}
use linux_loader.Base.Outcome.{ok, Action, ◌>>=◌}
use linux_loader.Base.Splice.{inside}
use mathlib.Core.Path.{subst}
use linux_loader.Memory.{GuestMemory, IsGuestMemory}
use linux_loader.Configurator.{
  BootParams, Error, pvh, memmap_table_past_ram_end, memmap_table_setup, start_info_setup,
  start_info_past_ram_end,
}
use linux_loader.Configurator.Write.{
  check_offset, write_slice, linux_write_bootparams, pvh_write_bootparams, fdt_write_bootparams,
}

module _ {M : Type 0} (gm : GuestMemory M) where
  -- The two calls that all the configurators make for a range of bytes.
  abbrev pub put : List ℕ → ℕ → Error → Error → Action M Error (Unit {0})
  put bs addr past setup = do
    _ ← check_offset gm addr (length bs) past
    write_slice gm bs addr setup

  put-ok :
      (bs : List ℕ) (addr : ℕ) (past setup : Error) (m m' : M)
      → put bs addr past setup m ≡ (ok tt, m')
      → (b : ℕ) × (gm.checked_offset m addr (length bs) ≡ some b)
        × (gm.write_slice bs addr m ≡ (ok tt, m'))
  put-ok bs addr past setup m m' h = ground arith

module _ {M : Type 0} (gm : GuestMemory M) (laws : IsGuestMemory gm) where
  pub put_sound :
      (bs : List ℕ) (addr : ℕ) (past setup : Error) (m m' : M) (x : ℕ)
      → put gm bs addr past setup m ≡ (ok tt, m')
      → (laws.peek m (addr + length bs) ≢ none)
        × (laws.peek m' x
            ≡ (if inside addr (length bs) x then get_elem? bs (x - addr) else laws.peek m x))
  put_sound bs addr past setup m m' x h =
      let (b, checked, written) = put-ok gm bs addr past setup m m' h in
      let (sum, there) = laws.offset_sum m addr (length bs) checked in
      (subst (λ a. laws.peek m a ≢ none) sum there, laws.peek-write m m' bs addr x written)

  -- After a successful configuration for the Linux boot protocol the header stands at its address, there
  -- was memory at the address one past its end, and no other byte has changed.
  pub linux_write_sound :
      (params : BootParams) (m m' : M) (x : ℕ)
      → linux_write_bootparams gm params m ≡ (ok tt, m')
      → (laws.peek m (params.header_start + length params.header) ≢ none)
        × (laws.peek m' x ≡ (
            if inside params.header_start (length params.header) x
            then get_elem? params.header (x - params.header_start)
            else laws.peek m x))
  unfolding linux_write_bootparams
  linux_write_sound params m m' x h = put_sound params.header params.header_start _ _ m m' x h

  -- After a successful configuration with a device tree the tree stands at its address, there was
  -- memory at the address one past its end, and no other byte has changed.
  pub fdt_write_sound :
      (params : BootParams) (m m' : M) (x : ℕ)
      → fdt_write_bootparams gm params m ≡ (ok tt, m')
      → (laws.peek m (params.header_start + length params.header) ≢ none)
        × (laws.peek m' x ≡ (
            if inside params.header_start (length params.header) x
            then get_elem? params.header (x - params.header_start)
            else laws.peek m x))
  unfolding fdt_write_bootparams
  fdt_write_sound params m m' x h = put_sound params.header params.header_start _ _ m m' x h

  pvh-ok :
      (params : BootParams) (m m' : M)
      → pvh_write_bootparams gm params m ≡ (ok tt, m')
      → (memmap : List ℕ) × (addr : ℕ) × (m₁ : M) × (params.sections ≡ some memmap)
        × (params.sections_start ≡ some addr)
        × (put gm memmap addr (pvh memmap_table_past_ram_end) (pvh memmap_table_setup) m
            ≡ (ok tt, m₁))
        × (put gm params.header params.header_start
              (pvh start_info_past_ram_end)
              (pvh start_info_setup)
              m₁
            ≡ (ok tt, m'))
  unfolding pvh_write_bootparams
  pvh-ok params m m' h = elim (Option-cases params.sections) [
    | inl e ↦ absurd (ground arith)
    | inr (memmap, e) ↦ elim (Option-cases params.sections_start) [
      | inl f ↦ absurd (ground arith)
      | inr (addr, f) ↦
          let first =
            put gm memmap addr (pvh memmap_table_past_ram_end) (pvh memmap_table_setup) m in
          (memmap, addr, first.1, e, f, ground arith, ground arith)
    ]
  ]

  -- After a successful configuration for PVH the start info stands at its address, the memory map at
  -- its own, except where the start info covers it, and no other byte has changed.
  pub pvh_write_sound :
      (params : BootParams) (m m' : M) (x : ℕ)
      → pvh_write_bootparams gm params m ≡ (ok tt, m')
      → (memmap : List ℕ) × (addr : ℕ) × (params.sections ≡ some memmap)
        × (params.sections_start ≡ some addr)
        × (laws.peek m' x ≡ (
            if inside params.header_start (length params.header) x
            then get_elem? params.header (x - params.header_start)
            else if inside addr (length memmap) x
            then get_elem? memmap (x - addr)
            else laws.peek m x))
  pvh_write_sound params m m' x h =
      let (memmap, addr, m₁, a, b, first, second) = pvh-ok params m m' h in
      let (_, p) = put_sound memmap addr _ _ m m₁ x first in
      let (_, q) = put_sound params.header params.header_start _ _ m₁ m' x second in
      (memmap, addr, a, b, q ∙ rw p)
