-- ===== src/Loader/CommandLine.antt =====
-- What `load_cmdline` of src/loader/mod.rs leaves in guest memory.
use linux_loader.Base.{
  ℕ, ◌+◌, ◌-◌, ◌≤◌, ◌<◌, List, ◌≡◌, refl, ap, arith, if◌then◌else◌, length, get_elem?,
}
use linux_loader.Base.Outcome.{Result, ok, err, panic, map_ok}
use linux_loader.Base.Splice.{inside}
use linux_loader.Text.{as_bytes_with_nul}
use linux_loader.Memory.{GuestMemory, IsGuestMemory}
use linux_loader.Cmdline.{Cmdline, as_cstring, to_vec}
use linux_loader.Loader.{command_line_overflow, load_cmdline}

module _ {M : Type 0} (gm : GuestMemory M) where
  pub load_cmdline-ok :
      (addr : ℕ) (cl : Cmdline) (m m' : M)
      → load_cmdline gm addr cl m ≡ (ok tt, m')
      → (bs : List ℕ) × (as_cstring cl ≡ ok bs)
        × (addr + (length (as_bytes_with_nul bs) - 1) ≤ gm.last_addr m)
        × (gm.write_slice (as_bytes_with_nul bs) addr m ≡ (ok tt, m'))
  unfolding load_cmdline
  load_cmdline-ok addr cl m m' h = by_bytes (as_cstring cl) refl
    where
      by_bytes :
          (r : Result _ (List ℕ))
          → as_cstring cl ≡ r
          → (bs : List ℕ) × (as_cstring cl ≡ ok bs)
            × (addr + (length (as_bytes_with_nul bs) - 1) ≤ gm.last_addr m)
            × (gm.write_slice (as_bytes_with_nul bs) addr m ≡ (ok tt, m'))
      by_bytes (ok bs) e = (bs, e, ground arith, ground arith)
      by_bytes (err x) e = absurd (ground arith)
      by_bytes panic e = absurd (ground arith)

-- After a successful `load_cmdline` the command line's text, with a 0 behind it, stands at the
-- address, its last byte is within the memory, and no other byte has changed.
pub load_cmdline_sound :
    {M : Type 0} (gm : GuestMemory M) (laws : IsGuestMemory gm) (addr : ℕ) (cl : Cmdline) (m m' : M)
    (x : ℕ)
    → load_cmdline gm addr cl m ≡ (ok tt, m')
    → (bs : List ℕ) × (to_vec cl ≡ ok bs)
      × (addr + (length bs - 1) ≤ gm.last_addr m)
      × (laws.peek m' x
          ≡ (if inside addr (length bs) x then get_elem? bs (x - addr) else laws.peek m x))
unfolding to_vec
load_cmdline_sound gm laws addr cl m m' x h =
    let (bs, text, fits, written) = load_cmdline-ok gm addr cl m m' h in
    (
      as_bytes_with_nul bs,
      ap (map_ok as_bytes_with_nul) text,
      fits,
      laws.peek-write m m' (as_bytes_with_nul bs) addr x written,
    )

-- A command line that does not fit below the last address is refused, and memory is as before.
pub load_cmdline_refused :
    {M : Type 0} (gm : GuestMemory M) (addr : ℕ) (cl : Cmdline) (bs : List ℕ) (m : M)
    → to_vec cl ≡ ok bs
    → gm.last_addr m < addr + (length bs - 1)
    → load_cmdline gm addr cl m ≡ (err command_line_overflow, m)
unfolding to_vec load_cmdline
load_cmdline_refused gm addr cl bs m text past = by_bytes (as_cstring cl) refl
  where
    by_bytes :
        (r : Result _ (List ℕ))
        → as_cstring cl ≡ r
        → load_cmdline gm addr cl m ≡ (err command_line_overflow, m)
    by_bytes (ok cs) e = ground arith
    by_bytes (err x) e = absurd (ground arith)
    by_bytes panic e = absurd (ground arith)
