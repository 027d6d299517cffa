-- ===== src/Configurator/ZeroPage.antt =====
-- What a guest that is booted over the Linux boot protocol reads: src/configurator/mod.rs and
-- x86_64/linux.rs together with `boot_params` of src/loader_gen/x86_64/bootparam.rs.
use linux_loader.Base.{ℕ, ◌+◌, ◌≤◌, ◌<◌, some, ◌≡◌, ◌⊎◌, sym, ap, ◌∙◌, false, length}
use linux_loader.Base.Outcome.{ok}
use linux_loader.Base.Splice.{inside, not_inside}
use linux_loader.Memory.{GuestMemory, IsGuestMemory}
use linux_loader.Memory.ReadBack.{read_back, read_back-placed, in_range}
use linux_loader.LoaderGen.Pod.Struct.{IsValid, as_slice, of_bytes-as_slice_all}
use linux_loader.LoaderGen.Bootparam.BootParams.{BootParams, boot_params_of_bytes}
use linux_loader.LoaderGen.Bootparam.BootParamsLayout.{boot_params_struct}
use linux_loader.LoaderGen.Bootparam.Values.{boot_params_bytes}
use linux_loader.Configurator.{new}
use linux_loader.Configurator.Write.{linux_write_bootparams}
use linux_loader.Configurator.Written.{linux_write_sound}
use mathlib.Core.Option.{map}

module _ {M : Type 0} (gm : GuestMemory M) (laws : IsGuestMemory gm) where
  -- What the guest reads is the page that the client has given. A `boot_params`, of values that have
  -- the widths of their fields, is made boot parameters by `new` and written at an address. If this
  -- succeeds, then the 4096 bytes there spell it again, and the byte at every address outside of the
  -- page is as before.
  pub linux_guest_reads :
      (page : BootParams) (addr x : ℕ) (m m' : M)
      → IsValid boot_params_struct page
      → linux_write_bootparams gm (new boot_params_bytes page addr) m ≡ (ok tt, m')
      → (map boot_params_of_bytes (read_back (laws.peek m') addr 4096) ≡ some page)
        × ((x < addr) ⊎ (addr + 4096 ≤ x) → laws.peek m' x ≡ laws.peek m x)
  unfolding new
  linux_guest_reads page addr x m m' valid h =
      let bs = as_slice boot_params_struct page in
      let size : length bs ≡ 4096 = boot_params_bytes.sized page in
      let written =
        λ (y : ℕ). (linux_write_sound gm laws (new boot_params_bytes page addr) m m' y h).1 in
      let header : read_back (laws.peek m') addr (length bs) ≡ some bs =
        read_back-placed (laws.peek m') addr bs
          λ i lt. written (addr + i) ∙ in_range addr bs i _ lt in
      (
        ap (λ n. map boot_params_of_bytes (read_back (laws.peek m') addr n)) (sym size)
            ∙ ap (map boot_params_of_bytes) header
            ∙ ap some (of_bytes-as_slice_all boot_params_struct page valid),
        λ apart.
            let out : inside addr (length bs) x ≡ false =
              ap (λ n. inside addr n x) size ∙ not_inside addr 4096 x apart in
            written x ∙ rw out,
      )
