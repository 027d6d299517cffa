-- ===== src/Loader/CommandLineGuest.antt =====
-- The builder of src/cmdline/mod.rs and `load_cmdline` of src/loader/mod.rs together: the command line
-- that a guest reads.
use linux_loader.Base.{
  ℕ, ◌+◌, ◌≤◌, List, [], ◌∷◌, some, ◌≡◌, inl, inr, sym, ap, ◌∙◌, arith, map, length, Option-cases,
}
use linux_loader.Base.Word.{IsU64}
use linux_loader.Base.Outcome.{ok}
use linux_loader.Text.{Str, codes, len, bytes, trim, join, cstring, as_bytes_with_nul}
use linux_loader.Text.Laws.{length-with_nul}
use linux_loader.Memory.{GuestMemory, IsGuestMemory}
use linux_loader.Memory.ReadBack.{read_back, read_back-placed, in_range}
use linux_loader.Cmdline.{Cmdline, new, as_cstring}
use linux_loader.Cmdline.Sequence.{insert_all, AreArguments, insert_all-new}
use linux_loader.Loader.{load_cmdline}
use linux_loader.Loader.CommandLine.{load_cmdline-ok}

cstring-bytes : (s : Str) (bs : List ℕ) → cstring s ≡ some bs → bs ≡ bytes s
unfolding cstring
cstring-bytes s bs h = ground arith

as_cstring-boot :
    (boot : Str) (capacity : ℕ) (bs : List ℕ)
    → as_cstring (record { boot_args = boot; init_args = []; capacity = capacity }) ≡ ok bs
    → bs ≡ bytes boot
unfolding as_cstring
as_cstring-boot [] capacity bs h = cstring-bytes [] bs (ground arith)
as_cstring-boot (c ∷ boot) capacity bs h = elim (Option-cases (cstring (c ∷ boot))) [
  | inl e ↦ absurd (ground arith)
  | inr (cs, e) ↦ (let same : cs ≡ bs = ground arith in sym same ∙ cstring-bytes (c ∷ boot) cs e)
]

module _ {M : Type 0} (gm : GuestMemory M) (laws : IsGuestMemory gm) where
  bytes_read :
      (bs : List ℕ) (addr : ℕ) (m m' : M)
      → gm.write_slice bs addr m ≡ (ok tt, m')
      → read_back (laws.peek m') addr (length bs) ≡ some bs
  bytes_read bs addr m m' h =
      read_back-placed (laws.peek m') addr bs
        λ i lt. laws.peek-write m m' bs addr (addr + i) h ∙ in_range addr bs i _ lt

  -- A guest reads the arguments that were inserted. They are inserted one after the other into a new
  -- builder, printable, not empty when trimmed, and within the capacity together; then `load_cmdline`
  -- succeeds at an address. The bytes there are the trimmed arguments with a space between each two
  -- of them, and a NUL behind them.
  pub load_cmdline-insert_all :
      (slugs : List Str) (capacity addr : ℕ) (cl : Cmdline) (m m' : M)
      → new capacity ≡ ok cl
      → IsU64 capacity
      → AreArguments slugs
      → len (join (map trim slugs) (codes " ")) + 1 ≤ capacity
      → load_cmdline gm addr (insert_all slugs cl).1 m ≡ (ok tt, m')
      → read_back (laws.peek m') addr (len (join (map trim slugs) (codes " ")) + 1)
        ≡ some (as_bytes_with_nul (bytes (join (map trim slugs) (codes " "))))
  load_cmdline-insert_all slugs capacity addr cl m m' made word args fits h =
      let text = join (map trim slugs) (codes " ") in
      let built = ap (λ p. p.1) (insert_all-new slugs capacity cl made word args fits) in
      let (bs, rendered, _, written) =
        load_cmdline-ok gm addr (record { boot_args = text; init_args = []; capacity = capacity }) m
          m' (ap (λ c. load_cmdline gm addr c m) (sym built) ∙ h) in
      let whole : as_bytes_with_nul bs ≡ as_bytes_with_nul (bytes text) =
        ap as_bytes_with_nul (as_cstring-boot text capacity bs rendered) in
      ap (read_back (laws.peek m') addr) (sym (length-with_nul text))
      ∙ bytes_read (as_bytes_with_nul (bytes text)) addr m m'
          (ap (λ b. gm.write_slice b addr m) (sym whole) ∙ written)
