-- ===== src/Configurator/Guest.antt =====
-- What a guest that is booted over PVH reads: src/configurator/mod.rs and x86_64/pvh.rs together with
-- the structures of src/loader_gen/x86_64/start_info.rs.
use linux_loader.Base.{
  ℕ, zero, suc, ◌+◌, ◌-◌, ◌*◌, ◌≤◌, false, List, [], ◌∷◌, ◌++◌, some, ◌≡◌, ◌⊎◌, inl, inr, refl, sym,
  ap, ◌∙◌, arith, if◌then◌else◌, length, take, drop, get_elem?, length-append, take-length-append,
  drop-length-append,
}
use linux_loader.Base.Outcome.{ok}
use linux_loader.Base.Splice.{inside, not_inside}
use linux_loader.Memory.{GuestMemory, IsGuestMemory}
use linux_loader.Memory.ReadBack.{read_back, read_back-placed, in_range}
use linux_loader.LoaderGen.Layout.{AllFit}
use linux_loader.LoaderGen.StartInfo.{
  HvmStartInfo, HvmMemmapTableEntry, start_info_fields, memmap_entry_fields, start_info_bytes,
  memmap_entry_bytes, start_info_of_bytes, memmap_entry_of_bytes, start_info_of_bytes-as_slice,
  memmap_entry_of_bytes-as_slice,
}
use linux_loader.Configurator.{BootParams, new, set_sections}
use linux_loader.Configurator.Write.{pvh_write_bootparams}
use linux_loader.Configurator.Written.{pvh_write_sound}
use mathlib.Core.List.{flat_map}
use mathlib.Core.Option.{map}

-- A table of `n` entries, read from its bytes.
unfoldable pub memmap_of_bytes : ℕ → List ℕ → List HvmMemmapTableEntry
memmap_of_bytes zero bs = []
memmap_of_bytes (suc n) bs = memmap_entry_of_bytes (take 24 bs) ∷ memmap_of_bytes n (drop 24 bs)

abbrev pub AllEntriesFit : List HvmMemmapTableEntry → Type 0
AllEntriesFit [] = Unit
AllEntriesFit (e ∷ es) = AllFit (memmap_entry_fields e) × AllEntriesFit es

-- The bytes of a memory map.
abbrev pub memmap_bytes : List HvmMemmapTableEntry → List ℕ
memmap_bytes entries = flat_map memmap_entry_bytes.as_slice entries

length-memmap_bytes : (es : List HvmMemmapTableEntry) → length (memmap_bytes es) ≡ 24 * length es
unfolding flat_map
length-memmap_bytes [] = refl
length-memmap_bytes (e ∷ es) = omega (
  arith,
  length-append (memmap_entry_bytes.as_slice e) (memmap_bytes es),
  memmap_entry_bytes.sized e,
  length-memmap_bytes es,
)

memmap_of_bytes-memmap_bytes :
    (es : List HvmMemmapTableEntry)
    → AllEntriesFit es
    → memmap_of_bytes (length es) (memmap_bytes es) ≡ es
unfolding memmap_of_bytes flat_map
memmap_of_bytes-memmap_bytes [] fit = refl
memmap_of_bytes-memmap_bytes (e ∷ es) (fits, fit) =
    let bs = memmap_entry_bytes.as_slice e in
    let front : take 24 (bs ++ memmap_bytes es) ≡ bs =
      ap (λ k. take k (bs ++ memmap_bytes es)) (sym (memmap_entry_bytes.sized e))
      ∙ take-length-append bs (memmap_bytes es) in
    let behind : drop 24 (bs ++ memmap_bytes es) ≡ memmap_bytes es =
      ap (λ k. drop k (bs ++ memmap_bytes es)) (sym (memmap_entry_bytes.sized e))
      ∙ drop-length-append bs (memmap_bytes es) in
    λ i.
      (ap memmap_entry_of_bytes front ∙ memmap_entry_of_bytes-as_slice e fits) i
      ∷ (ap (memmap_of_bytes (length es)) behind ∙ memmap_of_bytes-memmap_bytes es fit) i

module _ {M : Type 0} (gm : GuestMemory M) (laws : IsGuestMemory gm) where
  pvh_written :
      (params : BootParams) (memmap : List ℕ) (addr : ℕ) (m m' : M) (x : ℕ)
      → params.sections ≡ some memmap
      → params.sections_start ≡ some addr
      → pvh_write_bootparams gm params m ≡ (ok tt, m')
      → laws.peek m' x ≡ (
          if inside params.header_start (length params.header) x
          then get_elem? params.header (x - params.header_start)
          else if inside addr (length memmap) x
          then get_elem? memmap (x - addr)
          else laws.peek m x)
  pvh_written params memmap addr m m' x a b h =
      let (memmap', addr', a', b', bytes) = pvh_write_sound gm laws params m m' x h in
      let same : memmap' ≡ memmap = ground arith in
      let at : addr' ≡ addr = ground arith in
      bytes
      ∙ ap
          (λ t.
            if inside params.header_start (length params.header) x
            then get_elem? params.header (x - params.header_start)
            else if inside addr' (length t) x
            then get_elem? t (x - addr')
            else laws.peek m x)
          same
      ∙ ap
          (λ t.
            if inside params.header_start (length params.header) x
            then get_elem? params.header (x - params.header_start)
            else if inside t (length memmap) x
            then get_elem? memmap (x - t)
            else laws.peek m x)
          at

  -- The two ranges of memory, read back.
  pvh_read_back :
      (params : BootParams) (memmap : List ℕ) (addr : ℕ) (m m' : M)
      → params.sections ≡ some memmap
      → params.sections_start ≡ some addr
      → (params.header_start + length params.header ≤ addr)
        ⊎ (addr + length memmap ≤ params.header_start)
      → pvh_write_bootparams gm params m ≡ (ok tt, m')
      → (read_back (laws.peek m') params.header_start (length params.header) ≡ some params.header)
        × (read_back (laws.peek m') addr (length memmap) ≡ some memmap)
  pvh_read_back params memmap addr m m' a b apart h = (
    read_back-placed (laws.peek m') params.header_start params.header λ i lt.
        pvh_written params memmap addr m m' (params.header_start + i) a b h
        ∙ in_range params.header_start params.header i _ lt,
    read_back-placed (laws.peek m') addr memmap λ i lt.
        (let out : inside params.header_start (length params.header) (addr + i) ≡ false =
            not_inside params.header_start (length params.header) (addr + i) (elim apart [
              | inl p ↦ inr (omega (arith, p))
              | inr p ↦ inl (omega (arith, p, lt))
            ]) in
          pvh_written params memmap addr m m' (addr + i) a b h
          ∙ rw out (in_range addr memmap i _ lt)),
  )

  -- What the guest reads is what the client has given. A start info and a memory map, of values that
  -- have the widths of their fields, are made boot parameters by `new` and `set_sections`, and these
  -- are written, at addresses where the two do not overlap. If this succeeds, then the 56 bytes at the
  -- one address spell the start info again, and the table at the other has the same entries.
  pub pvh_guest_reads :
      (info : HvmStartInfo) (entries : List HvmMemmapTableEntry) (info_addr memmap_addr : ℕ)
      (m m' : M)
      → AllFit (start_info_fields info)
      → AllEntriesFit entries
      → (info_addr + 56 ≤ memmap_addr) ⊎ (memmap_addr + 24 * length entries ≤ info_addr)
      → pvh_write_bootparams gm
          (set_sections memmap_entry_bytes entries memmap_addr
            (new start_info_bytes info info_addr))
          m
        ≡ (ok tt, m')
      → (map start_info_of_bytes (read_back (laws.peek m') info_addr 56) ≡ some info)
        × (map
              (memmap_of_bytes (length entries))
              (read_back (laws.peek m') memmap_addr (24 * length entries))
            ≡ some entries)
  unfolding new set_sections
  pvh_guest_reads info entries info_addr memmap_addr m m' fits all_fit apart h =
      let params =
        set_sections memmap_entry_bytes entries memmap_addr (new start_info_bytes info info_addr) in
      let size = length-memmap_bytes entries in
      let (header, table) =
        pvh_read_back params (memmap_bytes entries) memmap_addr m m' refl refl
          (elim apart [
            | inl p ↦ inl (omega (arith, p, start_info_bytes.sized info))
            | inr p ↦ inr (omega (arith, p, size))
          ])
          h in
      (
        ap (λ n. map start_info_of_bytes (read_back (laws.peek m') info_addr n))
              (sym (start_info_bytes.sized info))
            ∙ ap (map start_info_of_bytes) header
            ∙ ap some (start_info_of_bytes-as_slice info fits),
        ap (λ n. map (memmap_of_bytes (length entries)) (read_back (laws.peek m') memmap_addr n))
              (sym size)
            ∙ ap (map (memmap_of_bytes (length entries))) table
            ∙ ap some (memmap_of_bytes-memmap_bytes entries all_fit),
      )
