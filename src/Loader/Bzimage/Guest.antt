-- ===== src/Loader/Bzimage/Guest.antt =====
-- A bzImage that is loaded, src/loader/x86_64/bzimage/mod.rs, and then handed its zero page,
-- src/configurator/x86_64/linux.rs: what the guest finds when it boots.
use linux_loader.Base.{
  ℕ, ◌+◌, ◌-◌, ◌%◌, ◌^◌, ◌≤◌, ◌<◌, List, Option, none, some, true, ◌≡◌, ◌⊎◌, inl, inr, sym, ap, ◌∙◌,
  arith, length, take, drop, replicate, get_elem?, length-take, length-drop, append-nil,
}
use linux_loader.Base.Outcome.{ok}
use linux_loader.Base.Splice.{inside, get_elem?-drop}
use linux_loader.Memory.{GuestMemory, IsGuestMemory}
use linux_loader.Memory.ReadBack.{read_back, read_back-placed}
use linux_loader.Reader.{ReadSeek, Machine, Transfer, IsImage, IsTransfer, IsFill, IsWholeFill}
use linux_loader.Reader.Steps.{copied_byte}
use linux_loader.LoaderGen.Pod.Struct.{IsValid}
use linux_loader.LoaderGen.Bootparam.{SetupHeader, setup_header_size, setup_header_of_bytes}
use linux_loader.LoaderGen.Bootparam.BootParams.{BootParams, boot_params_of_bytes}
use linux_loader.LoaderGen.Bootparam.BootParamsLayout.{boot_params_struct}
use linux_loader.LoaderGen.Bootparam.Values.{boot_params_bytes}
use linux_loader.Configurator.{new}
use linux_loader.Configurator.Write.{linux_write_bootparams}
use linux_loader.Configurator.ZeroPage.{linux_guest_reads}
use linux_loader.Loader.{KernelLoaderResult}
use linux_loader.Loader.Bzimage.{load_bzimage}
use linux_loader.Loader.Bzimage.Loaded.{setup_bytes}
use linux_loader.Loader.Bzimage.Refines.{setup_header_at, IsHeaderRead, load_bzimage_refines}
use mathlib.Core.Option.{map}

copied_there :
    (bytes : List ℕ) (offset addr count i : ℕ) (old : Option ℕ)
    → i < count
    → copied_byte bytes offset addr count (addr + i) old ≡ get_elem? bytes (offset + i)
copied_there bytes offset addr count i old lt =
    let within : inside addr count (addr + i) ≡ true = ground arith in
    let there : addr + i - addr ≡ i = omega arith in rw (within, there)

-- The size of the setup does not depend on the load address.
same_setup :
    (g h : SetupHeader) (at : ℕ)
    → some (record g { code32_start = at }) ≡ some h
    → setup_bytes g ≡ setup_bytes h
same_setup g h at e = ap (λ o. elim o [ none ↦ 0 | some k ↦ setup_bytes k ]) e

-- The kernel in the image, and the setup header that a `boot_params` carries.
abbrev pub kernel_in : List ℕ → SetupHeader → List ℕ
kernel_in image h = drop (setup_bytes h) image

abbrev pub header_found : Option (List ℕ) → Option SetupHeader
header_found page = map (λ (p : BootParams). p.hdr) (map boot_params_of_bytes page)

-- The setup header that the 119 bytes of the image from 0x1F1 on spell.
abbrev pub setup_header_in : List ℕ → SetupHeader
setup_header_in image = setup_header_of_bytes (take setup_header_size (drop 0x1F1 image))

setup_bytes_least : (h : SetupHeader) → 1024 ≤ setup_bytes h
setup_bytes_least h = ground arith

-- An image that has its setup has the whole header.
has_header : (bytes : List ℕ) → 1024 ≤ length bytes → length (take 119 (drop 0x1F1 bytes)) ≡ 119
has_header bytes long =
    omega (arith, length-take 119 (drop 0x1F1 bytes), length-drop 0x1F1 bytes, long)

header_whole :
    {R M : Type 0} {rs : ReadSeek R} {tr : Transfer R M} (image : IsImage rs)
    (whole : IsWholeFill tr image) (bytes : List ℕ) (n : ℕ)
    → IsHeaderRead tr image bytes n
    → setup_bytes (setup_header_at bytes n) ≤ length bytes
    → setup_header_at bytes n ≡ setup_header_in bytes
header_whole image whole bytes n (r, r', buf, same, at, call) fits =
    let counted : n ≡ setup_header_size =
      whole.whole (replicate setup_header_size 0) buf setup_header_size n r r' call
      ∙ (λ i. length (take setup_header_size (drop (at i) (same i))))
      ∙ has_header bytes (omega (arith, fits, setup_bytes_least (setup_header_at bytes n))) in
    ap (setup_header_at bytes) counted
    ∙ ap setup_header_of_bytes (append-nil (take setup_header_size (drop 0x1F1 bytes)))

module _ {R M : Type 0} {rs : ReadSeek R} {tr : Transfer R M} {gm : GuestMemory M}
    (laws : IsGuestMemory gm) (image : IsImage rs) (transfer : IsTransfer rs tr laws.peek)
    (fill : IsFill tr image) where
  module _ (kernel_offset highmem_start : Option ℕ) (s s' : Machine R M) (b : KernelLoaderResult)
      (h : SetupHeader) (loaded : load_bzimage rs tr kernel_offset highmem_start s ≡ (ok b, s'))
      (given : b.setup_header ≡ some h) where
    kernel_size : (b.kernel_end ≡ b.kernel_load + length (kernel_in (image.bytes s.image) h))
    kernel_size =
        let (n, _, (_, _, _, _, last, _, header, _, _)) =
          load_bzimage_refines image transfer fill kernel_offset highmem_start s s' b 0 loaded in
        let same = same_setup (setup_header_at (image.bytes s.image) n) h _ (sym header ∙ given) in
        omega (arith, last, same, length-drop (setup_bytes h) (image.bytes s.image))

    kernel_byte :
        (i : ℕ)
        → i < length (kernel_in (image.bytes s.image) h)
        → laws.peek s'.memory (b.kernel_load + i) ≡ get_elem? (kernel_in (image.bytes s.image) h) i
    kernel_byte i lt =
        let (n, _, (_, _, _, _, _, _, header, _, bytes)) =
          load_bzimage_refines image transfer fill kernel_offset highmem_start s s' b
            (b.kernel_load + i) loaded in
        let same = same_setup (setup_header_at (image.bytes s.image) n) h _ (sym header ∙ given) in
        bytes
        ∙ ap
            (λ k.
              copied_byte (image.bytes s.image) k b.kernel_load (length (image.bytes s.image) - k)
                (b.kernel_load + i) (laws.peek s.memory (b.kernel_load + i)))
            same
        ∙ copied_there (image.bytes s.image) (setup_bytes h) b.kernel_load _ i _
            (omega (arith, lt, length-drop (setup_bytes h) (image.bytes s.image)))
        ∙ sym (get_elem?-drop (setup_bytes h) (image.bytes s.image) i)

    -- A guest that is booted from a bzImage finds its kernel and its header. The image is loaded with a
    -- reader whose reads into a buffer are never short, the setup header that comes back is put into a
    -- `boot_params` of values that have the widths of their fields, and this is written as the zero
    -- page, at an address where the 4096 bytes do not overlap the kernel. If both succeed, then the zero
    -- page has the setup header that the 119 bytes of the image at 0x1F1 spell, with the load address,
    -- cut to 32 bits, as `code32_start`; and the bytes from the load address to the kernel's end are
    -- what the image has behind the setup.
    pub bzimage_guest_boots :
        IsWholeFill tr image
        → (page : BootParams) (addr : ℕ) (m' : M) → page.hdr ≡ h
        → IsValid boot_params_struct page
        → linux_write_bootparams gm (new boot_params_bytes page addr) s'.memory ≡ (ok tt, m')
        → (b.kernel_end ≤ addr) ⊎ (addr + 4096 ≤ b.kernel_load)
        → (header_found (read_back (laws.peek m') addr 4096)
            ≡ some (record (setup_header_in (image.bytes s.image)) {
              code32_start = b.kernel_load % 2 ^ 32;
            }))
          × (read_back (laws.peek m') b.kernel_load (b.kernel_end - b.kernel_load)
              ≡ some (kernel_in (image.bytes s.image) h))
    bzimage_guest_boots whole page addr m' put valid written apart =
        let (n, asked, (_, _, fits, load, _, _, header, _, _)) =
          load_bzimage_refines image transfer fill kernel_offset highmem_start s s' b 0 loaded in
        let kernel = kernel_in (image.bytes s.image) h in
        let reads = λ (x : ℕ). linux_guest_reads gm laws page addr x s'.memory m' valid written in
        (
          ap (map (λ (p : BootParams). p.hdr)) (reads 0).0
              ∙ ap some put
              ∙ sym given
              ∙ header
              ∙ ap
                  (λ at. some (record (setup_header_at (image.bytes s.image) n) {
                    code32_start = at % 2 ^ 32;
                  }))
                  (sym load)
              ∙ ap (λ (g : SetupHeader). some (record g { code32_start = b.kernel_load % 2 ^ 32 }))
                  (header_whole image whole (image.bytes s.image) n asked fits),
          ap (read_back (laws.peek m') b.kernel_load) (omega (arith, kernel_size))
              ∙ read_back-placed (laws.peek m') b.kernel_load kernel λ i lt.
                (reads (b.kernel_load + i)).1 (elim apart [
                  | inl p ↦ inl (omega (arith, p, lt, kernel_size))
                  | inr p ↦ inr (omega (arith, p))
                ])
                ∙ kernel_byte i lt,
        )
