-- ===== src/Loader/Elf/Refines.antt =====
-- `Elf::load` of src/loader/x86_64/elf/mod.rs against the meaning of the image's bytes.
use linux_loader.Base.{ℕ, false, List, Option, none, ◌≡◌, sym, ap, ◌∙◌, drop}
use linux_loader.Base.Outcome.{ok, bind-eq-ok}
use linux_loader.Reader.{ReadSeek, Machine, Transfer, IsImage, IsTransfer}
use linux_loader.LoaderGen.Elf.{Elf64Ehdr}
use linux_loader.Loader.{KernelLoaderResult}
use linux_loader.Loader.Elf.{validate_header, is_low_entry, read_header, load_program, load_elf}
use linux_loader.Loader.Elf.Segments.{moved, segments_end}
use mathlib.Core.Path.{subst}
use linux_loader.Loader.Elf.Image.{last_note, IsCap, header_of, phdr_table, phdrs_of, loaded_byte}
use linux_loader.Loader.Elf.Program.{IsProgram, read_header-image, load_program-image}

-- The result that an image means.
pub record IsBoot (image : List ℕ) (kernel_offset highmem_start : Option ℕ) (b : KernelLoaderResult)
    : Type 0 where
  pub valid : validate_header (header_of image) ≡ ok tt
  pub high : is_low_entry (header_of image) highmem_start ≡ false
  pub load : b.kernel_load ≡ moved kernel_offset (header_of image).e_entry
  pub end_ : b.kernel_end ≡ segments_end kernel_offset (phdrs_of image)
  pub header : b.setup_header ≡ none
  pub entry : IsCap image kernel_offset (last_note none (phdrs_of image)) b.pvh_boot_cap

module _ {R M : Type 0} {rs : ReadSeek R} {tr : Transfer R M} {peek : M → ℕ → Option ℕ}
    (image : IsImage rs) (laws : IsTransfer rs tr peek) where
  -- A successful load does what the bytes of the image mean. The header is valid, and its entry point,
  -- moved by the offset, is the load address; the end is the greatest end of a segment that is loaded,
  -- moved in the same way. The byte at any address `x` is the one that the last loaded segment which
  -- covers it has there in the image, or else as before. The boot capability is what the last note
  -- segment holds; without one, or if the kernel is moved, it says that the entry point is ignored.
  -- The image is unchanged.
  pub load_elf_refines :
      (kernel_offset highmem_start : Option ℕ) (s s' : Machine R M) (b : KernelLoaderResult) (x : ℕ)
      → load_elf rs tr kernel_offset highmem_start s ≡ (ok b, s')
      → IsBoot (image.bytes s.image) kernel_offset highmem_start b
        × (peek s'.memory x
            ≡ loaded_byte
                (image.bytes s.image)
                kernel_offset
                (phdrs_of (image.bytes s.image))
                (peek s.memory x)
                x)
        × (image.bytes s'.image ≡ image.bytes s.image)
  unfolding load_elf
  load_elf_refines kernel_offset highmem_start s s' b x h =
      let (ehdr, s₀, first, rest) =
        bind-eq-ok (read_header rs tr highmem_start) (load_program rs tr kernel_offset) s s' b h in
      let (spelled, valid, high, (same, kept)) =
        read_header-image image laws highmem_start s s₀ ehdr first in
      booted kernel_offset highmem_start ehdr s s₀ s' b x spelled valid high same kept
        (load_program-image image laws kernel_offset ehdr s₀ s' b rest)
    where
      booted :
          (kernel_offset highmem_start : Option ℕ) (ehdr : Elf64Ehdr) (s s₀ s' : Machine R M)
          (b : KernelLoaderResult) (x : ℕ)
          → ehdr ≡ header_of (image.bytes s.image)
          → validate_header ehdr ≡ ok tt
          → is_low_entry ehdr highmem_start ≡ false
          → image.bytes s₀.image ≡ image.bytes s.image
          → s₀.memory ≡ s.memory
          → IsProgram image laws kernel_offset ehdr
              (phdr_table ehdr.e_phnum (drop ehdr.e_phoff (image.bytes s₀.image)))
              b
              s₀
              s'
          → IsBoot (image.bytes s.image) kernel_offset highmem_start b
            × (peek s'.memory x
                ≡ loaded_byte
                    (image.bytes s.image)
                    kernel_offset
                    (phdrs_of (image.bytes s.image))
                    (peek s.memory x)
                    x)
            × (image.bytes s'.image ≡ image.bytes s.image)
      booted kernel_offset highmem_start ehdr s s₀ s' b x spelled valid high same kept
            (load, last, header, entry, same', bytes) =
          let table = λ (t : List ℕ) (e : Elf64Ehdr). phdr_table e.e_phnum (drop e.e_phoff t) in
          (
            record {
              valid = ap validate_header (sym spelled) ∙ valid;
              high = ap (λ e. is_low_entry e highmem_start) (sym spelled) ∙ high;
              load = load ∙ ap (λ e. moved kernel_offset e.e_entry) spelled;
              end_ =
                  last
                  ∙ ap (λ t. segments_end kernel_offset (table t ehdr)) same
                  ∙ ap (λ e. segments_end kernel_offset (table (image.bytes s.image) e)) spelled;
              header = header;
              entry =
                  subst
                    (λ e.
                      IsCap (image.bytes s.image) kernel_offset
                        (last_note none (table (image.bytes s.image) e)) b.pvh_boot_cap)
                    spelled
                    (subst
                      (λ t. IsCap t kernel_offset (last_note none (table t ehdr)) b.pvh_boot_cap)
                      same entry);
            },
            bytes x
                ∙ ap (λ t. loaded_byte t kernel_offset (table t ehdr) (peek s₀.memory x) x) same
                ∙ ap
                    (λ m.
                      loaded_byte (image.bytes s.image) kernel_offset
                        (table (image.bytes s.image) ehdr) (peek m x) x)
                    kept
                ∙ ap
                    (λ e.
                      loaded_byte (image.bytes s.image) kernel_offset
                        (table (image.bytes s.image) e) (peek s.memory x) x)
                    spelled,
            same' ∙ same,
          )
