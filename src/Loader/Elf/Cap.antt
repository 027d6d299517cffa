-- ===== src/Loader/Elf/Cap.antt =====
-- The boot capability that the loop over the program headers in src/loader/x86_64/elf/mod.rs finds.
use linux_loader.Base.{
  false, ◌==◌, ℕ, List, [], ◌∷◌, Option, none, some, ◌≡◌, refl, sym, ◌∙◌, arith, if◌then◌else◌,
  Bool-cases, inl, inr,
}
use linux_loader.Base.Outcome.{ok, pure, bind-eq-ok}
use linux_loader.Reader.{ReadSeek, Machine, Transfer, IsImage, IsTransfer}
use linux_loader.LoaderGen.Elf.{Elf64Phdr}
use linux_loader.Loader.{KernelLoaderResult, PvhBootCapability, pvh_entry_ignored}
use linux_loader.Loader.Elf.{pt_note, note_cap, load_phdr, load_phdrs}
use linux_loader.Loader.Elf.NoteRefines.{parse_elf_note_refines}
use linux_loader.Loader.Elf.Image.{last_note, IsCap}
use linux_loader.Loader.Elf.Placed.{load_phdr-copied}
use mathlib.Core.Path.{subst}

pub none-IsCap :
    (image : List ℕ) (kernel_offset : Option ℕ) → IsCap image kernel_offset none pvh_entry_ignored
none-IsCap image none = refl
none-IsCap image (some k) = refl

module _ {R M : Type 0} {rs : ReadSeek R} {tr : Transfer R M} {peek : M → ℕ → Option ℕ}
    (image : IsImage rs) (laws : IsTransfer rs tr peek) where
  note_cap-IsCap :
      (kernel_offset : Option ℕ) (phdr : Elf64Phdr) (entry : PvhBootCapability) (s s' : Machine R M)
      → note_cap rs tr kernel_offset phdr s ≡ (ok entry, s')
      → IsCap (image.bytes s.image) kernel_offset (some phdr) entry
  unfolding note_cap
  note_cap-IsCap none phdr entry s s' h =
      parse_elf_note_refines image phdr entry s.image s'.image (ground arith)
  note_cap-IsCap (some k) phdr entry s s' h = ground arith

  load_phdr-IsCap :
      (kernel_offset : Option ℕ) (phdr : Elf64Phdr) (found : Option Elf64Phdr)
      (a b : KernelLoaderResult) (s s' : Machine R M)
      → IsCap (image.bytes s.image) kernel_offset found a.pvh_boot_cap
      → load_phdr rs tr kernel_offset phdr a s ≡ (ok b, s')
      → IsCap
          (image.bytes s.image)
          kernel_offset
          (if phdr.p_type == pt_note then some phdr else found)
          b.pvh_boot_cap
  unfolding load_phdr
  load_phdr-IsCap kernel_offset phdr found a b s s' before h =
      elim (Bool-cases (phdr.p_type == pt_note)) [
        | inl note ↦
            let (entry, s₁, e₁, h₁) =
              bind-eq-ok (note_cap rs tr kernel_offset phdr)
                (λ entry. pure (record a { pvh_boot_cap = entry })) s s' b (ground arith) in
            let same : entry ≡ b.pvh_boot_cap = ground arith in
            rw note (
              subst (IsCap (image.bytes s.image) kernel_offset (some phdr)) same
                (note_cap-IsCap kernel_offset phdr entry s s₁ e₁))
        | inr other ↦
            rw other (subst (IsCap (image.bytes s.image) kernel_offset found) (kept other) before)
      ]
    where
      kept : phdr.p_type == pt_note ≡ false → a.pvh_boot_cap ≡ b.pvh_boot_cap
      kept other = ground arith

  pub load_phdrs-IsCap :
      (kernel_offset : Option ℕ) (bytes : List ℕ) (phdrs : List Elf64Phdr)
      (found : Option Elf64Phdr) (a b : KernelLoaderResult) (s s' : Machine R M)
      → image.bytes s.image ≡ bytes
      → IsCap bytes kernel_offset found a.pvh_boot_cap
      → load_phdrs rs tr kernel_offset phdrs a s ≡ (ok b, s')
      → IsCap bytes kernel_offset (last_note found phdrs) b.pvh_boot_cap
  unfolding load_phdrs last_note
  load_phdrs-IsCap kernel_offset bytes [] found a b s s' same before h =
      subst (IsCap bytes kernel_offset found) (ground arith) before
  load_phdrs-IsCap kernel_offset bytes (phdr ∷ phdrs) found a b s s' same before h =
      let (c, s₁, first, rest) =
        bind-eq-ok (load_phdr rs tr kernel_offset phdr a) (load_phdrs rs tr kernel_offset phdrs) s
          s' b h in
      let next = if phdr.p_type == pt_note then some phdr else found in
      load_phdrs-IsCap kernel_offset bytes phdrs next c b s₁ s'
        ((load_phdr-copied image laws kernel_offset phdr a c s s₁ first).0 ∙ same)
        (subst (λ t. IsCap t kernel_offset next c.pvh_boot_cap) same
          (load_phdr-IsCap kernel_offset phdr found a c s s₁
            (subst (λ t. IsCap t kernel_offset found a.pvh_boot_cap) (sym same) before) first))
        rest
