-- ===== src/Loader/Tests/Refines.antt =====
-- The refinement theorems of the loaders of src/loader at concrete images.
use linux_loader.Loader.Safe.{load_bzimage_calm, load_pe_calm}
use linux_loader.LoaderGen.Bytes.{are_bytes}
use linux_loader.Loader.Errors.Elf.{align}
use linux_loader.Loader.Elf.Align.{IsAligned, align_up_lem}
use linux_loader.Loader.Elf.Safe.{load_elf_calm}
use linux_loader.Loader.Elf.NoteRefines.{parse_elf_note_refines}
use linux_loader.Loader.Elf.Notes.{IsFoundNote}
use linux_loader.Loader.Elf.Note.{parse_elf_note, align_up}
use linux_loader.Loader.{pvh_entry_present}
use linux_loader.Reader.{Machine}
use linux_loader.Base.Outcome.{err, panic, ok}
use linux_loader.Base.{ℕ, ◌≤◌, none, some, ◌≡◌, refl, List, ◌<◌, ◌^◌, ◌≢◌, ◌⊎◌, arith}
use linux_loader.Reader.Cursor.{
  cursor, flat_transfer, cursor-IsImage, flat-IsTransfer, flat-IsFill, Cursor,
}
use linux_loader.Reader.Steps.{IsCopied}
use linux_loader.Loader.Elf.{load_elf}
use linux_loader.Loader.Elf.Image.{phdrs_of, loaded_byte, phdr_table}
use linux_loader.Loader.Elf.Refines.{IsBoot, load_elf_refines}
use linux_loader.Loader.Bzimage.{load_bzimage}
use linux_loader.Loader.Bzimage.Refines.{
  setup_header_at, IsHeaderRead, IsBzimageLoaded, load_bzimage_refines,
}
use linux_loader.Loader.Pe.{load_pe, load_dtb}
use linux_loader.Loader.Pe.Refines.{IsPeLoaded, load_pe_refines, load_dtb_refines}
use linux_loader.Loader.Tests.{
  machine, elf_image, elf_loaded, low_machine, bz_image, bz_loaded, bz_machine, pe_loaded,
  pe_machine, at_note, note_header,
}

-- The copy of the tests does not panic.
flat_calm_copy :
    (addr count : ℕ) (s : Machine Cursor (List ℕ))
    → (flat_transfer.read_exact_from addr count s).0 ≢ panic
flat_calm_copy addr count s = ground arith

flat_calm_fill :
    (buf : List ℕ) (count : ℕ) (r : Cursor) → (flat_transfer.read_from buf count r).0 ≢ panic
flat_calm_fill buf count r = ground arith

load_elf_refines_example :
    IsBoot elf_image none (some 16) elf_loaded
    × (some 2 ≡ loaded_byte elf_image none (phdrs_of elf_image) (some 0) 9)
    × (elf_image ≡ elf_image)
unfolding machine
load_elf_refines_example =
    load_elf_refines cursor-IsImage flat-IsTransfer none (some 16) low_machine
      (load_elf cursor flat_transfer none (some 16) low_machine).1 elf_loaded 9 refl

load_bzimage_refines_example :
    (n : ℕ) × IsHeaderRead flat_transfer cursor-IsImage bz_image n
    × IsBzimageLoaded cursor-IsImage flat-IsTransfer flat-IsFill
        (some 4)
        none
        (setup_header_at bz_image n)
        bz_machine
        (load_bzimage cursor flat_transfer (some 4) none bz_machine).1
        bz_loaded
        5
unfolding machine
load_bzimage_refines_example =
    load_bzimage_refines cursor-IsImage flat-IsTransfer flat-IsFill (some 4) none bz_machine
      (load_bzimage cursor flat_transfer (some 4) none bz_machine).1 bz_loaded 5 refl

load_pe_refines_example :
    IsPeLoaded cursor-IsImage flat-IsTransfer flat-IsFill
      (some 0)
      pe_machine
      (load_pe cursor flat_transfer (some 0) none pe_machine).1
      pe_loaded
      17
unfolding machine
load_pe_refines_example =
    load_pe_refines cursor-IsImage flat-IsTransfer flat-IsFill (some 0) none pe_machine
      (load_pe cursor flat_transfer (some 0) none pe_machine).1 pe_loaded 17 refl

load_dtb_refines_example :
    (68 ≤ 0x200000)
    × IsCopied cursor-IsImage flat-IsTransfer 0 8 68 pe_machine
        (load_dtb cursor flat_transfer 8 pe_machine).1
unfolding machine
load_dtb_refines_example =
    load_dtb_refines cursor-IsImage flat-IsTransfer flat-IsFill 8 pe_machine
      (load_dtb cursor flat_transfer 8 pe_machine).1 refl

parse_elf_note_refines_example : IsFoundNote elf_image note_header (pvh_entry_present 0x1234)
unfolding machine
parse_elf_note_refines_example =
    parse_elf_note_refines cursor-IsImage note_header (pvh_entry_present 0x1234) at_note
      (parse_elf_note cursor note_header at_note).1 refl

load_elf_calm_example : (load_elf cursor flat_transfer none (some 16) low_machine).0 ≢ panic
unfolding machine are_bytes phdr_table
load_elf_calm_example =
    load_elf_calm cursor-IsImage flat-IsTransfer flat_calm_copy none (some 16) low_machine refl
      ((λ h. cc), ((λ h. (omega arith, λ e. omega (arith, e))), tt))

align_up_lem_example :
    ((k : ℕ) × (k < 64) × (8 ≡ 2 ^ k) × (n : ℕ) × (align_up 13 8 ≡ ok n) × IsAligned 13 8 n)
    ⊎ (((k : ℕ) → k < 64 → 8 ≢ 2 ^ k) × (align_up 13 8 ≡ err align))
align_up_lem_example = align_up_lem 13 8 (omega arith)

load_bzimage_calm_example : (load_bzimage cursor flat_transfer (some 4) none bz_machine).0 ≢ panic
load_bzimage_calm_example =
    load_bzimage_calm flat_transfer cursor-IsImage flat_calm_copy flat_calm_fill (some 4) none
      bz_machine

load_pe_calm_example : (load_pe cursor flat_transfer (some 0) none pe_machine).0 ≢ panic
load_pe_calm_example =
    load_pe_calm flat_transfer cursor-IsImage flat_calm_copy flat_calm_fill (some 0) none pe_machine
