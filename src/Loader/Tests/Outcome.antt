-- ===== src/Loader/Tests/Outcome.antt =====
-- The results of the loaders of src/loader at concrete images, by what the images' bytes say.
use linux_loader.Base.{none, some, ◌≡◌, refl, arith, replicate}
use linux_loader.Base.Outcome.{err}
use linux_loader.Reader.Cursor.{cursor, flat_transfer}
use linux_loader.Reader.CursorWorks.{flat_room, flat-IsWorking}
use linux_loader.LoaderGen.Bytes.{are_bytes}
use linux_loader.Loader.{pe}
use linux_loader.Loader.Errors.Pe.{read_kernel_image}
use linux_loader.Loader.Bzimage.{load_bzimage}
use linux_loader.Loader.Bzimage.Meaning.{bzimage_outcome}
use linux_loader.Loader.Bzimage.Outcome.{load_bzimage-eq-outcome}
use linux_loader.Loader.Elf.{load_elf}
use linux_loader.Loader.Elf.Meaning.{elf_outcome}
use linux_loader.Loader.Elf.Outcome.{load_elf-eq-outcome}
use linux_loader.Loader.Pe.{load_pe, load_dtb}
use linux_loader.Loader.Pe.Outcome.{
  pe_outcome, dtb_outcome, load_pe-eq-outcome, load_dtb-eq-outcome,
}
use linux_loader.Loader.Tests.{machine, pe_machine, pe_image, bz_machine, bz_image, elf_image}

load_pe-eq-outcome_example :
    (load_pe cursor flat_transfer (some 0) none pe_machine).0
    ≡ pe_outcome (some 0) (flat_room pe_machine.memory) pe_image
unfolding machine
load_pe-eq-outcome_example =
    load_pe-eq-outcome flat-IsWorking (some 0) none pe_machine (omega arith)

load_dtb-eq-outcome_example :
    (load_dtb cursor flat_transfer 8 pe_machine).0
    ≡ dtb_outcome 8 (flat_room pe_machine.memory) pe_image
unfolding machine
load_dtb-eq-outcome_example = load_dtb-eq-outcome flat-IsWorking 8 pe_machine (omega arith)

load_bzimage-eq-outcome_example :
    (load_bzimage cursor flat_transfer (some 4) none bz_machine).0
    ≡ bzimage_outcome (some 4) none (flat_room bz_machine.memory) bz_image
unfolding machine are_bytes
load_bzimage-eq-outcome_example =
    load_bzimage-eq-outcome flat-IsWorking (some 4) none bz_machine (omega arith) refl

load_elf-eq-outcome_example :
    (load_elf cursor flat_transfer none (some 1) (machine elf_image 30)).0
    ≡ elf_outcome none (some 1) (flat_room (replicate 30 0)) elf_image
unfolding machine
load_elf-eq-outcome_example =
    load_elf-eq-outcome flat-IsWorking (machine elf_image 30) none (some 1)

-- Memory of 16 bytes has no room for the image.
pe_no_room : pe_outcome (some 0) (flat_room (replicate 16 0)) pe_image ≡ err (pe read_kernel_image)
unfolding machine
pe_no_room = refl
