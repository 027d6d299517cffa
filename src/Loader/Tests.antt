-- ===== src/Loader/Tests.antt =====
-- Runs of the loaders of src/loader on small images, and the theorems at concrete inputs.
pub mod Refines
pub mod ZeroPage
pub mod Outcome
use linux_loader.Base.{
  ℕ, zero, suc, ◌+◌, ◌-◌, ◌%◌, ◌/◌, ◌≤◌, List, [], ◌∷◌, ◌++◌, Option, none, some, ◌≡◌, ◌↔◌, refl,
  arith, length, replicate, if◌then◌else◌, get_elem?,
}
use linux_loader.Base.Outcome.{ok, err}
use linux_loader.Reader.{Machine, ReadSeek, Transfer}
use linux_loader.Reader.Cursor.{Cursor, cursor, flat_transfer, flat-IsTransfer}
use linux_loader.Text.{codes, cstring}
use linux_loader.Cmdline.{Cmdline, as_cstring, to_vec}
use linux_loader.Base.Splice.{inside}
use linux_loader.Loader.Errors.Pe.{dtb_too_big}
use linux_loader.Memory.Flat.{flat, flat-IsGuestMemory}
use linux_loader.LoaderGen.{from_le_bytes}
use linux_loader.LoaderGen.Elf.{ehdr_of_bytes, phdr_of_bytes, nhdr_of_bytes}
use linux_loader.LoaderGen.Bootparam.{setup_header_of_bytes}
use linux_loader.Loader.{
  KernelLoaderResult, default_result, pvh_entry_present, load_cmdline, pe, command_line_overflow,
}
use linux_loader.Loader.Elf.{
  load_elf, read_header, load_program, load_phdrs, load_phdr, note_cap, load_segment, read_phdrs,
  relocate, is_low_entry, validate_header, ident_is,
}
use linux_loader.Loader.Elf.Note.{
  parse_elf_note, after_loop, read_entry, note_loop, skip_note, is_pvh_note, note_end, align_up,
  is_power_of_two, is_power_below,
}
use linux_loader.Loader.Bzimage.{
  load_bzimage, load_kernel, split_image, read_boot_header, load_offset, is_below_highmem,
  setup_size, is_invalid,
}
use linux_loader.Loader.Pe.{
  load_pe, load_image, read_image, is_misaligned, text_start, image_header_of_bytes, load_dtb,
}
use linux_loader.LoaderGen.Elf.{Elf64Phdr}
use linux_loader.Loader.Elf.Loaded.{ElfLoaded, load_elf_sound}
use linux_loader.Loader.Elf.Header.{validate_header_iff}
use linux_loader.Loader.Elf.NoteFuel.{note_loop_enough}
use linux_loader.Loader.Bzimage.Loaded.{BzimageLoaded, load_bzimage_sound}
use linux_loader.Loader.Bzimage.Placed.{KernelPlaced, load_bzimage_placed}
use linux_loader.Loader.Pe.Loaded.{PeLoaded, load_pe_sound, load_dtb_refused}
use linux_loader.Loader.CommandLine.{load_cmdline_sound, load_cmdline_refused}

abbrev byte : ℕ → Option ℕ
byte b = some b

-- `w` bytes of `n`, the low ones first.
unfoldable pub le : ℕ → ℕ → List ℕ
le zero n = []
le (suc w) n = (n % 256) ∷ le w (n / 256)

-- Opens what a run computes with.
unfoldable pub machine : List ℕ → ℕ → Machine Cursor (List ℕ)
unfolding le load_elf read_header load_program load_phdrs load_phdr note_cap load_segment read_phdrs
    relocate is_low_entry validate_header ident_is parse_elf_note after_loop read_entry note_loop
    skip_note is_pvh_note note_end align_up is_power_of_two is_power_below load_bzimage load_kernel
    split_image read_boot_header load_offset is_below_highmem setup_size is_invalid load_pe
    load_image read_image is_misaligned text_start image_header_of_bytes load_dtb ehdr_of_bytes
    phdr_of_bytes nhdr_of_bytes setup_header_of_bytes from_le_bytes load_cmdline to_vec as_cstring
    cstring
machine bs size = record { image = record { bytes = bs; position = 0 }; memory = replicate size 0 }

abbrev pub elf_header : List ℕ
elf_header =
    0x7f ∷ codes "ELF"
    ++ (2 ∷ 1 ∷ 1 ∷ replicate 9 0)
    ++ le 2 2
    ++ le 2 62
    ++ le 4 1
    ++ le 8 16
    ++ le 8 64
    ++ le 8 0
    ++ le 4 0
    ++ le 2 64
    ++ le 2 56
    ++ le 2 2
    ++ replicate 6 0

abbrev pub program_header : (p_type p_offset p_paddr p_filesz p_memsz : ℕ) → List ℕ
program_header p_type p_offset p_paddr p_filesz p_memsz =
    le 4 p_type
    ++ le 4 0
    ++ le 8 p_offset
    ++ le 8 p_paddr
    ++ le 8 p_paddr
    ++ le 8 p_filesz
    ++ le 8 p_memsz
    ++ le 8 4

abbrev pub pvh_note : List ℕ
pvh_note = le 4 4 ++ le 4 4 ++ le 4 18 ++ codes "Xen" ++ (0 ∷ []) ++ le 4 0x1234

-- A header, two program headers, a note at 176 and four bytes of code at 196.
abbrev pub elf_image : List ℕ
elf_image =
    elf_header
    ++ program_header 1 196 8 4 10
    ++ program_header 4 176 0 20 20
    ++ pvh_note
    ++ (1 ∷ 2 ∷ 3 ∷ 4 ∷ [])

abbrev pub elf_loaded : KernelLoaderResult
elf_loaded = record {
  kernel_load = 16;
  kernel_end = 18;
  setup_header = none;
  pvh_boot_cap = pvh_entry_present 0x1234;
}

elf_test : (load_elf cursor flat_transfer none (some 16) (machine elf_image 20)).0 ≡ ok elf_loaded
unfolding machine
elf_test = refl

elf_memory_test :
    (load_elf cursor flat_transfer none none (machine elf_image 20)).1.memory
    ≡ replicate 8 0 ++ (1 ∷ 2 ∷ 3 ∷ 4 ∷ replicate 8 0)
unfolding machine
elf_memory_test = refl

abbrev pub low_machine : Machine Cursor (List ℕ)
low_machine = machine elf_image 20

validate_header_iff_example : (validate_header (ehdr_of_bytes elf_header) ≡ ok tt) ↔ (
    (byte 0x7f ≡ byte 0x7f)
    × (byte b'E' ≡ byte b'E')
    × (byte b'L' ≡ byte b'L')
    × (byte b'F' ≡ byte b'F')
    × (byte 1 ≡ byte 1)
    × ((ehdr_of_bytes elf_header).e_phentsize ≡ 56)
    × (64 ≤ (ehdr_of_bytes elf_header).e_phoff))
unfolding machine
validate_header_iff_example = validate_header_iff (ehdr_of_bytes elf_header)

-- The cursor at the note, and the note's program header.
abbrev pub at_note : Cursor
at_note = record { bytes = elf_image; position = 176 }

abbrev pub note_header : Elf64Phdr
note_header = phdr_of_bytes (program_header 4 176 0 20 20)

note_loop_enough_example :
    note_loop cursor 20 note_header (nhdr_of_bytes []) 0 at_note
    ≡ note_loop cursor 30 note_header (nhdr_of_bytes []) 0 at_note
unfolding machine
note_loop_enough_example =
    note_loop_enough cursor 20 30 note_header (nhdr_of_bytes []) 0 at_note (omega arith)
      (omega arith)

-- A bzImage of one setup sector, with three bytes of kernel behind the setup.
abbrev pub bz_header : List ℕ
bz_header = 1 ∷ replicate 16 0 ++ codes "HdrS" ++ le 2 0x20a ++ replicate 9 0 ++ (1 ∷ [])

abbrev pub bz_image : List ℕ
bz_image = replicate 0x1F1 0 ++ bz_header ++ replicate 494 0 ++ (9 ∷ 8 ∷ 7 ∷ [])

abbrev pub bz_loaded : KernelLoaderResult
bz_loaded = record default_result {
  kernel_load = 4;
  kernel_end = 7;
  setup_header =
      some (record (setup_header_of_bytes (bz_header ++ replicate 85 0)) { code32_start = 4 });
}

abbrev pub bz_machine : Machine Cursor (List ℕ)
bz_machine = machine bz_image 16

bzimage_memory_test :
    (load_bzimage cursor flat_transfer (some 4) none bz_machine).1.memory
    ≡ replicate 4 0 ++ (9 ∷ 8 ∷ 7 ∷ replicate 9 0)
unfolding machine
bzimage_memory_test = refl

-- A PE image, with its text at 16.
abbrev pub pe_image : List ℕ
pe_image =
    replicate 8 0
    ++ le 8 16
    ++ le 8 68
    ++ replicate 32 0
    ++ le 4 0x644d5241
    ++ replicate 4 0
    ++ (9 ∷ 8 ∷ 7 ∷ 6 ∷ [])

abbrev pub pe_loaded : KernelLoaderResult
pe_loaded = record default_result { kernel_load = 16; kernel_end = 84 }

abbrev pub pe_machine : Machine Cursor (List ℕ)
pe_machine = machine pe_image 100

-- An image of which only the size is known.
abbrev blank : ReadSeek ℕ
blank = record { seek = λ target size. (ok size, size); read_exact = λ n size. (err tt, size) }

abbrev blank_transfer : Transfer ℕ (List ℕ)
blank_transfer = record {
  read_exact_from = λ addr count s. (err tt, s);
  read_from = λ buf count size. (err tt, size);
}

abbrev big_blank : Machine ℕ (List ℕ)
big_blank = record { image = 0x200001; memory = replicate 4 0 }

big_dtb_test : (load_dtb blank blank_transfer 0 big_blank).0 ≡ err (pe dtb_too_big)
unfolding machine
big_dtb_test = refl

abbrev quiet : Cmdline
quiet = record { boot_args = codes "ab"; init_args = []; capacity = 10 }

load_cmdline_sound_example :
    (bs : List ℕ) × (to_vec quiet ≡ ok bs)
    × (3 + (length bs - 1) ≤ 5)
    × (byte b'b' ≡ (if inside 3 (length bs) 4 then get_elem? bs (4 - 3) else byte 7))
unfolding machine
load_cmdline_sound_example =
    load_cmdline_sound flat flat-IsGuestMemory 3 quiet (replicate 6 7)
      (7 ∷ 7 ∷ 7 ∷ b'a' ∷ b'b' ∷ 0 ∷ []) 4 refl

load_cmdline_refused_example :
    load_cmdline flat 4 quiet (replicate 6 7) ≡ (err command_line_overflow, replicate 6 7)
unfolding machine
load_cmdline_refused_example =
    load_cmdline_refused flat 4 quiet (b'a' ∷ b'b' ∷ 0 ∷ []) (replicate 6 7) refl (omega arith)
