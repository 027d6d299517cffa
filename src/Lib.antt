-- ===== src/Lib.antt =====
-- linux-loader: the Rust library with which a virtual machine monitor puts a Linux kernel, its command
-- line and its boot parameters into guest memory.
--
-- The parts, and the files that model them:
-- - Cmdline.antt: the kernel command line builder of src/cmdline/mod.rs, a record `Cmdline` with one
--   function for each method. Cmdline/Parse.antt: `try_from` in its steps (find the separator, cut,
--   trim, compute the size). Cmdline/Device.antt: `add_virtio_mmio_device` and `guestusize_to_str`.
-- - Configurator.antt: `BootParams` of src/configurator/mod.rs. Configurator/Write.antt: the three
--   `write_bootparams` of src/configurator/x86_64/linux.rs and pvh.rs, src/configurator/aarch64/fdt.rs.
--   Configurator/Display.antt: the texts of their errors.
-- - Loader.antt: the shared error and result, and `load_cmdline` of src/loader/mod.rs.
--   Loader/Errors: the errors of the image formats. Loader/Elf.antt and Loader/Elf/Note.antt:
--   `Elf::load` and `parse_elf_note` of src/loader/x86_64/elf/mod.rs. Loader/Bzimage.antt:
--   `BzImage::load` of src/loader/x86_64/bzimage/mod.rs. Loader/Pe.antt: `PE::load` and `load_dtb` of
--   src/loader/aarch64/pe/mod.rs.
-- - LoaderGen.antt: the ELF headers and the setup header of src/loader_gen/x86_64/elf.rs and
--   bootparam.rs, read from their bytes. LoaderGen/StartInfo.antt: the structures of start_info.rs,
--   which are also written. LoaderGen/Layout.antt: the bytes of a structure of numbers.
--   LoaderGen/Bootparam: the structures and unions of bootparam.rs, each with its fields in their order,
--   and read at the offsets that its layout test asserts. LoaderGen/Pod.antt: the layouts in general,
--   as a universe with the values, the bytes and the reading of each; LoaderGen/Pod/Struct.antt is the
--   interface of a structure with a layout.
-- - Memory.antt: what is used of the crate vm-memory. It is not in the repository: the operations are
--   a record that the definitions take, and their documented behaviour is a record of laws that the
--   theorems take. Memory/Flat.antt meets these laws with one region of bytes. Reader.antt: the image
--   behind `Read + Seek`, and the calls by which vm-memory reads from it, taken in the same way;
--   Reader/Cursor.antt is a cursor over bytes for the tests. What the laws make of a step of a loader
--   stands in Reader/Steps.antt.
-- - Text.antt: what is used of Rust's strings. A text is its list of characters, and sizes count the
--   bytes of its UTF-8 encoding. Base.antt: lists, words, results, and actions on a state.
--
-- The loaders are compared with the meaning of an image, given as functions and relations on its
-- bytes: Loader/Elf/Image.antt and Loader/Elf/Notes.antt for ELF (the headers, the byte that the
-- segments leave at an address, the notes that a walk reaches), and the last files of Loader/Bzimage
-- and Loader/Pe. The files named Refines prove the comparison. The files named Outcome give the
-- results of a load as a function of the image, errors included, for an image that can be read
-- without a fault: Reader/Working.antt says what that is, and Reader/Alike.antt compares such an
-- image with a cursor. Configurator/Guest.antt joins the structures, the boot parameters and the PVH
-- configurator, Configurator/ZeroPage.antt those of the Linux boot protocol,
-- Loader/Bzimage/Guest.antt joins the bzImage loader with the latter, and
-- Loader/CommandLineGuest.antt joins the builder and `load_cmdline`: they say what a guest reads.
-- Cmdline/DeviceText.antt has a reader of device texts.
--
-- A loader reads an image and writes guest memory; the caller then fills a `BootParams`, which a
-- configurator writes, and `load_cmdline` writes what the builder made.
--
-- A function ends in a value, an error or a panic. A function behind `&mut`, on an image or on guest
-- memory, is an action on the state, which comes back after an error too. `u64` and `usize` are
-- numbers below 2^64 (64-bit targets): checked operations give an option, and a plain addition that
-- overflows panics, as with overflow checks on. The casts `as i64` and `as u32` are written out. The
-- builder adds the lengths of its strings with plain additions; its size, which the capacity bounds,
-- keeps them from overflowing.
--
-- A vector of bytes panics when it is to grow beyond `isize::MAX` bytes. That memory is exhausted is
-- not considered, and capacities are not: a vector is its elements.
--
-- The only loop on fuel is that over the notes of a PT_NOTE segment, with `p_filesz` rounds: each
-- round moves `read_size` on by at least 12. At fuel 0 and a `read_size` below `p_filesz` the model
-- would panic. All other loops recur on a list or on a count; the formatting of a number takes at most
-- 20 decimal or 16 hexadecimal digits.
--
-- Not modelled: the `Debug` and `Clone` derivations and the `From` conversions, which are the
-- constructors of the errors, the constants and the aliases of kernel types of
-- src/loader_gen/x86_64/bootparam.rs, which nothing uses, the alignments that its layout tests assert,
-- since a structure is only met as its bytes, and the benchmarks.
pub mod Base
pub mod Text
pub mod Cmdline
pub mod Memory
pub mod Configurator
pub mod Reader
pub mod LoaderGen
pub mod Loader
