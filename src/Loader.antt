-- ===== src/Loader.antt =====
-- src/loader/mod.rs: the error and the result that the kernel loaders share, and `load_cmdline`. Guest
-- addresses are numbers below 2^64.
pub mod Errors
pub mod Elf
pub mod Bzimage
pub mod Pe
pub mod CommandLine
pub mod CommandLineGuest
pub mod CommandLineRuns
pub mod Display
pub mod Safe
pub mod Tests
use linux_loader.Base.{ℕ, ◌-◌, ◌++◌, List, Option, none, some, ltb, length}
use linux_loader.Base.Word.{checked_add}
use linux_loader.Base.Outcome.{Result, Action, lift, gets, raise_if, ◌>>=◌, ◌>>◌, ok_or, map_err}
use linux_loader.Text.{Str, codes, as_bytes_with_nul}
use linux_loader.Cmdline.{Cmdline, as_cstring}
use linux_loader.Memory.{GuestMemory}
use linux_loader.LoaderGen.Bootparam.{SetupHeader}
use linux_loader.Loader.Errors.Elf.{ElfError}
use linux_loader.Loader.Errors.Bzimage.{BzimageError}
use linux_loader.Loader.Errors.Pe.{PeError}

pub data Error : Type 0 where
  bzimage : BzimageError → Error
  elf : ElfError → Error
  pe : PeError → Error
  invalid_command_line command_line_copy command_line_overflow : Error
  invalid_kernel_start_address memory_overflow : Error

desc : Error → Str
desc (bzimage e) = codes "failed to load bzImage kernel image"
desc (elf e) = codes "failed to load ELF kernel image"
desc (pe e) = codes "failed to load PE kernel image"
desc invalid_command_line = codes "invalid command line provided"
desc command_line_copy = codes "failed writing command line to guest memory"
desc command_line_overflow = codes "command line overflowed guest memory"
desc invalid_kernel_start_address = codes "invalid kernel start address"
desc memory_overflow = codes "memory to load kernel image is not enough"

unfoldable pub display : Error → Str
unfolding desc
display e = codes "Kernel Loader: " ++ desc e

-- `elf::PvhBootCapability`, which the result carries.
pub data PvhBootCapability : Type 0 where
  pvh_entry_present : ℕ → PvhBootCapability
  pvh_entry_not_present pvh_entry_ignored : PvhBootCapability

-- All fields of both architectures; on aarch64 the last two do not exist, and stay at their defaults.
pub record KernelLoaderResult : Type 0 where
  pub kernel_load : ℕ
  pub kernel_end : ℕ
  pub setup_header : Option SetupHeader
  pub pvh_boot_cap : PvhBootCapability

-- `..Default::default()`.
abbrev pub default_result : KernelLoaderResult
default_result = record {
  kernel_load = 0;
  kernel_end = 0;
  setup_header = none;
  pvh_boot_cap = pvh_entry_ignored;
}

module _ {M : Type 0} (gm : GuestMemory M) where
  -- The call of `write_slice`, its error mapped.
  abbrev pub write_cmdline : List ℕ → ℕ → Action M Error (Unit {0})
  write_cmdline bs addr m =
      let (r, m') = gm.write_slice bs addr m in (map_err (λ _. command_line_copy) r, m')

  unfoldable pub load_cmdline : ℕ → Cmdline → Action M Error (Unit {0})
  load_cmdline guest_addr cmdline = do
    cmdline_string ← lift (map_err (λ _. invalid_command_line) (as_cstring cmdline))
    let cmdline_bytes = as_bytes_with_nul cmdline_string
    end ← lift (ok_or (checked_add guest_addr (length cmdline_bytes - 1)) command_line_overflow)
    last ← gets gm.last_addr
    raise_if (ltb last end) command_line_overflow
    write_cmdline cmdline_bytes guest_addr
