-- ===== src/Cmdline/Insert.antt =====
-- What the inserting methods of src/cmdline/mod.rs do on every input, when the size invariant holds.
use linux_loader.Base.{ℕ, ◌+◌, Bool, not, ◌≡◌, arith, ltb, if◌then◌else◌, is_empty, all}
use linux_loader.Base.Outcome.{Result, ok, err}
use linux_loader.Text.{Str, len, trim}
use linux_loader.Cmdline.{
  Cmdline, Error, invalid_ascii, too_large, push_arg, valid_char, valid_str, insert_str,
  insert_init_args,
}
use linux_loader.Cmdline.Size.{size, IsValid, representation_size_lem, len_separator}

abbrev pub with_boot : Cmdline → Str → Cmdline
with_boot cl s = record cl { boot_args = push_arg cl.boot_args s }

abbrev pub with_init : Cmdline → Str → Cmdline
with_init cl s = record cl { init_args = push_arg cl.init_args s }

-- The size that the capacity is compared with.
abbrev pub boot_size : Cmdline → Str → ℕ
boot_size cl s = size cl + (if is_empty cl.boot_args then 0 else 1) + len s

abbrev pub init_size : Cmdline → Str → ℕ
init_size cl s = size cl + (if is_empty cl.init_args then 4 else 1) + len s

abbrev pub checked : Bool → Bool → Cmdline → Cmdline → Result Error (Unit {0}) × Cmdline
checked printable large cl cl' =
    if not printable
    then (err invalid_ascii, cl)
    else if large
    then (err too_large, cl)
    else (ok tt, cl')

-- `insert_str` refuses a text with a character that is not printable, then one that does not fit, and
-- leaves the command line as it was; else it appends the trimmed text, behind a space if needed.
-- No addition overflows.
pub insert_str_lem :
    (slug : Str) (cl : Cmdline)
    → IsValid cl
    → insert_str slug cl
      ≡ checked
          (all valid_char (trim slug))
          (ltb cl.capacity (boot_size cl (trim slug)))
          cl
          (with_boot cl (trim slug))
unfolding insert_str valid_str
insert_str_lem slug cl v = ground (arith, representation_size_lem cl v)

-- `insert_init_args` does the same with the init arguments, and the first of them costs the four bytes
-- of the separator, also when it is empty after trimming.
pub insert_init_args_lem :
    (slug : Str) (cl : Cmdline)
    → IsValid cl
    → insert_init_args slug cl
      ≡ checked
          (all valid_char (trim slug))
          (ltb cl.capacity (init_size cl (trim slug)))
          cl
          (with_init cl (trim slug))
unfolding insert_init_args valid_str
insert_init_args_lem slug cl v = ground (arith, representation_size_lem cl v, len_separator)
