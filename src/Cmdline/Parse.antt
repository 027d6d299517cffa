-- ===== src/Cmdline/Parse.antt =====
-- `Cmdline::try_from` of src/cmdline/mod.rs: the boot and init arguments of a text.
use linux_loader.Base.{
  ℕ, ◌+◌, ◌%◌, Bool, Option, none, some, ltb, ◌==◌, if◌then◌else◌, is_empty, take, drop, length, [],
  ◌∷◌,
}
use linux_loader.Base.Outcome.{Result, ok, err, and_then, ok_or}
use linux_loader.Base.Word.{checked_add}
use linux_loader.Text.{Str, len, trim, match_indices, find}
use linux_loader.Cmdline.{Cmdline, Error, invalid_capacity, too_large, init_args_separator}

-- `slug.matches('"').count()`.
unfoldable pub quotes : Str → ℕ
quotes [] = 0
quotes (c ∷ s) = (if c == b'"' then 1 else 0) + quotes s

unfoldable pub check_outside_double_quotes : Str → Bool
check_outside_double_quotes slug = quotes slug % 2 == 0

-- The first separator outside double quotes.
unfoldable pub find_separator : Str → Option ℕ
find_separator raw =
    find (λ i. check_outside_double_quotes (take i raw)) (match_indices raw init_args_separator)

-- The slices before and behind the separator.
unfoldable pub split_at : Str → Option ℕ → Str × Str
split_at raw none = (raw, [])
split_at raw (some i) = (take i raw, drop (i + length init_args_separator) raw)

unfoldable pub split_args : Str → Str × Str
split_args raw = split_at raw (find_separator raw)

-- The size computed by Step 2: `checked_add` refuses an overflow.
unfoldable pub parsed_size : Str → Str → Result Error ℕ
parsed_size boot_args init_args =
    and_then (ok_or (checked_add (len boot_args) 1) too_large) λ cmdline_size.
      if is_empty init_args
      then ok cmdline_size
      else and_then (ok_or (checked_add cmdline_size (len init_args_separator)) too_large)
          λ with_separator. ok_or (checked_add with_separator (len init_args)) too_large

unfoldable pub try_from : Str → ℕ → Result Error Cmdline
try_from cmdline_raw capacity =
    if capacity == 0
    then err invalid_capacity
    else (let (boot_raw, init_raw) = split_args cmdline_raw in
        let boot_args = trim boot_raw in
        let init_args = trim init_raw in
        and_then (parsed_size boot_args init_args) λ cmdline_size.
          if ltb capacity cmdline_size
          then err invalid_capacity
          else ok (record { boot_args = boot_args; init_args = init_args; capacity = capacity }))
