-- ===== src/Cmdline.antt =====
-- src/cmdline/mod.rs: the builder of kernel command lines. A method on `&mut self` is an action on
-- the `Cmdline`; the plain additions of `get_null_terminated_representation_size` panic on overflow.
pub mod Parse
pub mod Device
pub mod DeviceText
pub mod Sequence
pub mod Runs
pub mod Size
pub mod Insert
pub mod Equality
pub mod Operations
pub mod Printable
pub mod Render
pub mod Split
pub mod Parsing
pub mod Tests
use linux_loader.Base.{
  ℕ, ◌+◌, Bool, true, false, not, ◌&&◌, Option, none, some, List, [], ◌∷◌, ◌++◌, String, ltb, leb,
  ◌==◌, if◌then◌else◌, is_empty, all, map,
}
use linux_loader.Base.Outcome.{
  Result, ok, err, panic, Action, pure, lift, gets, modify, raise_if, ◌>>=◌, ◌>>◌, ok_or, map_ok,
  and_then,
}
use linux_loader.Base.Word.{checked_add, add_word}
use mathlib.Core.Bool.{decide}
use native.Mathlib.Decide.{ℕ_discrete}
use linux_loader.Text.{Str, codes, len, trim, contains, join, cstring, as_bytes_with_nul}

abbrev pub init_args_separator : Str
init_args_separator = codes " -- "

pub data Error : Type 0 where
  null_terminator no_boot_args_inserted invalid_capacity invalid_ascii has_space has_equals : Error
  missing_val : Str → Error
  mmio_size too_large : Error

-- `Display` for `Error`.
unfoldable pub display : Error → Str
display null_terminator = codes "Null terminator detected in the command line structure."
display no_boot_args_inserted = codes "Cmdline cannot contain only init args."
display invalid_capacity = codes "Invalid cmdline capacity provided."
display invalid_ascii = codes "String contains a non-printable ASCII character."
display has_space = codes "String contains a space."
display has_equals = codes "String contains an equals sign."
display (missing_val k) = codes "Missing value for key " ++ (k ++ codes ".")
display mmio_size = codes "0-sized virtio MMIO device passed to the kernel command line builder."
display too_large = codes "Inserting string would make command line too long."

unfoldable pub valid_char : ℕ → Bool
valid_char c = leb b' ' c && leb c b'~'

unfoldable pub valid_str : Str → Result Error (Unit {0})
valid_str s = if all valid_char s then ok tt else err invalid_ascii

unfoldable pub valid_element : Str → Result Error (Unit {0})
valid_element s =
    if not (all valid_char s)
    then err invalid_ascii
    else if contains s b' '
    then err has_space
    else if contains s b'='
    then err has_equals
    else ok tt

pub record Cmdline : Type 0 where
  pub boot_args : Str
  pub init_args : Str
  pub capacity : ℕ

abbrev pub Method : Type 0 → Type 0
Method A = Action Cmdline Error A

unfoldable pub new : ℕ → Result Error Cmdline
new capacity =
    if capacity == 0
    then err invalid_capacity
    else ok (record { boot_args = []; init_args = []; capacity = capacity })

unfoldable pub get_null_terminated_representation_size : Cmdline → Result Error ℕ
get_null_terminated_representation_size cl =
    and_then (add_word (len cl.boot_args) 1) λ cmdline_size.
      if is_empty cl.init_args
      then ok cmdline_size
      else and_then (add_word (len init_args_separator) (len cl.init_args)) (add_word cmdline_size)

-- `if !args.is_empty() { args.push(' '); } args.push_str(s)`.
abbrev pub push_arg : Str → Str → Str
push_arg args s = (if is_empty args then args else args ++ (b' ' ∷ [])) ++ s

unfoldable pub insert_str : Str → Method (Unit {0})
insert_str slug = do
  let s = trim slug
  lift (valid_str s)
  cl ← gets (λ c. c)
  size ← lift (get_null_terminated_representation_size cl)
  spaced ← if is_empty cl.boot_args then pure size else lift (ok_or (checked_add size 1) too_large)
  total ← lift (ok_or (checked_add spaced (len s)) too_large)
  raise_if (ltb cl.capacity total) too_large
  modify (λ c. record c { boot_args = push_arg c.boot_args s })

unfoldable pub insert_init_args : Str → Method (Unit {0})
insert_init_args slug = do
  let s = trim slug
  lift (valid_str s)
  cl ← gets (λ c. c)
  size ← lift (get_null_terminated_representation_size cl)
  let extra : ℕ = if is_empty cl.init_args then len init_args_separator else 1
  spaced ← lift (ok_or (checked_add size extra) too_large)
  total ← lift (ok_or (checked_add spaced (len s)) too_large)
  raise_if (ltb cl.capacity total) too_large
  modify (λ c. record c { init_args = push_arg c.init_args s })

unfoldable pub insert : Str → Str → Method (Unit {0})
insert k v = do lift (valid_element k); lift (valid_element v); insert_str (k ++ (b'=' ∷ v))

-- The `collect` of the validated values: the first invalid one decides the error.
unfoldable pub valid_values : List Str → Result Error (List Str)
valid_values [] = ok []
valid_values (v ∷ vs) =
    let rest = valid_values vs in
    and_then (valid_element v) λ _. map_ok (λ checked. v ∷ checked) rest

unfoldable pub insert_multiple : Str → List Str → Method (Unit {0})
insert_multiple k vals = do
  lift (valid_element k)
  raise_if (is_empty vals) (missing_val k)
  checked ← lift (valid_values vals)
  insert_str (k ++ (b'=' ∷ join checked (codes ",")))

unfoldable pub as_cstring : Cmdline → Result Error (List ℕ)
as_cstring cl =
    if is_empty cl.boot_args && is_empty cl.init_args
    then ok_or (cstring []) null_terminator
    else if is_empty cl.boot_args
    then err no_boot_args_inserted
    else if is_empty cl.init_args
    then ok_or (cstring cl.boot_args) null_terminator
    else ok_or (cstring (cl.boot_args ++ (init_args_separator ++ cl.init_args))) null_terminator

-- `TryFrom<Cmdline> for Vec<u8>`.
unfoldable pub to_vec : Cmdline → Result Error (List ℕ)
to_vec cl = map_ok as_bytes_with_nul (as_cstring cl)

Error-discrete : Discrete Error
Error-discrete = hlevel ℕ_discrete

pub Outcome-discrete : Discrete (Result Error (List ℕ))
Outcome-discrete = hlevel (ℕ_discrete, Error-discrete)

-- `PartialEq` for `Cmdline`.
unfoldable pub eq : Cmdline → Cmdline → Bool
eq cl other = decide (Outcome-discrete (as_cstring cl) (as_cstring other))
