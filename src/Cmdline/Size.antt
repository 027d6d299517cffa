-- ===== src/Cmdline/Size.antt =====
-- The size of a command line, and the invariant of the builder of src/cmdline/mod.rs.
use linux_loader.Base.{
  ℕ, ◌+◌, ◌≤◌, true, [], ◌∷◌, ◌++◌, ◌≡◌, refl, arith, if◌then◌else◌, is_empty, all, all-append,
}
use linux_loader.Base.Outcome.{ok}
use linux_loader.Base.Word.{IsU64}
use linux_loader.Text.{Str, len}
use linux_loader.Text.Laws.{len-append}
use linux_loader.Cmdline.{
  Cmdline, get_null_terminated_representation_size, push_arg, valid_char, init_args_separator,
}

-- The bytes of the rendered command line, its terminator included.
abbrev pub size : Cmdline → ℕ
size cl = len cl.boot_args + 1 + (if is_empty cl.init_args then 0 else 4 + len cl.init_args)

pub record IsValid (cl : Cmdline) : Type 0 where
  pub fits : size cl ≤ cl.capacity
  pub word : IsU64 cl.capacity

-- Every character is printable ASCII.
pub record IsPrintable (cl : Cmdline) : Type 0 where
  pub boot : all valid_char cl.boot_args ≡ true
  pub init : all valid_char cl.init_args ≡ true

pub len_separator : len init_args_separator ≡ 4
unfolding len
len_separator = refl

-- The additions of the size do not overflow, and count what `size` says.
pub representation_size_lem :
    (cl : Cmdline) → IsValid cl → get_null_terminated_representation_size cl ≡ ok (size cl)
unfolding get_null_terminated_representation_size
representation_size_lem cl v = rw len_separator (ground arith)

-- What an argument adds: a space before it, unless it is the first.
pub len-push_arg :
    (args s : Str) → len (push_arg args s) ≡ (if is_empty args then 0 else len args + 1) + len s
len-push_arg [] s = omega arith
len-push_arg (c ∷ args) s =
    omega
      (arith, len-append ((c ∷ args) ++ (b' ' ∷ [])) s, len-append (c ∷ args) (b' ' ∷ []), space)
  where
    space : len (b' ' ∷ []) ≡ 1
    space = unfold len in refl

pub push_arg-valid :
    (args s : Str)
    → all valid_char args ≡ true
    → all valid_char s ≡ true
    → all valid_char (push_arg args s) ≡ true
push_arg-valid [] s ha hs = hs
push_arg-valid (c ∷ args) s ha hs =
    all-append valid_char ((c ∷ args) ++ (b' ' ∷ [])) s
      (all-append valid_char (c ∷ args) (b' ' ∷ []) ha space) hs
  where
    space : all valid_char (b' ' ∷ []) ≡ true
    space = unfold valid_char in refl

nil_len : len [] ≡ 0
unfolding len
nil_len = refl

-- The size after an argument is pushed.
size_of_boot :
    (boot init s : Str) (cap : ℕ)
    → size (record { boot_args = push_arg boot s; init_args = init; capacity = cap })
      ≡ size (record { boot_args = boot; init_args = init; capacity = cap })
        + (if is_empty boot then 0 else 1)
        + len s
size_of_boot [] init s cap = omega (arith, nil_len)
size_of_boot (c ∷ boot) init s cap = omega (arith, len-push_arg (c ∷ boot) s)

pub size-push_boot :
    (cl : Cmdline) (s : Str)
    → size (record cl { boot_args = push_arg cl.boot_args s })
      ≡ size cl + (if is_empty cl.boot_args then 0 else 1) + len s
size-push_boot cl s = size_of_boot cl.boot_args cl.init_args s cl.capacity

-- An empty first init argument adds no separator.
size_of_init :
    (boot init s : Str) (cap : ℕ)
    → size (record { boot_args = boot; init_args = push_arg init s; capacity = cap })
      ≤ size (record { boot_args = boot; init_args = init; capacity = cap })
        + (if is_empty init then 4 else 1)
        + len s
size_of_init boot [] [] cap = omega arith
size_of_init boot [] (d ∷ s) cap = omega arith
size_of_init boot (c ∷ init) s cap = omega (arith, len-push_arg (c ∷ init) s)

pub size-push_init :
    (cl : Cmdline) (s : Str)
    → size (record cl { init_args = push_arg cl.init_args s })
      ≤ size cl + (if is_empty cl.init_args then 4 else 1) + len s
size-push_init cl s = size_of_init cl.boot_args cl.init_args s cl.capacity
