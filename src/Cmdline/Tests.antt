-- ===== src/Cmdline/Tests.antt =====
-- Runs of the builder of src/cmdline/mod.rs, after its unit tests, and the theorems at concrete inputs.
use linux_loader.Base.{
  ◌≢◌, ℕ, List, [], ◌∷◌, ◌++◌, ◌≡◌, refl, none, some, ◌^◌, ◌*◌, true, inr, length, ◌≤◌, arith,
}
use linux_loader.Base.Outcome.{Result, ok, err, ◌>>◌}
use linux_loader.Text.{Str, codes, trim, len, match_indices, starts_with, find, join, cstring}
use linux_loader.Text.Number.{decimal, hexadecimal}
use linux_loader.Cmdline.{
  Cmdline, Error, insert_str, insert, insert_init_args, insert_multiple, to_vec, as_cstring, Method,
  too_large, has_space, invalid_capacity, new, eq, valid_values, valid_element, valid_str,
  valid_char, get_null_terminated_representation_size,
}
use linux_loader.Cmdline.Parse.{
  try_from, parsed_size, split_args, split_at, find_separator, check_outside_double_quotes, quotes,
}
use linux_loader.Cmdline.Device.{add_virtio_mmio_device, device_str, id_suffix, guestusize_to_str}
use linux_loader.Cmdline.Equality.{eq_iff, eq_without_boot_args}
use linux_loader.Cmdline.Size.{IsValid}
use linux_loader.Cmdline.Insert.{with_boot, insert_str_lem, insert_init_args_lem}
use linux_loader.Cmdline.Operations.{
  Call, str, init, pair, multiple, device, call, calls, IsKept, call-IsKept,
}
use linux_loader.Cmdline.Render.{IsTerminated, to_vec-calls, as_cstring-calls}
use linux_loader.Cmdline.Split.{sep, first_cut, find_separator_sound, find_separator_complete}
use linux_loader.Cmdline.Parsing.{parts, IsReadable, try_from_lem, try_from-text}

-- Opens what a run computes with.
build : Str → ℕ → Result Error Cmdline
unfolding try_from parsed_size split_args split_at find_separator check_outside_double_quotes quotes
    match_indices starts_with find add_virtio_mmio_device device_str id_suffix guestusize_to_str
    decimal hexadecimal insert_str insert insert_init_args insert_multiple valid_values
    valid_element valid_str valid_char get_null_terminated_representation_size trim len join cstring
    to_vec as_cstring eq
build = try_from

abbrev fresh : ℕ → Cmdline
fresh capacity = record { boot_args = []; init_args = []; capacity = capacity }

abbrev session : Method (Unit {0})
session = do
  insert_init_args (codes "/etc/password")
  insert (codes "console") (codes "ttyS0")
  insert_str (codes "nomodules")
  insert_init_args (codes " --param ")
  insert_multiple (codes "foo") (codes "bar" ∷ codes "baz" ∷ [])

abbrev one_call : Cmdline
one_call = (insert_str (codes "hello world!") (fresh 20)).1

abbrev two_calls : Cmdline
two_calls = (insert_str (codes "world!") (insert_str (codes "hello") (fresh 30)).1).1

session_text :
    to_vec (session (fresh 100)).1
    ≡ ok (codes "console=ttyS0 nomodules foo=bar,baz -- /etc/password --param" ++ (0 ∷ []))
unfolding build
session_text = refl

too_large_test : insert (codes "hello") (codes "b") (fresh 4) ≡ (err too_large, fresh 4)
unfolding build
too_large_test = refl

space_test : insert (codes "a ") (codes "b") (fresh 100) ≡ (err has_space, fresh 100)
unfolding build
space_test = refl

quoted_test :
    try_from (codes "a=\"b -- c\" d -- e ") 100
    ≡ ok (record { boot_args = codes "a=\"b -- c\" d"; init_args = codes "e"; capacity = 100 })
unfolding build
quoted_test = refl

device_test :
    (add_virtio_mmio_device (4 * 2 ^ 30) 0x10000 4 (some 42) (fresh 100)).1.boot_args
    ≡ codes "virtio_mmio.device=4G@0x10000:4:42"
unfolding build
device_test = refl

eq_test : eq one_call two_calls ≡ true
unfolding build
eq_test = (eq_iff one_call two_calls).1 refl

abbrev calls_made : List Call
calls_made =
    init (codes "/etc/password")
    ∷ pair (codes "console") (codes "ttyS0")
    ∷ pair (codes "a b") (codes "c")
    ∷ str (codes " nomodules")
    ∷ multiple (codes "foo") (codes "bar" ∷ codes "baz" ∷ [])
    ∷ device 4096 0x10000 4 none
    ∷ []

abbrev made_text : Str
made_text =
    codes "console=ttyS0 nomodules foo=bar,baz virtio_mmio.device=4K@0x10000:4 -- /etc/password"

abbrev full : Cmdline
full = record { boot_args = codes "a=\"x -- y\" b"; init_args = codes "c -- d"; capacity = 40 }

full-IsValid : IsValid full
unfolding build
full-IsValid = record { fits = omega arith; word = omega arith }

full-IsReadable : IsReadable full
unfolding build first_cut
full-IsReadable = record { boot_trimmed = refl; init_trimmed = refl; uncut = inr (cc, refl) }

to_vec-calls_example : IsTerminated (made_text ++ (0 ∷ [])) × (length (made_text ++ (0 ∷ [])) ≤ 100)
unfolding build new calls call
to_vec-calls_example =
    to_vec-calls 100 (fresh 100) calls_made (made_text ++ (0 ∷ [])) (omega arith) refl refl

as_cstring-calls_example : as_cstring (calls calls_made (fresh 100)) ≡ ok made_text
unfolding build new calls call
as_cstring-calls_example = as_cstring-calls 100 (fresh 100) calls_made (omega arith) refl

call-IsKept_example : IsKept full (call (init (codes "e")) full)
call-IsKept_example = call-IsKept (init (codes "e")) full full-IsValid

insert_str_lem_example : insert_str (codes " e=f ") full ≡ (ok tt, with_boot full (codes "e=f"))
unfolding build
insert_str_lem_example = insert_str_lem (codes " e=f ") full full-IsValid

insert_init_args_lem_example :
    insert_init_args (codes "far too long an argument") full ≡ (err too_large, full)
unfolding build
insert_init_args_lem_example =
    insert_init_args_lem (codes "far too long an argument") full full-IsValid

try_from-text_example : try_from (codes "a=\"x -- y\" b -- c -- d") 40 ≡ ok full
unfolding build
try_from-text_example = try_from-text full full-IsValid full-IsReadable

try_from_lem_example : try_from (codes "a=b -- c") 8 ≡ err invalid_capacity
unfolding build parts first_cut
try_from_lem_example = try_from_lem (codes "a=b -- c") 8

find_separator_sound_example :
    (b : Str) × (r : Str) × (codes "\" -- \"a -- b" ≡ b ++ r)
    × (7 ≡ length b)
    × (starts_with sep r ≡ true)
    × (check_outside_double_quotes b ≡ true)
unfolding build
find_separator_sound_example = find_separator_sound (codes "\" -- \"a -- b") 7 refl

find_separator_complete_example :
    (i : ℕ) × (find_separator (codes "x -- a" ++ codes " -- b") ≡ some i) × (i ≤ 6)
unfolding build
find_separator_complete_example = find_separator_complete (codes "x -- a") (codes " -- b") refl refl

abbrev init_only : Str → Cmdline
init_only i = record { boot_args = []; init_args = i; capacity = 40 }

a_given : codes "a" ≢ []
a_given = cc

b_given : codes "b" ≢ []
b_given = cc

eq_without_boot_args_example : eq (init_only (codes "a")) (init_only (codes "b")) ≡ true
eq_without_boot_args_example =
    eq_without_boot_args (init_only (codes "a")) (init_only (codes "b")) refl refl a_given b_given
