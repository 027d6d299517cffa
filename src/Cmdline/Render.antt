-- ===== src/Cmdline/Render.antt =====
-- `as_cstring` and the conversion to bytes of src/cmdline/mod.rs.
use linux_loader.Base.{
  ℕ, ◌+◌, ◌≤◌, Bool, true, false, not, ◌&&◌, some, List, [], ◌∷◌, ◌++◌, ◌≡◌, refl, sym, ◌∙◌, arith,
  if◌then◌else◌, is_empty, any, ◌==◌, length, Bool-cases, inl, inr, all, all-append,
}
use linux_loader.Base.Outcome.{ok, err, ok_or, map_ok-eq-ok}
use linux_loader.Base.Word.{IsU64}
use linux_loader.Text.{Str, bytes, len, cstring, as_bytes_with_nul}
use linux_loader.Text.Laws.{bytes_nonzero, len-append, length-with_nul}
use linux_loader.Cmdline.{
  Cmdline, null_terminator, no_boot_args_inserted, init_args_separator, as_cstring, to_vec, new,
  valid_char,
}
use linux_loader.Cmdline.Size.{size, IsValid, IsPrintable, len_separator}
use linux_loader.Cmdline.Operations.{Call, calls, calls-IsValid}
use linux_loader.Cmdline.Printable.{printable_nonzero, calls-IsPrintable}

-- The text of a command line.
abbrev pub text : Cmdline → Str
text cl =
    if is_empty cl.init_args
    then cl.boot_args
    else cl.boot_args ++ (init_args_separator ++ cl.init_args)

-- Only init arguments: there is nothing before the separator.
abbrev pub lacks_boot : Cmdline → Bool
lacks_boot cl = is_empty cl.boot_args && not (is_empty cl.init_args)

-- `as_cstring` is the text of the command line, if it has boot arguments or is empty.
pub as_cstring_lem :
    (cl : Cmdline)
    → as_cstring cl ≡ (
        if lacks_boot cl
        then err no_boot_args_inserted
        else ok_or (cstring (text cl)) null_terminator)
unfolding as_cstring
as_cstring_lem cl = go cl.boot_args cl.init_args cl.capacity
  where
    go :
        (b i : Str) (n : ℕ)
        → let cl' : Cmdline = record { boot_args = b; init_args = i; capacity = n } in
          as_cstring cl' ≡ (
            if lacks_boot cl'
            then err no_boot_args_inserted
            else ok_or (cstring (text cl')) null_terminator)
    go [] [] n = refl
    go [] (c ∷ i) n = refl
    go (c ∷ b) [] n = refl
    go (c ∷ b) (d ∷ i) n = refl

cstring-some : (s : Str) → any (λ c. c == 0) s ≡ false → cstring s ≡ some (bytes s)
unfolding cstring
cstring-some s h = rw (bytes_nonzero s h)

printable_text : (cl : Cmdline) → IsPrintable cl → all valid_char (text cl) ≡ true
printable_text cl h = elim (Bool-cases (is_empty cl.init_args)) [
  | inl e ↦ rw e h.boot
  | inr e ↦ rw e (
      all-append valid_char cl.boot_args (init_args_separator ++ cl.init_args) h.boot
        (all-append valid_char init_args_separator cl.init_args (unfold valid_char in refl) h.init))
]

-- The bytes of a printable command line are the encoding of its text.
pub as_cstring-printable :
    (cl : Cmdline)
    → IsPrintable cl
    → as_cstring cl ≡ (if lacks_boot cl then err no_boot_args_inserted else ok (bytes (text cl)))
as_cstring-printable cl h =
    rw (
      as_cstring_lem cl,
      cstring-some (text cl) (printable_nonzero (text cl) (printable_text cl h)),
    )

len_of_text :
    (b i : Str) (n : ℕ)
    → let cl : Cmdline = record { boot_args = b; init_args = i; capacity = n } in
      len (text cl) + 1 ≡ size cl
len_of_text b [] n = omega arith
len_of_text b (c ∷ i) n = omega (
  arith,
  len-append b (init_args_separator ++ c ∷ i),
  len-append init_args_separator (c ∷ i),
  len_separator,
)

len-text : (cl : Cmdline) → len (text cl) + 1 ≡ size cl
len-text cl = len_of_text cl.boot_args cl.init_args cl.capacity

-- A NUL terminated string: one NUL, at its end.
pub record IsTerminated (bs : List ℕ) : Type 0 where
  pub body : List ℕ
  pub ends : bs ≡ body ++ (0 ∷ [])
  pub inner : any (λ b. b == 0) body ≡ false

ok_or-cstring :
    (s : Str) {bs : List ℕ}
    → ok_or (cstring s) null_terminator ≡ ok bs
    → (bs ≡ bytes s) × (any (λ b. b == 0) bs ≡ false)
unfolding cstring
ok_or-cstring s h = ground arith

as_cstring_sound :
    (cl : Cmdline) {bs : List ℕ}
    → as_cstring cl ≡ ok bs
    → (bs ≡ bytes (text cl)) × (any (λ b. b == 0) bs ≡ false)
as_cstring_sound cl {bs} h = go (lacks_boot cl) (rw as_cstring_lem at h)
  where
    go :
        (lacks : Bool)
        → (if lacks then err no_boot_args_inserted else ok_or (cstring (text cl)) null_terminator)
          ≡ ok bs
        → (bs ≡ bytes (text cl)) × (any (λ b. b == 0) bs ≡ false)
    go true e = cc
    go false e = ok_or-cstring (text cl) e

-- The bytes of a command line, when there are any, are NUL terminated, and as many as the size says.
pub to_vec_sound :
    (cl : Cmdline) {bs : List ℕ} → to_vec cl ≡ ok bs → IsTerminated bs × (length bs ≡ size cl)
unfolding to_vec
to_vec_sound cl {bs} h =
    let (body, made, ends) = map_ok-eq-ok as_bytes_with_nul (as_cstring cl) h in
    let (spelled, inner) = as_cstring_sound cl made in
    (
      record { body = body; ends = sym ends; inner = inner },
      rw (← ends, spelled) (length-with_nul (text cl) ∙ len-text cl),
    )

-- A builder fresh from `new`.
new-IsValid :
    (capacity : ℕ) {cl : Cmdline}
    → IsU64 capacity
    → new capacity ≡ ok cl
    → IsValid cl × IsPrintable cl × (cl.capacity ≡ capacity)
unfolding new len
new-IsValid capacity w h = ground arith

-- Whatever methods are called on a builder made by `new`, in whatever order and with whatever
-- arguments: if the command line has bytes, they are NUL terminated with no NUL before, and with the
-- terminator they fit the capacity.
pub to_vec-calls :
    (capacity : ℕ) (cl : Cmdline) (cs : List Call) (bs : List ℕ)
    → IsU64 capacity
    → new capacity ≡ ok cl
    → to_vec (calls cs cl) ≡ ok bs
    → IsTerminated bs × (length bs ≤ capacity)
to_vec-calls capacity cl cs bs w made h =
    let (valid, printable, same) = new-IsValid capacity w made in
    let (valid', same') = calls-IsValid cs cl valid in
    let (terminated, counted) = to_vec_sound (calls cs cl) h in
    (terminated, omega (arith, valid'.fits))

-- Such a builder has bytes, those of its text, unless it holds init arguments and no boot arguments;
-- then the error says so. A NUL is never met.
pub as_cstring-calls :
    (capacity : ℕ) (cl : Cmdline) (cs : List Call)
    → IsU64 capacity
    → new capacity ≡ ok cl
    → as_cstring (calls cs cl) ≡ (
        if lacks_boot (calls cs cl)
        then err no_boot_args_inserted
        else ok (bytes (text (calls cs cl))))
as_cstring-calls capacity cl cs w made =
    let (valid, printable, same) = new-IsValid capacity w made in
    as_cstring-printable (calls cs cl) (calls-IsPrintable cs cl valid printable)
