-- ===== src/Loader/Elf/NoteFuel.antt =====
-- The loop of `parse_elf_note` in src/loader/x86_64/elf/mod.rs ends.
use linux_loader.Base.{
  ℕ, zero, suc, ◌+◌, ◌≤◌, ◌<◌, Bool, true, false, List, some, ◌≡◌, refl, ap, arith, ltb,
  if◌then◌else◌,
}
use linux_loader.Base.Outcome.{ok, Action, ◌>>=◌, bind-cong}
use linux_loader.Reader.{ReadSeek}
use linux_loader.LoaderGen.Elf.{Elf64Phdr, Elf64Nhdr, nhdr_of_bytes, nhdr_size}
use linux_loader.Loader.{Error, elf}
use linux_loader.Loader.Errors.Elf.{read_note_header}
use linux_loader.Loader.Elf.Note.{
  read_or, note_end, is_pvh_note, skip_note, next_note, note_body, note_loop,
}

note_end_grows :
    (read_size namesz descsz n : ℕ) → note_end read_size namesz descsz ≡ some n → read_size < n
unfolding note_end
note_end_grows read_size namesz descsz n h = ground arith

module _ {R : Type 0} (rs : ReadSeek R) where
  skip_note_grows :
      (phdr : Elf64Phdr) (nhdr : Elf64Nhdr) (read_size n : ℕ) (r r' : R)
      → skip_note rs phdr nhdr read_size r ≡ (ok n, r')
      → read_size < n
  unfolding skip_note
  skip_note_grows phdr nhdr read_size n r r' h = grind (arith, note_end_grows)

  module _ (phdr : Elf64Phdr) (read_size : ℕ)
      (again again' : Elf64Nhdr → ℕ → Action R Error (Elf64Nhdr × ℕ))
      (same : (nhdr : Elf64Nhdr) (n : ℕ) (r : R)
        → read_size < n
        → again nhdr n r ≡ again' nhdr n r) where
    next_note-cong :
        (nhdr : Elf64Nhdr) (stop : Bool) (r : R)
        → next_note rs phdr nhdr read_size (again nhdr) stop r
          ≡ next_note rs phdr nhdr read_size (again' nhdr) stop r
    next_note-cong nhdr true r = refl
    next_note-cong nhdr false r =
        bind-cong (skip_note rs phdr nhdr read_size) (again nhdr) (again' nhdr) r
          λ n r' h. same nhdr n r' (skip_note_grows phdr nhdr read_size n r r' h)

    note_body-cong :
        (r : R) → note_body rs phdr read_size again r ≡ note_body rs phdr read_size again' r
    note_body-cong r =
        bind-cong (read_or rs nhdr_size (elf read_note_header)) (after_header again)
          (after_header again') r
          λ bs r' h.
            bind-cong (is_pvh_note rs (nhdr_of_bytes bs))
              (λ stop.
                next_note rs phdr (nhdr_of_bytes bs) read_size (again (nhdr_of_bytes bs)) stop)
              (λ stop.
                next_note rs phdr (nhdr_of_bytes bs) read_size (again' (nhdr_of_bytes bs)) stop)
              r' λ stop r'' k. next_note-cong (nhdr_of_bytes bs) stop r''
      where
        after_header :
            (Elf64Nhdr → ℕ → Action R Error (Elf64Nhdr × ℕ))
            → List ℕ
            → Action R Error (Elf64Nhdr × ℕ)
        after_header next bs = is_pvh_note rs (nhdr_of_bytes bs) >>= λ stop.
            next_note rs phdr (nhdr_of_bytes bs) read_size (next (nhdr_of_bytes bs)) stop

  -- The loop over the notes gives the same result, and leaves the image in the same state, at any two
  -- fuels that reach from `read_size` to `p_filesz`: it does not run out of such a fuel.
  pub note_loop_enough :
      (f g : ℕ) (phdr : Elf64Phdr) (nhdr : Elf64Nhdr) (read_size : ℕ) (r : R)
      → phdr.p_filesz ≤ read_size + f
      → phdr.p_filesz ≤ read_size + g
      → note_loop rs f phdr nhdr read_size r ≡ note_loop rs g phdr nhdr read_size r
  unfolding note_loop
  note_loop_enough zero zero phdr nhdr read_size r p q = refl
  note_loop_enough zero (suc g) phdr nhdr read_size r p q = ground arith
  note_loop_enough (suc f) zero phdr nhdr read_size r p q = ground arith
  note_loop_enough (suc f) (suc g) phdr nhdr read_size r p q =
      ap (λ x. if ltb read_size phdr.p_filesz then x else (ok (nhdr, read_size), r))
        (note_body-cong phdr read_size (note_loop rs f phdr) (note_loop rs g phdr)
          (λ nhdr' n r' lt.
            note_loop_enough f g phdr nhdr' n r' (omega (arith, p, lt)) (omega (arith, q, lt)))
          r)
