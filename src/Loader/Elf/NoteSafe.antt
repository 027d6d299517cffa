-- ===== src/Loader/Elf/NoteSafe.antt =====
-- `parse_elf_note` of src/loader/x86_64/elf/mod.rs does not panic on a segment within bounds.
use linux_loader.Base.{
  ℕ, zero, suc, ◌+◌, ◌≤◌, ◌<◌, ◌^◌, Bool, true, false, ◌≡◌, ◌≢◌, inl, inr, refl, sym, ap, ◌∙◌,
  arith, ltb, leb, drop, Bool-cases,
}
use linux_loader.Base.Word.{two_64}
use linux_loader.Base.Outcome.{Result, ok, panic, Action, pure, ◌>>=◌, bind_calm, bind-eq-ok}
use linux_loader.Reader.{start, ReadSeek, IsImage}
use linux_loader.LoaderGen.Bytes.{are_bytes, are_bytes-take, are_bytes-drop}
use linux_loader.LoaderGen.Elf.{Elf64Phdr, Elf64Nhdr, nhdr_size, nhdr_of_bytes}
use linux_loader.Loader.{Error, elf}
use linux_loader.Loader.Errors.Elf.{seek_note_header, read_note_header}
use linux_loader.Loader.Elf.Note.{
  seek_or, read_or, is_pvh_note, skip_note, next_note, note_body, note_loop, default_nhdr,
  after_loop, parse_elf_note,
}
use mathlib.Core.Path.{subst}
use linux_loader.Loader.Elf.NoteKeeps.{skip_note-Keeps}
use linux_loader.Loader.Elf.NoteSteps.{is_pvh_note-ok, skip_note-ok, read_or-ok, seek_or-ok}
use linux_loader.Loader.Elf.NoteCalm.{
  IsSmall, nhdr_of_bytes-IsSmall, skip_note_calm, is_pvh_note_calm, read_entry_calm,
}

module _ {R : Type 0} {rs : ReadSeek R} (image : IsImage rs) where
  -- The bytes of the image are bytes.
  abbrev AreBytes : R → Type 0
  AreBytes r = are_bytes (image.bytes r) ≡ true

  AreBytes-from : (r r' : R) → image.bytes r' ≡ image.bytes r → AreBytes r → AreBytes r'
  AreBytes-from r r' same h = ap are_bytes same ∙ h

  module _ (phdr : Elf64Phdr) (fits : phdr.p_offset + phdr.p_filesz + 2 ^ 34 ≤ two_64) where
    -- The action does not panic, and what it returns below the segment's end is a small header.
    abbrev IsCalmEnd : Result Error (Elf64Nhdr × ℕ) × R → Type 0
    IsCalmEnd p =
        (p.0 ≢ panic)
        × ((found : Elf64Nhdr × ℕ) (r' : R)
            → p ≡ (ok found, r')
            → (found.1 < phdr.p_filesz)
            → IsSmall found.0)

    abbrev IsCalm : Action R Error (Elf64Nhdr × ℕ) → R → Type 0
    IsCalm again r = IsCalmEnd (again r)

    IsCalm-bind :
        {A : Type 0} (m : Action R Error A) (f : A → Action R Error (Elf64Nhdr × ℕ)) (r : R)
        → (m r).0 ≢ panic
        → ((a : A) (r' : R) → m r ≡ (ok a, r') → IsCalm (f a) r')
        → IsCalm (m >>= f) r
    IsCalm-bind m f r first rest = (
      bind_calm m f r first (λ a r' e. (rest a r' e).0),
      λ found r' h inside.
          let (a, r₁, e₁, h₁) = bind-eq-ok m f r r' found h in (rest a r₁ e₁).1 found r' h₁ inside,
    )

    grown :
        (n m : ℕ) (r r' : R) (nhdr : Elf64Nhdr) → skip_note rs phdr nhdr n r ≡ (ok m, r') → n < m
    grown n m r r' nhdr e =
        let (namesz, descsz, _, _, sum, _) = skip_note-ok image phdr nhdr n m r r' e in
        omega (arith, sum)

    ended :
        (nhdr : Elf64Nhdr) (n : ℕ) (r : R) {p : Result Error (Elf64Nhdr × ℕ) × R}
        → IsSmall nhdr
        → (ok (nhdr, n), r) ≡ p
        → IsCalmEnd p
    ended nhdr n r small e =
        subst IsCalmEnd e (λ h. cc, λ found r' h below. subst IsSmall (header found r' h) small)
      where
        header :
            (found : Elf64Nhdr × ℕ) (r' : R)
            → pure {S = R} {E = Error} (nhdr, n) r ≡ (ok found, r')
            → nhdr ≡ found.0
        header found r' h = ground arith

    next_note-IsCalm :
        (nhdr : Elf64Nhdr) (n : ℕ) (again : ℕ → Action R Error (Elf64Nhdr × ℕ)) (stop : Bool)
        (r : R)
        → IsSmall nhdr
        → n < phdr.p_filesz
        → AreBytes r
        → ((m : ℕ) (r' : R) → n < m → AreBytes r' → IsCalm (again m) r')
        → IsCalm (next_note rs phdr nhdr n again stop) r
    next_note-IsCalm nhdr n again true r small inside bytes calm = ended nhdr n r small refl
    next_note-IsCalm nhdr n again false r small inside bytes calm =
        IsCalm-bind (skip_note rs phdr nhdr n) again r
          (skip_note_calm image phdr nhdr n r small inside fits)
          λ m r' e. calm m r' (grown n m r r' nhdr e) (
            AreBytes-from r r'
              (ap (λ p. image.bytes p.1) (sym e) ∙ skip_note-Keeps image phdr nhdr n r) bytes)

    note_body-IsCalm :
        (n : ℕ) (again : Elf64Nhdr → ℕ → Action R Error (Elf64Nhdr × ℕ)) (r : R)
        → n < phdr.p_filesz
        → AreBytes r
        → ((nhdr : Elf64Nhdr) (m : ℕ) (r' : R)
            → n < m
            → IsSmall nhdr
            → AreBytes r'
            → IsCalm (again nhdr m) r')
        → IsCalm (note_body rs phdr n again) r
    note_body-IsCalm n again r inside bytes calm =
        IsCalm-bind (read_or rs nhdr_size (elf read_note_header))
          (λ bs. is_pvh_note rs (nhdr_of_bytes bs) >>= λ stop.
            next_note rs phdr (nhdr_of_bytes bs) n (again (nhdr_of_bytes bs)) stop)
          r (ground (arith, image.read_calm nhdr_size r))
          λ bs r₁ e₁.
            (let (taken, (same₁, _)) =
                read_or-ok image nhdr_size (elf read_note_header) r r₁ bs e₁ in
              let small : IsSmall (nhdr_of_bytes bs) = nhdr_of_bytes-IsSmall bs (
                ap are_bytes taken
                ∙ are_bytes-take nhdr_size (drop (image.position r) (image.bytes r))
                    (are_bytes-drop (image.position r) (image.bytes r) bytes)) in
              IsCalm-bind (is_pvh_note rs (nhdr_of_bytes bs))
                (λ stop. next_note rs phdr (nhdr_of_bytes bs) n (again (nhdr_of_bytes bs)) stop) r₁
                (is_pvh_note_calm image (nhdr_of_bytes bs) r₁)
                λ stop r₂ e₂.
                  next_note-IsCalm (nhdr_of_bytes bs) n (again (nhdr_of_bytes bs)) stop r₂ small
                    inside
                    (AreBytes-from r₁ r₂ (is_pvh_note-ok image (nhdr_of_bytes bs) stop r₁ r₂ e₂).0
                      (AreBytes-from r r₁ same₁ bytes))
                    (λ m r' grows bytes'. calm (nhdr_of_bytes bs) m r' grows small bytes'))

    note_loop-IsCalm :
        (fuel : ℕ) (nhdr : Elf64Nhdr) (n : ℕ) (r : R)
        → IsSmall nhdr
        → AreBytes r
        → phdr.p_filesz ≤ n + fuel
        → IsCalm (note_loop rs fuel phdr nhdr n) r
    unfolding note_loop
    note_loop-IsCalm zero nhdr n r small bytes enough = ended nhdr n r small (ground arith)
    note_loop-IsCalm (suc fuel) nhdr n r small bytes enough =
        elim (Bool-cases (ltb n phdr.p_filesz)) [
          | inl inside ↦ subst IsCalmEnd (rw inside refl) (
              note_body-IsCalm n (note_loop rs fuel phdr) r (ground arith) bytes
                λ nhdr' m r' grows small' bytes'.
                  note_loop-IsCalm fuel nhdr' m r' small' bytes' (omega (arith, enough, grows)))
          | inr past ↦ subst IsCalmEnd (rw past refl) (ended nhdr n r small refl)
        ]

  -- The search for the PVH entry point does not panic, on an image of bytes, at a note segment that
  -- ends at least 2^34 below 2^64 and is not aligned to 2^63: no sum overflows, the offset to the
  -- descriptor stays in range, and the loop does not run out of fuel.
  pub parse_elf_note_calm :
      (phdr : Elf64Phdr) (r : R)
      → are_bytes (image.bytes r) ≡ true
      → phdr.p_offset + phdr.p_filesz + 2 ^ 34 ≤ two_64
      → phdr.p_align ≢ 2 ^ 63
      → (parse_elf_note rs phdr r).0 ≢ panic
  unfolding parse_elf_note after_loop
  parse_elf_note_calm phdr r bytes fits odd =
      bind_calm (seek_or rs (start phdr.p_offset) (elf seek_note_header))
        (λ _. note_loop rs phdr.p_filesz phdr default_nhdr 0 >>= after_loop rs phdr) r
        (ground (arith, image.seek_calm (start phdr.p_offset) r))
        λ a r₁ e₁.
          (let (same, _) = seek_or-ok image phdr.p_offset a (elf seek_note_header) r r₁ e₁ in
            let (calm, small) =
              note_loop-IsCalm phdr fits phdr.p_filesz default_nhdr 0 r₁ (omega arith, omega arith)
                (AreBytes-from r r₁ same bytes) (omega arith) in
            bind_calm (note_loop rs phdr.p_filesz phdr default_nhdr 0) (after_loop rs phdr) r₁ calm
              λ found r₂ e₂. ended_calm phdr found r₂ odd (small found r₂ e₂))
    where
      ended_calm :
          (phdr : Elf64Phdr) (found : Elf64Nhdr × ℕ) (r : R)
          → phdr.p_align ≢ 2 ^ 63
          → (found.1 < phdr.p_filesz → IsSmall found.0)
          → (after_loop rs phdr found r).0 ≢ panic
      ended_calm phdr found r odd small = elim (Bool-cases (leb phdr.p_filesz found.1)) [
        | inl past ↦ ground arith
        | inr inside ↦
            ground (arith, read_entry_calm image phdr found.0 r (small (ground arith)) odd)
      ]
