-- ===== src/Loader/Elf/NoteFound.antt =====
-- The loop of `parse_elf_note` in src/loader/x86_64/elf/mod.rs on a note segment.
use linux_loader.Base.{
  ℕ, zero, suc, ◌+◌, ◌≤◌, ◌<◌, Bool, true, false, List, ◌≡◌, ◌⊎◌, inl, inr, sym, ap, ◌∙◌, arith,
  ltb, take, drop, Bool-cases,
}
use linux_loader.Base.Outcome.{ok, Action, ◌>>=◌, bind-eq-ok}
use linux_loader.Reader.{ReadSeek, IsImage}
use linux_loader.LoaderGen.Elf.{Elf64Phdr, Elf64Nhdr, nhdr_size, nhdr_of_bytes}
use linux_loader.Loader.{Error, elf}
use linux_loader.Loader.Errors.Elf.{read_note_header}
use linux_loader.Loader.Elf.Note.{
  pvh_note_str_sz, read_or, is_pvh_note, skip_note, next_note, note_body, note_loop,
}
use linux_loader.Loader.Elf.Align.{IsAligned}
use linux_loader.Loader.Elf.Notes.{note_at, IsPvhNote, IsReached, next}
use linux_loader.Loader.Elf.NoteSteps.{IsTested, read_or-ok, is_pvh_note-ok, skip_note-ok}
use mathlib.Core.Path.{subst}

module _ {R : Type 0} {rs : ReadSeek R} (image : IsImage rs) (bytes : List ℕ)
    (phdr : Elf64Phdr) where
  -- The loop is at the note `n` bytes into the segment.
  abbrev pub IsBefore : ℕ → R → Type 0
  IsBefore n r =
      (image.bytes r ≡ bytes) × (image.position r ≡ phdr.p_offset + n) × IsReached bytes phdr n

  -- What the loop has found: the segment's end, or a note with the entry point, whose header and name
  -- it has read.
  abbrev pub IsAfter : Elf64Nhdr × ℕ → R → Type 0
  IsAfter found r =
      (image.bytes r ≡ bytes)
      × IsReached bytes phdr found.1
      × ((phdr.p_filesz ≤ found.1)
          ⊎ ((found.1 < phdr.p_filesz)
              × IsPvhNote bytes phdr found.1
              × (found.0 ≡ note_at bytes phdr found.1)
              × (image.position r ≡ phdr.p_offset + found.1 + nhdr_size + pvh_note_str_sz)))

  -- The action takes every note reached to what is found.
  abbrev pub Finds : (ℕ → Action R Error (Elf64Nhdr × ℕ)) → Type 0
  Finds again =
      (n : ℕ) (r r' : R) (found : Elf64Nhdr × ℕ)
      → IsBefore n r
      → again n r ≡ (ok found, r')
      → IsAfter found r'

  ended :
      (nhdr : Elf64Nhdr) (n : ℕ) (r r' : R) (found : Elf64Nhdr × ℕ)
      → image.bytes r ≡ bytes
      → IsReached bytes phdr n
      → phdr.p_filesz ≤ n
      → n ≡ found.1
      → r ≡ r'
      → IsAfter found r'
  ended nhdr n r r' found same reached past offset stay =
      subst (IsAfter found) stay (rw (sym offset) (same, reached, inl past))

  name_here :
      (n : ℕ) (r : R)
      → image.bytes r ≡ bytes
      → image.position r ≡ phdr.p_offset + n + nhdr_size
      → take pvh_note_str_sz (drop (image.position r) (image.bytes r))
        ≡ take pvh_note_str_sz (drop (phdr.p_offset + n + nhdr_size) bytes)
  name_here n r same at =
      ap (λ b. take pvh_note_str_sz (drop (image.position r) b)) same
      ∙ ap (λ p. take pvh_note_str_sz (drop p bytes)) at

  next_note-IsAfter :
      (nhdr : Elf64Nhdr) (n : ℕ) (again : ℕ → Action R Error (Elf64Nhdr × ℕ)) (stop : Bool)
      (r₁ r₂ r' : R) (found : Elf64Nhdr × ℕ)
      → n < phdr.p_filesz
      → IsReached bytes phdr n
      → nhdr ≡ note_at bytes phdr n
      → image.bytes r₁ ≡ bytes
      → image.position r₁ ≡ phdr.p_offset + n + nhdr_size
      → IsTested image nhdr stop r₁ r₂
      → Finds again
      → next_note rs phdr nhdr n again stop r₂ ≡ (ok found, r')
      → IsAfter found r'
  next_note-IsAfter nhdr n again true r₁ r₂ r' found inside reached which same at
        (same', inl (_, (t, sized, x), moved)) finds h =
      let header : found.0 ≡ nhdr = ground arith in
      let offset : found.1 ≡ n = ground arith in
      let stay : r₂ ≡ r' = ground arith in
      subst (IsAfter found) stay (
        rw offset (
          same' ∙ same,
          reached,
          inr (
            inside,
            (
              ap (λ h. h.n_type) (sym which) ∙ t,
              ap (λ h. h.n_namesz) (sym which) ∙ sized,
              sym (name_here n r₁ same at) ∙ x,
            ),
            header ∙ which,
            moved ∙ ap (λ p. p + pvh_note_str_sz) at,
          ),
        ))
  next_note-IsAfter nhdr n again true r₁ r₂ r' found inside reached which same at
        (same', inr (e, other)) finds h =
      cc
  next_note-IsAfter nhdr n again false r₁ r₂ r' found inside reached which same at
        (same', inl (e, _, _)) finds h =
      cc
  next_note-IsAfter nhdr n again false r₁ r₂ r' found inside reached which same at
        (same', inr (_, other)) finds h =
      let (m, r₃, e₃, h₃) = bind-eq-ok (skip_note rs phdr nhdr n) again r₂ r' found h in
      let (namesz, descsz, named, described, sum, (same₃, at₃)) =
        skip_note-ok image phdr nhdr n m r₂ r₃ e₃ in
      finds m r₃ r' found
        (
          same₃ ∙ same' ∙ same,
          at₃,
          subst (IsReached bytes phdr) (sym sum) (
              next n namesz descsz reached inside
                (λ (t, sized, x). other (
                  ap (λ h. h.n_type) which ∙ t,
                  ap (λ h. h.n_namesz) which ∙ sized,
                  name_here n r₁ same at ∙ x,
                ))
                (subst (λ h. IsAligned h.n_namesz phdr.p_align namesz) which named)
                (subst (λ h. IsAligned h.n_descsz phdr.p_align descsz) which described)),
        )
        h₃

  note_body-IsAfter :
      (n : ℕ) (again : Elf64Nhdr → ℕ → Action R Error (Elf64Nhdr × ℕ)) (r r' : R)
      (found : Elf64Nhdr × ℕ)
      → n < phdr.p_filesz
      → IsBefore n r
      → ((nhdr : Elf64Nhdr) → Finds (again nhdr))
      → note_body rs phdr n again r ≡ (ok found, r')
      → IsAfter found r'
  note_body-IsAfter n again r r' found inside (same, at, reached) finds h =
      let (bs, r₁, e₁, h₁) =
        bind-eq-ok (read_or rs nhdr_size (elf read_note_header))
          (λ bs. is_pvh_note rs (nhdr_of_bytes bs) >>= λ stop.
            next_note rs phdr (nhdr_of_bytes bs) n (again (nhdr_of_bytes bs)) stop)
          r r' found h in
      let (stop, r₂, e₂, h₂) =
        bind-eq-ok (is_pvh_note rs (nhdr_of_bytes bs))
          (λ stop. next_note rs phdr (nhdr_of_bytes bs) n (again (nhdr_of_bytes bs)) stop) r₁ r'
          found h₁ in
      let (taken, (same₁, at₁)) = read_or-ok image nhdr_size (elf read_note_header) r r₁ bs e₁ in
      next_note-IsAfter (nhdr_of_bytes bs) n (again (nhdr_of_bytes bs)) stop r₁ r₂ r' found inside
        reached
        (ap nhdr_of_bytes (
          taken
          ∙ ap (λ b. take nhdr_size (drop (image.position r) b)) same
          ∙ ap (λ p. take nhdr_size (drop p bytes)) at))
        (same₁ ∙ same) (at₁ ∙ ap (λ p. p + nhdr_size) at)
        (is_pvh_note-ok image (nhdr_of_bytes bs) stop r₁ r₂ e₂) (finds (nhdr_of_bytes bs)) h₂

  pub note_loop-IsAfter : (fuel : ℕ) (nhdr : Elf64Nhdr) → Finds (note_loop rs fuel phdr nhdr)
  unfolding note_loop
  note_loop-IsAfter zero nhdr n r r' found (same, at, reached) h =
      ended nhdr n r r' found same reached (ground arith) (ground arith) (ground arith)
  note_loop-IsAfter (suc fuel) nhdr n r r' found before h =
      elim (Bool-cases (ltb n phdr.p_filesz)) [
        | inl inside ↦
            note_body-IsAfter n (note_loop rs fuel phdr) r r' found (ground arith) before
              (note_loop-IsAfter fuel) (ground arith)
        | inr past ↦
            ended nhdr n r r' found before.0 before.2 (ground arith) (ground arith) (ground arith)
      ]
