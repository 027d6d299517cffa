-- ===== src/Loader/Elf/NoteSteps.antt =====
-- The steps of `parse_elf_note` of src/loader/x86_64/elf/mod.rs on an image: what each reads and where
-- it leaves the position.
use linux_loader.Base.{
  ℕ, ◌+◌, ◌-◌, ◌^◌, Bool, true, false, ◌&&◌, ◌||◌, List, [], ◌∷◌, some, ◌≡◌, ◌⊎◌, inl, inr, sym, ap,
  ◌∙◌, arith, ltb, ◌==◌, take, drop, Bool-cases,
}
use linux_loader.Base.Int.{pos}
use linux_loader.Base.Word.{add_word}
use linux_loader.Base.Outcome.{
  ok, Action, pure, lift, raise_if, ◌>>=◌, ◌>>◌, ok_or, map_err, bind-eq-ok,
}
use linux_loader.Reader.{start, current, ReadSeek, IsImage}
use linux_loader.LoaderGen.Elf.{Elf64Phdr, Elf64Nhdr, nhdr_size}
use linux_loader.Loader.{Error, elf}
use linux_loader.Loader.Errors.Elf.{overflow, seek_note_header, read_note_header}
use linux_loader.Loader.Elf.Note.{
  xen_elfnote_phys32_entry, pvh_note_str_sz, align_up, note_end, is_xen, seek_or, read_or,
  is_pvh_note, skip_note,
}
use linux_loader.Loader.Elf.Align.{IsAligned, align_up-ok}
use mathlib.Core.Path.{subst}

is_xen-true : (bs : List ℕ) → is_xen bs ≡ true → bs ≡ b'X' ∷ b'e' ∷ b'n' ∷ 0 ∷ []
unfolding is_xen
is_xen-true bs h = ground arith

is_xen-false : (bs : List ℕ) → is_xen bs ≡ false → bs ≡ b'X' ∷ b'e' ∷ b'n' ∷ 0 ∷ [] → ⊥
unfolding is_xen
is_xen-false bs h e = ground arith

note_end-some :
    (n namesz descsz m : ℕ)
    → note_end n namesz descsz ≡ some m
    → m ≡ n + nhdr_size + namesz + descsz
unfolding note_end
note_end-some n namesz descsz m h = ground arith

module _ {R : Type 0} {rs : ReadSeek R} (image : IsImage rs) where
  -- The image is the same, and the position is `n`.
  abbrev pub IsAt : R → R → ℕ → Type 0
  IsAt r r' n = (image.bytes r' ≡ image.bytes r) × (image.position r' ≡ n)

  IsAt-through : (n : ℕ) (r r₁ r₂ r' : R) → r₁ ≡ r → IsAt r₁ r₂ n → r₂ ≡ r' → IsAt r r' n
  IsAt-through n r r₁ r₂ r' from (same, at) to =
      (ap image.bytes (sym to) ∙ same ∙ ap image.bytes from, ap image.position (sym to) ∙ at)

  pub seek_or-ok :
      (n a : ℕ) (e : Error) (r r' : R) → seek_or rs (start n) e r ≡ (ok a, r') → IsAt r r' n
  seek_or-ok n a e r r' h =
      let done : rs.seek (start n) r ≡ (ok a, r') = ground arith in
      (
        ap (λ p. image.bytes p.1) (sym done) ∙ image.seek-same (start n) r,
        image.seek_start n a r r' done,
      )

  pub seek_on-ok :
      (n a : ℕ) (e : Error) (r r' : R)
      → seek_or rs (current (pos n)) e r ≡ (ok a, r')
      → IsAt r r' (image.position r + n)
  seek_on-ok n a e r r' h =
      let done : rs.seek (current (pos n)) r ≡ (ok a, r') = ground arith in
      (
        ap (λ p. image.bytes p.1) (sym done) ∙ image.seek-same (current (pos n)) r,
        image.seek_current n a r r' done,
      )

  pub read_or-ok :
      (n : ℕ) (e : Error) (r r' : R) (bs : List ℕ)
      → read_or rs n e r ≡ (ok bs, r')
      → (bs ≡ take n (drop (image.position r) (image.bytes r))) × IsAt r r' (image.position r + n)
  read_or-ok n e r r' bs h =
      let done : rs.read_exact n r ≡ (ok bs, r') = ground arith in
      let (taken, counted, at) = image.read_exact-ok n r r' bs done in
      (taken, (ap (λ p. image.bytes p.1) (sym done) ∙ image.read-same n r, at))

  -- The type and the name of the note whose name is at the position are those of the PVH ABI.
  abbrev pub IsPvhHere : Elf64Nhdr → R → Type 0
  IsPvhHere nhdr r =
      (nhdr.n_type ≡ xen_elfnote_phys32_entry)
      × (nhdr.n_namesz ≡ pvh_note_str_sz)
      × (take pvh_note_str_sz (drop (image.position r) (image.bytes r))
          ≡ b'X' ∷ b'e' ∷ b'n' ∷ 0 ∷ [])

  -- What the test of a note finds.
  abbrev pub IsTested : Elf64Nhdr → Bool → R → R → Type 0
  IsTested nhdr stop r r' =
      (image.bytes r' ≡ image.bytes r)
      × (((stop ≡ true)
            × IsPvhHere nhdr r
            × (image.position r' ≡ image.position r + pvh_note_str_sz))
          ⊎ ((stop ≡ false) × (IsPvhHere nhdr r → ⊥)))

  named_note :
      (nhdr : Elf64Nhdr) (stop : Bool) (buf : List ℕ) (r r₁ r' : R)
      → nhdr.n_type ≡ xen_elfnote_phys32_entry
      → nhdr.n_namesz ≡ pvh_note_str_sz
      → is_xen buf ≡ stop
      → (buf ≡ take pvh_note_str_sz (drop (image.position r) (image.bytes r)))
        × IsAt r r₁ (image.position r + pvh_note_str_sz)
      → r₁ ≡ r'
      → IsTested nhdr stop r r'
  named_note nhdr stop buf r r₁ r' t n x (taken, (same, at)) stay = (
    ap image.bytes (sym stay) ∙ same,
    elim (Bool-cases (is_xen buf)) [
      | inl xen ↦
          inl (
            sym x ∙ xen,
            (t, n, sym taken ∙ is_xen-true buf xen),
            ap image.position (sym stay) ∙ at,
          )
      | inr alien ↦ inr (sym x ∙ alien, λ (_, _, xen). is_xen-false buf alien (taken ∙ xen))
    ],
  )

  pub is_pvh_note-ok :
      (nhdr : Elf64Nhdr) (stop : Bool) (r r' : R)
      → is_pvh_note rs nhdr r ≡ (ok stop, r')
      → IsTested nhdr stop r r'
  unfolding is_pvh_note
  is_pvh_note-ok nhdr stop r r' h =
      elim (Bool-cases
        (nhdr.n_type == xen_elfnote_phys32_entry && nhdr.n_namesz == pvh_note_str_sz)) [
          | inl named ↦
              let (buf, r₁, e₁, h₁) =
                bind-eq-ok (read_or rs pvh_note_str_sz (elf read_note_header))
                  (λ buf. pure (is_xen buf)) r r' stop (ground arith) in
              named_note nhdr stop buf r r₁ r' (ground arith) (ground arith) (ground arith)
                (read_or-ok pvh_note_str_sz (elf read_note_header) r r₁ buf e₁) (ground arith)
          | inr other ↦ (ground arith, inr (ground arith, λ (t, n, x). ground arith))
        ]

  -- Where a note is skipped to.
  abbrev pub IsSkipped : Elf64Phdr → Elf64Nhdr → ℕ → ℕ → R → R → Type 0
  IsSkipped phdr nhdr n m r r' =
      (namesz descsz : ℕ) × IsAligned nhdr.n_namesz phdr.p_align namesz
      × IsAligned nhdr.n_descsz phdr.p_align descsz
      × (m ≡ n + nhdr_size + namesz + descsz)
      × IsAt r r' (phdr.p_offset + m)

  skipped :
      (phdr : Elf64Phdr) (nhdr : Elf64Nhdr) (n m namesz descsz k target : ℕ) (r r₅ r₆ r' : R)
      → align_up nhdr.n_namesz phdr.p_align ≡ ok namesz
      → align_up nhdr.n_descsz phdr.p_align ≡ ok descsz
      → note_end n namesz descsz ≡ some k
      → k ≡ m
      → target ≡ phdr.p_offset + k
      → r₅ ≡ r
      → IsAt r₅ r₆ target
      → r₆ ≡ r'
      → IsSkipped phdr nhdr n m r r'
  skipped phdr nhdr n m namesz descsz k target r r₅ r₆ r' named described whole which aim from at
        to =
      (
        namesz,
        descsz,
        (align_up-ok nhdr.n_namesz phdr.p_align namesz named).1,
        (align_up-ok nhdr.n_descsz phdr.p_align descsz described).1,
        sym which ∙ note_end-some n namesz descsz k whole,
        IsAt-through (phdr.p_offset + m) r r₅ r₆ r' from
            (subst (IsAt r₅ r₆) (aim ∙ ap (λ t. phdr.p_offset + t) which) at) to,
      )

  pub skip_note-ok :
      (phdr : Elf64Phdr) (nhdr : Elf64Nhdr) (n m : ℕ) (r r' : R)
      → skip_note rs phdr nhdr n r ≡ (ok m, r')
      → IsSkipped phdr nhdr n m r r'
  unfolding skip_note
  skip_note-ok phdr nhdr n m r r' h =
      let go : ℕ → Action R Error ℕ = λ k. lift (add_word phdr.p_offset k) >>= λ target.
      seek_or rs (start target) (elf seek_note_header) >>= λ _. pure k in
      let whole : ℕ → ℕ → Action R Error ℕ = λ namesz descsz.
        raise_if (ltb (2 ^ 32 - 1) namesz || ltb (2 ^ 32 - 1) descsz) (elf overflow)
        >> (lift (ok_or (note_end n namesz descsz) (elf overflow)) >>= go) in
      let padded : ℕ → Action R Error ℕ = λ size. lift (map_err elf (align_up size phdr.p_align)) in
      let (namesz, r₁, e₁, h₁) =
        bind-eq-ok (padded nhdr.n_namesz) (λ namesz. padded nhdr.n_descsz >>= whole namesz) r r' m
          h in
      let (descsz, r₂, e₂, h₂) = bind-eq-ok (padded nhdr.n_descsz) (whole namesz) r₁ r' m h₁ in
      let (_, r₃, e₃, h₃) =
        bind-eq-ok (raise_if (ltb (2 ^ 32 - 1) namesz || ltb (2 ^ 32 - 1) descsz) (elf overflow))
          (λ _. lift (ok_or (note_end n namesz descsz) (elf overflow)) >>= go) r₂ r' m h₂ in
      let (k, r₄, e₄, h₄) =
        bind-eq-ok (lift (ok_or (note_end n namesz descsz) (elf overflow))) go r₃ r' m h₃ in
      let (target, r₅, e₅, h₅) =
        bind-eq-ok (lift (add_word phdr.p_offset k))
          (λ target. seek_or rs (start target) (elf seek_note_header) >>= λ _. pure k) r₄ r' m h₄ in
      let (a, r₆, e₆, h₆) =
        bind-eq-ok (seek_or rs (start target) (elf seek_note_header)) (λ _. pure k) r₅ r' m h₅ in
      skipped phdr nhdr n m namesz descsz k target r r₅ r₆ r' (ground arith) (ground arith)
        (ground arith) (ground arith) (ground arith) (ground arith)
        (seek_or-ok target a (elf seek_note_header) r₅ r₆ e₆) (ground arith)
