-- ===== src/Loader/Elf/NoteEntry.antt =====
-- The last part of `parse_elf_note` of src/loader/x86_64/elf/mod.rs: the read of the entry point.
use linux_loader.Base.{ℕ, ◌+◌, ◌-◌, ◌≤◌, ◌<◌, ◌^◌, List, ◌≡◌, sym, ap, ◌∙◌, arith, ltb, take, drop}
use linux_loader.Base.Int.{ℤ, pos, as_i64, sub_i64}
use linux_loader.Base.Outcome.{ok, Action, pure, lift, raise_if, ◌>>=◌, ◌>>◌, map_err, bind-eq-ok}
use linux_loader.Reader.{current, ReadSeek, IsImage}
use linux_loader.LoaderGen.{from_le_bytes}
use linux_loader.LoaderGen.Elf.{Elf64Phdr, Elf64Nhdr}
use linux_loader.Loader.{Error, elf, PvhBootCapability, pvh_entry_present}
use linux_loader.Loader.Errors.Elf.{seek_note_header, read_note_header, invalid_pvh_note}
use linux_loader.Loader.Elf.Note.{pvh_note_str_sz, align_up, seek_or, read_or, read_entry}
use linux_loader.Loader.Elf.Align.{IsAligned, align_up-ok}
use native.Mathlib.Nat.{pow-le-pow_right}
use mathlib.Core.Path.{subst}
use linux_loader.Loader.Elf.NoteSteps.{IsAt, seek_on-ok, read_or-ok}

-- The offset to the descriptor, behind the padded name. A success means that it is no negative one.
entry_offset :
    (k alignment namesz : ℕ) (offset : ℤ)
    → k < 64
    → alignment ≡ 2 ^ k
    → IsAligned pvh_note_str_sz alignment namesz
    → sub_i64 {E = Error} (as_i64 namesz) pvh_note_str_sz ≡ ok offset
    → offset ≡ pos (namesz - pvh_note_str_sz)
entry_offset k alignment namesz offset lt power (least, most, q, multiple) h =
    let small : 2 ^ k ≤ 2 ^ 63 = pow-le-pow_right (omega arith) {j = 63} (omega (arith, lt)) in
    ground arith

module _ {R : Type 0} {rs : ReadSeek R} (image : IsImage rs) where
  -- The read that ends a success, from a position `skip` bytes on.
  entry_read :
      (skip : ℕ) (entry : PvhBootCapability) (bs : List ℕ) (r r₂ r₃ r₄ : R)
      → entry ≡ pvh_entry_present (from_le_bytes bs)
      → r₂ ≡ r
      → IsAt image r₂ r₃ (image.position r₂ + skip)
      → r₄ ≡ r₃
      → (bs ≡ take 4 (drop (image.position r₄) (image.bytes r₄)))
      → entry
        ≡ pvh_entry_present
            (from_le_bytes (take 4 (drop (image.position r + skip) (image.bytes r))))
  entry_read skip entry bs r r₂ r₃ r₄ read from (same, at) stay taken =
      let word = λ (b : List ℕ). pvh_entry_present (from_le_bytes (take 4 b)) in
      read
      ∙ ap (λ b. pvh_entry_present (from_le_bytes b)) taken
      ∙ ap (λ i. word (drop (image.position i) (image.bytes i))) stay
      ∙ ap (λ p. word (drop p (image.bytes r₃))) at
      ∙ ap (λ b. word (drop (image.position r₂ + skip) b)) same
      ∙ ap (λ i. word (drop (image.position i + skip) (image.bytes i))) from

  pub read_entry-ok :
      (phdr : Elf64Phdr) (nhdr : Elf64Nhdr) (entry : PvhBootCapability) (r r' : R)
      → nhdr.n_namesz ≡ pvh_note_str_sz
      → read_entry rs phdr nhdr r ≡ (ok entry, r')
      → (namesz : ℕ) × IsAligned pvh_note_str_sz phdr.p_align namesz
        × (4 ≤ nhdr.n_descsz)
        × (entry
            ≡ pvh_entry_present (
                from_le_bytes
                  (take 4 (drop (image.position r + (namesz - pvh_note_str_sz)) (image.bytes r)))))
  unfolding read_entry
  read_entry-ok phdr nhdr entry r r' named h =
      let tail : Action R Error PvhBootCapability =
        read_or rs 4 (elf read_note_header) >>= λ bs. pure (pvh_entry_present (from_le_bytes bs)) in
      let seek_on : ℤ → Action R Error PvhBootCapability = λ offset.
        seek_or rs (current offset) (elf seek_note_header) >>= λ _.
        raise_if (ltb nhdr.n_descsz 4) (elf invalid_pvh_note) >> tail in
      let (namesz, r₁, e₁, h₁) =
        bind-eq-ok (lift (map_err elf (align_up nhdr.n_namesz phdr.p_align)))
          (λ namesz. lift (sub_i64 (as_i64 namesz) pvh_note_str_sz) >>= seek_on) r r' entry h in
      let (offset, r₂, e₂, h₂) =
        bind-eq-ok (lift (sub_i64 (as_i64 namesz) pvh_note_str_sz)) seek_on r₁ r' entry h₁ in
      let (a, r₃, e₃, h₃) =
        bind-eq-ok (seek_or rs (current offset) (elf seek_note_header))
          (λ _. raise_if (ltb nhdr.n_descsz 4) (elf invalid_pvh_note) >> tail) r₂ r' entry h₂ in
      let (_, r₄, e₄, h₄) =
        bind-eq-ok (raise_if (ltb nhdr.n_descsz 4) (elf invalid_pvh_note)) (λ _. tail) r₃ r' entry
          h₃ in
      let (bs, r₅, e₅, h₅) =
        bind-eq-ok (read_or rs 4 (elf read_note_header))
          (λ bs. pure (pvh_entry_present (from_le_bytes bs))) r₄ r' entry h₄ in
      let ((k, lt, power), aligned) =
        align_up-ok nhdr.n_namesz phdr.p_align namesz (ground arith) in
      let padded : IsAligned pvh_note_str_sz phdr.p_align namesz =
        subst (λ t. IsAligned t phdr.p_align namesz) named aligned in
      let on : offset ≡ pos (namesz - pvh_note_str_sz) =
        entry_offset k phdr.p_align namesz offset lt power padded (ground arith) in
      (
        namesz,
        padded,
        ground arith,
        entry_read (namesz - pvh_note_str_sz) entry bs r r₂ r₃ r₄ (ground arith) (ground arith)
            (seek_on-ok image (namesz - pvh_note_str_sz) a (elf seek_note_header) r₂ r₃
              (ap (λ o. seek_or rs (current o) (elf seek_note_header) r₂) (sym on) ∙ e₃))
            (ground arith) (read_or-ok image 4 (elf read_note_header) r₄ r₅ bs e₅).0,
      )
