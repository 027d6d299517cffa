-- ===== src/Loader/Elf/NoteRefines.antt =====
-- `parse_elf_note` of src/loader/x86_64/elf/mod.rs against the meaning of the note segment.
use linux_loader.Base.{ℕ, ◌+◌, ◌-◌, ◌≤◌, ◌<◌, List, ◌≡◌, inl, inr, ap, ◌∙◌, arith, take, drop}
use linux_loader.Base.Outcome.{ok, ◌>>=◌, bind-eq-ok}
use linux_loader.Reader.{start, ReadSeek, IsImage}
use linux_loader.LoaderGen.{from_le_bytes}
use linux_loader.LoaderGen.Elf.{Elf64Phdr, Elf64Nhdr, nhdr_size}
use linux_loader.Loader.{elf, PvhBootCapability, pvh_entry_present}
use linux_loader.Loader.Errors.Elf.{seek_note_header}
use linux_loader.Loader.Elf.Note.{
  pvh_note_str_sz, seek_or, note_loop, default_nhdr, read_entry, after_loop, parse_elf_note,
}
use linux_loader.Loader.Elf.Notes.{IsFoundNote, note_at, IsPvhNote, IsReached, first}
use linux_loader.Loader.Elf.NoteSteps.{seek_or-ok}
use linux_loader.Loader.Elf.NoteEntry.{read_entry-ok}
use mathlib.Core.Path.{subst}
use linux_loader.Loader.Elf.NoteFound.{note_loop-IsAfter}

module _ {R : Type 0} {rs : ReadSeek R} (image : IsImage rs) where
  found_entry :
      (bytes : List ℕ) (phdr : Elf64Phdr) (found : Elf64Nhdr × ℕ) (r r' : R)
      (entry : PvhBootCapability)
      → found.1 < phdr.p_filesz
      → IsReached bytes phdr found.1
      → IsPvhNote bytes phdr found.1
      → found.0 ≡ note_at bytes phdr found.1
      → image.bytes r ≡ bytes
      → image.position r ≡ phdr.p_offset + found.1 + nhdr_size + pvh_note_str_sz
      → read_entry rs phdr found.0 r ≡ (ok entry, r')
      → IsFoundNote bytes phdr entry
  found_entry bytes phdr found r r' entry inside reached (t, sized, x) which same at h =
      let (namesz, padded, wide, value) =
        read_entry-ok image phdr found.0 entry r r' (ap (λ h. h.n_namesz) which ∙ sized) h in
      let word = λ (b : List ℕ). pvh_entry_present (from_le_bytes (take 4 b)) in
      let on : phdr.p_offset + found.1 + nhdr_size + pvh_note_str_sz + (namesz - pvh_note_str_sz)
          ≡ phdr.p_offset + found.1 + nhdr_size + namesz =
        omega (arith, padded.0) in
      (
        found.1,
        reached,
        inr (
          inside,
          (t, sized, x),
          subst (λ h. 4 ≤ h.n_descsz) which wide,
          namesz,
          padded,
          value
              ∙ ap (λ b. word (drop (image.position r + (namesz - pvh_note_str_sz)) b)) same
              ∙ ap (λ p. word (drop (p + (namesz - pvh_note_str_sz)) bytes)) at
              ∙ ap (λ p. word (drop p bytes)) on,
        ),
      )

  -- The search for the PVH entry point does what the bytes of the note segment mean, if it succeeds.
  -- It goes from note to note, each behind the padded name and descriptor of the one before, and no
  -- note it has passed holds the entry point. Either it has passed the end of the segment, or it
  -- returns what the descriptor of a note inside the segment spells: a note of the type and the name
  -- of the PVH ABI, whose descriptor has at least 4 bytes.
  pub parse_elf_note_refines :
      (phdr : Elf64Phdr) (entry : PvhBootCapability) (r r' : R)
      → parse_elf_note rs phdr r ≡ (ok entry, r')
      → IsFoundNote (image.bytes r) phdr entry
  unfolding parse_elf_note after_loop
  parse_elf_note_refines phdr entry r r' h =
      let (a, r₁, e₁, h₁) =
        bind-eq-ok (seek_or rs (start phdr.p_offset) (elf seek_note_header))
          (λ _. note_loop rs phdr.p_filesz phdr default_nhdr 0 >>= after_loop rs phdr) r r' entry
          h in
      let (found, r₂, e₂, h₂) =
        bind-eq-ok (note_loop rs phdr.p_filesz phdr default_nhdr 0) (after_loop rs phdr) r₁ r' entry
          h₁ in
      let (same, at) = seek_or-ok image phdr.p_offset a (elf seek_note_header) r r₁ e₁ in
      let (same₂, reached, which) =
        note_loop-IsAfter image (image.bytes r) phdr phdr.p_filesz default_nhdr 0 r₁ r₂ found
          (same, at ∙ omega arith, first) e₂ in
      elim which [
        | inl past ↦ (found.1, reached, inl (past, ground arith))
        | inr (inside, pvh, header, at₂) ↦
            found_entry (image.bytes r) phdr found r₂ r' entry inside reached pvh header same₂ at₂
              (ground arith)
      ]
