-- ===== src/Configurator/Sections.antt =====
-- `add_section`, `add_module`, `set_sections` and `set_modules` of src/configurator/mod.rs: adding
-- elements one behind the other makes the list that setting them at once makes.
use linux_loader.Base.{
  ℕ, ◌+◌, ◌*◌, ◌<◌, ◌≤◌, List, [], ◌∷◌, ◌++◌, none, some, ◌≡◌, refl, ◌∙◌, arith, length,
  append_assoc, append-nil, length-append,
}
use linux_loader.Base.Outcome.{ok, Action, pure, ◌>>=◌}
use linux_loader.Base.Word.{two_64}
use linux_loader.Memory.{ByteValued}
use linux_loader.Configurator.{isize_max, BootParams, Error, add_section, add_module, set_sections}
use linux_loader.Configurator.Placing.{add_behind}
use mathlib.Core.List.{flat_map}

module _ {T : Type 0} (bv : ByteValued T) where
  abbrev pub with_sections : BootParams → List ℕ → ℕ → BootParams
  with_sections params bytes start = record params {
    sections = some bytes;
    sections_start = some start;
  }

  abbrev pub with_modules : BootParams → List ℕ → ℕ → BootParams
  with_modules params bytes start = record params {
    modules = some bytes;
    modules_start = some start;
  }

  pub add_section_behind :
      (elem : T) (params : BootParams) (bytes : List ℕ) (start : ℕ)
      → start + length bytes + bv.size_of < two_64
      → length bytes + bv.size_of ≤ isize_max
      → add_section bv elem none (with_sections params bytes start)
        ≡ (ok (start + length bytes), with_sections params (bytes ++ bv.as_slice elem) start)
  unfolding add_section
  add_section_behind elem params bytes start h room = rw (add_behind bv elem bytes start h room)

  pub add_module_behind :
      (elem : T) (params : BootParams) (bytes : List ℕ) (start : ℕ)
      → start + length bytes + bv.size_of < two_64
      → length bytes + bv.size_of ≤ isize_max
      → add_module bv elem none (with_modules params bytes start)
        ≡ (ok (start + length bytes), with_modules params (bytes ++ bv.as_slice elem) start)
  unfolding add_module
  add_module_behind elem params bytes start h room = rw (add_behind bv elem bytes start h room)

  -- A client that adds elements one after the other, and collects their addresses.
  pub add_sections : List T → Action BootParams Error (List ℕ)
  add_sections [] = pure []
  add_sections (elem ∷ elems) = do
    addr ← add_section bv elem none
    addrs ← add_sections elems
    pure (addr ∷ addrs)

  -- The addresses of elements that stand one behind the other.
  pub addresses : ℕ → List T → List ℕ
  addresses a [] = []
  addresses a (elem ∷ elems) = a ∷ addresses (a + bv.size_of) elems

  add_sections_step :
      (elem : T) (elems : List T) (p : BootParams) {p' p'' : BootParams} {a : ℕ} {as_ : List ℕ}
      → add_section bv elem none p ≡ (ok a, p')
      → add_sections elems p' ≡ (ok as_, p'')
      → add_sections (elem ∷ elems) p ≡ (ok (a ∷ as_), p'')
  unfolding add_sections
  add_sections_step elem elems p first rest = ground arith

  add_sections_from :
      (elems : List T) (params : BootParams) (bytes : List ℕ) (start : ℕ)
      → start + length bytes + length elems * bv.size_of < two_64
      → length bytes + length elems * bv.size_of ≤ isize_max
      → add_sections elems (with_sections params bytes start) ≡ (
        ok (addresses (start + length bytes) elems),
        with_sections params (bytes ++ flat_map bv.as_slice elems) start,
      )
  unfolding addresses flat_map
  add_sections_from [] params bytes start h room = rw append-nil (unfold add_sections in refl)
  add_sections_from (elem ∷ elems) params bytes start h room =
      let bytes' = bytes ++ bv.as_slice elem in
      let at : start + length bytes' ≡ start + length bytes + bv.size_of =
        omega (arith, length-append bytes (bv.as_slice elem), bv.sized elem) in
      let longer : length bytes' ≡ length bytes + bv.size_of =
        omega (arith, length-append bytes (bv.as_slice elem), bv.sized elem) in
      add_sections_step elem elems _
        (add_section_behind elem params bytes start (omega arith) (omega arith))
        (add_sections_from elems params bytes' start (omega (arith, at)) (omega (arith, longer))
          ∙ rw (at, append_assoc))

  -- Adding the sections one by one to an empty list at `start` leaves what `set_sections` leaves, and
  -- returns their addresses, if no address overflows and the bytes fit a vector, as those of a slice do.
  pub add_sections-set_sections :
      (elems : List T) (params : BootParams) (start : ℕ)
      → start + length elems * bv.size_of < two_64
      → length elems * bv.size_of ≤ isize_max
      → add_sections elems (set_sections bv [] start params)
        ≡ (ok (addresses start elems), set_sections bv elems start params)
  unfolding set_sections flat_map
  add_sections-set_sections elems params start h room =
      let begin : start + length {A = ℕ} [] ≡ start = omega arith in
      add_sections_from elems params [] start (omega arith) (omega arith) ∙ rw begin
