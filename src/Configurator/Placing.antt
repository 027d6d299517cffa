-- ===== src/Configurator/Placing.antt =====
-- `BootParams::add_boot_parameter_to_list` of src/configurator/mod.rs on every input.
use linux_loader.Base.{
  sym, ap, ℕ, ◌+◌, ◌-◌, ◌≤◌, ◌<◌, List, ◌++◌, Option, none, some, ◌≡◌, refl, ◌∙◌, arith, leb, ltb,
  if◌then◌else◌, length, replicate, max, get_elem?, length-append, length-replicate, append-nil,
  take-length-append, drop_past,
}
use linux_loader.Base.Outcome.{ok, err, panic}
use linux_loader.Base.Word.{two_64}
use linux_loader.Base.Splice.{overwrite, inside, length-overwrite, get_elem?-overwrite}
use linux_loader.Memory.{ByteValued}
use linux_loader.Configurator.{
  Listing, isize_max, missing_start_address, overflow, invalid_address, resize, splice, unwrap_or,
  add_boot_parameter_to_list,
}

pub length-resize : (xs : List ℕ) (n : ℕ) → length xs ≤ n → length (resize xs n) ≡ n
length-resize xs n h =
    let nought : ℕ = 0 in
    omega (
      arith,
      length-append xs (replicate (n - length xs) nought),
      length-replicate (n - length xs) nought,
    )

-- The start that is used: the list's own, or else the element's address.
abbrev pub start_of : Option ℕ → Option ℕ → Option ℕ
start_of none elem_start_opt = elem_start_opt
start_of (some a) elem_start_opt = some a

module _ {T : Type 0} (bv : ByteValued T) where
  -- The list after `elem` is put at the offset `off`: it grows with zeros as far as needed.
  abbrev pub placed : List ℕ → ℕ → T → List ℕ
  placed bytes off elem =
      overwrite (resize bytes (max (off + bv.size_of) (length bytes))) off (bv.as_slice elem)

  -- The state in which an error leaves the list: only a missing start may have been filled in.
  abbrev pub started : Listing → ℕ → Listing
  started l a = record l { list_start = some a }

  splice-placed :
      (bytes : List ℕ) (off : ℕ) (elem : T)
      → splice
          (resize bytes (max (off + bv.size_of) (length bytes)))
          off
          (off + bv.size_of)
          (bv.as_slice elem)
        ≡ some (placed bytes off elem)
  splice-placed bytes off elem =
      rw (bv.sized elem)
        (ground (arith, length-resize bytes (max (off + bv.size_of) (length bytes)) (omega arith)))

  -- With a start `a`, the element goes to its address, or behind the list if it has none. It is an error
  -- if the address behind the list overflows, also when the element has an address of its own, and if
  -- the address is below the start. An overflow of the offset behind the element panics, and so does a
  -- list that grows beyond the greatest size of a vector. An error or a panic leaves the list with its
  -- start filled in.
  pub add_boot_parameter_lem :
      (elem : T) (opt : Option ℕ) (l : Listing) (a : ℕ)
      → start_of l.list_start opt ≡ some a
      → add_boot_parameter_to_list bv elem opt l ≡ (
          if leb two_64 (a + length l.bytes_acc)
          then (err overflow, started l a)
          else if ltb (unwrap_or opt (a + length l.bytes_acc)) a
          then (err invalid_address, started l a)
          else if leb two_64 (unwrap_or opt (a + length l.bytes_acc) - a + bv.size_of)
          then (panic, started l a)
          else if ltb isize_max
              (max (unwrap_or opt (a + length l.bytes_acc) - a + bv.size_of) (length l.bytes_acc))
          then (panic, started l a)
          else (
            ok (unwrap_or opt (a + length l.bytes_acc)),
            record {
              bytes_acc = placed l.bytes_acc (unwrap_or opt (a + length l.bytes_acc) - a) elem;
              list_start = some a;
            },
          ))
  unfolding add_boot_parameter_to_list
  add_boot_parameter_lem elem opt l a e =
      ground (arith, splice-placed l.bytes_acc (unwrap_or opt (a + length l.bytes_acc) - a) elem)

  -- Without any start there is an error, and nothing changes.
  pub add_boot_parameter_missing :
      (elem : T) (l : Listing)
      → l.list_start ≡ none
      → add_boot_parameter_to_list bv elem none l ≡ (err missing_start_address, l)
  unfolding add_boot_parameter_to_list
  add_boot_parameter_missing elem l e = ground arith

-- What a placed element leaves: its bytes at the offset, the old bytes elsewhere, and zeros in a gap.
module _ {T : Type 0} (bv : ByteValued T) where
  pub length-placed :
      (bytes : List ℕ) (off : ℕ) (elem : T)
      → length (placed bv bytes off elem) ≡ max (off + bv.size_of) (length bytes)
  length-placed bytes off elem =
      let grown = max (off + bv.size_of) (length bytes) in
      length-overwrite (resize bytes grown) off (bv.as_slice elem)
        (omega (arith, length-resize bytes grown, bv.sized elem))
      ∙ length-resize bytes grown (omega arith)

  -- A placed element has its bytes at the offset; elsewhere the old bytes stay, with zeros behind them.
  pub get_elem?-placed :
      (bytes : List ℕ) (off : ℕ) (elem : T) (i : ℕ)
      → get_elem? (placed bv bytes off elem) i ≡ (
          if inside off bv.size_of i
          then get_elem? (bv.as_slice elem) (i - off)
          else get_elem? (resize bytes (max (off + bv.size_of) (length bytes))) i)
  get_elem?-placed bytes off elem i =
      let grown = max (off + bv.size_of) (length bytes) in
      get_elem?-overwrite (resize bytes grown) off (bv.as_slice elem) i
        (omega (arith, length-resize bytes grown, bv.sized elem))
      ∙ rw (bv.sized elem)

  -- Behind the list an element is appended.
  pub placed_behind :
      (bytes : List ℕ) (elem : T) → placed bv bytes (length bytes) elem ≡ bytes ++ bv.as_slice elem
  placed_behind bytes elem =
      let grown = max (length bytes + bv.size_of) (length bytes) in
      let all_read : length (resize bytes grown) ≤ length bytes + length (bv.as_slice elem) =
        omega (arith, length-resize bytes grown, bv.sized elem) in
      rw (
        drop_past (length bytes + length (bv.as_slice elem)) (resize bytes grown) all_read,
        take-length-append,
        append-nil,
      )

  -- An element with no address goes behind the others, and its address is returned.
  pub add_behind :
      (elem : T) (bytes : List ℕ) (start : ℕ)
      → start + length bytes + bv.size_of < two_64
      → length bytes + bv.size_of ≤ isize_max
      → add_boot_parameter_to_list bv elem none
          (record { bytes_acc = bytes; list_start = some start })
        ≡ (
          ok (start + length bytes),
          record { bytes_acc = bytes ++ bv.as_slice elem; list_start = some start },
        )
  add_behind elem bytes start h room =
      let off : start + length bytes - start ≡ length bytes = omega arith in
      add_boot_parameter_lem bv elem none (record { bytes_acc = bytes; list_start = some start })
        start refl
      ∙ rw (off, placed_behind bytes elem) (ground arith)

  -- A success: what the address and the list are.
  abbrev pub Added : T → Option ℕ → Listing → ℕ → Listing → ℕ → Type 0
  Added elem opt l s l' i =
      (a : ℕ) × (start_of l.list_start opt ≡ some a)
      × (l'.list_start ≡ some a)
      × (s ≡ unwrap_or opt (a + length l.bytes_acc))
      × (a ≤ s)
      × (length l'.bytes_acc ≡ max (s - a + bv.size_of) (length l.bytes_acc))
      × (get_elem? l'.bytes_acc i ≡ (
          if inside (s - a) bv.size_of i
          then get_elem? (bv.as_slice elem) (i - (s - a))
          else get_elem? (resize l.bytes_acc (max (s - a + bv.size_of) (length l.bytes_acc))) i))

  Added-at :
      (elem : T) (opt : Option ℕ) (l : Listing) (a s : ℕ) (l' : Listing) (i : ℕ)
      → start_of l.list_start opt ≡ some a
      → add_boot_parameter_to_list bv elem opt l ≡ (ok s, l')
      → Added elem opt l s l' i
  Added-at elem opt l a s l' i e h =
      let stepped = sym (add_boot_parameter_lem bv elem opt l a e) ∙ h in
      let at : s ≡ unwrap_or opt (a + length l.bytes_acc) = ground arith in
      let above : a ≤ s = ground arith in
      let kept : l'.list_start ≡ some a = ground arith in
      let made : l'.bytes_acc ≡ placed bv l.bytes_acc (s - a) elem = ground arith in
      (
        a,
        e,
        kept,
        at,
        above,
        ap length made ∙ length-placed l.bytes_acc (s - a) elem,
        ap (λ bs. get_elem? bs i) made ∙ get_elem?-placed l.bytes_acc (s - a) elem i,
      )

  -- A successful addition returns the element's address, or the one behind the list if it has none,
  -- which is not below the start. The list then reaches as far as needed, holds the element's bytes at
  -- the address, and elsewhere the old bytes with zeros behind them.
  pub add_boot_parameter_sound :
      (elem : T) (opt : Option ℕ) (l : Listing) (s : ℕ) (l' : Listing) (i : ℕ)
      → add_boot_parameter_to_list bv elem opt l ≡ (ok s, l')
      → Added elem opt l s l' i
  add_boot_parameter_sound elem opt l s l' i h = by_start (start_of l.list_start opt) refl
    where
      missing :
          (start given : Option ℕ)
          → l.list_start ≡ start
          → opt ≡ given
          → start_of l.list_start opt ≡ none
          → ⊥
      missing (some a) given p q e = ground arith
      missing none (some b) p q e = ground arith
      missing none none p q e = cc (
          sym h
          ∙ ap (λ o. add_boot_parameter_to_list bv elem o l) q
          ∙ add_boot_parameter_missing bv elem l p)

      by_start : (r : Option ℕ) → start_of l.list_start opt ≡ r → Added elem opt l s l' i
      by_start (some a) e = Added-at elem opt l a s l' i e h
      by_start none e = absurd (missing l.list_start opt refl refl e)
