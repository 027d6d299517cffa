-- ===== src/Configurator/Order.antt =====
-- `BootParams::add_boot_parameter_to_list` of src/configurator/mod.rs: elements that do not overlap may
-- be added in any order.
use linux_loader.Base.{
  ℕ, zero, suc, ◌+◌, ◌-◌, ◌≤◌, List, [], ◌∷◌, ◌++◌, Option, none, some, ◌≡◌, ◌⊎◌, inl, inr, refl,
  sym, ap, ◌∙◌, arith, ltb, if◌then◌else◌, length, replicate, max, get_elem?,
}
use mathlib.Core.Path.{subst}
use linux_loader.Base.Outcome.{ok}
use linux_loader.Base.Splice.{inside}
use linux_loader.Memory.{ByteValued}
use linux_loader.Configurator.{Listing, resize, add_boot_parameter_to_list}
use linux_loader.Configurator.Placing.{add_boot_parameter_sound}

-- Two lists of bytes are equal if they have the same byte at each position.
pub same_bytes : (xs ys : List ℕ) → ((i : ℕ) → get_elem? xs i ≡ get_elem? ys i) → xs ≡ ys
same_bytes [] [] h = refl
same_bytes [] (y ∷ ys) h = absurd (cc (h 0))
same_bytes (x ∷ xs) [] h = absurd (cc (h 0))
same_bytes (x ∷ xs) (y ∷ ys) h =
    let head : x ≡ y = cc (h 0) in
    let tail = same_bytes xs ys (λ i. h (suc i)) in λ i. head i ∷ tail i

get_elem?-zeros :
    (n i : ℕ) → get_elem? {A = ℕ} (replicate n 0) i ≡ (if ltb i n then some 0 else none)
get_elem?-zeros zero i = ground arith
get_elem?-zeros (suc n) zero = ground arith
get_elem?-zeros (suc n) (suc i) = get_elem?-zeros n i ∙ ground arith

get_elem?-followed :
    (xs ys : List ℕ) (i : ℕ)
    → get_elem? (xs ++ ys) i
      ≡ (if ltb i (length xs) then get_elem? xs i else get_elem? ys (i - length xs))
get_elem?-followed [] ys i = ground arith
get_elem?-followed (x ∷ xs) ys zero = ground arith
get_elem?-followed (x ∷ xs) ys (suc i) = get_elem?-followed xs ys i ∙ ground arith

get_elem?-resize :
    (xs : List ℕ) (n i : ℕ)
    → length xs ≤ n
    → get_elem? (resize xs n) i
      ≡ (if ltb i (length xs) then get_elem? xs i else if ltb i n then some 0 else none)
get_elem?-resize xs n i h =
    get_elem?-followed xs (replicate (n - length xs) 0) i ∙ rw get_elem?-zeros (ground arith)

module _ {T : Type 0} (bv : ByteValued T) where
  -- The bytes `old`, of which there are `n`, with an element at the offset `off` and zeros in a gap.
  abbrev pub with_element : ℕ → T → ℕ → (ℕ → Option ℕ) → ℕ → Option ℕ
  with_element off elem n old i =
      if inside off bv.size_of i
      then get_elem? (bv.as_slice elem) (i - off)
      else if ltb i n
      then old i
      else if ltb i (off + bv.size_of)
      then some 0
      else none

  -- An element at `p` of a list that starts at `a` makes the list `l'` of `l`, seen at the position `i`.
  abbrev IsAddedAt : T → ℕ → ℕ → Listing → Listing → ℕ → Type 0
  IsAddedAt elem p a l l' i =
      (l'.list_start ≡ some a)
      × (a ≤ p)
      × (length l'.bytes_acc ≡ max (p - a + bv.size_of) (length l.bytes_acc))
      × (get_elem? l'.bytes_acc i
          ≡ with_element (p - a) elem (length l.bytes_acc) (get_elem? l.bytes_acc) i)

  added_at :
      (elem : T) (p a : ℕ) (l l' : Listing) (i : ℕ)
      → l.list_start ≡ some a
      → add_boot_parameter_to_list bv elem (some p) l ≡ (ok p, l')
      → IsAddedAt elem p a l l' i
  added_at elem p a l l' i start h =
      let (b, begun, kept, _, above, long, byte) =
        add_boot_parameter_sound bv elem (some p) l p l' i h in
      let same : b ≡ a = grind arith in
      let grown = max (p - b + bv.size_of) (length l.bytes_acc) in
      let resized = get_elem?-resize l.bytes_acc grown i (omega arith) in
      subst (λ c. IsAddedAt elem p c l l' i) same
        (kept, above, long, byte ∙ ground (arith, resized))

  -- Elements at the offsets `off` and `off'` that do not overlap.
  with_both :
      (x y : T) (off off' n m k : ℕ) (old : ℕ → Option ℕ) (i : ℕ)
      → (off + bv.size_of ≤ off') ⊎ (off' + bv.size_of ≤ off)
      → m ≡ max (off + bv.size_of) n
      → k ≡ max (off' + bv.size_of) n
      → with_element off' y m (with_element off x n old) i
        ≡ with_element off x k (with_element off' y n old) i
  with_both x y off off' n m k old i (inl before) e f = ground (arith, before, e, f)
  with_both x y off off' n m k old i (inr behind) e f = ground (arith, behind, e, f)

  -- Elements that do not overlap may be added in any order. Two elements are added at the addresses `p`
  -- and `q`, of which neither lies in the other's bytes, to a list that has a start. If both orders
  -- succeed, they leave the same list with the same start, gaps filled with zeros included.
  pub add_in_any_order :
      (x y : T) (p q a : ℕ) (l l₁ l₂ k₁ k₂ : Listing)
      → l.list_start ≡ some a
      → (p + bv.size_of ≤ q) ⊎ (q + bv.size_of ≤ p)
      → add_boot_parameter_to_list bv x (some p) l ≡ (ok p, l₁)
      → add_boot_parameter_to_list bv y (some q) l₁ ≡ (ok q, l₂)
      → add_boot_parameter_to_list bv y (some q) l ≡ (ok q, k₁)
      → add_boot_parameter_to_list bv x (some p) k₁ ≡ (ok p, k₂)
      → l₂ ≡ k₂
  add_in_any_order x y p q a l l₁ l₂ k₁ k₂ start apart x_first y_second y_first x_second =
      let (l_start, above, l_long, _) = added_at x p a l l₁ 0 start x_first in
      let (k_start, above', k_long, _) = added_at y q a l k₁ 0 start y_first in
      let (l_end, _, _, _) = added_at y q a l₁ l₂ 0 l_start y_second in
      let (k_end, _, _, _) = added_at x p a k₁ k₂ 0 k_start x_second in
      let offsets : (p - a + bv.size_of ≤ q - a) ⊎ (q - a + bv.size_of ≤ p - a) = elim apart [
        | inl h ↦ inl (omega arith)
        | inr h ↦ inr (omega arith)
      ] in
      let n = length l.bytes_acc in
      let bytes : l₂.bytes_acc ≡ k₂.bytes_acc = same_bytes l₂.bytes_acc k₂.bytes_acc λ i.
        let (_, _, _, l_byte) = added_at x p a l l₁ i start x_first in
        let (_, _, _, k_byte) = added_at y q a l k₁ i start y_first in
        let (_, _, _, l_last) = added_at y q a l₁ l₂ i l_start y_second in
        let (_, _, _, k_last) = added_at x p a k₁ k₂ i k_start x_second in
        l_last
        ∙ ap (λ (b : Option ℕ). with_element (q - a) y (length l₁.bytes_acc) (λ _. b) i) l_byte
        ∙ with_both x y (p - a) (q - a) n (length l₁.bytes_acc) (length k₁.bytes_acc)
            (get_elem? l.bytes_acc) i offsets l_long k_long
        ∙ sym (
            k_last
            ∙ ap (λ (b : Option ℕ). with_element (p - a) x (length k₁.bytes_acc) (λ _. b) i)
                k_byte) in
      λ i. record { bytes_acc = bytes i; list_start = (l_end ∙ sym k_end) i }
