-- ===== src/LoaderGen/Pod/Struct.antt =====
-- A structure with its layout: what every structure of src/loader_gen/x86_64/bootparam.rs gives, and
-- what follows for each from that.
use linux_loader.Base.{
  ℕ, zero, suc, ◌+◌, true, List, [], ◌∷◌, ◌++◌, length, drop, map, ◌≡◌, refl, sym, ap, ◌∙◌, arith,
  append-nil, take_all, drop-drop,
}
use linux_loader.LoaderGen.Bytes.{are_bytes}
use linux_loader.LoaderGen.Pod.{Layout, El, size, fits, is_dense, to_bytes, read, read_array}
use linux_loader.LoaderGen.Pod.Laws.{
  length-to_bytes, read-to_bytes, read-drop, to_bytes-read, fits-read, are_bytes-to_bytes,
}
use linux_loader.Memory.{ByteValued}
use mathlib.Core.Equiv.{IsEquiv, iso_to_equiv}
use mathlib.Core.HLevel.{Σ_prop_path}

-- The fields in their order, and the fields read at the offsets that the layout test asserts.
pub record Struct (S : Type 0) : Type 0 where
  pub layout : Layout
  pub to_el : S → El layout
  pub of_el : El layout → S
  pub of_bytes : List ℕ → S
  pub of_el-to_el : (s : S) → of_el (to_el s) ≡ s
  pub to_el-of_bytes : (bs : List ℕ) → to_el (of_bytes bs) ≡ read layout bs 0

module _ {S : Type 0} (st : Struct S) where
  abbrev pub size_of : ℕ
  size_of = size st.layout

  -- Every field has the width of its type.
  abbrev pub IsValid : S → Type 0
  IsValid s = fits st.layout (st.to_el s) ≡ true

  abbrev pub as_slice : S → List ℕ
  as_slice s = to_bytes st.layout (st.to_el s)

  -- `n` structures, one behind the other.
  unfoldable pub items_of_bytes : ℕ → List ℕ → List S
  items_of_bytes zero bs = []
  items_of_bytes (suc n) bs = st.of_bytes bs ∷ items_of_bytes n (drop size_of bs)

abbrev pub byte_valued : {S : Type 0} → Struct S → ByteValued S
byte_valued st = record {
  size_of = size_of st;
  as_slice = as_slice st;
  sized = λ s. length-to_bytes st.layout (st.to_el s);
}

module _ {S : Type 0} (st : Struct S) where
  pub to_el-of_bytes_at :
      (bs : List ℕ) (at : ℕ) → st.to_el (st.of_bytes (drop at bs)) ≡ read st.layout bs at
  to_el-of_bytes_at bs at =
      st.to_el-of_bytes (drop at bs)
      ∙ read-drop st.layout bs at 0
      ∙ ap (read st.layout bs) (omega arith)

  pub map-to_el-items_of_bytes :
      (n : ℕ) (bs : List ℕ) (at : ℕ)
      → map st.to_el (items_of_bytes st n (drop at bs))
        ≡ read_array n (size st.layout) (read st.layout bs) at
  unfolding items_of_bytes
  map-to_el-items_of_bytes zero bs at = refl
  map-to_el-items_of_bytes (suc n) bs at =
      let rest =
        ap (λ t. map st.to_el (items_of_bytes st n t)) (drop-drop at (size st.layout) bs)
        ∙ map-to_el-items_of_bytes n bs (at + size st.layout) in
      λ i. to_el-of_bytes_at bs at i ∷ rest i

  pub map-of_el-map-to_el : (xs : List S) → map st.of_el (map st.to_el xs) ≡ xs
  map-of_el-map-to_el [] = refl
  map-of_el-map-to_el (x ∷ xs) = λ i. st.of_el-to_el x i ∷ map-of_el-map-to_el xs i

  -- A value comes back from its bytes, whatever follows them.
  pub of_bytes-as_slice :
      (s : S) (rest : List ℕ) → IsValid st s → st.of_bytes (as_slice st s ++ rest) ≡ s
  of_bytes-as_slice s rest fit =
      sym (st.of_el-to_el (st.of_bytes (as_slice st s ++ rest)))
      ∙ ap st.of_el (
          st.to_el-of_bytes (as_slice st s ++ rest)
          ∙ read-to_bytes st.layout (as_slice st s ++ rest) (st.to_el s) 0 rest fit refl)
      ∙ st.of_el-to_el s

  pub of_bytes-as_slice_all : (s : S) → IsValid st s → st.of_bytes (as_slice st s) ≡ s
  of_bytes-as_slice_all s fit =
      ap st.of_bytes (sym (append-nil (as_slice st s))) ∙ of_bytes-as_slice s [] fit

  -- The bytes of the value that is read are all the bytes.
  pub as_slice-of_bytes :
      (bs : List ℕ)
      → is_dense st.layout ≡ true
      → are_bytes bs ≡ true
      → length bs ≡ size_of st
      → as_slice st (st.of_bytes bs) ≡ bs
  as_slice-of_bytes bs dense ok long =
      ap (to_bytes st.layout) (st.to_el-of_bytes bs)
      ∙ to_bytes-read st.layout bs 0 dense ok (omega (arith, long))
      ∙ take_all (size_of st) bs (omega (arith, long))

  pub of_bytes-IsValid : (bs : List ℕ) → are_bytes bs ≡ true → IsValid st (st.of_bytes bs)
  of_bytes-IsValid bs ok = ap (fits st.layout) (st.to_el-of_bytes bs) ∙ fits-read st.layout bs 0 ok

-- The values of a structure, and the byte strings of a length.
abbrev pub Value : {S : Type 0} → Struct S → Type 0
Value {S} st = (s : S) × IsValid st s

abbrev pub AreBytes : ℕ → List ℕ → Type 0
AreBytes n bs = (are_bytes bs ≡ true) × (length bs ≡ n)

abbrev pub Bytes : ℕ → Type 0
Bytes n = (bs : List ℕ) × AreBytes n bs

abbrev pub bytes_of_value : {S : Type 0} (st : Struct S) → Value st → Bytes (size_of st)
bytes_of_value st (s, _) = (
  as_slice st s,
  (are_bytes-to_bytes st.layout (st.to_el s), length-to_bytes st.layout (st.to_el s)),
)

IsValid-prop : {S : Type 0} (st : Struct S) (s : S) → IsProp (IsValid st s)
IsValid-prop st s = hlevel

AreBytes-prop : (n : ℕ) (bs : List ℕ) → IsProp (AreBytes n bs)
AreBytes-prop n bs = hlevel

-- Where no byte is padding, values and byte strings correspond.
pub bytes_of_value-IsEquiv :
    {S : Type 0} (st : Struct S) → is_dense st.layout ≡ true → IsEquiv (bytes_of_value st)
bytes_of_value-IsEquiv st dense =
    (iso_to_equiv record {
      fun = bytes_of_value st;
      inv = λ b. (st.of_bytes b.0, of_bytes-IsValid st b.0 b.1.0);
      rinv = λ b.
          Σ_prop_path (AreBytes-prop (size_of st)) (as_slice-of_bytes st b.0 dense b.1.0 b.1.1);
      linv = λ v. Σ_prop_path (IsValid-prop st) (of_bytes-as_slice_all st v.0 v.1);
    }).1
