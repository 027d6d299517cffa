-- ===== src/LoaderGen/Layout.antt =====
-- The bytes of a `repr(C)` structure of src/loader_gen without padding: its fields, one behind the
-- other, each little endian.
use linux_loader.Base.{
  ℕ, zero, suc, ◌+◌, ◌/◌, ◌%◌, ◌^◌, ◌<◌, List, [], ◌∷◌, ◌++◌, some, ◌≡◌, refl, sym, ap, ◌∙◌, arith,
  length, take, drop, get_elem?, length-append, take-length-append, drop-length-append, drop-drop,
}
use linux_loader.LoaderGen.{from_le_bytes, field}
use native.Mathlib.Nat.{div-add-mod'}

-- `to_le_bytes` of a number of `w` bytes.
unfoldable pub to_le_bytes : ℕ → ℕ → List ℕ
to_le_bytes zero n = []
to_le_bytes (suc w) n = (n % 256) ∷ to_le_bytes w (n / 256)

-- The bytes of the fields, each given by its width and its value.
unfoldable pub encode : List (ℕ × ℕ) → List ℕ
encode [] = []
encode ((w, n) ∷ fields) = to_le_bytes w n ++ encode fields

-- Where the field `i` starts.
abbrev pub offset_of : List (ℕ × ℕ) → ℕ → ℕ
offset_of [] i = 0
offset_of ((w, n) ∷ fields) zero = 0
offset_of ((w, n) ∷ fields) (suc i) = w + offset_of fields i

-- Every value has the width of its field.
abbrev pub AllFit : List (ℕ × ℕ) → Type 0
AllFit [] = Unit
AllFit ((w, n) ∷ fields) = (n < 256 ^ w) × AllFit fields

pub length-to_le_bytes : (w n : ℕ) → length (to_le_bytes w n) ≡ w
unfolding to_le_bytes
length-to_le_bytes zero n = refl
length-to_le_bytes (suc w) n = ap suc (length-to_le_bytes w (n / 256))

pub from_le_bytes-to_le_bytes : (w n : ℕ) → n < 256 ^ w → from_le_bytes (to_le_bytes w n) ≡ n
unfolding to_le_bytes from_le_bytes
from_le_bytes-to_le_bytes zero n h = omega (arith, h)
from_le_bytes-to_le_bytes (suc w) n h =
    let rest : from_le_bytes (to_le_bytes w (n / 256)) ≡ n / 256 =
      from_le_bytes-to_le_bytes w (n / 256) (omega (arith, h)) in
    omega (arith, rest, div-add-mod' n 256)

pub take-to_le_bytes : (w n : ℕ) (bs : List ℕ) → take w (to_le_bytes w n ++ bs) ≡ to_le_bytes w n
take-to_le_bytes w n bs =
    ap (λ k. take k (to_le_bytes w n ++ bs)) (sym (length-to_le_bytes w n))
    ∙ take-length-append (to_le_bytes w n) bs

pub drop-to_le_bytes : (w n : ℕ) (bs : List ℕ) → drop w (to_le_bytes w n ++ bs) ≡ bs
drop-to_le_bytes w n bs =
    ap (λ k. drop k (to_le_bytes w n ++ bs)) (sym (length-to_le_bytes w n))
    ∙ drop-length-append (to_le_bytes w n) bs

-- The field `i` of the bytes is the one that was encoded.
pub field-encode :
    (fields : List (ℕ × ℕ)) (i w n : ℕ)
    → get_elem? fields i ≡ some (w, n)
    → AllFit fields
    → field (encode fields) (offset_of fields i) w ≡ n
unfolding encode
field-encode [] i w n h fit = cc
field-encode ((w, n) ∷ fields) zero v m h (fits, _) =
    let width : v ≡ w = ground arith in
    let value : n ≡ m = ground arith in
    ap (λ k. from_le_bytes (take k (to_le_bytes w n ++ encode fields))) width
    ∙ ap from_le_bytes (take-to_le_bytes w n (encode fields))
    ∙ from_le_bytes-to_le_bytes w n fits
    ∙ value
field-encode ((w, n) ∷ fields) (suc i) v m h (_, fit) =
    ap (λ t. from_le_bytes (take v t))
      (sym (drop-drop w (offset_of fields i) (to_le_bytes w n ++ encode fields))
        ∙ ap (drop (offset_of fields i)) (drop-to_le_bytes w n (encode fields)))
    ∙ field-encode fields i v m h fit

pub length-encode :
    (fields : List (ℕ × ℕ)) → length (encode fields) ≡ offset_of fields (length fields)
unfolding encode
length-encode [] = refl
length-encode ((w, n) ∷ fields) =
    length-append (to_le_bytes w n) (encode fields)
    ∙ ap (λ k. k + length (encode fields)) (length-to_le_bytes w n)
    ∙ ap (λ k. w + k) (length-encode fields)
