-- ===== src/LoaderGen/Pod.antt =====
-- The plain structures of src/loader_gen/x86_64/bootparam.rs: a universe of `repr(C)` layouts, the
-- values of each layout, the bytes of a value, and how a value is read at an offset.
pub mod Laws
pub mod Struct
use linux_loader.Base.{
  ℕ, zero, suc, ◌+◌, ◌*◌, ◌^◌, Bool, true, false, ◌&&◌, List, [], ◌∷◌, ◌++◌, ltb, ◌==◌, length,
  replicate, all,
}
use linux_loader.LoaderGen.{field}
use linux_loader.LoaderGen.Layout.{to_le_bytes}

-- An unsigned number of so many bytes, an array, two layouts one behind the other, and padding.
infixr 60 ◌⊗◌
pub data Layout : Type 0 where
  num : ℕ → Layout
  array : ℕ → Layout → Layout
  ◌⊗◌ : Layout → Layout → Layout
  pad : ℕ → Layout

-- Fields one behind the other.
infixr 55 ◌&◌
pattern abbrev pub ◌&◌ {ℓ κ} : {A : Type ℓ} {B : Type κ} → A → B → A × B
a & b = (a, b)

-- An array is the list of its items; `fits` says how many there are.
abbrev pub El : Layout → Type 0
El (num w) = ℕ
El (array n l) = List (El l)
El (a ⊗ b) = El a × El b
El (pad n) = Unit

abbrev pub size : Layout → ℕ
size (num w) = w
size (array n l) = n * size l
size (a ⊗ b) = size a + size b
size (pad n) = n

-- A value of the type that the layout stands for.
unfoldable pub fits : (l : Layout) → El l → Bool
fits (num w) n = ltb n (256 ^ w)
fits (array n l) xs = length xs == n && all (fits l) xs
fits (a ⊗ b) (x & y) = fits a x && fits b y
fits (pad n) u = true

-- No byte is padding: what `ByteValued` asks for.
unfoldable pub is_dense : Layout → Bool
is_dense (num w) = true
is_dense (array n l) = is_dense l
is_dense (a ⊗ b) = is_dense a && is_dense b
is_dense (pad n) = false

-- `n` items of `k` bytes. Where a list is too short, zeros follow.
abbrev pub array_bytes : {A : Type 0} → ℕ → ℕ → (A → List ℕ) → List A → List ℕ
array_bytes zero k f xs = []
array_bytes (suc n) k f [] = replicate k 0 ++ array_bytes n k f []
array_bytes (suc n) k f (x ∷ xs) = f x ++ array_bytes n k f xs

unfoldable pub to_bytes : (l : Layout) → El l → List ℕ
unfolding to_le_bytes
to_bytes (num w) n = to_le_bytes w n
to_bytes (array n l) xs = array_bytes n (size l) (to_bytes l) xs
to_bytes (a ⊗ b) (x & y) = to_bytes a x ++ to_bytes b y
to_bytes (pad n) u = replicate n 0

-- `n` items that are read `k` bytes apart.
abbrev pub read_array : {A : Type 0} → ℕ → ℕ → (ℕ → A) → ℕ → List A
read_array zero k f at = []
read_array (suc n) k f at = f at ∷ read_array n k f (at + k)

-- The field that is an array of `n` numbers of `w` bytes.
abbrev pub array_field : List ℕ → ℕ → ℕ → ℕ → List ℕ
array_field bs offset n w = read_array n w (λ at. field bs at w) offset

unfoldable pub read : (l : Layout) → List ℕ → ℕ → El l
read (num w) bs at = field bs at w
read (array n l) bs at = read_array n (size l) (read l bs) at
read (a ⊗ b) bs at = read a bs at & read b bs (at + size a)
read (pad n) bs at = tt
