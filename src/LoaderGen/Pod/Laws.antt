-- ===== src/LoaderGen/Pod/Laws.antt =====
-- The bytes of a value and the value that is read from bytes, for every layout.
use linux_loader.Base.{
  ℕ, zero, suc, ◌+◌, ◌*◌, ◌≤◌, true, List, [], ◌∷◌, ◌++◌, length, take, drop, replicate, all, ◌≡◌,
  refl, sym, ap, ◌∙◌, arith, append_assoc, drop-drop, take-add, ◌<◌, ◌%◌, ◌/◌, length-append,
  length-replicate, length-drop,
}
use linux_loader.LoaderGen.{from_le_bytes}
use linux_loader.LoaderGen.Bytes.{
  are_bytes, are_bytes-append, are_bytes-replicate, are_bytes-drop, from_le_bytes-bound,
}
use linux_loader.LoaderGen.Layout.{
  to_le_bytes, length-to_le_bytes, from_le_bytes-to_le_bytes, take-to_le_bytes,
}
use linux_loader.LoaderGen.Pod.{
  Layout, num, array, ◌⊗◌, pad, ◌&◌, El, size, fits, is_dense, array_bytes, to_bytes, read_array,
  read,
}
use native.Mathlib.Nat.{add_assoc, suc-mul}

module _ {A : Type 0} (k : ℕ) (f : A → List ℕ) (sized : (x : A) → length (f x) ≡ k) where
  length-array_bytes : (n : ℕ) (xs : List A) → length (array_bytes n k f xs) ≡ n * k
  length-array_bytes zero xs = omega arith
  length-array_bytes (suc n) [] = omega (
    arith,
    suc-mul n k,
    length-append (replicate k 0) (array_bytes n k f []),
    length-replicate {A = ℕ} k 0,
    length-array_bytes n [],
  )
  length-array_bytes (suc n) (x ∷ xs) = omega (
    arith,
    suc-mul n k,
    length-append (f x) (array_bytes n k f xs),
    sized x,
    length-array_bytes n xs,
  )

pub length-to_bytes : (l : Layout) (v : El l) → length (to_bytes l v) ≡ size l
unfolding to_bytes
length-to_bytes (num w) n = length-to_le_bytes w n
length-to_bytes (array n l) xs = length-array_bytes (size l) (to_bytes l) (length-to_bytes l) n xs
length-to_bytes (a ⊗ b) (x & y) =
    omega
      (arith, length-append (to_bytes a x) (to_bytes b y), length-to_bytes a x, length-to_bytes b y)
length-to_bytes (pad n) u = length-replicate n 0

-- What stands behind a part is found at the part's end.
drop_behind :
    (bs front rest : List ℕ) (at k : ℕ)
    → length front ≡ k
    → drop at bs ≡ front ++ rest
    → drop (at + k) bs ≡ rest
drop_behind bs front rest at k e h =
    sym (drop-drop at k bs) ∙ ap (drop k) h ∙ drop_front front rest k e
  where
    drop_front : (front rest : List ℕ) (k : ℕ) → length front ≡ k → drop k (front ++ rest) ≡ rest
    drop_front [] rest zero e = refl
    drop_front [] rest (suc k) e = absurd (omega arith)
    drop_front (x ∷ front) rest zero e = absurd (omega arith)
    drop_front (x ∷ front) rest (suc k) e = drop_front front rest k (omega arith)

module _ (l : Layout) (bs : List ℕ) where
  read_array-array_bytes :
      ((v : El l) (at : ℕ) (rest : List ℕ)
        → fits l v ≡ true
        → drop at bs ≡ to_bytes l v ++ rest
        → read l bs at ≡ v)
      → (n : ℕ) (xs : List (El l)) (at : ℕ) (rest : List ℕ) → length xs ≡ n
      → all (fits l) xs ≡ true
      → drop at bs ≡ array_bytes n (size l) (to_bytes l) xs ++ rest
      → read_array n (size l) (read l bs) at ≡ xs
  read_array-array_bytes item zero [] at rest e fit h = refl
  read_array-array_bytes item zero (x ∷ xs) at rest e fit h = absurd (omega arith)
  read_array-array_bytes item (suc n) [] at rest e fit h = absurd (omega arith)
  read_array-array_bytes item (suc n) (x ∷ xs) at rest e fit h =
      let split = h ∙ append_assoc (to_bytes l x) (array_bytes n (size l) (to_bytes l) xs) rest in
      λ i.
        item x at (array_bytes n (size l) (to_bytes l) xs ++ rest) (ground arith) split i
        ∷ read_array-array_bytes item n xs (at + size l) rest (omega arith) (ground arith)
            (drop_behind bs (to_bytes l x) (array_bytes n (size l) (to_bytes l) xs ++ rest) at
              (size l) (length-to_bytes l x) split)
            i

-- A value that stands at an offset is read there.
pub read-to_bytes :
    (l : Layout) (bs : List ℕ) (v : El l) (at : ℕ) (rest : List ℕ)
    → fits l v ≡ true
    → drop at bs ≡ to_bytes l v ++ rest
    → read l bs at ≡ v
unfolding to_bytes read fits
read-to_bytes (num w) bs n at rest fit h =
    ap (λ t. from_le_bytes (take w t)) h
    ∙ ap from_le_bytes (take-to_le_bytes w n rest)
    ∙ from_le_bytes-to_le_bytes w n (ground arith)
read-to_bytes (array n l) bs xs at rest fit h =
    read_array-array_bytes l bs (read-to_bytes l bs) n xs at rest (ground arith) (ground arith) h
read-to_bytes (a ⊗ b) bs (x & y) at rest fit h =
    let split = h ∙ append_assoc (to_bytes a x) (to_bytes b y) rest in
    λ i.
      read-to_bytes a bs x at (to_bytes b y ++ rest) (ground arith) split i
      & read-to_bytes b bs y (at + size a) rest (ground arith)
          (drop_behind bs (to_bytes a x) (to_bytes b y ++ rest) at (size a) (length-to_bytes a x)
            split)
          i
read-to_bytes (pad n) bs u at rest fit h = refl

-- Reading at an offset is reading what stands behind it.
module _ (l : Layout) (bs : List ℕ) (k : ℕ) where
  read_array-drop :
      ((at : ℕ) → read l (drop k bs) at ≡ read l bs (k + at))
      → (n at : ℕ)
      → read_array n (size l) (read l (drop k bs)) at ≡ read_array n (size l) (read l bs) (k + at)
  read_array-drop item zero at = refl
  read_array-drop item (suc n) at =
      let rest =
        read_array-drop item n (at + size l)
        ∙ ap (read_array n (size l) (read l bs)) (sym (add_assoc k at (size l))) in
      λ i. item at i ∷ rest i

pub read-drop : (l : Layout) (bs : List ℕ) (k at : ℕ) → read l (drop k bs) at ≡ read l bs (k + at)
unfolding read
read-drop (num w) bs k at = ap (λ t. from_le_bytes (take w t)) (drop-drop k at bs)
read-drop (array n l) bs k at = read_array-drop l bs k (read-drop l bs k) n at
read-drop (a ⊗ b) bs k at =
    let behind = read-drop b bs k (at + size a) ∙ ap (read b bs) (sym (add_assoc k at (size a))) in
    λ i. read-drop a bs k at i & behind i
read-drop (pad n) bs k at = refl

to_le_bytes-from_le_bytes :
    (w : ℕ) (bs : List ℕ)
    → are_bytes bs ≡ true
    → w ≤ length bs
    → to_le_bytes w (from_le_bytes (take w bs)) ≡ take w bs
unfolding to_le_bytes from_le_bytes are_bytes
to_le_bytes-from_le_bytes zero bs ok h = refl
to_le_bytes-from_le_bytes (suc w) [] ok h = absurd (omega arith)
to_le_bytes-from_le_bytes (suc w) (b ∷ bs) ok h =
    let small : b < 256 = ground arith in
    let low : (b + 256 * from_le_bytes (take w bs)) % 256 ≡ b = omega arith in
    let high : (b + 256 * from_le_bytes (take w bs)) / 256 ≡ from_le_bytes (take w bs) =
      omega arith in
    let rest = to_le_bytes-from_le_bytes w bs (ground arith) (omega arith) in
    λ i. low i ∷ (ap (to_le_bytes w) high ∙ rest) i

module _ (l : Layout) (bs : List ℕ) where
  array_bytes-read_array :
      ((at : ℕ) → at + size l ≤ length bs → to_bytes l (read l bs at) ≡ take (size l) (drop at bs))
      → (n at : ℕ) → at + n * size l ≤ length bs
      → array_bytes n (size l) (to_bytes l) (read_array n (size l) (read l bs) at)
        ≡ take (n * size l) (drop at bs)
  array_bytes-read_array item zero at h =
      let none_left : 0 ≡ 0 * size l = omega arith in ap (λ k. take k (drop at bs)) none_left
  array_bytes-read_array item (suc n) at h =
      let room : at + (size l + n * size l) ≤ length bs = omega (arith, suc-mul n (size l)) in
      (λ i. item at (omega arith) i ++ array_bytes-read_array item n (at + size l) (omega arith) i)
      ∙ ap (λ t. take (size l) (drop at bs) ++ take (n * size l) t) (sym (drop-drop at (size l) bs))
      ∙ sym (take-add (size l) (n * size l) (drop at bs))
      ∙ ap (λ t. take t (drop at bs)) (omega (arith, suc-mul n (size l)))

-- The bytes of the value that is read are the bytes that it is read from.
pub to_bytes-read :
    (l : Layout) (bs : List ℕ) (at : ℕ)
    → is_dense l ≡ true
    → are_bytes bs ≡ true
    → at + size l ≤ length bs
    → to_bytes l (read l bs at) ≡ take (size l) (drop at bs)
unfolding to_bytes read is_dense
to_bytes-read (num w) bs at dense ok h =
    to_le_bytes-from_le_bytes w (drop at bs) (are_bytes-drop at bs ok)
      (omega (arith, length-drop at bs))
to_bytes-read (array n l) bs at dense ok h =
    array_bytes-read_array l bs (λ k room. to_bytes-read l bs k dense ok room) n at h
to_bytes-read (a ⊗ b) bs at dense ok h =
    (λ i.
      to_bytes-read a bs at (ground arith) ok (omega arith) i
      ++ to_bytes-read b bs (at + size a) (ground arith) ok (omega arith) i)
    ∙ ap (λ t. take (size a) (drop at bs) ++ take (size b) t) (sym (drop-drop at (size a) bs))
    ∙ sym (take-add (size a) (size b) (drop at bs))
to_bytes-read (pad n) bs at dense ok h = cc

module _ (l : Layout) (bs : List ℕ) where
  fits-read_array :
      ((at : ℕ) → fits l (read l bs at) ≡ true)
      → (n at : ℕ)
      → (length (read_array n (size l) (read l bs) at) ≡ n)
        × (all (fits l) (read_array n (size l) (read l bs) at) ≡ true)
  fits-read_array item zero at = (refl, refl)
  fits-read_array item (suc n) at =
      let (long, rest) = fits-read_array item n (at + size l) in
      (ap suc long, ground (arith, item at))

-- What is read from bytes is a value of the layout.
pub fits-read :
    (l : Layout) (bs : List ℕ) (at : ℕ) → are_bytes bs ≡ true → fits l (read l bs at) ≡ true
unfolding fits read
fits-read (num w) bs at ok =
    ground (arith, from_le_bytes-bound w (drop at bs) (are_bytes-drop at bs ok))
fits-read (array n l) bs at ok =
    let (long, rest) = fits-read_array l bs (λ k. fits-read l bs k ok) n at in ground arith
fits-read (a ⊗ b) bs at ok = ground (arith, fits-read a bs at ok, fits-read b bs (at + size a) ok)
fits-read (pad n) bs at ok = refl

are_bytes-to_le_bytes : (w n : ℕ) → are_bytes (to_le_bytes w n) ≡ true
unfolding to_le_bytes are_bytes
are_bytes-to_le_bytes zero n = refl
are_bytes-to_le_bytes (suc w) n = ground (arith, are_bytes-to_le_bytes w (n / 256))

module _ {A : Type 0} (k : ℕ) (f : A → List ℕ) (item : (x : A) → are_bytes (f x) ≡ true) where
  are_bytes-array_bytes : (n : ℕ) (xs : List A) → are_bytes (array_bytes n k f xs) ≡ true
  unfolding are_bytes
  are_bytes-array_bytes zero xs = refl
  are_bytes-array_bytes (suc n) [] =
      are_bytes-append (replicate k 0) (array_bytes n k f []) (are_bytes-replicate k)
        (are_bytes-array_bytes n [])
  are_bytes-array_bytes (suc n) (x ∷ xs) =
      are_bytes-append (f x) (array_bytes n k f xs) (item x) (are_bytes-array_bytes n xs)

pub are_bytes-to_bytes : (l : Layout) (v : El l) → are_bytes (to_bytes l v) ≡ true
unfolding to_bytes
are_bytes-to_bytes (num w) n = are_bytes-to_le_bytes w n
are_bytes-to_bytes (array n l) xs =
    are_bytes-array_bytes (size l) (to_bytes l) (are_bytes-to_bytes l) n xs
are_bytes-to_bytes (a ⊗ b) (x & y) =
    are_bytes-append (to_bytes a x) (to_bytes b y) (are_bytes-to_bytes a x) (are_bytes-to_bytes b y)
are_bytes-to_bytes (pad n) u = are_bytes-replicate n
