-- ===== src/Memory/ReadBack.antt =====
-- Guest memory that is read back: how the theorems say what a guest finds.
use linux_loader.Base.{
  ℕ, zero, suc, ◌+◌, ◌-◌, ◌<◌, true, List, [], ◌∷◌, Option, none, some, ◌≡◌, refl, ap, ◌∙◌, arith,
  if◌then◌else◌, length, get_elem?,
}
use linux_loader.Base.Splice.{inside}

-- The bytes of memory from an address on, if there is memory.
unfoldable pub read_back : (ℕ → Option ℕ) → ℕ → ℕ → Option (List ℕ)
read_back peek a zero = some []
read_back peek a (suc n) = put_before (peek a) (read_back peek (a + 1) n)
  where
    put_before : Option ℕ → Option (List ℕ) → Option (List ℕ)
    put_before (some b) (some bs) = some (b ∷ bs)
    put_before _ _ = none

pub read_back-placed :
    (peek : ℕ → Option ℕ) (a : ℕ) (bs : List ℕ)
    → ((i : ℕ) → i < length bs → peek (a + i) ≡ get_elem? bs i)
    → read_back peek a (length bs) ≡ some bs
unfolding read_back
read_back-placed peek a [] h = refl
read_back-placed peek a (b ∷ bs) h =
    let first : peek a ≡ some b = ap peek (omega arith) ∙ h 0 (omega arith) in
    let rest : read_back peek (a + 1) (length bs) ≡ some bs =
      read_back-placed peek (a + 1) bs
        λ i lt. ap peek (omega arith) ∙ h (suc i) (omega (arith, lt)) in
    rw (first, rest)

-- A byte of a range that holds `bs`.
pub in_range :
    (start : ℕ) (bs : List ℕ) (i : ℕ) (other : Option ℕ)
    → i < length bs
    → (if inside start (length bs) (start + i) then get_elem? bs (start + i - start) else other)
      ≡ get_elem? bs i
in_range start bs i other lt =
    let within : inside start (length bs) (start + i) ≡ true = ground arith in
    let there : start + i - start ≡ i = omega arith in rw (within, there)
