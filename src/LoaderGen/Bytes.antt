-- ===== src/LoaderGen/Bytes.antt =====
-- Bytes as numbers below 256, and the bounds of the numbers that src/loader_gen reads from them.
use linux_loader.Base.{
  ℕ, zero, suc, ◌^◌, ◌<◌, Bool, true, ◌&&◌, List, [], ◌∷◌, ◌≡◌, refl, arith, ltb, take, drop, ◌++◌,
  replicate,
}
use linux_loader.LoaderGen.{from_le_bytes}
use native.Mathlib.Nat.{one-le-pow}

unfoldable pub are_bytes : List ℕ → Bool
are_bytes [] = true
are_bytes (b ∷ bs) = ltb b 256 && are_bytes bs

pub are_bytes-take : (n : ℕ) (bs : List ℕ) → are_bytes bs ≡ true → are_bytes (take n bs) ≡ true
unfolding are_bytes
are_bytes-take zero bs h = refl
are_bytes-take (suc n) [] h = refl
are_bytes-take (suc n) (b ∷ bs) h = ground (arith, are_bytes-take n bs)

pub are_bytes-drop : (n : ℕ) (bs : List ℕ) → are_bytes bs ≡ true → are_bytes (drop n bs) ≡ true
unfolding are_bytes
are_bytes-drop zero bs h = h
are_bytes-drop (suc n) [] h = h
are_bytes-drop (suc n) (b ∷ bs) h = are_bytes-drop n bs (ground arith)

pub from_le_bytes-bound :
    (w : ℕ) (bs : List ℕ) → are_bytes bs ≡ true → from_le_bytes (take w bs) < 256 ^ w
unfolding are_bytes from_le_bytes
from_le_bytes-bound zero bs h = omega arith
from_le_bytes-bound (suc w) [] h = one-le-pow (suc w) 256 (omega arith)
from_le_bytes-bound (suc w) (b ∷ bs) h =
    let rest : from_le_bytes (take w bs) < 256 ^ w = from_le_bytes-bound w bs (ground arith) in
    ground arith

pub are_bytes-append :
    (xs ys : List ℕ) → are_bytes xs ≡ true → are_bytes ys ≡ true → are_bytes (xs ++ ys) ≡ true
unfolding are_bytes
are_bytes-append [] ys hx hy = hy
are_bytes-append (x ∷ xs) ys hx hy = ground (arith, are_bytes-append xs ys)

pub are_bytes-replicate : (n : ℕ) → are_bytes (replicate n 0) ≡ true
unfolding are_bytes
are_bytes-replicate zero = refl
are_bytes-replicate (suc n) = ground (arith, are_bytes-replicate n)
