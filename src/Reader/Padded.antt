-- ===== src/Reader/Padded.antt =====
-- What a read into a buffer of zeros finds: the bytes of the image, with zeros behind them where the
-- image is too short.
use linux_loader.Base.{
  ℕ, zero, suc, ◌≤◌, List, [], ◌∷◌, ◌++◌, ◌≡◌, refl, sym, ap, arith, length, take, drop, replicate,
}
use native.Mathlib.Nat.{le_refl}

abbrev pub padded : ℕ → List ℕ → List ℕ
padded n bytes = take n (bytes ++ replicate n 0)

take-replicate : (n m : ℕ) → n ≤ m → take {A = ℕ} n (replicate m 0) ≡ replicate n 0
take-replicate zero m h = refl
take-replicate (suc n) zero h = absurd (omega arith)
take-replicate (suc n) (suc m) h = ap (λ t. 0 ∷ t) (take-replicate n m (omega arith))

padded_more :
    (n m : ℕ) (xs : List ℕ)
    → n ≤ m
    → take n xs ++ drop (length (take n xs)) (replicate n 0) ≡ take n (xs ++ replicate m 0)
padded_more zero m xs h = refl
padded_more (suc n) zero [] h = absurd (omega arith)
padded_more (suc n) (suc m) [] h = ap (λ t. 0 ∷ t) (sym (take-replicate n m (omega arith)))
padded_more (suc n) m (x ∷ xs) h = ap (λ t. x ∷ t) (padded_more n m xs (omega arith))

pub padded_lem :
    (n : ℕ) (xs : List ℕ) → take n xs ++ drop (length (take n xs)) (replicate n 0) ≡ padded n xs
padded_lem n xs = padded_more n n xs (le_refl n)
