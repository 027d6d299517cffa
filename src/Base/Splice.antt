-- ===== src/Base/Splice.antt =====
-- Replacing a range of a list, byte by byte.
use Prim.Native.Nat.{ℕ, zero, suc, ◌+◌, ◌-◌, ◌≤◌, ◌<◌}
use mathlib.Core.Path.{◌≡◌, refl, ap, ◌∙◌}
use mathlib.Core.Bool.{Bool, true, false, ◌&&◌}
use mathlib.Core.List.{List, [], ◌∷◌, ◌++◌}
use mathlib.Core.Option.{none}
use mathlib.Core.Logic.{◌⊎◌, inl, inr}
use native.Mathlib.Decide.{dec_lt}
use native.Mathlib.Omega.{arith}
use linux_loader.Base.Tests.{ltb, leb, if◌then◌else◌}
use linux_loader.Base.Lists.{length, get_elem?, take, drop, length-append, length-take, length-drop}

-- `start ≤ x < start + count`.
abbrev pub inside : ℕ → ℕ → ℕ → Bool
inside start count x = leb start x && ltb x (start + count)

pub not_inside :
    (start count x : ℕ) → (x < start) ⊎ (start + count ≤ x) → inside start count x ≡ false
not_inside start count x h = ground arith

module _ {ℓ} {A : Type ℓ} where
  -- The elements from `start` on, as many as `new` has, become `new`.
  abbrev pub overwrite : List A → ℕ → List A → List A
  overwrite xs start new = take start xs ++ (new ++ drop (start + length new) xs)

module _ {ℓ} {A : Type ℓ} where
  get_elem?_at : (xs : List A) {i j : ℕ} → i ≡ j → get_elem? xs i ≡ get_elem? xs j
  get_elem?_at xs e = ap (get_elem? xs) e

  pub get_elem?-append_left :
      (xs ys : List A) (i : ℕ) → i < length xs → get_elem? (xs ++ ys) i ≡ get_elem? xs i
  get_elem?-append_left [] ys i h = absurd (omega arith)
  get_elem?-append_left (x ∷ xs) ys zero h = refl
  get_elem?-append_left (x ∷ xs) ys (suc i) h = get_elem?-append_left xs ys i (omega arith)

  pub get_elem?-append_right :
      (xs ys : List A) (i : ℕ) → get_elem? (xs ++ ys) (length xs + i) ≡ get_elem? ys i
  get_elem?-append_right [] ys i = get_elem?_at ys {i = 0 + i} (omega arith)
  get_elem?-append_right (x ∷ xs) ys i =
      get_elem?_at (x ∷ (xs ++ ys)) {i = suc (length xs) + i} {j = suc (length xs + i)}
        (omega arith)
      ∙ get_elem?-append_right xs ys i

  pub get_elem?-take :
      (n : ℕ) (xs : List A) (i : ℕ) → i < n → get_elem? (take n xs) i ≡ get_elem? xs i
  get_elem?-take zero xs i h = absurd (omega arith)
  get_elem?-take (suc n) [] i h = refl
  get_elem?-take (suc n) (x ∷ xs) zero h = refl
  get_elem?-take (suc n) (x ∷ xs) (suc i) h = get_elem?-take n xs i (omega arith)

  pub get_elem?-drop :
      (n : ℕ) (xs : List A) (i : ℕ) → get_elem? (drop n xs) i ≡ get_elem? xs (n + i)
  get_elem?-drop zero xs i = get_elem?_at xs {j = 0 + i} (omega arith)
  get_elem?-drop (suc n) [] i = refl
  get_elem?-drop (suc n) (x ∷ xs) i =
      get_elem?-drop n xs i ∙ get_elem?_at (x ∷ xs) {i = suc (n + i)} {j = suc n + i} (omega arith)

  pub get_elem?_past : (xs : List A) (i : ℕ) → length xs ≤ i → get_elem? xs i ≡ none
  get_elem?_past [] i h = refl
  get_elem?_past (x ∷ xs) zero h = absurd (omega arith)
  get_elem?_past (x ∷ xs) (suc i) h = get_elem?_past xs i (omega arith)

  pub length-overwrite :
      (xs : List A) (start : ℕ) (new : List A)
      → start + length new ≤ length xs
      → length (overwrite xs start new) ≡ length xs
  length-overwrite xs start new h = omega (
    arith,
    length-append {ℓ} (take start xs) (new ++ drop (start + length new) xs),
    length-append {ℓ} new (drop (start + length new) xs),
    length-take {ℓ} start xs,
    length-drop {ℓ} (start + length new) xs,
  )

  -- Inside the range an element of `new`, outside the element that was there.
  pub get_elem?-overwrite :
      (xs : List A) (start : ℕ) (new : List A) (i : ℕ)
      → start + length new ≤ length xs
      → get_elem? (overwrite xs start new) i
        ≡ (if inside start (length new) i then get_elem? new (i - start) else get_elem? xs i)
  get_elem?-overwrite xs start new i h = elim (dec_lt i start) [
    | yes before ↦ rw (outside (inl before)) (
        get_elem?-append_left front _ i (omega (arith, front_length))
        ∙ get_elem?-take start xs i before)
    | no behind ↦
        get_elem?_at (overwrite xs start new) {j = length front + (i - start)}
          (omega (arith, front_length))
        ∙ get_elem?-append_right front _ (i - start)
        ∙ (elim (dec_lt i (start + length new)) [
          | yes within ↦
              rw (among (omega arith) within)
                (get_elem?-append_left new _ (i - start) (omega arith))
          | no past ↦ rw (outside (inr (omega arith))) (
              get_elem?_at (new ++ back) {j = length new + (i - start - length new)} (omega arith)
              ∙ get_elem?-append_right new back (i - start - length new)
              ∙ get_elem?-drop (start + length new) xs (i - start - length new)
              ∙ get_elem?_at xs (omega arith))
        ])
  ]
    where
      front : List A
      front = take start xs

      back : List A
      back = drop (start + length new) xs

      front_length : length front ≡ start
      front_length = omega (arith, length-take {ℓ} start xs)

      outside : (i < start) ⊎ (start + length new ≤ i) → inside start (length new) i ≡ false
      outside c = ground arith

      among : start ≤ i → i < start + length new → inside start (length new) i ≡ true
      among p q = ground arith
