-- ===== src/Text/Read.antt =====
-- A reader of numbers, to say what the digits of src/cmdline/mod.rs stand for.
use linux_loader.Base.{
  ℕ, zero, suc, ◌+◌, ◌-◌, ◌*◌, ◌/◌, ◌%◌, ◌^◌, ◌≤◌, ◌<◌, true, false, ◌&&◌, [], ◌∷◌, ◌++◌, Option,
  none, some, ◌≡◌, ap, ◌∙◌, arith, ltb, leb, if◌then◌else◌, append_assoc, Bool-cases, inl, inr,
}
use linux_loader.Text.{Str}
use linux_loader.Text.Number.{digit, digits}
use native.Mathlib.Nat.{div-add-mod', mod-lt, pow-suc, pow-zero, one-mul, div-lt_iff_lt-mul}

-- The value of a digit.
abbrev pub digit_value : ℕ → ℕ → Option ℕ
digit_value base c =
    if leb b'0' c && leb c b'9' && ltb (c - b'0') base
    then some (c - b'0')
    else if leb b'a' c && ltb (c - b'a' + 10) base
    then some (c - b'a' + 10)
    else none

-- The number that a text starts with, added to `acc`, and the rest.
unfoldable pub read_digits : ℕ → ℕ → Str → ℕ × Str
read_digits base acc [] = (acc, [])
read_digits base acc (c ∷ s) = elim (digit_value base c) [
  | none ↦ (acc, c ∷ s)
  | some d ↦ read_digits base (acc * base + d) s
]

digit_value-digit : (base d : ℕ) → base ≤ 36 → d < base → digit_value base (digit d) ≡ some d
digit_value-digit base d h lt = ground arith

read_digits_step :
    (base acc c d : ℕ) (s : Str)
    → digit_value base c ≡ some d
    → read_digits base acc (c ∷ s) ≡ read_digits base (acc * base + d) s
unfolding read_digits
read_digits_step base acc c d s e =
    ap (λ o. elim o [ none ↦ (acc, c ∷ s) | some d ↦ read_digits base (acc * base + d) s ]) e

-- The text that starts with no digit ends a number.
pub read_digits_end :
    (base acc c : ℕ) (s : Str)
    → digit_value base c ≡ none
    → read_digits base acc (c ∷ s) ≡ (acc, c ∷ s)
unfolding read_digits
read_digits_end base acc c s e =
    ap (λ o. elim o [ none ↦ (acc, c ∷ s) | some d ↦ read_digits base (acc * base + d) s ]) e

digits_single : (base fuel n : ℕ) → ltb n base ≡ true → digits base (suc fuel) n ≡ digit n ∷ []
unfolding digits
digits_single base fuel n e = ground arith

digits_more :
    (base fuel n : ℕ)
    → ltb n base ≡ false
    → digits base (suc fuel) n ≡ digits base fuel (n / base) ++ (digit (n % base) ∷ [])
unfolding digits
digits_more base fuel n e = ground arith

read_one :
    (base n : ℕ) (s : Str)
    → base ≤ 36
    → n < base
    → read_digits base 0 ((digit n ∷ []) ++ s) ≡ read_digits base n s
read_one base n s h lt =
    read_digits_step base 0 (digit n) n s (digit_value-digit base n h lt)
    ∙ ap (λ k. read_digits base k s) (omega arith)

-- The last digit, behind the others.
read_last :
    (base n : ℕ) (front s : Str)
    → 2 ≤ base
    → base ≤ 36
    → read_digits base 0 (front ++ (digit (n % base) ∷ s))
      ≡ read_digits base (n / base) (digit (n % base) ∷ s)
    → read_digits base 0 ((front ++ (digit (n % base) ∷ [])) ++ s) ≡ read_digits base n s
read_last base n front s h h' others =
    ap (read_digits base 0) (append_assoc front (digit (n % base) ∷ []) s)
    ∙ others
    ∙ read_digits_step base (n / base) (digit (n % base)) (n % base) s
        (digit_value-digit base (n % base) h' (mod-lt n (omega (arith, h))))
    ∙ ap (λ k. read_digits base k s) (div-add-mod' n base)

first_power : (n : ℕ) → n ^ 1 ≡ n
first_power n = pow-suc n 0 ∙ ap (λ k. k * n) (pow-zero n) ∙ one-mul n

-- The digits of a number are read as this number, if the fuel is enough for them.
pub read_digits-digits :
    (base fuel n : ℕ) (s : Str)
    → 2 ≤ base
    → base ≤ 36
    → n < base ^ suc fuel
    → read_digits base 0 (digits base (suc fuel) n ++ s) ≡ read_digits base n s
read_digits-digits base zero n s h h' bound =
    let single : ltb n base ≡ true = ground (arith, bound, first_power base) in
    rw (digits_single base 0 n single) (read_one base n s h' (ground arith))
read_digits-digits base (suc fuel) n s h h' bound = elim (Bool-cases (ltb n base)) [
  | inl single ↦ rw (digits_single base (suc fuel) n single) (read_one base n s h' (ground arith))
  | inr more ↦
      (let small : n / base < base ^ suc fuel =
          (div-lt_iff_lt-mul (omega (arith, h))).1 (rw (← pow-suc) bound) in
        rw (digits_more base (suc fuel) n more) (
          read_last base n (digits base (suc fuel) (n / base)) s h h'
            (read_digits-digits base fuel (n / base) (digit (n % base) ∷ s) h h' small)))
]
