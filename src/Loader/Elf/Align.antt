-- ===== src/Loader/Elf/Align.antt =====
-- `align_up` of src/loader/x86_64/elf/mod.rs: the least multiple of a power of two.
use linux_loader.Base.{
  ℕ, zero, suc, ◌+◌, ◌*◌, ◌/◌, ◌%◌, ◌^◌, ◌≤◌, ◌<◌, true, false, ◌≡◌, ◌≢◌, ◌⊎◌, inl, inr, refl, sym,
  ap, ◌∙◌, arith, ◌==◌, Bool-cases,
}
use linux_loader.Base.Bits.{bit_and_mask, bit_or_mask}
use linux_loader.Base.Outcome.{ok, err, panic}
use linux_loader.Base.Word.{two_64}
use linux_loader.Loader.Errors.Elf.{align}
use linux_loader.Loader.Elf.Note.{is_power_below, is_power_of_two, align_up}
use native.Mathlib.Nat.{pow-le-pow_right, div-add-mod', one-le-pow, mod-lt}
use mathlib.Core.Path.{subst}

is_power_below-true : (w n : ℕ) → is_power_below w n ≡ true → (k : ℕ) × (k < w) × (n ≡ 2 ^ k)
unfolding is_power_below
is_power_below-true zero n h = cc
is_power_below-true (suc w) n h = elim (Bool-cases (n == 2 ^ w)) [
  | inl e ↦ (w, omega arith, ground arith)
  | inr e ↦ let (k, lt, p) = is_power_below-true w n (ground arith) in (k, omega (arith, lt), p)
]

is_power_below-false : (w n : ℕ) → is_power_below w n ≡ false → (k : ℕ) → k < w → n ≢ 2 ^ k
unfolding is_power_below
is_power_below-false zero n h k lt e = omega arith
is_power_below-false (suc w) n h k lt e = elim (Bool-cases (k == w)) [
  | inl last ↦ (let same : k ≡ w = ground arith in ground (arith, ap (λ (t : ℕ). 2 ^ t) same))
  | inr below ↦ is_power_below-false w n (ground arith) k (ground arith) e
]

-- What `align_up` returns at the alignment 2^k.
abbrev pub IsAligned : ℕ → ℕ → ℕ → Type 0
IsAligned addr alignment n = (addr ≤ n) × (n < addr + alignment) × (q : ℕ) × (n ≡ q * alignment)

align_up-split :
    (k q r : ℕ)
    → is_power_of_two (2 ^ k) ≡ true
    → r < 2 ^ k
    → q * 2 ^ k + r + 2 ^ k ≤ two_64
    → (n : ℕ) × (align_up (q * 2 ^ k + r) (2 ^ k) ≡ ok n) × IsAligned (q * 2 ^ k + r) (2 ^ k) n
unfolding align_up
align_up-split k q zero p h fits =
    (q * 2 ^ k, ground (arith, bit_and_mask k q 0), (omega arith, omega arith, q, refl))
align_up-split k q (suc r) p h fits = (
  suc q * 2 ^ k,
  ground (arith, bit_and_mask k q (suc r), bit_or_mask k q (suc r)),
  (omega arith, omega arith, suc q, refl),
)

align_up_power :
    (k addr : ℕ)
    → is_power_of_two (2 ^ k) ≡ true
    → addr + 2 ^ k ≤ two_64
    → (n : ℕ) × (align_up addr (2 ^ k) ≡ ok n) × IsAligned addr (2 ^ k) n
align_up_power k addr p fits =
    let split : addr / 2 ^ k * 2 ^ k + addr % 2 ^ k ≡ addr = div-add-mod' addr (2 ^ k) in
    subst (λ a. (n : ℕ) × (align_up a (2 ^ k) ≡ ok n) × IsAligned a (2 ^ k) n) split
      (align_up-split k (addr / 2 ^ k) (addr % 2 ^ k) p (mod-lt addr (one-le-pow k 2 (omega arith)))
        (omega (arith, split)))

-- At an alignment that is a power of two the result is a multiple of it, not below the address, and
-- the first such, if the address and the alignment add up to at most 2^64; at any other alignment
-- there is an error.
pub align_up_lem :
    (addr alignment : ℕ)
    → addr + alignment ≤ two_64
    → ((k : ℕ) × (k < 64)
        × (alignment ≡ 2 ^ k)
        × (n : ℕ) × (align_up addr alignment ≡ ok n)
        × IsAligned addr alignment n)
      ⊎ (((k : ℕ) → k < 64 → alignment ≢ 2 ^ k) × (align_up addr alignment ≡ err align))
align_up_lem addr alignment fits = elim (Bool-cases (is_power_of_two alignment)) [
  | inl p ↦
      let (k, lt, e) = is_power_below-true 64 alignment (unfold is_power_of_two in p) in
      let (n, rounded, aligned) =
        subst (λ a. (n : ℕ) × (align_up addr a ≡ ok n) × IsAligned addr a n) (sym e)
          (align_up_power k addr (rw e at p) (omega (arith, e))) in
      inl (k, lt, e, n, rounded, aligned)
  | inr p ↦ inr (
    λ k lt e. is_power_below-false 64 alignment (unfold is_power_of_two in p) k lt e,
    unfold align_up in rw p,
  )
]

align_up-split-ok :
    (k q r n : ℕ)
    → is_power_of_two (2 ^ k) ≡ true
    → r < 2 ^ k
    → align_up (q * 2 ^ k + r) (2 ^ k) ≡ ok n
    → IsAligned (q * 2 ^ k + r) (2 ^ k) n
unfolding align_up
align_up-split-ok k q zero n p h e =
    let made : n ≡ q * 2 ^ k = ground (arith, bit_and_mask k q 0) in
    (omega (arith, made), omega (arith, made), q, made)
align_up-split-ok k q (suc r) n p h e =
    let made : n ≡ suc q * 2 ^ k =
      ground (arith, bit_and_mask k q (suc r), bit_or_mask k q (suc r)) in
    (omega (arith, made), omega (arith, made), suc q, made)

align_up-refused :
    (addr alignment n : ℕ) → is_power_of_two alignment ≡ false → align_up addr alignment ≡ ok n → ⊥
unfolding align_up
align_up-refused addr alignment n p e = ground arith

-- Whenever there is a result, it is the least multiple, whatever the address.
pub align_up-ok :
    (addr alignment n : ℕ)
    → align_up addr alignment ≡ ok n
    → ((k : ℕ) × (k < 64) × (alignment ≡ 2 ^ k)) × IsAligned addr alignment n
align_up-ok addr alignment n e = elim (Bool-cases (is_power_of_two alignment)) [
  | inl p ↦
      let (k, lt, a) = is_power_below-true 64 alignment (unfold is_power_of_two in p) in
      let split : addr / 2 ^ k * 2 ^ k + addr % 2 ^ k ≡ addr = div-add-mod' addr (2 ^ k) in
      let run : align_up (addr / 2 ^ k * 2 ^ k + addr % 2 ^ k) (2 ^ k) ≡ ok n = rw (split, ← a) e in
      (
        (k, lt, a),
        subst (λ b. IsAligned addr b n) (sym a)
            (subst (λ b. IsAligned b (2 ^ k) n) split
              (align_up-split-ok k (addr / 2 ^ k) (addr % 2 ^ k) n (rw a at p)
                (mod-lt addr (one-le-pow k 2 (omega arith))) run)),
      )
  | inr p ↦ absurd (align_up-refused addr alignment n p e)
]

align_up-halted :
    (addr alignment : ℕ) → is_power_of_two alignment ≡ false → align_up addr alignment ≡ panic → ⊥
unfolding align_up
align_up-halted addr alignment p h = ground arith

-- A size of 32 bits is rounded up without overflow, or refused.
pub align_up_calm : (addr alignment : ℕ) → addr < 2 ^ 32 → align_up addr alignment ≢ panic
align_up_calm addr alignment small h = elim (Bool-cases (is_power_of_two alignment)) [
  | inl p ↦
      let (k, lt, e) = is_power_below-true 64 alignment (unfold is_power_of_two in p) in
      let most : 2 ^ k ≤ 2 ^ 63 = pow-le-pow_right (omega arith) {j = 63} (omega (arith, lt)) in
      elim (align_up_lem addr alignment (omega (arith, e, most, small))) [
        | inl (_, _, _, n, rounded, _) ↦ cc
        | inr (_, refused) ↦ cc
      ]
  | inr p ↦ align_up-halted addr alignment p h
]

-- At any power of two but the last, the result is far from the signed range's end.
pub align_up-small :
    (addr alignment n : ℕ)
    → addr < 2 ^ 32
    → alignment ≢ 2 ^ 63
    → align_up addr alignment ≡ ok n
    → n < 2 ^ 63
align_up-small addr alignment n small odd h =
    let ((k, lt, e), (least, most, _, _)) = align_up-ok addr alignment n h in
    elim (Bool-cases (k == 63)) [
      | inl last ↦ absurd (odd (e ∙ ap (λ (t : ℕ). 2 ^ t) {y = 63} (ground arith)))
      | inr below ↦
          (let half : 2 ^ k ≤ 2 ^ 62 =
              pow-le-pow_right (omega arith) {j = 62} (ground (arith, lt)) in
            omega (arith, e, half, small, most))
    ]
