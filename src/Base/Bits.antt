-- ===== src/Base/Bits.antt =====
-- `&` and `|` with a mask of low ones, as arithmetic.
use Prim.Native.Nat.{
  ℕ, zero, suc, ◌+◌, ◌-◌, ◌*◌, ◌/◌, ◌%◌, ◌^◌, ◌≤◌, ◌<◌, min, max, bit_and, bit_or, digits,
  bit_and-bitwise, bit_or-bitwise,
}
use mathlib.Core.Path.{◌≡◌, refl, ap}
use native.Mathlib.Nat.{pow-suc, one-le-pow}
use native.Mathlib.Omega.{arith}

-- The native operations recur on a fuel that starts at the first operand; any greater one will do.
module _ (tail : ℕ → ℕ) (bit : ℕ → ℕ → ℕ) where
  more_fuel : (f a b : ℕ) → a ≤ f → digits tail bit f a b ≡ digits tail bit a a b
  more_fuel f a b h = pair f a a b h (omega arith)
    where
      pair : (f g x y : ℕ) → x ≤ f → x ≤ g → digits tail bit f x y ≡ digits tail bit g x y
      pair zero zero x y p q = refl
      pair zero (suc g) zero y p q = refl
      pair (suc f) zero zero y p q = refl
      pair (suc f) (suc g) zero y p q = refl
      pair zero (suc g) (suc x) y p q = absurd (omega arith)
      pair (suc f) zero (suc x) y p q = absurd (omega arith)
      pair (suc f) (suc g) (suc x) y p q =
          ap (λ (t : ℕ). t * 2 + bit (suc x % 2) (y % 2))
            (pair f g (suc x / 2) (y / 2) (omega arith) (omega arith))

pub bit_and_low : (a b : ℕ) → bit_and a b ≡ bit_and (a / 2) (b / 2) * 2 + min (a % 2) (b % 2)
bit_and_low zero b = omega (arith, bit_and-bitwise 0 b, bit_and-bitwise 0 (b / 2))
bit_and_low (suc a) b = omega (
  arith,
  bit_and-bitwise (suc a) b,
  bit_and-bitwise (suc a / 2) (b / 2),
  more_fuel (λ y. 0) min a (suc a / 2) (b / 2) (omega arith),
)

pub bit_or_low : (a b : ℕ) → bit_or a b ≡ bit_or (a / 2) (b / 2) * 2 + max (a % 2) (b % 2)
bit_or_low zero b = omega (arith, bit_or-bitwise 0 b, bit_or-bitwise 0 (b / 2))
bit_or_low (suc a) b = omega (
  arith,
  bit_or-bitwise (suc a) b,
  bit_or-bitwise (suc a / 2) (b / 2),
  more_fuel (λ y. y) max a (suc a / 2) (b / 2) (omega arith),
)

and_nought : (f a : ℕ) → a ≤ f → bit_and a 0 ≡ 0
and_nought f zero h = refl
and_nought zero (suc a) h = absurd (omega arith)
and_nought (suc f) (suc a) h =
    omega (arith, bit_and_low (suc a) 0, and_nought f (suc a / 2) (omega arith))

or_nought : (f a : ℕ) → a ≤ f → bit_or a 0 ≡ a
or_nought f zero h = refl
or_nought zero (suc a) h = absurd (omega arith)
or_nought (suc f) (suc a) h =
    omega (arith, bit_or_low (suc a) 0, or_nought f (suc a / 2) (omega arith))

doubled : (q k : ℕ) → q * 2 ^ suc k ≡ 2 * (q * 2 ^ k)
doubled q k = omega (arith, ap (λ (t : ℕ). q * t) (pow-suc 2 k))

-- The mask of `k` ones leaves the low part of a number, or fills it.
pub bit_and_mask : (k q r : ℕ) → r < 2 ^ k → bit_and (q * 2 ^ k + r) (2 ^ k - 1) ≡ r
bit_and_mask zero q r h = ground (arith, and_nought (q * 1 + r) (q * 1 + r) (omega arith))
bit_and_mask (suc k) q r h = ground (
  arith,
  bit_and_low (q * 2 ^ suc k + r) (2 ^ suc k - 1),
  doubled q k,
  pow-suc 2 k,
  one-le-pow k 2,
  bit_and_mask k q (r / 2) (omega (arith, pow-suc 2 k)),
)

pub bit_or_mask :
    (k q r : ℕ) → r < 2 ^ k → bit_or (q * 2 ^ k + r) (2 ^ k - 1) ≡ q * 2 ^ k + (2 ^ k - 1)
bit_or_mask zero q r h = ground (arith, or_nought (q * 1 + r) (q * 1 + r) (omega arith))
bit_or_mask (suc k) q r h = ground (
  arith,
  bit_or_low (q * 2 ^ suc k + r) (2 ^ suc k - 1),
  doubled q k,
  pow-suc 2 k,
  one-le-pow k 2,
  bit_or_mask k q (r / 2) (omega (arith, pow-suc 2 k)),
)
