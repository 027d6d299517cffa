-- ===== src/Base/Int.antt =====
-- Signed integers over the native numbers, under the library's names, the casts and the
-- subtraction of `i64`, and the sum of an unsigned and a signed number.
use Prim.Native.Nat.{ℕ, ◌+◌, ◌-◌, ◌^◌}
use linux_loader.Base.Tests.{ltb, leb, if◌then◌else◌}
use mathlib.Core.Option.{Option, none, some}
use linux_loader.Base.Outcome.{Result, ok, panic}

-- `negsuc n` is -(n + 1).
pub data ℤ : Type 0 where
  pos : ℕ → ℤ
  negsuc : ℕ → ℤ

-- `x as i64`.
abbrev pub as_i64 : ℕ → ℤ
as_i64 x = if ltb x (2 ^ 63) then pos x else negsuc (2 ^ 64 - x - 1)

-- `a - n` in i64, with overflow checks on.
abbrev pub sub_i64 {κ} : {E : Type κ} → ℤ → ℕ → Result E ℤ
sub_i64 (pos m) n = ok (if leb n m then pos (m - n) else negsuc (n - m - 1))
sub_i64 (negsuc m) n = if ltb (m + n) (2 ^ 63) then ok (negsuc (m + n)) else panic

-- `base.checked_add_signed(d)` in u64.
abbrev pub checked_add_signed : ℕ → ℤ → Option ℕ
checked_add_signed base (pos n) = if ltb (base + n) (2 ^ 64) then some (base + n) else none
checked_add_signed base (negsuc n) = if ltb n base then some (base - n - 1) else none
