-- ===== src/Base/Word.antt =====
-- 64-bit arithmetic (`u64`, and `usize` on the supported targets), as the source writes it: checked
-- operations into an option, and the plain `+`, which panics on overflow.
use linux_loader.Base.Tests.{ltb, leb, if◌then◌else◌}
use linux_loader.Base.Outcome.{Result, ok, panic}
use Prim.Native.Nat.{ℕ, ◌+◌, ◌-◌, ◌*◌, ◌^◌, ◌<◌}
use mathlib.Core.Option.{Option, none, some}

abbrev pub two_64 : ℕ
two_64 = 2 ^ 64

abbrev pub IsU64 : ℕ → Type 0
IsU64 n = n < two_64

abbrev pub checked_add : ℕ → ℕ → Option ℕ
checked_add a b = if ltb (a + b) two_64 then some (a + b) else none

abbrev pub checked_sub : ℕ → ℕ → Option ℕ
checked_sub a b = if leb b a then some (a - b) else none

abbrev pub checked_mul : ℕ → ℕ → Option ℕ
checked_mul a b = if ltb (a * b) two_64 then some (a * b) else none

-- `a + b` with overflow checks on.
abbrev pub add_word {κ} : {E : Type κ} → ℕ → ℕ → Result E ℕ
add_word a b = if ltb (a + b) two_64 then ok (a + b) else panic
