-- ===== src/Text/Number.antt =====
-- The formatting of unsigned numbers, `{}` and `{:x?}`, and what the digits stand for.
use linux_loader.Base.{
  ℕ, zero, suc, ◌+◌, ◌-◌, ◌/◌, ◌%◌, true, false, [], ◌∷◌, ◌++◌, ltb, if◌then◌else◌,
}
use linux_loader.Text.{Str}

-- '0' to '9', then 'a' to 'f'.
abbrev pub digit : ℕ → ℕ
digit d = if ltb d 10 then b'0' + d else b'a' + d - 10

-- The digits of `n`, highest first; `fuel` bounds their count.
unfoldable pub digits : ℕ → ℕ → ℕ → Str
digits base zero n = []
digits base (suc fuel) n = elim (ltb n base) [
  | true ↦ digit n ∷ []
  | false ↦ digits base fuel (n / base) ++ (digit (n % base) ∷ [])
]

-- A 64-bit number has at most 20 decimal and 16 hexadecimal digits.
unfoldable pub decimal : ℕ → Str
unfolding digits
decimal n = digits 10 20 n

unfoldable pub hexadecimal : ℕ → Str
unfolding digits
hexadecimal n = digits 16 16 n
