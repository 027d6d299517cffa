-- ===== src/Text.antt =====
-- What the source uses of Rust's `str`, `String` and `CString`. A text is the list of its characters
-- (Unicode scalar values); `len` and the bytes of a `CString` go by its UTF-8 encoding. The source
-- slices a text at the byte index of a match, which is a character boundary: the model counts
-- characters there.
pub mod Number
pub mod Laws
pub mod Read
use linux_loader.Base.{
  ℕ, zero, suc, ◌+◌, ◌-◌, ◌*◌, ◌/◌, ◌%◌, ◌^◌, Bool, true, false, not, ◌&&◌, ◌||◌, Option, none,
  some, List, [], ◌∷◌, ◌++◌, String, ltb, leb, ◌==◌, if◌then◌else◌, length, is_empty, drop, take,
  any, all,
}
use Prim.Native.Char.{code}

abbrev pub Str : Type 0
Str = List ℕ

-- The characters of a literal.
abbrev pub codes : String → Str
codes String.[] = []
codes (String.◌∷◌ c s) = code c ∷ codes s

-- `char::encode_utf8`.
unfoldable pub encode_char : ℕ → List ℕ
encode_char c =
    if ltb c 0x80
    then c ∷ []
    else if ltb c 0x800
    then (0xc0 + c / 64) ∷ (0x80 + c % 64) ∷ []
    else if ltb c 0x10000
    then (0xe0 + c / 4096) ∷ (0x80 + c / 64 % 64) ∷ (0x80 + c % 64) ∷ []
    else (0xf0 + c / 262144) ∷ (0x80 + c / 4096 % 64) ∷ (0x80 + c / 64 % 64) ∷ (0x80 + c % 64) ∷ []

-- `str::as_bytes`.
unfoldable pub bytes : Str → List ℕ
unfolding encode_char
bytes [] = []
bytes (c ∷ s) = encode_char c ++ bytes s

-- `str::len`.
unfoldable pub len : Str → ℕ
unfolding bytes
len s = length (bytes s)

-- `char::is_whitespace`: the Unicode property White_Space.
unfoldable pub is_whitespace : ℕ → Bool
is_whitespace c =
    leb 9 c && leb c 13
    || c == 0x20
    || c == 0x85
    || c == 0xa0
    || c == 0x1680
    || leb 0x2000 c && leb c 0x200a
    || c == 0x2028
    || c == 0x2029
    || c == 0x202f
    || c == 0x205f
    || c == 0x3000

unfoldable pub trim_start : Str → Str
unfolding is_whitespace
trim_start [] = []
trim_start (c ∷ s) = let rest = trim_start s in if is_whitespace c then rest else c ∷ s

unfoldable pub trim_end : Str → Str
unfolding is_whitespace
trim_end [] = []
trim_end (c ∷ s) =
    let rest = trim_end s in if is_empty rest && is_whitespace c then [] else c ∷ rest

-- `str::trim`.
unfoldable pub trim : Str → Str
unfolding trim_start trim_end
trim s = trim_end (trim_start s)

-- `str::starts_with`.
unfoldable pub starts_with : Str → Str → Bool
starts_with [] s = true
starts_with (p ∷ ps) [] = false
starts_with (p ∷ ps) (c ∷ s) = p == c && starts_with ps s

-- `str::contains` of a character.
abbrev pub contains : Str → ℕ → Bool
contains s c = any (λ d. d == c) s

-- The positions of `str::match_indices`: the matches do not overlap, so that after a match the search
-- goes on behind it. `skip` is how much of the last match is still to pass.
unfoldable pub matches_from : Str → ℕ → ℕ → Str → List ℕ
matches_from pat i skip [] = []
matches_from pat i (suc skip) (c ∷ s) = matches_from pat (i + 1) skip s
matches_from pat i zero (c ∷ s) =
    let found = starts_with pat (c ∷ s) in
    let rest = matches_from pat (i + 1) (if found then length pat - 1 else 0) s in
    if found then i ∷ rest else rest

unfoldable pub match_indices : Str → Str → List ℕ
unfolding matches_from
match_indices s pat = matches_from pat 0 0 s

-- `Iterator::find`.
unfoldable pub find : (ℕ → Bool) → List ℕ → Option ℕ
find p [] = none
find p (i ∷ is) = let rest = find p is in if p i then some i else rest

-- `slice::join`.
unfoldable pub join : List Str → Str → Str
join [] sep = []
join (s ∷ []) sep = s
join (s ∷ t ∷ ts) sep = s ++ (sep ++ join (t ∷ ts) sep)

-- A `CString` is its bytes without the terminator. `CString::new` refuses an inner NUL.
unfoldable pub cstring : Str → Option (List ℕ)
unfolding bytes
cstring s = if any (λ b. b == 0) (bytes s) then none else some (bytes s)

abbrev pub as_bytes_with_nul : List ℕ → List ℕ
as_bytes_with_nul bs = bs ++ (0 ∷ [])
