-- ===== src/Cmdline/Parsing.antt =====
-- What `Cmdline::try_from` of src/cmdline/mod.rs returns.
use linux_loader.Base.{
  ℕ, ◌+◌, ◌≤◌, ap, Option-cases, false, Option, none, some, [], ◌∷◌, ◌++◌, ◌≡◌, ◌≢◌, ◌⊎◌, inl, inr,
  refl, sym, ◌∙◌, arith, ltb, leb, take, ◌==◌, if◌then◌else◌, is_empty, length, drop,
  take-length-append, drop-length-append, length-append, append_assoc,
}
use mathlib.Core.Path.{subst}
use linux_loader.Base.Outcome.{Result, ok, err}
use linux_loader.Base.Word.{IsU64, two_64}
use linux_loader.Text.{Str, trim}
use linux_loader.Cmdline.{Cmdline, Error, invalid_capacity, too_large, init_args_separator}
use linux_loader.Cmdline.Parse.{split_args, split_at, parsed_size, try_from}
use linux_loader.Cmdline.Size.{size, IsValid, len_separator}
use linux_loader.Cmdline.Split.{first_cut, find_separator_lem, first_cut-append}
use linux_loader.Cmdline.Render.{text}

-- The text cut at a position, or nowhere: both halves trimmed, without the four characters of the
-- separator between them.
abbrev cut_at : Str → ℕ → Option ℕ → Cmdline
cut_at raw capacity none = record { boot_args = trim raw; init_args = []; capacity = capacity }
cut_at raw capacity (some i) = record {
  boot_args = trim (take i raw);
  init_args = trim (drop (i + 4) raw);
  capacity = capacity;
}

-- The command line that a text means: of all its positions, the first where a separator stands behind
-- an even number of quotes parts it.
unfoldable pub parts : Str → ℕ → Cmdline
parts raw capacity = cut_at raw capacity (first_cut [] raw)

trimmed_halves : Str × Str → ℕ → Cmdline
trimmed_halves halves capacity = record {
  boot_args = trim halves.0;
  init_args = trim halves.1;
  capacity = capacity;
}

trim-nil : trim [] ≡ []
unfolding trim
trim-nil = refl

halves-cut_at :
    (raw : Str) (capacity : ℕ) (at : Option ℕ)
    → trimmed_halves (split_at raw at) capacity ≡ cut_at raw capacity at
unfolding split_at trimmed_halves
halves-cut_at raw capacity none = rw trim-nil refl
halves-cut_at raw capacity (some i) = refl

halves-parts :
    (raw : Str) (capacity : ℕ) → trimmed_halves (split_args raw) capacity ≡ parts raw capacity
unfolding split_args parts
halves-parts raw capacity = rw find_separator_lem (halves-cut_at raw capacity (first_cut [] raw))

parsed_size_lem :
    (cl : Cmdline)
    → parsed_size cl.boot_args cl.init_args
      ≡ (if leb two_64 (size cl) then err too_large else ok (size cl))
unfolding parsed_size
parsed_size_lem cl = rw len_separator (ground arith)

-- The tests on the parts.
abbrev tested : ℕ → Cmdline → Result Error Cmdline
tested capacity cl =
    if capacity == 0
    then err invalid_capacity
    else if leb two_64 (size cl)
    then err too_large
    else if ltb capacity (size cl)
    then err invalid_capacity
    else ok cl

try_from-halves :
    (raw : Str) (capacity : ℕ)
    → try_from raw capacity ≡ tested capacity (trimmed_halves (split_args raw) capacity)
unfolding try_from trimmed_halves
try_from-halves raw capacity =
    rw (parsed_size_lem (trimmed_halves (split_args raw) capacity)) (ground arith)

-- `try_from` for any text and any capacity. A capacity of 0 is invalid. Else the text is cut at the
-- first of all its positions where a separator stands behind an even number of quotes, and both halves
-- are trimmed; no character is refused. If the bytes of the two, with the separator between them if the
-- second is not empty, and a NUL are 2^64 or more, the command line is too large; if they are more than
-- the capacity, the capacity is invalid; else the result is the parts.
pub try_from_lem :
    (raw : Str) (capacity : ℕ)
    → try_from raw capacity ≡ (
        if capacity == 0
        then err invalid_capacity
        else if leb two_64 (size (parts raw capacity))
        then err too_large
        else if ltb capacity (size (parts raw capacity))
        then err invalid_capacity
        else ok (parts raw capacity))
try_from_lem raw capacity =
    try_from-halves raw capacity ∙ ap (tested capacity) (halves-parts raw capacity)

-- The text is cut nowhere: it is all boot arguments.
split_args_whole : (raw : Str) → first_cut [] raw ≡ none → split_args raw ≡ (raw, [])
unfolding split_args split_at
split_args_whole raw h = rw (find_separator_lem, h)

-- The boot arguments `b` hold no cut, also together with a separator behind them.
abbrev pub IsUncut : Str → Type 0
IsUncut b = first_cut [] (b ++ init_args_separator) ≡ some (length b)

split_args_text : (b i : Str) → IsUncut b → split_args (b ++ (init_args_separator ++ i)) ≡ (b, i)
unfolding split_args split_at
split_args_text b i h = rw (find_separator_lem, at, take-length-append, behind)
  where
    at : first_cut [] (b ++ (init_args_separator ++ i)) ≡ some (length b)
    at =
        rw (append_assoc b init_args_separator i) at
          (first_cut-append (b ++ init_args_separator) i [] h)

    behind : drop (length b + length init_args_separator) (b ++ (init_args_separator ++ i)) ≡ i
    behind =
        rw (← length-append b init_args_separator, ← append_assoc b init_args_separator i)
          (drop-length-append (b ++ init_args_separator) i)

-- The arguments of `cl` are read back as they stand: they have no whitespace at their ends, and the
-- boot arguments hold no separator outside quotes.
pub record IsReadable (cl : Cmdline) : Type 0 where
  pub boot_trimmed : trim cl.boot_args ≡ cl.boot_args
  pub init_trimmed : trim cl.init_args ≡ cl.init_args
  pub uncut :
      ((cl.init_args ≡ []) × (first_cut [] cl.boot_args ≡ none))
      ⊎ ((cl.init_args ≢ []) × IsUncut cl.boot_args)

is_empty-false : (s : Str) → s ≢ [] → is_empty s ≡ false
is_empty-false [] h = absurd (h refl)
is_empty-false (c ∷ s) h = refl

split_args-text :
    (cl : Cmdline) → IsReadable cl → split_args (text cl) ≡ (cl.boot_args, cl.init_args)
split_args-text cl r = elim r.uncut [
  | inl (e, whole) ↦ rw e (split_args_whole cl.boot_args whole)
  | inr (n, uncut) ↦
      rw (is_empty-false cl.init_args n) (split_args_text cl.boot_args cl.init_args uncut)
]

parts-text : (cl : Cmdline) → IsReadable cl → parts (text cl) cl.capacity ≡ cl
unfolding trimmed_halves
parts-text cl r =
    sym (halves-parts (text cl) cl.capacity)
    ∙ rw (split_args-text cl r, r.boot_trimmed, r.init_trimmed)

-- Parsing the text of a command line that fits its capacity gives the command line back.
pub try_from-text :
    (cl : Cmdline) → IsValid cl → IsReadable cl → try_from (text cl) cl.capacity ≡ ok cl
try_from-text cl v r =
    try_from_lem (text cl) cl.capacity ∙ rw (parts-text cl r) (ground (arith, v.fits, v.word))

capacity-parts : (raw : Str) (capacity : ℕ) → (parts raw capacity).capacity ≡ capacity
unfolding parts
capacity-parts raw capacity = elim (Option-cases (first_cut [] raw)) [
  | inl e ↦ rw e refl
  | inr (i, e) ↦ rw e refl
]

-- Whatever `try_from` returns is the parts of the text, and fits the capacity asked for.
pub try_from_sound :
    (raw : Str) (capacity : ℕ) {cl : Cmdline}
    → IsU64 capacity
    → try_from raw capacity ≡ ok cl
    → (cl ≡ parts raw capacity) × IsValid cl
try_from_sound raw capacity {cl} w h =
    let stepped = sym (try_from_lem raw capacity) ∙ h in
    let same : parts raw capacity ≡ cl = ground arith in
    let fitting : size (parts raw capacity) ≤ capacity = ground arith in
    let kept = capacity-parts raw capacity in
    (
      sym same,
      subst IsValid same (record { fits = omega (arith, kept); word = omega (arith, kept) }),
    )
