-- ===== src/Cmdline/Split.antt =====
-- Where `Cmdline::try_from` of src/cmdline/mod.rs cuts a text: at the first separator outside double
-- quotes. `match_indices` passes over matches that overlap an earlier one; none of those matters.
use linux_loader.Base.{
  ℕ, zero, suc, ◌+◌, ◌≤◌, Bool, true, false, ◌&&◌, Option, none, some, [], ◌∷◌, ◌++◌, ◌≡◌, ◌≢◌,
  refl, sym, ap, ◌∙◌, arith, if◌then◌else◌, length, take, length-append, take-length-append,
  append_assoc, append-nil, Bool-cases, inl, inr,
}
use linux_loader.Text.{Str, codes, starts_with, match_indices, matches_from, find}
use linux_loader.Text.Laws.{starts_with_long, starts_with-append}
use linux_loader.Cmdline.{init_args_separator}
use linux_loader.Cmdline.Parse.{quotes, check_outside_double_quotes, find_separator}

abbrev pub sep : Str
sep = init_args_separator

-- Whether a separator outside double quotes stands at the front of `s`, behind the text `before`.
abbrev pub cuts : Str → Str → Bool
cuts before s = starts_with sep s && check_outside_double_quotes before

-- The first position of `before ++ s`, from `s` on, at which the text is to be cut: every position is
-- tried.
unfoldable pub first_cut : Str → Str → Option ℕ
first_cut before [] = none
first_cut before (c ∷ s) =
    let rest = first_cut (before ++ (c ∷ [])) s in
    if cuts before (c ∷ s) then some (length before) else rest

quotes_step : (s : Str) (c : ℕ) → c ≢ b'"' → quotes (s ++ (c ∷ [])) ≡ quotes s
unfolding quotes
quotes_step [] c h = ground arith
quotes_step (d ∷ s) c h = rw (quotes_step s c h)

-- A character that is no quote leaves the parity of the quotes.
outside_step :
    (before : Str) (c : ℕ)
    → c ≢ b'"'
    → check_outside_double_quotes (before ++ (c ∷ [])) ≡ check_outside_double_quotes before
unfolding check_outside_double_quotes
outside_step before c h = rw (quotes_step before c h)

-- What is known while the search passes the rest of a match that was inside quotes.
abbrev Passes : ℕ → Str → Str → Type 0
Passes zero before s = Unit {0}
Passes (suc zero) before s =
    (starts_with (codes " ") s ≡ true) × (check_outside_double_quotes before ≡ false)
Passes (suc (suc zero)) before s =
    (starts_with (codes "- ") s ≡ true) × (check_outside_double_quotes before ≡ false)
Passes (suc (suc (suc zero))) before s =
    (starts_with (codes "-- ") s ≡ true) × (check_outside_double_quotes before ≡ false)
Passes (suc (suc (suc (suc n)))) before s = ⊥

-- One character of a match: it is no quote, and the rest of the match follows.
match_step :
    (p : ℕ) (ps : Str) (c : ℕ) (s : Str)
    → p ≢ b'"'
    → starts_with (p ∷ ps) (c ∷ s) ≡ true
    → (c ≢ b'"') × (starts_with ps s ≡ true)
unfolding starts_with
match_step p ps c s h e = ground arith

and_false : (b : Bool) → (b && false) ≡ false
and_false true = refl
and_false false = refl

abbrev outside_at : Str → ℕ → Bool
outside_at raw i = check_outside_double_quotes (take i raw)

module _ (raw : Str) where
  outside_here :
      (before s : Str)
      → before ++ s ≡ raw
      → outside_at raw (length before) ≡ check_outside_double_quotes before
  outside_here before s e = rw (← e, take-length-append before s)

  regroup : (before s : Str) (c : ℕ) → before ++ (c ∷ s) ≡ raw → (before ++ (c ∷ [])) ++ s ≡ raw
  regroup before s c e = append_assoc before (c ∷ []) s ∙ e

  one_more : (before : Str) (c : ℕ) → length before + 1 ≡ length (before ++ (c ∷ []))
  one_more before c = omega (arith, length-append before (c ∷ []))

  -- One character on, in a match that was inside quotes.
  pass_on :
      (p : ℕ) (ps before : Str) (c : ℕ) (s : Str)
      → p ≢ b'"'
      → starts_with (p ∷ ps) (c ∷ s) ≡ true
      → check_outside_double_quotes before ≡ false
      → (starts_with ps s ≡ true) × (check_outside_double_quotes (before ++ (c ∷ [])) ≡ false)
  pass_on p ps before c s h e inside =
      let (no_quote, rest) = match_step p ps c s h e in
      (rest, outside_step before c no_quote ∙ inside)

  -- The search of the source finds what the search of every position finds.
  search_from :
      (s : Str) (skip : ℕ) (before : Str)
      → before ++ s ≡ raw
      → Passes skip before s
      → find (outside_at raw) (matches_from sep (length before) skip s) ≡ first_cut before s
  unfolding find matches_from first_cut
  search_from [] zero before e w = refl
  search_from [] (suc zero) before e w = refl
  search_from [] (suc (suc zero)) before e w = refl
  search_from [] (suc (suc (suc zero))) before e w = refl
  search_from [] (suc (suc (suc (suc n)))) before e w = refl
  search_from (c ∷ s) zero before e w = elim (Bool-cases (starts_with sep (c ∷ s))) [
    | inr other ↦
        rw (other, one_more before c)
          (search_from s 0 (before ++ (c ∷ [])) (regroup before s c e) tt)
    | inl found ↦ elim (Bool-cases (check_outside_double_quotes before)) [
      | inl outside ↦ rw (found, outside_here before (c ∷ s) e, outside)
      | inr inside ↦
          rw (found, outside_here before (c ∷ s) e, inside, one_more before c)
            (search_from s 3 (before ++ (c ∷ [])) (regroup before s c e)
              (pass_on b' ' (codes "-- ") before c s (omega arith) found inside))
    ]
  ]
  search_from (c ∷ s) (suc zero) before e w =
      rw (w.1, and_false, one_more before c)
        (search_from s 0 (before ++ (c ∷ [])) (regroup before s c e) tt)
  search_from (c ∷ s) (suc (suc zero)) before e w =
      rw (w.1, and_false, one_more before c)
        (search_from s 1 (before ++ (c ∷ [])) (regroup before s c e)
          (pass_on b'-' (codes " ") before c s (omega arith) w.0 w.1))
  search_from (c ∷ s) (suc (suc (suc zero))) before e w =
      rw (w.1, and_false, one_more before c)
        (search_from s 2 (before ++ (c ∷ [])) (regroup before s c e)
          (pass_on b'-' (codes "- ") before c s (omega arith) w.0 w.1))
  search_from (c ∷ s) (suc (suc (suc (suc n)))) before e w = absurd w

-- The separator that `try_from` cuts at is the first of all positions, overlapping matches included,
-- where a separator starts with an even number of quotes before it.
pub find_separator_lem : (raw : Str) → find_separator raw ≡ first_cut [] raw
unfolding find_separator match_indices
find_separator_lem raw = search_from raw raw 0 [] refl tt

-- A cut that is found is one: the text before it holds an even number of quotes, and a separator
-- stands at it.
pub first_cut_sound :
    (s before : Str) {i : ℕ}
    → first_cut before s ≡ some i
    → (b : Str) × (r : Str) × (s ≡ b ++ r)
      × (i ≡ length before + length b)
      × (cuts (before ++ b) r ≡ true)
unfolding first_cut
first_cut_sound [] before h = cc
first_cut_sound (c ∷ s) before {i} h = elim (Bool-cases (cuts before (c ∷ s))) [
  | inl here ↦ ([], c ∷ s, refl, ground arith, rw append-nil here)
  | inr onward ↦
      let (b, r, e, at, cut) = first_cut_sound s (before ++ (c ∷ [])) (rw onward at h) in
      (
        c ∷ b,
        r,
        ap (λ t. c ∷ t) e,
        omega (arith, at, length-append before (c ∷ [])),
        rw (append_assoc before (c ∷ []) b) at cut,
      )
]

-- No cut is passed over: a cut anywhere makes the search succeed, at that place or before.
pub first_cut_complete :
    (b r before : Str)
    → cuts (before ++ b) r ≡ true
    → (i : ℕ) × (first_cut before (b ++ r) ≡ some i) × (i ≤ length before + length b)
unfolding first_cut
first_cut_complete [] [] before h = unfold starts_with in cc
first_cut_complete [] (c ∷ r) before h =
    let here : cuts before (c ∷ r) ≡ true = rw append-nil at h in
    (length before, rw here, omega arith)
first_cut_complete (c ∷ b) r before h = elim (Bool-cases (cuts before (c ∷ (b ++ r)))) [
  | inl here ↦ (length before, rw here, omega arith)
  | inr onward ↦
      let (i, found, at) =
        first_cut_complete b r (before ++ (c ∷ [])) (rw (append_assoc before (c ∷ []) b) h) in
      (i, rw onward found, omega (arith, at, length-append before (c ∷ [])))
]

-- Where `try_from` cuts, a separator stands, and the text before it holds an even number of quotes.
pub find_separator_sound :
    (raw : Str) (i : ℕ)
    → find_separator raw ≡ some i
    → (b : Str) × (r : Str) × (raw ≡ b ++ r)
      × (i ≡ length b)
      × (starts_with sep r ≡ true)
      × (check_outside_double_quotes b ≡ true)
find_separator_sound raw i h =
    let (b, r, e, at, cut) = first_cut_sound raw [] (sym (find_separator_lem raw) ∙ h) in
    (b, r, e, omega (arith, at), ground arith, ground arith)

-- No separator is passed over: where one stands with an even number of quotes before it, the text is
-- cut there or before.
pub find_separator_complete :
    (b r : Str)
    → starts_with sep r ≡ true
    → check_outside_double_quotes b ≡ true
    → (i : ℕ) × (find_separator (b ++ r) ≡ some i) × (i ≤ length b)
find_separator_complete b r s o =
    let (i, found, at) = first_cut_complete b r [] (ground arith) in
    (i, find_separator_lem (b ++ r) ∙ found, omega (arith, at))

-- A text with a cut holds a whole separator behind it.
first_cut_long :
    (s before : Str) {i : ℕ} → first_cut before s ≡ some i → i + 4 ≤ length before + length s
first_cut_long s before {i} h =
    let (b, r, e, at, cut) = first_cut_sound s before h in
    let found : starts_with sep r ≡ true = ground arith in
    omega (arith, at, ap length e, length-append b r, starts_with_long sep r found)

-- More text behind a cut does not move it.
pub first_cut-append :
    (s t before : Str) {i : ℕ} → first_cut before s ≡ some i → first_cut before (s ++ t) ≡ some i
unfolding first_cut
first_cut-append [] t before h = cc
first_cut-append (c ∷ s) t before {i} h = elim (Bool-cases (cuts before (c ∷ s))) [
  | inl here ↦ rw (same, here) (rw here at h)
  | inr onward ↦ rw (same, onward) (first_cut-append s t (before ++ (c ∷ [])) (rw onward at h))
]
  where
    le_first : (s before : Str) {i : ℕ} → first_cut before s ≡ some i → length before ≤ i
    le_first s before h = let (b, r, e, at, cut) = first_cut_sound s before h in omega (arith, at)

    long : 4 ≤ length (c ∷ s)
    long = omega (arith, first_cut_long (c ∷ s) before h, le_first (c ∷ s) before h)

    same : cuts before (c ∷ (s ++ t)) ≡ cuts before (c ∷ s)
    same = rw (starts_with-append sep (c ∷ s) t long)
