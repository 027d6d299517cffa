-- ===== src/Text/Laws.antt =====
-- Lengths, trimming and characters of texts.
use linux_loader.Base.{
  ℕ, ◌+◌, ◌≤◌, ◌<◌, Bool, true, false, [], ◌∷◌, ◌++◌, ◌≡◌, refl, arith, ◌==◌, length, length-append,
  append_assoc, any, all, any-append,
}
use linux_loader.Text.{
  Str, encode_char, bytes, len, is_whitespace, trim_start, trim_end, trim, starts_with, starts_with,
}

pub bytes-append : (s t : Str) → bytes (s ++ t) ≡ bytes s ++ bytes t
unfolding bytes
bytes-append [] t = refl
bytes-append (c ∷ s) t = simp (bytes-append s t, append_assoc)

pub len-append : (s t : Str) → len (s ++ t) ≡ len s + len t
unfolding len
len-append s t = rw bytes-append (length-append (bytes s) (bytes t))

module _ (p : ℕ → Bool) where
  pub all-trim_start : (s : Str) → all p s ≡ true → all p (trim_start s) ≡ true
  unfolding trim_start
  all-trim_start [] h = refl
  all-trim_start (c ∷ s) h = ground (arith, all-trim_start s)

  pub all-trim_end : (s : Str) → all p s ≡ true → all p (trim_end s) ≡ true
  unfolding trim_end
  all-trim_end [] h = refl
  all-trim_end (c ∷ s) h = ground (arith, all-trim_end s)

  pub all-trim : (s : Str) → all p s ≡ true → all p (trim s) ≡ true
  unfolding trim
  all-trim s h = all-trim_end (trim_start s) (all-trim_start s h)

-- A text with no whitespace is left as it is.
pub trim_end-id : (s : Str) → any is_whitespace s ≡ false → trim_end s ≡ s
unfolding trim_end
trim_end-id [] h = refl
trim_end-id (c ∷ s) h = ground (arith, trim_end-id s)

pub trim-id : (s : Str) → any is_whitespace s ≡ false → trim s ≡ s
unfolding trim trim_start
trim-id [] h = refl
trim-id (c ∷ s) h = ground (arith, trim_end-id (c ∷ s) h)

encode_char_nonzero : (c : ℕ) → 0 < c → any (λ b. b == 0) (encode_char c) ≡ false
unfolding encode_char
encode_char_nonzero c h = ground arith

-- A text with no NUL character encodes to bytes with no NUL.
pub bytes_nonzero : (s : Str) → any (λ c. c == 0) s ≡ false → any (λ b. b == 0) (bytes s) ≡ false
unfolding bytes
bytes_nonzero [] h = refl
bytes_nonzero (c ∷ s) h =
    any-append _ (encode_char c) (bytes s) (encode_char_nonzero c (ground arith))
      (bytes_nonzero s (ground arith))

pub length-with_nul : (s : Str) → length (bytes s ++ (0 ∷ [])) ≡ len s + 1
unfolding len
length-with_nul s = length-append (bytes s) (0 ∷ [])

pub starts_with_long : (p s : Str) → starts_with p s ≡ true → length p ≤ length s
unfolding starts_with
starts_with_long [] s h = omega arith
starts_with_long (c ∷ p) [] h = cc
starts_with_long (c ∷ p) (d ∷ s) h = ground (arith, starts_with_long p s)

pub starts_with-append :
    (p s t : Str) → length p ≤ length s → starts_with p (s ++ t) ≡ starts_with p s
unfolding starts_with
starts_with-append [] s t h = refl
starts_with-append (c ∷ p) [] t h = absurd (omega arith)
starts_with-append (c ∷ p) (d ∷ s) t h = rw (starts_with-append p s t (omega arith))
