-- ===== src/Cmdline/DeviceText.antt =====
-- What the text that `add_virtio_mmio_device` of src/cmdline/mod.rs makes stands for: a reader of
-- virtio_mmio.device=<size>@<baseaddr>:<irq>[:<id>], the format that the method's documentation gives.
use linux_loader.Base.{
  ℕ, ◌*◌, ◌/◌, ◌%◌, ◌^◌, ◌<◌, [], ◌∷◌, ◌++◌, Option, none, some, ◌≡◌, refl, sym, ap, ◌∙◌, arith,
  ◌==◌, if◌then◌else◌, append_assoc, append-nil, Bool-cases, inl, inr,
}
use linux_loader.Text.{Str, codes}
use linux_loader.Text.Number.{decimal, hexadecimal, digits}
use linux_loader.Text.Read.{digit_value, read_digits, read_digits-digits, read_digits_end}
use linux_loader.Cmdline.Device.{
  kb_mult, mb_mult, gb_mult, guestusize_to_str, id_suffix, device_str,
}

-- A size: digits, and a suffix that multiplies.
unfoldable pub scaled : ℕ × Str → ℕ × Str
scaled (n, []) = (n, [])
scaled (n, c ∷ s) =
    if c == b'G'
    then (n * gb_mult, s)
    else if c == b'M'
    then (n * mb_mult, s)
    else if c == b'K'
    then (n * kb_mult, s)
    else (n, c ∷ s)

-- The text behind an expected one.
unfoldable pub expect : Str → Str → Option Str
expect [] s = some s
expect (p ∷ ps) [] = none
expect (p ∷ ps) (c ∷ s) = let rest = expect ps s in if p == c then rest else none

abbrev pub then_ {ℓ κ} : {A : Type ℓ} {B : Type κ} → Option A → (A → Option B) → Option B
then_ none f = none
then_ (some a) f = f a

-- A number that is the end of the text.
ended : ℕ × Str → Option (Option ℕ)
ended (id, []) = some (some id)
ended (id, c ∷ s) = none

read_id : Str → Option (Option ℕ)
unfolding ended
read_id [] = some none
read_id (c ∷ s) = then_ (expect (codes ":") (c ∷ s)) λ t. ended (read_digits 10 0 t)

-- The size, the base address, the interrupt and the id that a text spells.
unfoldable pub read_device : Str → Option (ℕ × ℕ × ℕ × Option ℕ)
unfolding read_id
read_device s = then_ (expect (codes "virtio_mmio.device=") s) λ s₁.
    (let (size, s₂) = scaled (read_digits 10 0 s₁) in
      then_ (expect (codes "@0x") s₂) λ s₃.
        (let (baseaddr, s₄) = read_digits 16 0 s₃ in
          then_ (expect (codes ":") s₄) λ s₅.
            (let (irq, s₆) = read_digits 10 0 s₅ in
              then_ (read_id s₆) λ id. some (size, baseaddr, irq, id))))

expect-append : (p s : Str) → expect p (p ++ s) ≡ some s
unfolding expect
expect-append [] s = refl
expect-append (c ∷ p) s = ground (arith, expect-append p s)

-- The digits of a number, ahead of a text that starts with no digit.
decimal_ahead :
    (n c : ℕ) (s : Str)
    → n < 2 ^ 64
    → digit_value 10 c ≡ none
    → read_digits 10 0 (decimal n ++ (c ∷ s)) ≡ (n, c ∷ s)
unfolding decimal
decimal_ahead n c s h e =
    read_digits-digits 10 19 n (c ∷ s) (omega arith) (omega arith) (omega (arith, h))
    ∙ read_digits_end 10 n c s e

decimal_last : (n : ℕ) → n < 2 ^ 64 → read_digits 10 0 (decimal n) ≡ (n, [])
unfolding decimal read_digits
decimal_last n h =
    ap (read_digits 10 0) (sym (append-nil (digits 10 20 n)))
    ∙ read_digits-digits 10 19 n [] (omega arith) (omega arith) (omega (arith, h))

hexadecimal_ahead :
    (n c : ℕ) (s : Str)
    → n < 2 ^ 64
    → digit_value 16 c ≡ none
    → read_digits 16 0 (hexadecimal n ++ (c ∷ s)) ≡ (n, c ∷ s)
unfolding hexadecimal
hexadecimal_ahead n c s h e =
    read_digits-digits 16 15 n (c ∷ s) (omega arith) (omega arith) (omega (arith, h))
    ∙ read_digits_end 16 n c s e

-- A number of units, ahead of the sign that every size is followed by.
unit_ahead :
    (q c : ℕ) (s : Str)
    → q < 2 ^ 64
    → digit_value 10 c ≡ none
    → scaled (read_digits 10 0 ((decimal q ++ (c ∷ [])) ++ (b'@' ∷ s))) ≡ scaled (q, c ∷ b'@' ∷ s)
unit_ahead q c s h e =
    ap (λ t. scaled (read_digits 10 0 t)) (append_assoc (decimal q) (c ∷ []) (b'@' ∷ s))
    ∙ ap scaled (decimal_ahead q c (b'@' ∷ s) h e)

-- A size comes back from its text, which gives it in the greatest unit that divides it.
size_ahead :
    (size : ℕ) (s : Str)
    → size < 2 ^ 64
    → scaled (read_digits 10 0 (guestusize_to_str size ++ (b'@' ∷ s))) ≡ (size, b'@' ∷ s)
unfolding guestusize_to_str scaled
size_ahead size s h = elim (Bool-cases (size % gb_mult == 0)) [
  | inl g ↦ rw g (
      unit_ahead (size / gb_mult) b'G' s (omega (arith, h)) refl
      ∙ ap (λ k. (k, b'@' ∷ s)) (ground arith))
  | inr not_g ↦ rw not_g (elim (Bool-cases (size % mb_mult == 0)) [
    | inl m ↦ rw m (
        unit_ahead (size / mb_mult) b'M' s (omega (arith, h)) refl
        ∙ ap (λ k. (k, b'@' ∷ s)) (ground arith))
    | inr not_m ↦ rw not_m (elim (Bool-cases (size % kb_mult == 0)) [
      | inl k ↦ rw k (
          unit_ahead (size / kb_mult) b'K' s (omega (arith, h)) refl
          ∙ ap (λ k. (k, b'@' ∷ s)) (ground arith))
      | inr not_k ↦ rw not_k (ap scaled (decimal_ahead size b'@' s h refl))
    ])
  ])
]

abbrev pub IsWord : Option ℕ → Type 0
IsWord none = Unit
IsWord (some id) = id < 2 ^ 64

id_behind : (id : Option ℕ) → IsWord id → read_id (id_suffix id) ≡ some id
unfolding read_id id_suffix expect
id_behind none h = refl
id_behind (some n) h = ap ended (decimal_last n h)

irq_ahead :
    (irq : ℕ) (id : Option ℕ)
    → irq < 2 ^ 64
    → read_digits 10 0 (decimal irq ++ id_suffix id) ≡ (irq, id_suffix id)
unfolding id_suffix
irq_ahead irq none h = ap (read_digits 10 0) (append-nil (decimal irq)) ∙ decimal_last irq h
irq_ahead irq (some id) h = decimal_ahead irq b':' (decimal id) h refl

-- The text of a device is read as this device again, its size, its base address, its interrupt and its
-- id, which are numbers of 64 bits.
pub read_device-device_str :
    (size baseaddr irq : ℕ) (id : Option ℕ)
    → size < 2 ^ 64
    → baseaddr < 2 ^ 64
    → irq < 2 ^ 64
    → IsWord id
    → read_device (device_str size baseaddr irq id) ≡ some (size, baseaddr, irq, id)
unfolding read_device device_str expect
read_device-device_str size baseaddr irq id small low line word =
    let behind = decimal irq ++ id_suffix id in
    let at = codes "0x" ++ (hexadecimal baseaddr ++ (b':' ∷ behind)) in
    rw (size_ahead size at small) (
      rw (hexadecimal_ahead baseaddr b':' behind low refl)
        (rw (irq_ahead irq id line) (rw (id_behind id word) refl)))
