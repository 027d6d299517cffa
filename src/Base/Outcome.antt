-- ===== src/Base/Outcome.antt =====
-- What a call of a Rust function ends in: a value, an error, or a panic (an arithmetic overflow in
-- an unchecked `+`, a slice out of range). A function that takes `&mut` is an action on the state,
-- which comes back after an error too, since what was written stays written.
use linux_loader.Base.Tests.{if◌then◌else◌}
use mathlib.Core.Path.{◌≡◌, refl, sym, ap, ◌∙◌}
use mathlib.Core.Logic.{◌≢◌}
use mathlib.Core.Bool.{Bool}
use mathlib.Core.Option.{Option, none, some}

pub data Result {ℓ κ} (E : Type κ) (A : Type ℓ) : Type (ℓ ⊔ κ) where
  ok : A → Result E A
  err : E → Result E A
  panic : Result E A

abbrev pub Action {ℓ κ μ} : Type μ → Type κ → Type ℓ → Type (ℓ ⊔ κ ⊔ μ)
Action S E A = S → Result E A × S

module _ {ℓ κ μ} {S : Type μ} {E : Type κ} {A : Type ℓ} where
  abbrev pub pure : A → Action S E A
  pure a s = (ok a, s)

  abbrev pub lift : Result E A → Action S E A
  lift r s = (r, s)

  abbrev pub gets : (S → A) → Action S E A
  gets f s = (ok (f s), s)

module _ {κ μ} {S : Type μ} {E : Type κ} where
  abbrev pub modify : (S → S) → Action S E (Unit {0})
  modify f s = (ok tt, f s)

  abbrev pub raise_if : Bool → E → Action S E (Unit {0})
  raise_if c e s = (if c then err e else ok tt, s)

infixl 5 ◌>>=◌ ◌>>◌
abbrev pub ◌>>=◌ {ℓ κ μ ν} :
    {S : Type μ} {E : Type κ} {A : Type ℓ} {B : Type ν}
    → Action S E A
    → (A → Action S E B)
    → Action S E B
◌>>=◌ m f s =
    let (r, s') = m s in elim r [ ok a ↦ f a s' | err e ↦ (err e, s') | panic ↦ (panic, s') ]

abbrev pub ◌>>◌ {κ μ ν} :
    {S : Type μ} {E : Type κ} {B : Type ν} → Action S E (Unit {0}) → Action S E B → Action S E B
m >> k = m >>= λ _. k

module _ {ℓ κ} {E : Type κ} {A : Type ℓ} where
  abbrev pub ok_or : Option A → E → Result E A
  ok_or none e = err e
  ok_or (some a) e = ok a

-- `?` on an error of another type, and `map_err`.
abbrev pub map_err {ℓ κ μ} :
    {E : Type κ} {F : Type μ} {A : Type ℓ} → (E → F) → Result E A → Result F A
map_err f (ok a) = ok a
map_err f (err e) = err (f e)
map_err f panic = panic

abbrev pub map_ok {ℓ κ μ} :
    {E : Type κ} {A : Type ℓ} {B : Type μ} → (A → B) → Result E A → Result E B
map_ok f (ok a) = ok (f a)
map_ok f (err e) = err e
map_ok f panic = panic

abbrev pub and_then {ℓ κ μ} :
    {E : Type κ} {A : Type ℓ} {B : Type μ} → Result E A → (A → Result E B) → Result E B
and_then (ok a) f = f a
and_then (err e) f = err e
and_then panic f = panic

-- Inversion of a success.
pub map_ok-eq-ok {ℓ κ μ} :
    {E : Type κ} {A : Type ℓ} {B : Type μ} (f : A → B) (r : Result E A) {b : B}
    → map_ok f r ≡ ok b
    → (a : A) × (r ≡ ok a) × (f a ≡ b)
map_ok-eq-ok f (ok a) h = (a, refl, cc)
map_ok-eq-ok f (err e) h = cc
map_ok-eq-ok f panic h = cc

pub and_then-eq-ok {ℓ κ μ} :
    {E : Type κ} {A : Type ℓ} {B : Type μ} (r : Result E A) (f : A → Result E B) {b : B}
    → and_then r f ≡ ok b
    → (a : A) × (r ≡ ok a) × (f a ≡ ok b)
and_then-eq-ok (ok a) f h = (a, refl, h)
and_then-eq-ok (err e) f h = cc
and_then-eq-ok panic f h = cc

-- Two continuations that agree on what a step can return.
pub bind-cong {ℓ κ μ ν} :
    {S : Type μ} {E : Type κ} {A : Type ℓ} {B : Type ν} (m : Action S E A) (f g : A → Action S E B)
    (s : S)
    → ((a : A) (s' : S) → m s ≡ (ok a, s') → f a s' ≡ g a s')
    → (m >>= f) s ≡ (m >>= g) s
bind-cong {S} {E} {A} {B} m f g s same = by_result (m s) refl
  where
    by_result : (p : Result E A × S) → m s ≡ p → (m >>= f) s ≡ (m >>= g) s
    by_result (ok a, s') h =
        ap (λ p. elim p.0 [ ok a ↦ f a p.1 | err e ↦ (err e, p.1) | panic ↦ (panic, p.1) ]) h
        ∙ same a s' h
        ∙ sym
            (ap (λ p. elim p.0 [ ok a ↦ g a p.1 | err e ↦ (err e, p.1) | panic ↦ (panic, p.1) ]) h)
    by_result (err e, s') h = cc
    by_result (panic, s') h = cc

-- Inversion of a step that succeeds: so does its first part.
pub bind-eq-ok {ℓ κ μ ν} :
    {S : Type μ} {E : Type κ} {A : Type ℓ} {B : Type ν} (m : Action S E A) (f : A → Action S E B)
    (s s' : S) (b : B)
    → (m >>= f) s ≡ (ok b, s')
    → (a : A) × (s₁ : S) × (m s ≡ (ok a, s₁)) × (f a s₁ ≡ (ok b, s'))
bind-eq-ok {S} {E} {A} {B} m f s s' b h = by_result (m s) refl
  where
    after : Result E A × S → Result E B × S
    after (ok a, s₁) = f a s₁
    after (err e, s₁) = (err e, s₁)
    after (panic, s₁) = (panic, s₁)

    by_result :
        (p : Result E A × S)
        → m s ≡ p
        → (a : A) × (s₁ : S) × (m s ≡ (ok a, s₁)) × (f a s₁ ≡ (ok b, s'))
    by_result (ok a, s₁) e = (
      a,
      s₁,
      e,
      sym (ap (λ p. elim p.0 [ ok a ↦ f a p.1 | err e ↦ (err e, p.1) | panic ↦ (panic, p.1) ]) e)
          ∙ h,
    )
    by_result (err x, s₁) e = absurd (
        cc (
          sym
            (ap (λ p. elim p.0 [ ok a ↦ f a p.1 | err e ↦ (err e, p.1) | panic ↦ (panic, p.1) ]) e)
          ∙ h))
    by_result (panic, s₁) e = absurd (
        cc (
          sym
            (ap (λ p. elim p.0 [ ok a ↦ f a p.1 | err e ↦ (err e, p.1) | panic ↦ (panic, p.1) ]) e)
          ∙ h))

-- The run of an action from, and to, a state that is spelled in another way.
pub run_from_to {ℓ κ μ} :
    {S : Type μ} {E : Type κ} {A : Type ℓ} (m : Action S E A) (s t t' s' : S) (a : A)
    → s ≡ t
    → m t ≡ (ok a, t')
    → t' ≡ s'
    → m s ≡ (ok a, s')
run_from_to m s t t' s' a p run q = ap m p ∙ run ∙ ap (λ u. (ok a, u)) q

-- A view of the state that an action leaves alone, whatever it returns.
module _ {κ μ ν} {S : Type μ} {E : Type κ} {V : Type ν} (view : S → V) where
  abbrev pub Keeps {ℓ} : {A : Type ℓ} → Action S E A → Type (μ ⊔ ν)
  Keeps f = (s : S) → view (f s).1 ≡ view s

  pub Keeps-bind {ℓ υ} :
      {A : Type ℓ} {B : Type υ} (m : Action S E A) (f : A → Action S E B)
      → Keeps m
      → ((a : A) → Keeps (f a))
      → Keeps (m >>= f)
  Keeps-bind {A} {B} m f km kf s = by_result (m s) refl
    where
      after : Result E A × S → Result E B × S
      after p = elim p.0 [ ok a ↦ f a p.1 | err e ↦ (err e, p.1) | panic ↦ (panic, p.1) ]

      by_result : (p : Result E A × S) → m s ≡ p → view ((m >>= f) s).1 ≡ view s
      by_result (ok a, s') e =
          ap (λ p. view (after p).1) e ∙ kf a s' ∙ ap (λ p. view p.1) (sym e) ∙ km s
      by_result (err x, s') e = ap (λ p. view (after p).1) e ∙ ap (λ p. view p.1) (sym e) ∙ km s
      by_result (panic, s') e = ap (λ p. view (after p).1) e ∙ ap (λ p. view p.1) (sym e) ∙ km s

-- A step does not panic if neither of its parts does.
pub bind_calm {ℓ κ μ ν} :
    {S : Type μ} {E : Type κ} {A : Type ℓ} {B : Type ν} (m : Action S E A) (f : A → Action S E B)
    (s : S)
    → (m s).0 ≢ panic
    → ((a : A) (s' : S) → m s ≡ (ok a, s') → (f a s').0 ≢ panic)
    → ((m >>= f) s).0 ≢ panic
bind_calm {S} {E} {A} {B} m f s first rest = by_result (m s) refl
  where
    after : Result E A × S → Result E B × S
    after p = elim p.0 [ ok a ↦ f a p.1 | err e ↦ (err e, p.1) | panic ↦ (panic, p.1) ]

    by_result : (p : Result E A × S) → m s ≡ p → ((m >>= f) s).0 ≢ panic
    by_result (ok a, s') e h = rest a s' e (sym (ap (λ p. (after p).0) e) ∙ h)
    by_result (err x, s') e h = cc (sym (ap (λ p. (after p).0) e) ∙ h)
    by_result (panic, s') e h = first (ap (λ p. p.0) e)
