-- ===== src/Reader/Alike.antt =====
-- A reader that works beside a cursor over the same bytes, as in the calls of
-- src/loader/x86_64/elf/mod.rs: what an action gives on both.
use linux_loader.Base.{
  ℕ, ◌+◌, ◌-◌, Bool, true, false, ◌≡◌, refl, sym, ap, ◌∙◌, arith, leb, if◌then◌else◌, length, take,
  drop,
}
use linux_loader.Base.Int.{ℤ, checked_add_signed}
use linux_loader.Base.Outcome.{
  Result, ok, err, panic, Action, lift, raise_if, ◌>>=◌, ◌>>◌, and_then, ok_or, map_err,
}
use linux_loader.Reader.{start, current, ReadSeek, Transfer, IsImage}
use linux_loader.Reader.Working.{IsWorking}
use linux_loader.Reader.Cursor.{
  Cursor, cursor, cursor_seek-same, cursor_read-same, cursor_read_exact,
}
use linux_loader.Reader.CursorWorks.{
  cursor_seek_current_works, cursor_seek_current-position, cursor_read_works,
}
use mathlib.Core.Path.{subst}

module _ {R : Type 0} {rs : ReadSeek R} (image : IsImage rs) where
  -- The same bytes, and the same position.
  abbrev pub IsAlike : R → Cursor → Type 0
  IsAlike r c = (image.bytes r ≡ c.bytes) × (image.position r ≡ c.position)

  module _ {κ} {E : Type κ} where
    -- The same result, and alike again behind a success.
    abbrev pub GaveAlike : {A : Type 0} → Result E A × R → Result E A × Cursor → Type κ
    GaveAlike {A} p q = (p.0 ≡ q.0) × ((a : A) → p.0 ≡ ok a → IsAlike p.1 q.1)

    abbrev pub Alike : {A : Type 0} → Action R E A → Action Cursor E A → Type κ
    Alike m m' = (r : R) (c : Cursor) → IsAlike r c → GaveAlike (m r) (m' c)

    pub Alike-lift : {A : Type 0} (v : Result E A) → Alike (lift v) (lift v)
    Alike-lift v r c same = (refl, λ a _. same)

    -- A step that is no call.
    pub Alike-step :
        {A B : Type 0} (v : Result E A) (f : A → Action R E B) (g : A → Action Cursor E B)
        → ((a : A) → Alike (f a) (g a))
        → Alike (lift v >>= f) (lift v >>= g)
    Alike-step (ok a) f g rest = rest a
    Alike-step (err e) f g rest = Alike-lift (err e)
    Alike-step panic f g rest = Alike-lift panic

    pub Alike-raise :
        {A : Type 0} (c : Bool) (e : E) (m : Action R E A) (m' : Action Cursor E A)
        → Alike m m'
        → Alike (raise_if c e >> m) (raise_if c e >> m')
    Alike-raise true e m m' rest = Alike-lift (err e)
    Alike-raise false e m m' rest = rest

    next : {S A B : Type 0} → (A → Action S E B) → Result E A × S → Result E B × S
    next f p = elim p.0 [ ok a ↦ f a p.1 | err e ↦ (err e, p.1) | panic ↦ (panic, p.1) ]

    next-Alike :
        {A B : Type 0} (f : A → Action R E B) (g : A → Action Cursor E B) (p : Result E A × R)
        (q : Result E A × Cursor)
        → GaveAlike p q
        → ((a : A) → Alike (f a) (g a))
        → GaveAlike (next f p) (next g q)
    unfolding next
    next-Alike f g (ok a, r) (ok b, c) (e, same) rest =
        let eq : a ≡ b = grind arith in
        subst (λ t. GaveAlike (f a r) (g t c)) eq (rest a r c (same a refl))
    next-Alike f g (ok a, r) (err y, c) (e, same) rest = absurd cc
    next-Alike f g (ok a, r) (panic, c) (e, same) rest = absurd cc
    next-Alike f g (err x, r) (ok b, c) (e, same) rest = absurd cc
    next-Alike f g (err x, r) (err y, c) (e, same) rest =
        (ap (λ t. and_then t (λ _. err x)) e, λ a h. absurd cc)
    next-Alike f g (err x, r) (panic, c) (e, same) rest = absurd cc
    next-Alike f g (panic, r) (ok b, c) (e, same) rest = absurd cc
    next-Alike f g (panic, r) (err y, c) (e, same) rest = absurd cc
    next-Alike f g (panic, r) (panic, c) (e, same) rest = (refl, λ a h. absurd cc)

    pub Alike-bind :
        {A B : Type 0} (m : Action R E A) (m' : Action Cursor E A) (f : A → Action R E B)
        (g : A → Action Cursor E B)
        → Alike m m'
        → ((a : A) → Alike (f a) (g a))
        → Alike (m >>= f) (m' >>= g)
    unfolding next
    Alike-bind m m' f g first rest r c same = next-Alike f g (m r) (m' c) (first r c same) rest

ok-map_err {κ} :
    {E : Type κ} {A : Type 0} (e : E) (v : Result (Unit {0}) A) (a : A)
    → map_err (λ _. e) v ≡ ok a
    → v ≡ ok a
ok-map_err e (ok b) a h = ground arith
ok-map_err e (err x) a h = absurd cc
ok-map_err e panic a h = absurd cc

-- `call.map_err(|_| e)`.
pub Alike-map_err {κ} :
    {R : Type 0} {rs : ReadSeek R} (image : IsImage rs) {E : Type κ} {A : Type 0} (e : E)
    (m : Action R (Unit {0}) A) (m' : Action Cursor (Unit {0}) A)
    → Alike image m m'
    → Alike image
        (λ r. (map_err (λ _. e) (m r).0, (m r).1))
        (λ c. (map_err (λ _. e) (m' c).0, (m' c).1))
Alike-map_err image e m m' alike r c same = (
  ap (map_err (λ _. e)) (alike r c same).0,
  λ a h. (alike r c same).1 a (ok-map_err e (m r).0 a h),
)

module _ {R M : Type 0} {rs : ReadSeek R} {tr : Transfer R M} {image : IsImage rs}
    {has_room : M → ℕ → ℕ → Bool} (works : IsWorking tr image has_room) where
  pub seek_start-Alike : (n : ℕ) → Alike image (rs.seek (start n)) (cursor.seek (start n))
  seek_start-Alike n r c (bytes, at) = (
    works.seek_start_works n r,
    λ a h. (
      image.seek-same (start n) r ∙ bytes,
      image.seek_start n a r (rs.seek (start n) r).1 (λ i. (h i, (rs.seek (start n) r).1)),
    ),
  )

  pub seek_current-Alike : (d : ℤ) → Alike image (rs.seek (current d)) (cursor.seek (current d))
  seek_current-Alike d r c (bytes, at) =
      let given : (rs.seek (current d) r).0 ≡ (cursor.seek (current d) c).0 =
        works.seek_current_works d r
        ∙ ap (λ p. ok_or (checked_add_signed p d) tt) at
        ∙ sym (cursor_seek_current_works d c) in
      (
        given,
        λ a h. (
          image.seek-same (current d) r ∙ bytes ∙ sym (cursor_seek-same (current d) c),
          works.seek_current-position d a r h
              ∙ sym (cursor_seek_current-position d a c (sym given ∙ h)),
        ),
      )

  pub read-Alike : (n : ℕ) → Alike image (rs.read_exact n) (cursor.read_exact n)
  read-Alike n r c (bytes, at) =
      let given : (rs.read_exact n r).0 ≡ (cursor.read_exact n c).0 =
        works.read_works n r
        ∙ (λ i.
            if leb n (length (bytes i) - at i) then ok (take n (drop (at i) (bytes i))) else err tt)
        ∙ sym (cursor_read_works n c) in
      (
        given,
        λ bs h. (
          image.read-same n r ∙ bytes ∙ sym (cursor_read-same n c),
          (image.read_exact-ok n r (rs.read_exact n r).1 bs (λ i. (h i, (rs.read_exact n r).1))).2
              ∙ ap (λ p. p + n) at
              ∙ sym
                  (cursor_read_exact n c (cursor.read_exact n c).1 bs
                    (λ i. ((sym given ∙ h) i, (cursor.read_exact n c).1))).2,
        ),
      )
