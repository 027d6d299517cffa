-- ===== src/Reader/Steps.antt =====
-- What a successful call on the image does to a machine: the steps that the loaders are made of.
use linux_loader.Base.{
  ◌++◌, ◌≤◌, ℕ, ◌+◌, ◌-◌, List, Option, ◌≡◌, sym, ap, ◌∙◌, arith, if◌then◌else◌, length, take, drop,
  get_elem?, get_elem?-drop, Bool-cases, inl, inr,
}
use linux_loader.Base.Int.{pos}
use linux_loader.Base.Splice.{inside, get_elem?-take}
use linux_loader.Base.Outcome.{Result, ok}
use linux_loader.Reader.{
  start, end, ReadSeek, Machine, Transfer, IsImage, IsTransfer, IsFill, on_image, on_machine,
}

module _ {R M : Type 0} {rs : ReadSeek R} (image : IsImage rs) where
  -- The image itself and the memory are as before.
  abbrev pub IsCalm : Machine R M → Machine R M → Type 0
  IsCalm s s' = (image.bytes s'.image ≡ image.bytes s.image) × (s'.memory ≡ s.memory)

  module _ {κ} {E : Type κ} (e : E) where
    on_image-ok :
        {A : Type 0} (f : R → Result (Unit {0}) A × R) (s s' : Machine R M) (a : A)
        → on_image f e s ≡ (ok a, s')
        → (f s.image ≡ (ok a, s'.image)) × (s'.memory ≡ s.memory)
    on_image-ok f s s' a h = (ground arith, ground arith)

    pub seek_start-ok :
        (n a : ℕ) (s s' : Machine R M)
        → on_image (rs.seek (start n)) e s ≡ (ok a, s')
        → (image.position s'.image ≡ n) × IsCalm s s'
    seek_start-ok n a s s' h =
        let (done, kept) = on_image-ok (rs.seek (start n)) s s' a h in
        (
          image.seek_start n a s.image s'.image done,
          (ap (λ p. image.bytes p.1) (sym done) ∙ image.seek-same (start n) s.image, kept),
        )

    pub seek_end-ok :
        (a : ℕ) (s s' : Machine R M)
        → on_image (rs.seek (end (pos 0))) e s ≡ (ok a, s')
        → (a ≡ length (image.bytes s.image)) × IsCalm s s'
    seek_end-ok a s s' h =
        let (done, kept) = on_image-ok (rs.seek (end (pos 0))) s s' a h in
        (
          image.seek_end a s.image s'.image done,
          (ap (λ p. image.bytes p.1) (sym done) ∙ image.seek-same (end (pos 0)) s.image, kept),
        )

    pub read_exact-step :
        (n : ℕ) (s s' : Machine R M) (bs : List ℕ)
        → on_image (rs.read_exact n) e s ≡ (ok bs, s')
        → (bs ≡ take n (drop (image.position s.image) (image.bytes s.image)))
          × (image.position s'.image ≡ image.position s.image + n)
          × IsCalm s s'
    read_exact-step n s s' bs h =
        let (done, kept) = on_image-ok (rs.read_exact n) s s' bs h in
        let (taken, counted, at) = image.read_exact-ok n s.image s'.image bs done in
        (taken, at, (ap (λ p. image.bytes p.1) (sym done) ∙ image.read-same n s.image, kept))

-- The byte at `x` after `count` bytes of the image from `offset` on were copied to `addr`.
abbrev pub copied_byte : List ℕ → (offset addr count x : ℕ) → Option ℕ → Option ℕ
copied_byte bytes offset addr count x old =
    if inside addr count x then get_elem? bytes (offset + (x - addr)) else old

copied_byte-taken :
    (bytes bs : List ℕ) (offset addr count x : ℕ) (old : Option ℕ)
    → bs ≡ take count (drop offset bytes)
    → length bs ≡ count
    → (if inside addr (length bs) x then get_elem? bs (x - addr) else old)
      ≡ copied_byte bytes offset addr count x old
copied_byte-taken bytes bs offset addr count x old taken counted =
    elim (Bool-cases (inside addr count x)) [
      | inl within ↦
          rw (counted, within)
            (ap (λ t. get_elem? t (x - addr)) taken
              ∙ get_elem?-take count (drop offset bytes) (x - addr) (ground arith)
              ∙ get_elem?-drop offset (x - addr) bytes)
      | inr outside ↦ rw (counted, outside)
    ]

module _ {R M : Type 0} {rs : ReadSeek R} {tr : Transfer R M} {peek : M → ℕ → Option ℕ}
    (image : IsImage rs) (laws : IsTransfer rs tr peek) where
  pub read_exact_from-step {κ} :
      {E : Type κ} (e : E) (addr count : ℕ) (s s' : Machine R M)
      → on_machine (tr.read_exact_from addr count) e s ≡ (ok tt, s')
      → (image.bytes s'.image ≡ image.bytes s.image)
        × ((x : ℕ)
            → peek s'.memory x
              ≡ copied_byte
                  (image.bytes s.image)
                  (image.position s.image)
                  addr
                  count
                  x
                  (peek s.memory x))
  read_exact_from-step e addr count s s' h =
      let done : tr.read_exact_from addr count s ≡ (ok tt, s') = ground arith in
      let (bs, counted, read, bytes) = laws.transferred s s' addr count done in
      let (taken, _, at) = image.read_exact-ok count s.image s'.image bs read in
      (
        ap (λ p. image.bytes p.1) (sym read) ∙ image.read-same count s.image,
        λ x.
            bytes x
            ∙ copied_byte-taken (image.bytes s.image) bs (image.position s.image) addr count x
                (peek s.memory x) taken counted,
      )

-- A buffer filled from the image.
module _ {κ} {R M : Type 0} {rs : ReadSeek R} {tr : Transfer R M} (image : IsImage rs)
    (fill : IsFill tr image) {E : Type κ} (e : E) where
  pub read_from-step :
      (buf : List ℕ) (count : ℕ) (s s' : Machine R M) (read : List ℕ × ℕ)
      → on_image (tr.read_from buf count) e s ≡ (ok read, s')
      → (read.1 ≤ count)
        × (read.0
            ≡ take read.1 (drop (image.position s.image) (image.bytes s.image)) ++ drop read.1 buf)
        × IsCalm image s s'
  read_from-step buf count s s' read h =
      let (done, kept) = on_image-ok image e (tr.read_from buf count) s s' read h in
      let (few, front, same) = fill.filled buf read.0 count read.1 s.image s'.image done in
      (few, front, (same, kept))

-- A seek, and a copy from there.
module _ {R M : Type 0} {rs : ReadSeek R} {tr : Transfer R M} {peek : M → ℕ → Option ℕ}
    (image : IsImage rs) (laws : IsTransfer rs tr peek) where
  -- The bytes of the image from `offset` on now stand at `addr`, and nothing else has changed.
  abbrev pub IsCopied : (offset addr count : ℕ) → Machine R M → Machine R M → Type 0
  IsCopied offset addr count s s' =
      (image.bytes s'.image ≡ image.bytes s.image)
      × ((x : ℕ)
          → peek s'.memory x
            ≡ copied_byte (image.bytes s.image) offset addr count x (peek s.memory x))

  pub seek-copy {κ} :
      {E : Type κ} (e e' : E) (offset addr count a : ℕ) (s s₁ s₂ : Machine R M)
      → on_image (rs.seek (start offset)) e s ≡ (ok a, s₁)
      → on_machine (tr.read_exact_from addr count) e' s₁ ≡ (ok tt, s₂)
      → IsCopied offset addr count s s₂
  seek-copy e e' offset addr count a s s₁ s₂ sought copied =
      let (at, (same, kept)) = seek_start-ok image e offset a s s₁ sought in
      let (same', bytes) = read_exact_from-step image laws e' addr count s₁ s₂ copied in
      (
        same' ∙ same,
        λ x.
            bytes x
            ∙ ap (λ q. copied_byte (image.bytes s₁.image) q addr count x (peek s₁.memory x)) at
            ∙ ap (λ b. copied_byte b offset addr count x (peek s₁.memory x)) same
            ∙ ap (λ m. copied_byte (image.bytes s.image) offset addr count x (peek m x)) kept,
      )

  -- The same, from a state that is like `s`.
  pub IsCopied-from :
      (offset addr count : ℕ) (s s₁ s₂ : Machine R M)
      → IsCalm image s s₁
      → IsCopied offset addr count s₁ s₂
      → IsCopied offset addr count s s₂
  IsCopied-from offset addr count s s₁ s₂ (same, kept) (same', bytes) = (
    same' ∙ same,
    λ x.
        bytes x
        ∙ ap (λ b. copied_byte b offset addr count x (peek s₁.memory x)) same
        ∙ ap (λ m. copied_byte (image.bytes s.image) offset addr count x (peek m x)) kept,
  )

-- How the loaders of the other two formats start: the size of the image, and a buffer that is filled
-- from `offset` on.
module _ {κ} {R M : Type 0} {rs : ReadSeek R} {tr : Transfer R M} (image : IsImage rs)
    (fill : IsFill tr image) {E : Type κ} where
  pub size-fill :
      (e₁ e₂ e₃ : E) (offset size a count : ℕ) (buf : List ℕ) (read : List ℕ × ℕ)
      (s s₁ s₂ s₃ s' : Machine R M)
      → on_image (rs.seek (end (pos 0))) e₁ s ≡ (ok size, s₁)
      → on_image (rs.seek (start offset)) e₂ s₁ ≡ (ok a, s₂)
      → on_image (tr.read_from buf count) e₃ s₂ ≡ (ok read, s₃)
      → s₃ ≡ s'
      → (size ≡ length (image.bytes s.image))
        × (read.1 ≤ count)
        × (read.0 ≡ take read.1 (drop offset (image.bytes s.image)) ++ drop read.1 buf)
        × IsCalm image s s'
  size-fill e₁ e₂ e₃ offset size a count buf read s s₁ s₂ s₃ s' h₁ h₂ h₃ stay =
      let (sized, (same₁, kept₁)) = seek_end-ok image e₁ size s s₁ h₁ in
      let (at, (same₂, kept₂)) = seek_start-ok image e₂ offset a s₁ s₂ h₂ in
      let (few, front, (same₃, kept₃)) = read_from-step image fill e₃ buf count s₂ s₃ read h₃ in
      let filled = λ (b : List ℕ). take read.1 b ++ drop read.1 buf in
      (
        sized,
        few,
        front
            ∙ ap (λ q. filled (drop q (image.bytes s₂.image))) at
            ∙ ap (λ b. filled (drop offset b)) (same₂ ∙ same₁),
        (
          ap (λ m. image.bytes m.image) (sym stay) ∙ same₃ ∙ same₂ ∙ same₁,
          ap (λ m. m.memory) (sym stay) ∙ kept₃ ∙ kept₂ ∙ kept₁,
        ),
      )

  -- The read into a buffer that such a start makes: from which state, and with what result.
  pub size-fill-call :
      (e₁ e₂ e₃ : E) (offset size a count : ℕ) (buf : List ℕ) (read : List ℕ × ℕ)
      (s s₁ s₂ s₃ : Machine R M)
      → on_image (rs.seek (end (pos 0))) e₁ s ≡ (ok size, s₁)
      → on_image (rs.seek (start offset)) e₂ s₁ ≡ (ok a, s₂)
      → on_image (tr.read_from buf count) e₃ s₂ ≡ (ok read, s₃)
      → (image.bytes s₂.image ≡ image.bytes s.image)
        × (image.position s₂.image ≡ offset)
        × (tr.read_from buf count s₂.image ≡ (ok read, s₃.image))
  size-fill-call e₁ e₂ e₃ offset size a count buf read s s₁ s₂ s₃ h₁ h₂ h₃ =
      let (_, (same₁, _)) = seek_end-ok image e₁ size s s₁ h₁ in
      let (at, (same₂, _)) = seek_start-ok image e₂ offset a s₁ s₂ h₂ in
      (same₂ ∙ same₁, at, (on_image-ok image e₃ (tr.read_from buf count) s₂ s₃ read h₃).0)
