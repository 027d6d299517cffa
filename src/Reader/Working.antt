-- ===== src/Reader/Working.antt =====
-- An image that can be read without a fault, such as `std::io::Cursor` over a byte vector, and what the
-- first and the last calls of a loader then return.
use linux_loader.Base.{
  ℕ, ◌+◌, ◌≤◌, Bool, true, false, List, ◌++◌, ◌≡◌, refl, sym, ap, ◌∙◌, arith, if◌then◌else◌, length,
  take, drop, Bool-cases, inl, inr, ◌&&◌, leb, ◌-◌,
}
use linux_loader.Base.Int.{ℤ, pos, checked_add_signed}
use linux_loader.Base.Word.{IsU64}
use linux_loader.Base.Outcome.{
  Result, ok, err, panic, Action, pure, raise_if, map_err, ◌>>=◌, ◌>>◌, ok_or,
}
use linux_loader.Reader.{
  start, end, current, ReadSeek, Machine, Transfer, IsImage, on_image, on_machine,
}

-- Every seek to an offset and to the end works, and one by a distance if it ends at a u64; a read into a buffer is as long as the image and the
-- buffer allow, and `read_exact_from` works exactly if the image has the bytes and memory the room.
pub record IsWorking {R M : Type 0} {rs : ReadSeek R} (tr : Transfer R M) (image : IsImage rs)
    (has_room : M → ℕ → ℕ → Bool) : Type 0 where
  pub seek_start_works : (n : ℕ) (r : R) → (rs.seek (start n) r).0 ≡ ok n
  pub seek_end_works :
      (r : R)
      → IsU64 (length (image.bytes r))
      → (rs.seek (end (pos 0)) r).0 ≡ ok (length (image.bytes r))
  pub seek_current_works :
      (d : ℤ) (r : R)
      → (rs.seek (current d) r).0 ≡ ok_or (checked_add_signed (image.position r) d) tt
  pub seek_current-position :
      (d : ℤ) (a : ℕ) (r : R)
      → (rs.seek (current d) r).0 ≡ ok a
      → image.position (rs.seek (current d) r).1 ≡ a
  pub fill_works :
      (buf : List ℕ) (count : ℕ) (r : R)
      → (tr.read_from buf count r).0
        ≡ ok (
          take count (drop (image.position r) (image.bytes r))
              ++ drop (length (take count (drop (image.position r) (image.bytes r)))) buf,
          length (take count (drop (image.position r) (image.bytes r))),
        )
  pub fill-same :
      (buf : List ℕ) (count : ℕ) (r : R) → image.bytes (tr.read_from buf count r).1 ≡ image.bytes r
  pub read_works :
      (n : ℕ) (r : R)
      → (rs.read_exact n r).0 ≡ (
          if leb n (length (image.bytes r) - image.position r)
          then ok (take n (drop (image.position r) (image.bytes r)))
          else err tt)
  pub copy_works :
      (addr count : ℕ) (s : Machine R M)
      → (tr.read_exact_from addr count s).0 ≡ (
          if leb count (length (image.bytes s.image) - image.position s.image)
            && has_room s.memory addr count
          then ok tt
          else err tt)
  pub copy-same :
      (addr count : ℕ) (s : Machine R M)
      → image.bytes (tr.read_exact_from addr count s).1.image ≡ image.bytes s.image
  pub copy-same_room :
      (addr count : ℕ) (s : Machine R M) (a n : ℕ)
      → has_room (tr.read_exact_from addr count s).1.memory a n ≡ has_room s.memory a n

module _ {κ ℓ} {S : Type 0} {E : Type κ} {A : Type 0} {B : Type ℓ} where
  pub bind-ok :
      (m : Action S E A) (f : A → Action S E B) (s s' : S) (a : A)
      → m s ≡ (ok a, s')
      → (m >>= f) s ≡ f a s'
  bind-ok m f s s' a h =
      ap (λ p. elim p.0 [ ok a ↦ f a p.1 | err e ↦ (err e, p.1) | panic ↦ (panic, p.1) ]) h

  pub bind-err :
      (m : Action S E A) (f : A → Action S E B) (s s' : S) (e : E)
      → m s ≡ (err e, s')
      → (m >>= f) s ≡ (err e, s')
  bind-err m f s s' e h =
      ap (λ p. elim p.0 [ ok a ↦ f a p.1 | err e ↦ (err e, p.1) | panic ↦ (panic, p.1) ]) h

pub bind-pure {κ} :
    {S : Type 0} {E : Type κ} (m : Action S E (Unit {0})) (s : S) → (m >> pure tt) s ≡ m s
bind-pure {S} {E} m s = by_result (m s) refl
  where
    by_result : (p : Result E (Unit {0}) × S) → m s ≡ p → (m >> pure tt) s ≡ m s
    by_result (ok tt, s') e = bind-ok m (λ _. pure tt) s s' tt e ∙ sym e
    by_result (err x, s') e = bind-err m (λ _. pure tt) s s' x e ∙ sym e
    by_result (panic, s') e =
        ap (λ p. elim p.0 [ ok a ↦ (ok tt, p.1) | err x ↦ (err x, p.1) | panic ↦ (panic, p.1) ]) e
        ∙ sym e

pub checked {κ} :
    {S A : Type 0} {E : Type κ} (c : Bool) (e : E) (a : A) (s : S)
    → (raise_if c e >> pure a) s ≡ (if c then err e else ok a, s)
checked true e a s = refl
checked false e a s = refl

module _ {κ} {R M : Type 0} {E : Type κ} where
  pub on_image-runs :
      {A : Type 0} (f : R → Result (Unit {0}) A × R) (e : E) (s : Machine R M) (a : A)
      → (f s.image).0 ≡ ok a
      → on_image f e s ≡ (ok a, record s { image = (f s.image).1 })
  on_image-runs f e s a h = ap (λ r. (map_err (λ _. e) r, record s { image = (f s.image).1 })) h

  pub on_image-fails :
      {A : Type 0} (f : R → Result (Unit {0}) A × R) (e : E) (s : Machine R M)
      → (f s.image).0 ≡ err tt
      → on_image f e s ≡ (err e, record s { image = (f s.image).1 })
  on_image-fails f e s h = ap (λ r. (map_err (λ _. e) r, record s { image = (f s.image).1 })) h

-- The buffer after a read of `count` bytes at an offset of the image.
abbrev pub filled : List ℕ → ℕ → ℕ → List ℕ → List ℕ × ℕ
filled bytes offset count buf = (
  take count (drop offset bytes) ++ drop (length (take count (drop offset bytes))) buf,
  length (take count (drop offset bytes)),
)

module _ {κ} {R M : Type 0} {rs : ReadSeek R} {tr : Transfer R M} {image : IsImage rs}
    {has_room : M → ℕ → ℕ → Bool} (works : IsWorking tr image has_room) {E : Type κ} where
  pub seek_end-runs :
      (e : E) (s : Machine R M)
      → IsU64 (length (image.bytes s.image))
      → on_image (rs.seek (end (pos 0))) e s ≡ (
        ok (length (image.bytes s.image)),
        record s { image = (rs.seek (end (pos 0)) s.image).1 },
      )
  seek_end-runs e s small =
      on_image-runs (rs.seek (end (pos 0))) e s _ (works.seek_end_works s.image small)

  -- A seek to an offset: the position is there, and the image is as before.
  pub seek_start-runs :
      (e : E) (n : ℕ) (s : Machine R M)
      → (r : R) × (on_image (rs.seek (start n)) e s ≡ (ok n, record s { image = r }))
        × (image.position r ≡ n)
        × (image.bytes r ≡ image.bytes s.image)
  seek_start-runs e n s = (
    (rs.seek (start n) s.image).1,
    on_image-runs (rs.seek (start n)) e s n (works.seek_start_works n s.image),
    image.seek_start n n s.image (rs.seek (start n) s.image).1
        (λ i. (works.seek_start_works n s.image i, (rs.seek (start n) s.image).1)),
    image.seek-same (start n) s.image,
  )

  -- How a loader starts: it asks for the size of the image and fills a buffer from an offset.
  pub size-fill-runs {ℓ} :
      {B : Type ℓ} (e₁ e₂ e₃ : E) (offset count : ℕ) (buf : List ℕ)
      (k : ℕ → List ℕ × ℕ → Action (Machine R M) E B) (s : Machine R M)
      → IsU64 (length (image.bytes s.image))
      → (r : R) × (image.bytes r ≡ image.bytes s.image)
        × ((on_image (rs.seek (end (pos 0))) e₁ >>= λ size.
                on_image (rs.seek (start offset)) e₂ >>= λ _.
                on_image (tr.read_from buf count) e₃ >>= k size)
              s
            ≡ k
                (length (image.bytes s.image))
                (filled (image.bytes s.image) offset count buf)
                (record s { image = r }))
  size-fill-runs e₁ e₂ e₃ offset count buf k s small =
      let get : Action (Machine R M) E (List ℕ × ℕ) = on_image (tr.read_from buf count) e₃ in
      let back : Action (Machine R M) E ℕ = on_image (rs.seek (start offset)) e₂ in
      let s₁ = record s { image = (rs.seek (end (pos 0)) s.image).1 } in
      let (r₂, run₂, at, same₂) = seek_start-runs e₂ offset s₁ in
      let s₂ = record s { image = r₂ } in
      let same = same₂ ∙ image.seek-same (end (pos 0)) s.image in
      (
        (tr.read_from buf count r₂).1,
        works.fill-same buf count r₂ ∙ same,
        bind-ok (on_image (rs.seek (end (pos 0))) e₁) (λ size. back >>= λ _. get >>= k size) s s₁
              (length (image.bytes s.image)) (seek_end-runs e₁ s small)
            ∙ bind-ok back (λ _. get >>= k (length (image.bytes s.image))) s₁ s₂ offset run₂
            ∙ bind-ok get (k (length (image.bytes s.image))) s₂
                (record s { image = (tr.read_from buf count r₂).1 })
                (filled (image.bytes r₂) (image.position r₂) count buf)
                (on_image-runs (tr.read_from buf count) e₃ s₂
                  (filled (image.bytes r₂) (image.position r₂) count buf)
                  (works.fill_works buf count r₂))
            ∙ (λ i.
                k (length (image.bytes s.image)) (filled (same i) (at i) count buf)
                  (record s { image = (tr.read_from buf count r₂).1 })),
      )

  -- How a loader ends: it copies from an offset of the image to memory, which works if there is room,
  -- and goes on.
  pub seek-copy-runs {ℓ} :
      {B : Type ℓ} (e₁ e₂ : E) (offset addr count : ℕ) (k : Action (Machine R M) E B)
      (s : Machine R M)
      → offset + count ≤ length (image.bytes s.image)
      → (s' : Machine R M) × ((on_image (rs.seek (start offset)) e₁ >>= λ _.
              on_machine (tr.read_exact_from addr count) e₂ >> k)
            s
          ≡ (if has_room s.memory addr count then k s' else (err e₂, s')))
  seek-copy-runs e₁ e₂ offset addr count k s fits =
      let (r, run, at, same) = seek_start-runs e₁ offset s in
      let t = record s { image = r } in
      let s' = (tr.read_exact_from addr count t).1 in
      let enough : leb count (length (image.bytes r) - image.position r) ≡ true =
        ground (arith, at, ap length same) in
      let done : (tr.read_exact_from addr count t).0
          ≡ (if has_room s.memory addr count then ok tt else err tt) =
        works.copy_works addr count t ∙ rw enough in
      (
        s',
        bind-ok (on_image (rs.seek (start offset)) e₁)
              (λ _. on_machine (tr.read_exact_from addr count) e₂ >> k) s t offset run
            ∙ ap
                (λ q. elim (map_err (λ _. e₂) q) [
                  | ok a ↦ k s'
                  | err e ↦ (err e, s')
                  | panic ↦ (panic, s')
                ])
                done
            ∙ (elim (Bool-cases (has_room s.memory addr count)) [
              | inl room ↦ rw room
              | inr full ↦ rw full
            ]),
      )
