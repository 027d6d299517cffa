-- ===== src/Reader/Gives.antt =====
-- Which result an action gives on an image that can be read without a fault: rules that follow the
-- action step by step. An action keeps the bytes of the image, and the room in memory.
use linux_loader.Base.{
  ℕ, ◌+◌, ◌-◌, Bool, true, false, ◌&&◌, List, ◌≡◌, refl, sym, ap, ◌∙◌, leb, if◌then◌else◌, length,
  take, drop, Bool-cases, inl, inr,
}
use linux_loader.Base.Outcome.{
  Result, ok, err, panic, Action, lift, raise_if, map_err, ◌>>=◌, ◌>>◌, and_then,
}
use linux_loader.Reader.{start, ReadSeek, Machine, Transfer, IsImage, on_image, on_machine}
use linux_loader.Reader.Working.{
  IsWorking, seek_start-runs, bind-ok, bind-err, on_image-runs, on_image-fails,
}

module _ {R M : Type 0} {rs : ReadSeek R} {tr : Transfer R M} {image : IsImage rs}
    {has_room : M → ℕ → ℕ → Bool} (works : IsWorking tr image has_room) (s₀ : Machine R M) where
  -- The same image, and the same room.
  abbrev pub IsSame : Machine R M → Type 0
  IsSame s =
      (image.bytes s.image ≡ image.bytes s₀.image)
      × ((a n : ℕ) → has_room s.memory a n ≡ has_room s₀.memory a n)

  module _ {κ} {E : Type κ} where
    -- From any such state the action gives `v`, and it ends in such a state.
    abbrev pub Gives : {A : Type 0} → Action (Machine R M) E A → Result E A → Type κ
    Gives m v = (s : Machine R M) → IsSame s → ((m s).0 ≡ v) × IsSame (m s).1

    -- The same, where the image is at a position.
    abbrev pub GivesAt : {A : Type 0} → ℕ → Action (Machine R M) E A → Result E A → Type κ
    GivesAt p m v =
        (s : Machine R M) → IsSame s → image.position s.image ≡ p → ((m s).0 ≡ v) × IsSame (m s).1

    pub Gives-lift : {A : Type 0} (v : Result E A) → Gives (lift v) v
    Gives-lift v s same = (refl, same)

    after :
        {A B : Type 0}
        → (A → Action (Machine R M) E B)
        → Result E A × Machine R M
        → Result E B × Machine R M
    after f p = elim p.0 [ ok a ↦ f a p.1 | err e ↦ (err e, p.1) | panic ↦ (panic, p.1) ]

    after-Gives :
        {A B : Type 0} (f : A → Action (Machine R M) E B) (w : A → Result E B)
        (p : Result E A × Machine R M) (v : Result E A)
        → ((a : A) → v ≡ ok a → Gives (f a) (w a))
        → (p.0 ≡ v) × IsSame p.1
        → ((after f p).0 ≡ and_then v w) × IsSame (after f p).1
    unfolding after
    after-Gives f w (ok a, s') v rest (e, kept) =
        ((rest a (sym e) s' kept).0 ∙ ap (λ r. and_then r w) e, (rest a (sym e) s' kept).1)
    after-Gives f w (err x, s') v rest (e, kept) = (ap (λ r. and_then r w) e, kept)
    after-Gives f w (panic, s') v rest (e, kept) = (ap (λ r. and_then r w) e, kept)

    pub Gives-bind :
        {A B : Type 0} (m : Action (Machine R M) E A) (f : A → Action (Machine R M) E B)
        (v : Result E A) (w : A → Result E B)
        → Gives m v
        → ((a : A) → v ≡ ok a → Gives (f a) (w a))
        → Gives (m >>= f) (and_then v w)
    unfolding after
    Gives-bind m f v w first rest s same = after-Gives f w (m s) v rest (first s same)

    pub GivesAt-bind :
        {A B : Type 0} (p : ℕ) (m : Action (Machine R M) E A) (f : A → Action (Machine R M) E B)
        (v : Result E A) (w : A → Result E B)
        → GivesAt p m v
        → ((a : A) → v ≡ ok a → Gives (f a) (w a))
        → GivesAt p (m >>= f) (and_then v w)
    unfolding after
    GivesAt-bind p m f v w first rest s same at = after-Gives f w (m s) v rest (first s same at)

    -- A step that is no call: the image stays where it is.
    pub GivesAt-lift :
        {A B : Type 0} (p : ℕ) (v : Result E A) (f : A → Action (Machine R M) E B)
        (w : A → Result E B)
        → ((a : A) → GivesAt p (f a) (w a))
        → GivesAt p (lift v >>= f) (and_then v w)
    GivesAt-lift p (ok a) f w rest s same at = rest a s same at
    GivesAt-lift p (err e) f w rest s same at = (refl, same)
    GivesAt-lift p panic f w rest s same at = (refl, same)

    by_path :
        {A : Type 0} (v : Result E A) {p q : Result E A × Machine R M}
        → p ≡ q
        → (q.0 ≡ v) × IsSame q.1
        → (p.0 ≡ v) × IsSame p.1
    by_path v path (e, (bytes, room)) = (
      ap (λ t. t.0) path ∙ e,
      (
        ap (λ t. image.bytes t.1.image) path ∙ bytes,
        λ a n. ap (λ t. has_room t.1.memory a n) path ∙ room a n,
      ),
    )

    pub Gives-raise :
        {A : Type 0} (c : Bool) (e : E) (k : Action (Machine R M) E A) (w : Result E A)
        → Gives k w
        → Gives (raise_if c e >> k) (if c then err e else w)
    Gives-raise true e k w rest s same = (refl, same)
    Gives-raise false e k w rest s same = rest s same

    pub Gives-seek :
        {A : Type 0} (e : E) (n : ℕ) (f : ℕ → Action (Machine R M) E A) (v : Result E A)
        → GivesAt n (f n) v
        → Gives (on_image (rs.seek (start n)) e >>= f) v
    Gives-seek e n f v rest s (bytes, room) =
        let (r, run, at, kept) = seek_start-runs works e n s in
        by_path v (bind-ok (on_image (rs.seek (start n)) e) f s (record s { image = r }) n run)
          (rest (record s { image = r }) (kept ∙ bytes, room) at)

    pub GivesAt-read :
        {A : Type 0} (e : E) (p n : ℕ) (f : List ℕ → Action (Machine R M) E A) (w : Result E A)
        → GivesAt (p + n) (f (take n (drop p (image.bytes s₀.image)))) w
        → GivesAt p
            (on_image (rs.read_exact n) e >>= f)
            (if leb n (length (image.bytes s₀.image) - p) then w else err e)
    GivesAt-read e p n f w rest s (bytes, room) at =
        let found = take n (drop p (image.bytes s₀.image)) in
        let s' : Machine R M = record s { image = (rs.read_exact n s.image).1 } in
        let read : (rs.read_exact n s.image).0
            ≡ (if leb n (length (image.bytes s₀.image) - p) then ok found else err tt) =
          works.read_works n s.image ∙ λ i.
          if leb n (length (bytes i) - at i) then ok (take n (drop (at i) (bytes i))) else err tt in
        let kept = image.read-same n s.image ∙ bytes in
        elim (Bool-cases (leb n (length (image.bytes s₀.image) - p))) [
          | inl enough ↦
              let done = read ∙ rw enough in
              let (_, _, moved) =
                image.read_exact-ok n s.image (rs.read_exact n s.image).1 found
                  (λ i. (done i, (rs.read_exact n s.image).1)) in
              rw enough (
                by_path w
                  (bind-ok (on_image (rs.read_exact n) e) f s s' found
                    (on_image-runs (rs.read_exact n) e s found done))
                  (rest s' (kept, room) (moved ∙ ap (λ q. q + n) at)))
          | inr short ↦ rw short (
              by_path (err e)
                (bind-err (on_image (rs.read_exact n) e) f s s' e
                  (on_image-fails (rs.read_exact n) e s (read ∙ rw short)))
                (refl, (kept, room)))
        ]

    pub GivesAt-copy :
        {A : Type 0} (e : E) (p addr count : ℕ) (k : Action (Machine R M) E A) (w : Result E A)
        → Gives k w
        → GivesAt p (on_machine (tr.read_exact_from addr count) e >> k) (
            if leb count (length (image.bytes s₀.image) - p) && has_room s₀.memory addr count
            then w
            else err e)
    GivesAt-copy e p addr count k w rest s (bytes, room) at =
        let s' = (tr.read_exact_from addr count s).1 in
        let copied : (tr.read_exact_from addr count s).0 ≡ (
            if leb count (length (image.bytes s₀.image) - p) && has_room s₀.memory addr count
            then ok tt
            else err tt) =
          works.copy_works addr count s ∙ λ i.
          if leb count (length (bytes i) - at i) && room addr count i then ok tt else err tt in
        let kept : IsSame s' = (
          works.copy-same addr count s ∙ bytes,
          λ a n. works.copy-same_room addr count s a n ∙ room a n,
        ) in
        elim (Bool-cases
          (leb count (length (image.bytes s₀.image) - p) && has_room s₀.memory addr count)) [
            | inl fits ↦
                let done : (tr.read_exact_from addr count s).0 ≡ ok tt = copied ∙ rw fits in
                rw fits (
                  by_path w
                    (bind-ok (on_machine (tr.read_exact_from addr count) e) (λ _. k) s s' tt
                      (ap (λ r. (map_err (λ _. e) r, s')) done))
                    (rest s' kept))
            | inr no_room ↦
                let done : (tr.read_exact_from addr count s).0 ≡ err tt = copied ∙ rw no_room in
                rw no_room (
                  by_path (err e)
                    (bind-err (on_machine (tr.read_exact_from addr count) e) (λ _. k) s s' e
                      (ap (λ r. (map_err (λ _. e) r, s')) done))
                    (refl, kept))
          ]
