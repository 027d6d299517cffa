-- ===== src/Reader/Cursor.antt =====
-- `std::io::Cursor` over a byte vector, and guest memory of one region beside it: the tests and the
-- witnesses run on them. `read_from` reads what is left of the image, up to `count`.
use linux_loader.Base.{
  sym, take-length-take, refl, ◌≢◌, ◌≤◌, ◌≡◌, ap, ◌∙◌, arith, get_elem?, length-take, ℕ, ◌+◌, ◌-◌,
  List, ◌++◌, Option, none, some, leb, if◌then◌else◌, length, take, drop,
}
use linux_loader.Base.Int.{pos, checked_add_signed}
use linux_loader.Base.Outcome.{panic, Result, ok, err}
use linux_loader.Base.Splice.{overwrite, inside, get_elem?-overwrite}
use linux_loader.Reader.{
  Machine, IsTransfer, IsImage, IsFill, IsWholeFill, SeekFrom, start, end, current, ReadSeek,
  Transfer,
}

pub record Cursor : Type 0 where
  pub bytes : List ℕ
  pub position : ℕ

abbrev target : Cursor → SeekFrom → Option ℕ
target c (start n) = some n
target c (end d) = checked_add_signed (length c.bytes) d
target c (current d) = checked_add_signed c.position d

abbrev pub moved : Cursor → Option ℕ → Result (Unit {0}) ℕ × Cursor
moved c none = (err tt, c)
moved c (some p) = (ok p, record c { position = p })

abbrev unread : Cursor → List ℕ
unread c = drop c.position c.bytes

abbrev pub cursor : ReadSeek Cursor
cursor = record {
  seek = λ s c. moved c (target c s);
  read_exact = λ n c.
      if leb n (length (unread c))
      then (ok (take n (unread c)), record c { position = c.position + n })
      else (err tt, record c { position = length c.bytes });
}

abbrev pub flat_transfer : Transfer Cursor (List ℕ)
flat_transfer = record {
  read_exact_from = λ addr count s.
      let new = take count (unread s.image) in
      if leb count (length (unread s.image))
      then (if leb (addr + count) (length s.memory)
          then (
            ok tt,
            record s {
              image = record { bytes = s.image.bytes; position = s.image.position + count };
              memory = overwrite s.memory addr new;
            },
          )
          else (err tt, s))
      else (err tt, s);
  read_from = λ buf count c.
      let new = take count (unread c) in
      (
        ok (new ++ drop (length new) buf, length new),
        record c { position = c.position + length new },
      );
}

pub flat_transferred :
    (s s' : Machine Cursor (List ℕ)) (addr count : ℕ)
    → flat_transfer.read_exact_from addr count s ≡ (ok tt, s')
    → (bs : List ℕ) × (length bs ≡ count)
      × (cursor.read_exact count s.image ≡ (ok bs, s'.image))
      × ((x : ℕ)
          → get_elem? s'.memory x
            ≡ (if inside addr (length bs) x then get_elem? bs (x - addr) else get_elem? s.memory x))
flat_transferred s s' addr count h =
    let new = take count (unread s.image) in
    let long : count ≤ length (unread s.image) = ground arith in
    let counted : length new ≡ count = omega (arith, length-take count (unread s.image)) in
    let fits : addr + length new ≤ length s.memory = ground arith in
    let made : s'.memory ≡ overwrite s.memory addr new = ground arith in
    (
      new,
      counted,
      ground arith,
      λ x. ap (λ m. get_elem? m x) made ∙ get_elem?-overwrite s.memory addr new x fits,
    )

abbrev pub flat-IsTransfer : IsTransfer cursor flat_transfer get_elem?
flat-IsTransfer = record { transferred = flat_transferred }

moved-same : (c : Cursor) (p : Option ℕ) → (moved c p).1.bytes ≡ c.bytes
moved-same c none = refl
moved-same c (some p) = refl

pub cursor_seek-same : (t : SeekFrom) (c : Cursor) → (cursor.seek t c).1.bytes ≡ c.bytes
cursor_seek-same t c = moved-same c (target c t)

moved_calm : (c : Cursor) (p : Option ℕ) → (moved c p).0 ≢ panic
moved_calm c none h = cc
moved_calm c (some p) h = cc

pub cursor_seek_calm : (t : SeekFrom) (c : Cursor) → (cursor.seek t c).0 ≢ panic
cursor_seek_calm t c = moved_calm c (target c t)

pub cursor_seek_start :
    (n a : ℕ) (c c' : Cursor) → cursor.seek (start n) c ≡ (ok a, c') → c'.position ≡ n
cursor_seek_start n a c c' h = ground arith

pub cursor_seek_end :
    (a : ℕ) (c c' : Cursor) → cursor.seek (end (pos 0)) c ≡ (ok a, c') → a ≡ length c.bytes
cursor_seek_end a c c' h = ground arith

pub cursor_seek_current :
    (n a : ℕ) (c c' : Cursor)
    → cursor.seek (current (pos n)) c ≡ (ok a, c')
    → c'.position ≡ c.position + n
cursor_seek_current n a c c' h = ground arith

pub cursor_read-same : (n : ℕ) (c : Cursor) → (cursor.read_exact n c).1.bytes ≡ c.bytes
cursor_read-same n c = ground arith

pub cursor_read_calm : (n : ℕ) (c : Cursor) → (cursor.read_exact n c).0 ≢ panic
cursor_read_calm n c = ground arith

pub cursor_read_exact :
    (n : ℕ) (c c' : Cursor) (bs : List ℕ)
    → cursor.read_exact n c ≡ (ok bs, c')
    → (bs ≡ take n (drop c.position c.bytes)) × (length bs ≡ n) × (c'.position ≡ c.position + n)
cursor_read_exact n c c' bs h = ground (arith, length-take n (unread c))

abbrev pub cursor-IsImage : IsImage cursor
cursor-IsImage = record {
  bytes = λ c. c.bytes;
  position = λ c. c.position;
  seek-same = cursor_seek-same;
  seek_calm = cursor_seek_calm;
  seek_start = cursor_seek_start;
  seek_end = cursor_seek_end;
  seek_current = cursor_seek_current;
  read-same = cursor_read-same;
  read_calm = cursor_read_calm;
  read_exact-ok = cursor_read_exact;
}

pub cursor_filled :
    (buf buf' : List ℕ) (count n : ℕ) (c c' : Cursor)
    → flat_transfer.read_from buf count c ≡ (ok (buf', n), c')
    → (n ≤ count) × (buf' ≡ take n (drop c.position c.bytes) ++ drop n buf) × (c'.bytes ≡ c.bytes)
cursor_filled buf buf' count n c c' h =
    let read : length (take count (unread c)) ≡ n = ground arith in
    (
      omega (arith, read, length-take count (unread c)),
      sym made ∙ ap (λ t. take t (unread c) ++ drop t buf) read,
      ground arith,
    )
  where
    front : take count (unread c) ≡ take (length (take count (unread c))) (unread c)
    front = take-length-take count (unread c)

    made :
        take (length (take count (unread c))) (unread c)
          ++ drop (length (take count (unread c))) buf
        ≡ buf'
    made = rw (← front) (ground arith)

abbrev pub flat-IsFill : IsFill flat_transfer cursor-IsImage
flat-IsFill = record { filled = cursor_filled }

pub cursor_whole :
    (buf buf' : List ℕ) (count n : ℕ) (c c' : Cursor)
    → flat_transfer.read_from buf count c ≡ (ok (buf', n), c')
    → n ≡ length (take count (drop c.position c.bytes))
cursor_whole buf buf' count n c c' h = ground arith

abbrev pub flat-IsWholeFill : IsWholeFill flat_transfer cursor-IsImage
flat-IsWholeFill = record { whole = cursor_whole }
