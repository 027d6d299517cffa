-- ===== src/Reader.antt =====
-- The image that a loader reads: `F: Read + Seek` of the standard library, and the calls by which
-- vm-memory reads from it. Which reader and which memory are used is a parameter. The errors are all
-- mapped to other errors by the source, so they carry nothing here.
pub mod Cursor
pub mod CursorWorks
pub mod Steps
pub mod Working
pub mod Padded
pub mod Gives
pub mod Alike
use linux_loader.Base.Splice.{inside}
use linux_loader.Base.{
  ◌+◌, ◌-◌, ◌≤◌, ◌≡◌, ◌≢◌, ◌++◌, take, drop, length, get_elem?, if◌then◌else◌, ℕ, List, Option,
  none, some,
}
use linux_loader.Base.Int.{ℤ, pos}
use linux_loader.Base.Outcome.{Result, ok, panic, Action, map_err}

pub data SeekFrom : Type 0 where
  start : ℕ → SeekFrom
  end : ℤ → SeekFrom
  current : ℤ → SeekFrom

pub record ReadSeek (R : Type 0) : Type 0 where
  -- The new position.
  pub seek : SeekFrom → Action R (Unit {0}) ℕ
  -- As many bytes as asked for.
  pub read_exact : ℕ → Action R (Unit {0}) (List ℕ)

-- The image and the guest memory, both changed by a load.
pub record Machine (R : Type 0) (M : Type 0) : Type 0 where
  pub image : R
  pub memory : M

-- The calls of vm-memory that read from the image.
pub record Transfer (R : Type 0) (M : Type 0) : Type 0 where
  -- `GuestMemory::read_exact_from(addr, image, count)`.
  pub read_exact_from : ℕ → ℕ → Action (Machine R M) (Unit {0}) (Unit {0})
  -- `VolatileSlice::read_from(0, image, count)` on a buffer: the buffer after it, and how many of its
  -- bytes were read, which may be fewer than `count`.
  pub read_from : List ℕ → ℕ → Action R (Unit {0}) (List ℕ × ℕ)

-- `call(..).map_err(|_| e)?` on the image.
abbrev pub on_image {κ} :
    {R M : Type 0} {E : Type κ} {A : Type 0} → Action R (Unit {0}) A → E → Action (Machine R M) E A
on_image f e s = let (r, i) = f s.image in (map_err (λ _. e) r, record s { image = i })

abbrev pub on_machine {κ} :
    {R M : Type 0} {E : Type κ} {A : Type 0}
    → Action (Machine R M) (Unit {0}) A
    → E
    → Action (Machine R M) E A
on_machine f e s = let (r, s') = f s in (map_err (λ _. e) r, s')

-- The documented behaviour of `Read + Seek` on an image that nothing else writes: the image stays the
-- same, a seek moves the position, and an exact read takes the bytes at the position. Which calls
-- succeed is left open.
pub record IsImage {R : Type 0} (rs : ReadSeek R) : Type 0 where
  pub bytes : R → List ℕ
  pub position : R → ℕ
  pub seek-same : (t : SeekFrom) (r : R) → bytes (rs.seek t r).1 ≡ bytes r
  pub seek_calm : (t : SeekFrom) (r : R) → (rs.seek t r).0 ≢ panic
  pub seek_start : (n a : ℕ) (r r' : R) → rs.seek (start n) r ≡ (ok a, r') → position r' ≡ n
  pub seek_end : (a : ℕ) (r r' : R) → rs.seek (end (pos 0)) r ≡ (ok a, r') → a ≡ length (bytes r)
  pub seek_current :
      (n a : ℕ) (r r' : R) → rs.seek (current (pos n)) r ≡ (ok a, r') → position r' ≡ position r + n
  pub read-same : (n : ℕ) (r : R) → bytes (rs.read_exact n r).1 ≡ bytes r
  pub read_calm : (n : ℕ) (r : R) → (rs.read_exact n r).0 ≢ panic
  pub read_exact-ok :
      (n : ℕ) (r r' : R) (bs : List ℕ)
      → rs.read_exact n r ≡ (ok bs, r')
      → (bs ≡ take n (drop (position r) (bytes r)))
        × (length bs ≡ n)
        × (position r' ≡ position r + n)

-- The documented behaviour of `read_exact_from`: a success has read `count` bytes, those that
-- `read_exact` gives, and written them at the address; no other byte has changed.
pub record IsTransfer {R M : Type 0} (rs : ReadSeek R) (tr : Transfer R M) (peek : M → ℕ → Option ℕ)
    : Type 0 where
  pub transferred :
      (s s' : Machine R M) (addr count : ℕ)
      → tr.read_exact_from addr count s ≡ (ok tt, s')
      → (bs : List ℕ) × (length bs ≡ count)
        × (rs.read_exact count s.image ≡ (ok bs, s'.image))
        × ((x : ℕ)
            → peek s'.memory x
              ≡ (if inside addr (length bs) x then get_elem? bs (x - addr) else peek s.memory x))

-- The documented behaviour of `read_from`: the bytes that were read, at most `count`, come to the front
-- of the buffer, and the image stays the same.
pub record IsFill {R M : Type 0} {rs : ReadSeek R} (tr : Transfer R M) (image : IsImage rs)
    : Type 0 where
  pub filled :
      (buf buf' : List ℕ) (count n : ℕ) (r r' : R)
      → tr.read_from buf count r ≡ (ok (buf', n), r')
      → (n ≤ count)
        × (buf' ≡ take n (drop (image.position r) (image.bytes r)) ++ drop n buf)
        × (image.bytes r' ≡ image.bytes r)

-- A reader whose `read_from` is never short: it reads as many bytes as the image has, up to `count`.
pub record IsWholeFill {R M : Type 0} {rs : ReadSeek R} (tr : Transfer R M) (image : IsImage rs)
    : Type 0 where
  pub whole :
      (buf buf' : List ℕ) (count n : ℕ) (r r' : R)
      → tr.read_from buf count r ≡ (ok (buf', n), r')
      → n ≡ length (take count (drop (image.position r) (image.bytes r)))
