-- ===== src/Reader/CursorWorks.antt =====
-- A cursor over bytes, and memory of one region, can be read without a fault.
use linux_loader.Base.Word.{IsU64}
use linux_loader.Reader.Working.{IsWorking}
use linux_loader.Base.{
  refl, ◌≡◌, ap, arith, length-take, Option, none, some, ℕ, ◌+◌, ◌-◌, List, leb, if◌then◌else◌,
  length, take, drop, Bool, length-drop, ◌&&◌,
}
use linux_loader.Base.Int.{ℤ, pos, checked_add_signed}
use linux_loader.Base.Outcome.{ok, err, ok_or}
use linux_loader.Base.Splice.{length-overwrite}
use linux_loader.Reader.{Machine, end, current}
use linux_loader.Reader.Cursor.{Cursor, moved, cursor, flat_transfer, cursor-IsImage}

-- Memory of one region has room up to its end.
abbrev pub flat_room : List ℕ → ℕ → ℕ → Bool
flat_room memory addr count = leb (addr + count) (length memory)

pub cursor_seek_end_works :
    (c : Cursor) → IsU64 (length c.bytes) → (cursor.seek (end (pos 0)) c).0 ≡ ok (length c.bytes)
cursor_seek_end_works c small = ground arith

by_target :
    (p : Option ℕ) (c : Cursor)
    → ((moved c p).0 ≡ ok_or p tt) × ((a : ℕ) → (moved c p).0 ≡ ok a → (moved c p).1.position ≡ a)
by_target none c = (refl, λ a h. absurd cc)
by_target (some p) c = (refl, λ a h. ground arith)

pub cursor_seek_current_works :
    (d : ℤ) (c : Cursor)
    → (cursor.seek (current d) c).0 ≡ ok_or (checked_add_signed c.position d) tt
cursor_seek_current_works d c = (by_target (checked_add_signed c.position d) c).0

pub cursor_seek_current-position :
    (d : ℤ) (a : ℕ) (c : Cursor)
    → (cursor.seek (current d) c).0 ≡ ok a
    → (cursor.seek (current d) c).1.position ≡ a
cursor_seek_current-position d a c = (by_target (checked_add_signed c.position d) c).1 a

pub cursor_read_works :
    (n : ℕ) (c : Cursor)
    → (cursor.read_exact n c).0 ≡ (
        if leb n (length c.bytes - c.position)
        then ok (take n (drop c.position c.bytes))
        else err tt)
cursor_read_works n c = ground (arith, length-drop c.position c.bytes)

pub flat_copy_works :
    (addr count : ℕ) (s : Machine Cursor (List ℕ))
    → (flat_transfer.read_exact_from addr count s).0 ≡ (
        if leb count (length s.image.bytes - s.image.position) && flat_room s.memory addr count
        then ok tt
        else err tt)
flat_copy_works addr count s = ground (arith, length-drop s.image.position s.image.bytes)

pub flat_copy-same :
    (addr count : ℕ) (s : Machine Cursor (List ℕ))
    → (flat_transfer.read_exact_from addr count s).1.image.bytes ≡ s.image.bytes
flat_copy-same addr count s = ground arith

flat_copy-length :
    (addr count : ℕ) (s : Machine Cursor (List ℕ))
    → length (flat_transfer.read_exact_from addr count s).1.memory ≡ length s.memory
flat_copy-length addr count s = ground (
  arith,
  length-take count (drop s.image.position s.image.bytes),
  length-overwrite s.memory addr (take count (drop s.image.position s.image.bytes)),
)

pub flat_copy-same_room :
    (addr count : ℕ) (s : Machine Cursor (List ℕ)) (a n : ℕ)
    → flat_room (flat_transfer.read_exact_from addr count s).1.memory a n ≡ flat_room s.memory a n
flat_copy-same_room addr count s a n = ap (leb (a + n)) (flat_copy-length addr count s)

abbrev pub flat-IsWorking : IsWorking flat_transfer cursor-IsImage flat_room
flat-IsWorking = record {
  seek_start_works = λ n c. refl;
  seek_end_works = cursor_seek_end_works;
  seek_current_works = cursor_seek_current_works;
  seek_current-position = cursor_seek_current-position;
  fill_works = λ buf count c. refl;
  fill-same = λ buf count c. refl;
  read_works = cursor_read_works;
  copy_works = flat_copy_works;
  copy-same = flat_copy-same;
  copy-same_room = flat_copy-same_room;
}
