-- ===== src/Memory.antt =====
-- What the source uses of the crate vm-memory: guest memory behind the trait `GuestMemory`, and
-- `ByteValued`. None of it is in this repository, so it is a parameter: the operations, and apart from
-- them the documented behaviour that the theorems rest on. The errors of vm-memory are all mapped to
-- other errors by the source, so they carry nothing here.
pub mod Flat
pub mod ReadBack
use linux_loader.Base.{
  ℕ, ◌+◌, ◌-◌, ◌≤◌, ◌<◌, List, Option, none, some, ◌≡◌, ◌≢◌, if◌then◌else◌, length, get_elem?,
}
use linux_loader.Base.Outcome.{Result, ok, err, panic, Action}
use linux_loader.Base.Splice.{inside}

-- `guest_mem: &M`, whose content changes behind the shared reference: `M` is that content.
pub record GuestMemory (M : Type 0) : Type 0 where
  pub last_addr : M → ℕ
  pub checked_offset : M → ℕ → ℕ → Option ℕ
  pub write_slice : List ℕ → ℕ → Action M (Unit {0}) (Unit {0})

-- The documented behaviour. `peek` is the byte at a guest address, if memory stands there.
pub record IsGuestMemory {M : Type 0} (gm : GuestMemory M) : Type 0 where
  pub peek : M → ℕ → Option ℕ
  -- A successful write changes the range and nothing else.
  pub peek-write :
      (m m' : M) (bs : List ℕ) (addr x : ℕ)
      → gm.write_slice bs addr m ≡ (ok tt, m')
      → peek m' x ≡ (if inside addr (length bs) x then get_elem? bs (x - addr) else peek m x)
  pub write_calm : (m : M) (bs : List ℕ) (addr : ℕ) → (gm.write_slice bs addr m).0 ≢ panic
  -- The address that `checked_offset` returns is the sum, and memory stands there.
  pub offset_sum :
      (m : M) (addr n : ℕ) {b : ℕ}
      → gm.checked_offset m addr n ≡ some b
      → (b ≡ addr + n) × (peek m b ≢ none)
  pub peek_last : (m : M) (x : ℕ) → peek m x ≢ none → x ≤ gm.last_addr m

-- `T: ByteValued`: a type that is read and written as its bytes, all of one size.
pub record ByteValued (T : Type 0) : Type 0 where
  pub size_of : ℕ
  pub as_slice : T → List ℕ
  pub sized : (t : T) → length (as_slice t) ≡ size_of
