-- ===== src/Memory/Flat.antt =====
-- Guest memory of one region at address 0: it shows that the assumptions on vm-memory can be met, and
-- the tests run on it. It stands for no code of the repository.
use linux_loader.Base.{
  ℕ, zero, suc, ◌+◌, ◌-◌, ◌≤◌, ◌<◌, List, [], ◌∷◌, none, some, ◌≡◌, ◌≢◌, arith, ltb, leb,
  if◌then◌else◌, length, get_elem?,
}
use linux_loader.Base.Outcome.{ok, err, panic}
use linux_loader.Base.Splice.{inside, overwrite, get_elem?-overwrite, get_elem?_past}
use linux_loader.Memory.{GuestMemory, IsGuestMemory}

abbrev pub flat : GuestMemory (List ℕ)
flat = record {
  last_addr = λ m. length m - 1;
  checked_offset = λ m addr n. if ltb (addr + n) (length m) then some (addr + n) else none;
  write_slice = λ bs addr m.
      if leb (addr + length bs) (length m) then (ok tt, overwrite m addr bs) else (err tt, m);
}

pub flat_peek-write :
    (m m' : List ℕ) (bs : List ℕ) (addr x : ℕ)
    → flat.write_slice bs addr m ≡ (ok tt, m')
    → get_elem? m' x
      ≡ (if inside addr (length bs) x then get_elem? bs (x - addr) else get_elem? m x)
flat_peek-write m m' bs addr x h = ground (arith, get_elem?-overwrite m addr bs x)

pub flat_calm : (m : List ℕ) (bs : List ℕ) (addr : ℕ) → (flat.write_slice bs addr m).0 ≢ panic
flat_calm m bs addr = ground arith

get_elem?_below : (m : List ℕ) (x : ℕ) → x < length m → get_elem? m x ≢ none
get_elem?_below [] x h = absurd (omega arith)
get_elem?_below (a ∷ m) zero h = cc
get_elem?_below (a ∷ m) (suc x) h = get_elem?_below m x (omega arith)

pub flat_offset :
    (m : List ℕ) (addr n : ℕ) {b : ℕ}
    → flat.checked_offset m addr n ≡ some b
    → (b ≡ addr + n) × (get_elem? m b ≢ none)
flat_offset m addr n h = ground (arith, get_elem?_below m (addr + n))

pub flat_last : (m : List ℕ) (x : ℕ) → get_elem? m x ≢ none → x ≤ flat.last_addr m
flat_last m x h = ground (arith, get_elem?_past m x)

abbrev pub flat-IsGuestMemory : IsGuestMemory flat
flat-IsGuestMemory = record {
  peek = get_elem?;
  peek-write = flat_peek-write;
  write_calm = flat_calm;
  offset_sum = flat_offset;
  peek_last = flat_last;
}
