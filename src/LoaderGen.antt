-- ===== src/LoaderGen.antt =====
-- src/loader_gen: the structures of the boot protocols, read from their bytes. All numbers are little
-- endian.
pub mod Elf
pub mod Bootparam
pub mod Bytes
pub mod Layout
pub mod Pod
pub mod StartInfo
pub mod Tests
use linux_loader.Base.{ℕ, ◌+◌, ◌*◌, List, [], ◌∷◌, take, drop}

-- `from_le_bytes`.
unfoldable pub from_le_bytes : List ℕ → ℕ
from_le_bytes [] = 0
from_le_bytes (b ∷ bs) = b + 256 * from_le_bytes bs

-- The field of `size` bytes at `offset`.
abbrev pub field : List ℕ → ℕ → ℕ → ℕ
field bs offset size = from_le_bytes (take size (drop offset bs))
