-- ===== src/Loader/Elf/Header.antt =====
-- What `Elf::validate_header` of src/loader/x86_64/elf/mod.rs accepts.
use linux_loader.Base.{ℕ, ◌≤◌, true, Option, none, some, ◌≡◌, ◌↔◌, arith, get_elem?}
use linux_loader.Base.Outcome.{ok}
use linux_loader.LoaderGen.Elf.{Elf64Ehdr}
use linux_loader.Loader.Elf.{is_byte, ident_is, validate_header}

is_byte_iff : (b : Option ℕ) (c : ℕ) → (is_byte b c ≡ true) ↔ (b ≡ some c)
unfolding is_byte
is_byte_iff none c = (λ h. absurd cc, λ h. absurd cc)
is_byte_iff (some b) c = (λ h. ground arith, λ h. ground arith)

-- A header is accepted exactly if it starts with the magic number, names little-endian data, has
-- program headers of 56 bytes, and has them behind the 64 bytes of the header itself.
pub validate_header_iff :
    (ehdr : Elf64Ehdr)
    → (validate_header ehdr ≡ ok tt) ↔ (
        (get_elem? ehdr.e_ident 0 ≡ some 0x7f)
        × (get_elem? ehdr.e_ident 1 ≡ some b'E')
        × (get_elem? ehdr.e_ident 2 ≡ some b'L')
        × (get_elem? ehdr.e_ident 3 ≡ some b'F')
        × (get_elem? ehdr.e_ident 5 ≡ some 1)
        × (ehdr.e_phentsize ≡ 56)
        × (64 ≤ ehdr.e_phoff))
unfolding validate_header ident_is
validate_header_iff ehdr = (λ h. grind (arith, is_byte_iff), λ h. grind (arith, is_byte_iff))
