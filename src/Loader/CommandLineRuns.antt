-- ===== src/Loader/CommandLineRuns.antt =====
-- The command line that a guest reads, at concrete arguments.
use linux_loader.Base.{ℕ, [], ◌∷◌, ◌++◌, some, ◌≡◌, refl, arith, get_elem?, replicate}
use linux_loader.Text.{
  codes, len, bytes, encode_char, trim, trim_start, trim_end, is_whitespace, join, cstring,
}
use linux_loader.Memory.Flat.{flat, flat-IsGuestMemory}
use linux_loader.Memory.ReadBack.{read_back}
use linux_loader.Cmdline.{
  Cmdline, new, valid_char, valid_str, insert_str, get_null_terminated_representation_size,
  as_cstring,
}
use linux_loader.Cmdline.Sequence.{insert_all}
use linux_loader.Loader.{load_cmdline}
use linux_loader.Loader.CommandLineGuest.{load_cmdline-insert_all}

-- Opens what the example computes with.
empty : ℕ → Cmdline
unfolding new valid_char valid_str insert_str get_null_terminated_representation_size as_cstring len
    bytes encode_char trim trim_start trim_end is_whitespace join cstring insert_all load_cmdline
empty capacity = record { boot_args = []; init_args = []; capacity = capacity }

load_cmdline-insert_all_example :
    read_back (get_elem? (7 ∷ 7 ∷ codes "quiet ro" ++ (0 ∷ 7 ∷ []))) 2 9
    ≡ some (codes "quiet ro" ++ (0 ∷ []))
unfolding empty
load_cmdline-insert_all_example =
    load_cmdline-insert_all flat flat-IsGuestMemory (codes " quiet" ∷ codes "ro" ∷ []) 9 2
      (record { boot_args = []; init_args = []; capacity = 9 }) (replicate 12 7)
      (7 ∷ 7 ∷ codes "quiet ro" ++ (0 ∷ 7 ∷ [])) refl (omega arith) (refl, refl, (refl, refl, tt))
      (omega arith) refl
