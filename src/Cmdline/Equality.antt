-- ===== src/Cmdline/Equality.antt =====
-- `PartialEq` for `Cmdline` of src/cmdline/mod.rs.
use mathlib.Core.Bool.{decide_iff}
use linux_loader.Base.{[], ◌≡◌, ◌≢◌, ◌↔◌, true, arith}
use linux_loader.Cmdline.{Cmdline, as_cstring, eq, Outcome-discrete}

-- Two command lines are equal exactly when `as_cstring` gives the same result for both.
pub eq_iff : (cl other : Cmdline) → (eq cl other ≡ true) ↔ (as_cstring cl ≡ as_cstring other)
unfolding eq
eq_iff cl other = decide_iff (Outcome-discrete (as_cstring cl) (as_cstring other))

-- Any two command lines with init arguments and no boot arguments are equal, whatever the init
-- arguments are: both fail in `as_cstring`.
pub eq_without_boot_args :
    (cl other : Cmdline)
    → cl.boot_args ≡ []
    → other.boot_args ≡ []
    → cl.init_args ≢ []
    → other.init_args ≢ []
    → eq cl other ≡ true
eq_without_boot_args cl other b b' i i' = (eq_iff cl other).1 (unfold as_cstring in ground arith)
