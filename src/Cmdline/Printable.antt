-- ===== src/Cmdline/Printable.antt =====
-- A builder of src/cmdline/mod.rs that is filled by its methods holds printable ASCII only.
use linux_loader.Base.{Bool, true, false, List, [], ◌∷◌, ◌≡◌, refl, arith, all, any, ◌==◌}
use linux_loader.Base.Outcome.{Result}
use linux_loader.Text.{Str, trim}
use linux_loader.Cmdline.{Cmdline, Error, valid_char, insert_str, insert_init_args}
use linux_loader.Cmdline.Size.{IsValid, IsPrintable, push_arg-valid}
use linux_loader.Cmdline.Insert.{
  insert_str_lem, insert_init_args_lem, checked, with_boot, with_init,
}
use linux_loader.Cmdline.Operations.{
  Call, call, calls, Reduces, fails, boots, inits, call-Reduces, call-IsKept,
}

checked-IsPrintable :
    (printable large : Bool) (cl cl' : Cmdline)
    → IsPrintable cl
    → (printable ≡ true → IsPrintable cl')
    → IsPrintable (checked printable large cl cl').1
checked-IsPrintable false large cl cl' h h' = h
checked-IsPrintable true true cl cl' h h' = h
checked-IsPrintable true false cl cl' h h' = h' refl

insert_str-IsPrintable :
    (slug : Str) (cl : Cmdline) → IsValid cl → IsPrintable cl → IsPrintable (insert_str slug cl).1
insert_str-IsPrintable slug cl v h = rw (insert_str_lem slug cl v) (
    checked-IsPrintable _ _ cl (with_boot cl (trim slug)) h
      λ p. record { boot = push_arg-valid cl.boot_args (trim slug) h.boot p; init = h.init })

insert_init_args-IsPrintable :
    (slug : Str) (cl : Cmdline)
    → IsValid cl
    → IsPrintable cl
    → IsPrintable (insert_init_args slug cl).1
insert_init_args-IsPrintable slug cl v h = rw (insert_init_args_lem slug cl v) (
    checked-IsPrintable _ _ cl (with_init cl (trim slug)) h
      λ p. record { boot = h.boot; init = push_arg-valid cl.init_args (trim slug) h.init p })

Reduces-IsPrintable :
    (cl : Cmdline) (out : Result Error (Unit {0}) × Cmdline)
    → IsValid cl
    → IsPrintable cl
    → Reduces cl out
    → IsPrintable out.1
Reduces-IsPrintable cl out v h (fails e p) = rw p h
Reduces-IsPrintable cl out v h (boots slug p) = rw p (insert_str-IsPrintable slug cl v h)
Reduces-IsPrintable cl out v h (inits slug p) = rw p (insert_init_args-IsPrintable slug cl v h)

pub calls-IsPrintable :
    (cs : List Call) (cl : Cmdline) → IsValid cl → IsPrintable cl → IsPrintable (calls cs cl)
unfolding calls
calls-IsPrintable [] cl v h = h
calls-IsPrintable (c ∷ cs) cl v h =
    calls-IsPrintable cs (call c cl).1 (call-IsKept c cl v).valid
      (Reduces-IsPrintable cl (call c cl) v h (call-Reduces c cl))

-- A printable text has no NUL.
pub printable_nonzero : (s : Str) → all valid_char s ≡ true → any (λ c. c == 0) s ≡ false
unfolding valid_char
printable_nonzero [] h = refl
printable_nonzero (c ∷ s) h = ground (arith, printable_nonzero s)
