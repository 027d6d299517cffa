-- ===== src/Cmdline/Operations.antt =====
-- Sequences of calls on a builder of src/cmdline/mod.rs, and what they all keep.
use linux_loader.Base.{
  ℕ, ◌≤◌, Bool, true, false, Option, List, [], ◌∷◌, ◌++◌, ◌≡◌, ◌⊎◌, inl, inr, refl, ◌∙◌, arith,
  ◌==◌, ltb→le, is_empty, all, Bool-cases,
}
use linux_loader.Base.Outcome.{Result, ok, err}
use linux_loader.Text.{Str, trim, codes, join, contains}
use linux_loader.Cmdline.{
  Cmdline, Error, Method, invalid_ascii, has_space, has_equals, mmio_size, too_large, missing_val,
  valid_char, valid_element, valid_values, insert_str, insert_init_args, insert, insert_multiple,
}
use linux_loader.Cmdline.Device.{add_virtio_mmio_device, device_str}
use linux_loader.Cmdline.Size.{size, IsValid, size-push_boot, size-push_init}
use linux_loader.Cmdline.Insert.{
  insert_str_lem, insert_init_args_lem, checked, with_boot, with_init,
}

-- A call of a method of the builder.
pub data Call : Type 0 where
  str : Str → Call
  init : Str → Call
  pair : Str → Str → Call
  multiple : Str → List Str → Call
  device : ℕ → ℕ → ℕ → Option ℕ → Call

unfoldable pub call : Call → Method (Unit {0})
call (str slug) = insert_str slug
call (init slug) = insert_init_args slug
call (pair k v) = insert k v
call (multiple k vals) = insert_multiple k vals
call (device size baseaddr irq id) = add_virtio_mmio_device size baseaddr irq id

-- The state after the calls; a failed one is passed over.
unfoldable pub calls : List Call → Cmdline → Cmdline
calls [] cl = cl
calls (c ∷ cs) cl = calls cs (call c cl).1

-- A method call gives no panic: it succeeds, or fails and leaves the builder unchanged.
abbrev pub Settles : Cmdline → Result Error (Unit {0}) × Cmdline → Type 0
Settles cl out = (out.0 ≡ ok tt) ⊎ ((e : Error) × (out ≡ (err e, cl)))

-- What a call may leave behind.
pub record IsKept (cl : Cmdline) (out : Result Error (Unit {0}) × Cmdline) : Type 0 where
  pub valid : IsValid out.1
  pub same : out.1.capacity ≡ cl.capacity
  pub settles : Settles cl out

checked-IsKept :
    (printable large : Bool) (cl cl' : Cmdline)
    → IsValid cl
    → cl'.capacity ≡ cl.capacity
    → (large ≡ false → size cl' ≤ cl.capacity)
    → IsKept cl (checked printable large cl cl')
checked-IsKept false large cl cl' v same fits = record {
  valid = v;
  same = refl;
  settles = inr (invalid_ascii, refl);
}
checked-IsKept true true cl cl' v same fits = record {
  valid = v;
  same = refl;
  settles = inr (too_large, refl);
}
checked-IsKept true false cl cl' v same fits = record {
  valid = omega (arith, fits refl);
  same = same;
  settles = inl refl;
}

pub insert_str-IsKept : (slug : Str) (cl : Cmdline) → IsValid cl → IsKept cl (insert_str slug cl)
insert_str-IsKept slug cl v = rw (insert_str_lem slug cl v) (
    checked-IsKept _ _ cl (with_boot cl (trim slug)) v refl
      (λ h. omega (arith, ltb→le _ _ h, size-push_boot cl (trim slug))))

insert_init_args-IsKept :
    (slug : Str) (cl : Cmdline) → IsValid cl → IsKept cl (insert_init_args slug cl)
insert_init_args-IsKept slug cl v = rw (insert_init_args_lem slug cl v) (
    checked-IsKept _ _ cl (with_init cl (trim slug)) v refl
      (λ h. omega (arith, ltb→le _ _ h, size-push_init cl (trim slug))))

err-IsKept : (e : Error) (cl : Cmdline) → IsValid cl → IsKept cl (err e, cl)
err-IsKept e cl v = record { valid = v; same = refl; settles = inr (e, refl) }

-- The validations return a value or an error.
valid_element-cases :
    (s : Str) → (valid_element s ≡ ok tt) ⊎ ((e : Error) × (valid_element s ≡ err e))
unfolding valid_element
valid_element-cases s = elim (Bool-cases (all valid_char s)) [
  | inl p ↦ elim (Bool-cases (contains s b' ')) [
    | inl q ↦ inr (has_space, ground arith)
    | inr q ↦ elim (Bool-cases (contains s b'=')) [
      | inl r ↦ inr (has_equals, ground arith)
      | inr r ↦ inl (ground arith)
    ]
  ]
  | inr p ↦ inr (invalid_ascii, ground arith)
]

valid_values-cases :
    (vs : List Str) → (valid_values vs ≡ ok vs) ⊎ ((e : Error) × (valid_values vs ≡ err e))
unfolding valid_values
valid_values-cases [] = inl refl
valid_values-cases (v ∷ vs) = elim (valid_element-cases v) [
  | inr (e, p) ↦ inr (e, rw p)
  | inl p ↦ elim (valid_values-cases vs) [
    | inl q ↦ inl (rw (p, q))
    | inr (e, q) ↦ inr (e, rw (p, q))
  ]
]

-- A call fails at once, or comes down to one of the two methods that push an argument.
pub data Reduces (cl : Cmdline) (out : Result Error (Unit {0}) × Cmdline) : Type 0 where
  fails : (e : Error) → out ≡ (err e, cl) → Reduces cl out
  boots : (slug : Str) → out ≡ insert_str slug cl → Reduces cl out
  inits : (slug : Str) → out ≡ insert_init_args slug cl → Reduces cl out

insert-Reduces : (k v : Str) (cl : Cmdline) → Reduces cl (insert k v cl)
unfolding insert
insert-Reduces k v cl = elim (valid_element-cases k) [
  | inr (e, p) ↦ fails e (rw p)
  | inl p ↦ elim (valid_element-cases v) [
    | inr (e, q) ↦ fails e (rw (p, q))
    | inl q ↦ boots (k ++ (b'=' ∷ v)) (rw (p, q))
  ]
]

insert_multiple-Reduces :
    (k : Str) (vals : List Str) (cl : Cmdline) → Reduces cl (insert_multiple k vals cl)
unfolding insert_multiple
insert_multiple-Reduces k vals cl = elim (valid_element-cases k) [
  | inr (e, p) ↦ fails e (rw p)
  | inl p ↦ elim (Bool-cases (is_empty vals)) [
    | inl q ↦ fails (missing_val k) (rw (p, q))
    | inr q ↦ elim (valid_values-cases vals) [
      | inr (e, r) ↦ fails e (rw (p, q, r))
      | inl r ↦ boots (k ++ (b'=' ∷ join vals (codes ","))) (rw (p, q, r))
    ]
  ]
]

device-Reduces :
    (slot baseaddr irq : ℕ) (id : Option ℕ) (cl : Cmdline)
    → Reduces cl (add_virtio_mmio_device slot baseaddr irq id cl)
unfolding add_virtio_mmio_device
device-Reduces slot baseaddr irq id cl = elim (Bool-cases (slot == 0)) [
  | inl p ↦ fails mmio_size (rw p)
  | inr p ↦ boots (device_str slot baseaddr irq id) (rw p)
]

pub call-Reduces : (c : Call) (cl : Cmdline) → Reduces cl (call c cl)
unfolding call
call-Reduces (str slug) cl = boots slug refl
call-Reduces (init slug) cl = inits slug refl
call-Reduces (pair k v) cl = insert-Reduces k v cl
call-Reduces (multiple k vals) cl = insert_multiple-Reduces k vals cl
call-Reduces (device size baseaddr irq id) cl = device-Reduces size baseaddr irq id cl

Reduces-IsKept :
    (cl : Cmdline) (out : Result Error (Unit {0}) × Cmdline)
    → IsValid cl
    → Reduces cl out
    → IsKept cl out
Reduces-IsKept cl out v (fails e p) = rw p (err-IsKept e cl v)
Reduces-IsKept cl out v (boots slug p) = rw p (insert_str-IsKept slug cl v)
Reduces-IsKept cl out v (inits slug p) = rw p (insert_init_args-IsKept slug cl v)

-- Every method keeps the size within the capacity, keeps the capacity itself, never panics, and
-- leaves the builder as it was if it fails.
pub call-IsKept : (c : Call) (cl : Cmdline) → IsValid cl → IsKept cl (call c cl)
call-IsKept c cl v = Reduces-IsKept cl (call c cl) v (call-Reduces c cl)

pub calls-IsValid :
    (cs : List Call) (cl : Cmdline)
    → IsValid cl
    → IsValid (calls cs cl) × ((calls cs cl).capacity ≡ cl.capacity)
unfolding calls
calls-IsValid [] cl v = (v, refl)
calls-IsValid (c ∷ cs) cl v =
    let kept = call-IsKept c cl v in
    let (valid, same) = calls-IsValid cs (call c cl).1 kept.valid in (valid, same ∙ kept.same)
