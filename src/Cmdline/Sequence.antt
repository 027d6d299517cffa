-- ===== src/Cmdline/Sequence.antt =====
-- A sequence of `insert_str` calls on a builder of src/cmdline/mod.rs: all of them succeed, if the
-- arguments fit together.
use linux_loader.Base.{
  ℕ, ◌+◌, ◌≤◌, true, false, List, [], ◌∷◌, ◌++◌, ◌≡◌, refl, ap, ◌∙◌, arith, map, is_empty, all,
  append_assoc,
}
use linux_loader.Base.Word.{IsU64}
use linux_loader.Base.Outcome.{ok, pure, ◌>>◌}
use linux_loader.Text.{Str, codes, len, trim, join}
use linux_loader.Cmdline.{Cmdline, Method, new, push_arg, valid_char, insert_str}
use linux_loader.Cmdline.Size.{size, IsValid, size-push_boot}
use linux_loader.Cmdline.Insert.{insert_str_lem, with_boot}

-- A client that inserts one argument after the other.
unfoldable pub insert_all : List Str → Method (Unit {0})
insert_all [] = pure tt
insert_all (slug ∷ slugs) = insert_str slug >> insert_all slugs

-- The arguments behind others.
abbrev pushed : Str → List Str → Str
pushed args [] = args
pushed args (slug ∷ slugs) = pushed (push_arg args (trim slug)) slugs

-- Every argument is printable, and not empty when it is trimmed.
abbrev pub AreArguments : List Str → Type 0
AreArguments [] = Unit
AreArguments (slug ∷ slugs) =
    (all valid_char (trim slug) ≡ true) × (is_empty (trim slug) ≡ false) × AreArguments slugs

size_grows :
    (cl : Cmdline) (slugs : List Str)
    → size cl ≤ size (record cl { boot_args = pushed cl.boot_args slugs })
size_grows cl [] = omega arith
size_grows cl (slug ∷ slugs) =
    omega (arith, size-push_boot cl (trim slug), size_grows (with_boot cl (trim slug)) slugs)

insert_all_step :
    (slug : Str) (slugs : List Str) (cl cl' cl'' : Cmdline)
    → insert_str slug cl ≡ (ok tt, cl')
    → insert_all slugs cl' ≡ (ok tt, cl'')
    → insert_all (slug ∷ slugs) cl ≡ (ok tt, cl'')
unfolding insert_all
insert_all_step slug slugs cl cl' cl'' first rest = ground arith

insert_all_lem :
    (slugs : List Str) (cl : Cmdline)
    → IsU64 cl.capacity
    → AreArguments slugs
    → size (record cl { boot_args = pushed cl.boot_args slugs }) ≤ cl.capacity
    → insert_all slugs cl ≡ (ok tt, record cl { boot_args = pushed cl.boot_args slugs })
unfolding insert_all
insert_all_lem [] cl word args fits = refl
insert_all_lem (slug ∷ slugs) cl word (valid, _, args) fits =
    let cl' = with_boot cl (trim slug) in
    let grows = size_grows cl' slugs in
    let pushed_size = size-push_boot cl (trim slug) in
    let v : IsValid cl = record { fits = omega (arith, fits, grows, pushed_size); word = word } in
    let first : insert_str slug cl ≡ (ok tt, cl') =
      insert_str_lem slug cl v ∙ ground (arith, valid, fits, grows, pushed_size) in
    insert_all_step slug slugs cl cl' _ first (insert_all_lem slugs cl' word args fits)

join-append :
    (front s : Str) (texts : List Str)
    → join ((front ++ s) ∷ texts) (codes " ") ≡ front ++ join (s ∷ texts) (codes " ")
unfolding join
join-append front s [] = refl
join-append front s (t ∷ texts) = append_assoc front s (b' ' ∷ join (t ∷ texts) (codes " "))

pushed-join :
    (c : ℕ) (args : Str) (slugs : List Str)
    → AreArguments slugs
    → pushed (c ∷ args) slugs ≡ join ((c ∷ args) ∷ map trim slugs) (codes " ")
unfolding join
pushed-join c args [] fit = refl
pushed-join c args (slug ∷ slugs) (_, _, fit) =
    pushed-join c ((args ++ (b' ' ∷ [])) ++ trim slug) slugs fit
    ∙ join-append ((c ∷ args) ++ (b' ' ∷ [])) (trim slug) (map trim slugs)
    ∙ append_assoc (c ∷ args) (b' ' ∷ []) (join (trim slug ∷ map trim slugs) (codes " "))

pushed_first :
    (s : Str) (slugs : List Str)
    → is_empty s ≡ false
    → AreArguments slugs
    → pushed s slugs ≡ join (s ∷ map trim slugs) (codes " ")
pushed_first [] slugs some_ fit = absurd (cc some_)
pushed_first (c ∷ s) slugs some_ fit = pushed-join c s slugs fit

pushed-nil :
    (slugs : List Str) → AreArguments slugs → pushed [] slugs ≡ join (map trim slugs) (codes " ")
unfolding join
pushed-nil [] fit = refl
pushed-nil (slug ∷ slugs) (_, some_, fit) = pushed_first (trim slug) slugs some_ fit

-- Insertions into a new builder all succeed, if every argument is printable and not empty when it is
-- trimmed, and if the trimmed arguments with a space between each two of them, and a NUL behind them,
-- fit the capacity. These are then the boot arguments.
pub insert_all-new :
    (slugs : List Str) (capacity : ℕ) (cl : Cmdline)
    → new capacity ≡ ok cl
    → IsU64 capacity
    → AreArguments slugs
    → len (join (map trim slugs) (codes " ")) + 1 ≤ capacity
    → insert_all slugs cl ≡ (
      ok tt,
      record { boot_args = join (map trim slugs) (codes " "); init_args = []; capacity = capacity },
    )
unfolding new
insert_all-new slugs capacity cl made word args fits =
    let start : Cmdline = record { boot_args = []; init_args = []; capacity = capacity } in
    let empty : cl ≡ start = ground arith in
    let text = pushed-nil slugs args in
    ap (insert_all slugs) empty
    ∙ insert_all_lem slugs start word args (rw text (omega (arith, fits)))
    ∙ ap (λ t. (ok tt, record start { boot_args = t })) text
