-- ===== src/Commands/Build/Sound.antt =====
-- reconkg/commands.py: the boundary on a command that is constructed, and on those of a builder.
use reconkg.Base.{
  false, ◌&&◌, not, Option, none, some, List, [], ◌∷◌, is_empty, any, All, ◌≡◌, refl, sym, arith,
}
use reconkg.Base.Text.{Text}
use reconkg.Commands.{
  Tag, Command, Result, ok, err, ◌>>=◌, never_composed, coerce_category, is_control, clean_argv,
  clean_optional, checked, composed, make_command,
}

abbrev pub args : Option (List Text) → List Text
args none = []
args (some argv) = argv

-- The boundary: a category that is never composed has no arguments, a command without arguments
-- names what to look up, and no argument has a NUL or a line break.
pub record IsSound (c : Command) : Type 0 where
  pub boundary : never_composed c.category && composed c ≡ false
  pub named : not (composed c) && is_empty c.reference ≡ false
  pub clean : any (any is_control) (args c.argv) ≡ false

checked_inv :
    (c d : Command)
    → checked c ≡ ok d
    → (c ≡ d)
      × (never_composed c.category && composed c ≡ false)
      × (not (composed c) && is_empty c.reference ≡ false)
unfolding checked
checked_inv c d h = ground arith

-- What a chain that succeeds went through.
pub bind_inv {κ ℓ} :
    {A : Type κ} {B : Type ℓ} (result : Result A) (next : A → Result B) {out : B}
    → (result >>= next) ≡ ok out
    → (value : A) × (result ≡ ok value) × (next value ≡ ok out)
bind_inv (ok value) next e = (value, refl, e)
bind_inv (err refusal) next e = cc

clean_argv_inv :
    (argv out : List Text)
    → clean_argv argv ≡ ok out
    → (argv ≡ out) × (any (any is_control) argv ≡ false)
unfolding clean_argv
clean_argv_inv argv out h = ground arith

clean_optional_inv :
    (argv cleaned : Option (List Text))
    → clean_optional argv ≡ ok cleaned
    → (argv ≡ cleaned) × (any (any is_control) (args cleaned) ≡ false)
unfolding clean_optional
clean_optional_inv none none h = (refl, refl)
clean_optional_inv none (some a) h = cc
clean_optional_inv (some argv) cleaned h =
    let (out, e, k) = bind_inv (clean_argv argv) _ h in
    let (same, clean) = clean_argv_inv argv out e in
    let q : some out ≡ cleaned = cc k in (cc (q, same), rw (← q, ← same) clean)

-- A command that is constructed is sound, and is the one that was asked for.
pub make_command_inv :
    (tool : Text) (tag : Tag) (argv : Option (List Text)) (reference source : Text) (c : Command)
    → make_command tool tag argv reference source ≡ ok c
    → IsSound c × (coerce_category tag ≡ ok c.category) × (c.argv ≡ argv)
unfolding make_command
make_command_inv tool tag argv reference source c h =
    let (category, e, h1) = bind_inv (coerce_category tag) _ h in
    let (cleaned, f, h2) = bind_inv (clean_optional argv) _ h1 in
    let (same, boundary, named) = checked_inv _ c h2 in
    let (unchanged, clean) = clean_optional_inv argv cleaned f in
    (
      record {
        boundary = rw (← same) boundary;
        named = rw (← same) named;
        clean = rw (← same) clean;
      },
      rw (← same) e,
      rw (← same) (sym unchanged),
    )

-- What holds of a result that is no refusal.
abbrev pub Ensures : {A : Type 0} → (A → Type 0) → Result A → Type 0
Ensures P (ok a) = P a
Ensures P (err e) = Unit

pub Ensures-bind :
    {A B : Type 0} (P : A → Type 0) (Q : B → Type 0) (m : Result A) (f : A → Result B)
    → Ensures P m
    → ((a : A) → m ≡ ok a → P a → Ensures Q (f a))
    → Ensures Q (m >>= f)
Ensures-bind P Q (ok a) f h k = k a refl h
Ensures-bind P Q (err e) f h k = tt

pub Ensures-any : {A : Type 0} (m : Result A) → Ensures (λ _. Unit {0}) m
Ensures-any (ok a) = tt
Ensures-any (err e) = tt

Ensures-of_inv :
    {A : Type 0} (P : A → Type 0) (m : Result A) → ((a : A) → m ≡ ok a → P a) → Ensures P m
Ensures-of_inv P (ok a) h = h a refl
Ensures-of_inv P (err e) h = tt

pub make_command-IsSound :
    (tool : Text) (tag : Tag) (argv : Option (List Text)) (reference source : Text)
    → Ensures IsSound (make_command tool tag argv reference source)
make_command-IsSound tool tag argv reference source =
    Ensures-of_inv IsSound _ (λ c h. (make_command_inv tool tag argv reference source c h).0)

pub one-IsSound :
    (m : Result Command) → Ensures IsSound m → Ensures (All IsSound) (do c ← m; ok (c ∷ []))
one-IsSound (ok c) h = (h, tt)
one-IsSound (err e) h = tt
