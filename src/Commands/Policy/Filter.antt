-- ===== src/Commands/Policy/Filter.antt =====
-- reconkg/commands.py: what `filter_commands` refuses and what it hides.
use reconkg.Base.{
  Bool, true, false, ◌||◌, ◌&&◌, not, Option, none, List, [], ◌∷◌, map, All, ◌≡◌, ◌↔◌, refl, ◌∙◌,
  arith, Bool-cases, inl, inr,
}
use reconkg.Commands.{
  Category, Tag, Command, ok, never_composed, default_category, coerce_category, composed,
}
use reconkg.Commands.Build.Sound.{IsSound, bind_inv}
use reconkg.Commands.Policy.{
  Held, held, is_composed, interpret, assert_one, assert_no_composed_exploits, permitted_by, select,
  filter_commands,
}

-- The category can be read, and a command of a category that is never composed has no arguments.
pub data Keeps (c : Held) : Type 0 where
  keeps :
      (category : Category)
      → coerce_category c.category ≡ ok category
      → never_composed category && is_composed c ≡ false
      → Keeps c

-- What is left of a list: a command is hidden when it is composed and its category is not permitted.
pub data Selects (permitted : Category → Bool) : List Held → List Held → Type 0 where
  nothing : Selects permitted [] []
  keep :
      {cs kept : List Held} (c : Held) (category : Category)
      → coerce_category c.category ≡ ok category
      → permitted category || not (is_composed c) ≡ true
      → Selects permitted cs kept
      → Selects permitted (c ∷ cs) (c ∷ kept)
  hide :
      {cs kept : List Held} (c : Held) (category : Category)
      → coerce_category c.category ≡ ok category
      → permitted category ≡ false
      → is_composed c ≡ true
      → Selects permitted cs kept
      → Selects permitted (c ∷ cs) kept

interpret_inv :
    (tag : Tag) (category : Category)
    → interpret tag ≡ ok category
    → coerce_category tag ≡ ok category
unfolding interpret
interpret_inv tag category h = ground arith

interpret_of :
    (tag : Tag) (category : Category)
    → coerce_category tag ≡ ok category
    → interpret tag ≡ ok category
unfolding interpret
interpret_of tag category h = ground arith

assert_one_inv :
    (c : Held) (category : Category)
    → assert_one c category ≡ ok tt
    → never_composed category && is_composed c ≡ false
unfolding assert_one
assert_one_inv c category h = ground arith

assert-Keeps : (cs : List Held) → assert_no_composed_exploits cs ≡ ok tt → All Keeps cs
unfolding assert_no_composed_exploits
assert-Keeps [] h = tt
assert-Keeps (c ∷ cs) h =
    let (category, e, h1) = bind_inv (interpret c.category) _ h in
    let (_, f, rest) = bind_inv (assert_one c category) _ h1 in
    (
      keeps category (interpret_inv c.category category e) (assert_one_inv c category f),
      assert-Keeps cs rest,
    )

assert_ok :
    (c : Held) (cs : List Held) (category : Category)
    → coerce_category c.category ≡ ok category
    → never_composed category && is_composed c ≡ false
    → assert_no_composed_exploits (c ∷ cs) ≡ assert_no_composed_exploits cs
unfolding assert_no_composed_exploits
assert_ok c cs category e k =
    let p : interpret c.category ≡ ok category = interpret_of c.category category e in
    let q : assert_one c category ≡ ok tt = unfold assert_one in rw k refl in rw (p, q) refl

pub assert_Keeps-ok : (cs : List Held) → All Keeps cs → assert_no_composed_exploits cs ≡ ok tt
assert_Keeps-ok [] h = unfold assert_no_composed_exploits in refl
assert_Keeps-ok (c ∷ cs) (keeps category e k, h) =
    assert_ok c cs category e k ∙ assert_Keeps-ok cs h

-- On commands whose categories can be read, the list at the end of the filter is the selection.
pub select_total :
    (permitted : Category → Bool) (cs : List Held)
    → All Keeps cs
    → (kept : List Held) × (select permitted cs ≡ ok kept) × Selects permitted cs kept
unfolding select
select_total permitted [] h = ([], refl, nothing)
select_total permitted (c ∷ cs) (keeps category e k, h) =
    let (kept, f, selects) = select_total permitted cs h in
    elim (Bool-cases (permitted category)) [
      | inl p ↦ (c ∷ kept, rw (e, f, p) refl, keep c category e (rw p refl) selects)
      | inr p ↦ elim (Bool-cases (is_composed c)) [
        | inl q ↦ (kept, rw (e, f, p, q) refl, hide c category e p q selects)
        | inr q ↦ (c ∷ kept, rw (e, f, p, q) refl, keep c category e (rw (p, q) refl) selects)
      ]
    ]

-- The selection is one list: the result of `select`.
select-of_Selects :
    (permitted : Category → Bool) (cs kept : List Held)
    → Selects permitted cs kept
    → select permitted cs ≡ ok kept
unfolding select
select-of_Selects permitted _ _ nothing = refl
select-of_Selects permitted _ _ (keep c category e p s) =
    rw (e, select-of_Selects permitted _ _ s, p) refl
select-of_Selects permitted _ _ (hide c category e p q s) =
    rw (e, select-of_Selects permitted _ _ s, p, q) refl

Selects-of_select :
    (permitted : Category → Bool) (cs kept : List Held)
    → All Keeps cs
    → select permitted cs ≡ ok kept
    → Selects permitted cs kept
Selects-of_select permitted cs kept h e =
    let (found, f, s) = select_total permitted cs h in
    let same : found ≡ kept = cc (e, f) in rw (← same) s

-- Whatever is selected, the filter gives a result exactly when the selection can be read and no command
-- of the list crosses the boundary or has a category that cannot be read; the result is then the list
-- without the commands that are composed outside the selection, so that one without arguments stays.
pub filter_commands_iff :
    (commands : List Held) (allowed : Option (List Tag)) (kept : List Held)
    → (filter_commands commands allowed ≡ ok kept) ↔ (
        (permitted : Category → Bool) × (permitted_by allowed ≡ ok permitted)
        × All Keeps commands
        × Selects permitted commands kept)
unfolding filter_commands
filter_commands_iff commands allowed kept = (to, from)
  where
    to :
        filter_commands commands allowed ≡ ok kept
        → (permitted : Category → Bool) × (permitted_by allowed ≡ ok permitted)
          × All Keeps commands
          × Selects permitted commands kept
    to h =
        let (permitted, e, h1) = bind_inv (permitted_by allowed) _ h in
        let (_, f, g) = bind_inv (assert_no_composed_exploits commands) _ h1 in
        let sound : All Keeps commands = assert-Keeps commands f in
        (permitted, e, sound, Selects-of_select permitted commands kept sound g)

    from :
        (permitted : Category → Bool) × (permitted_by allowed ≡ ok permitted)
          × All Keeps commands
          × Selects permitted commands kept
        → filter_commands commands allowed ≡ ok kept
    from (permitted, e, sound, s) =
        rw (e, assert_Keeps-ok commands sound) (select-of_Selects permitted commands kept s)

held-Keeps : (c : Command) → IsSound c → Keeps (held c)
unfolding held is_composed coerce_category composed
held-Keeps c s = keeps c.category refl s.boundary

pub map-held-Keeps : (cs : List Command) → All IsSound cs → All Keeps (map held cs)
map-held-Keeps [] h = tt
map-held-Keeps (c ∷ cs) (sound, h) = (held-Keeps c sound, map-held-Keeps cs h)

-- On commands that were constructed the default filter never refuses, and what it gives is the list
-- without the commands that are composed outside the categories that need no opt-in.
pub filter_commands-held :
    (cs : List Command)
    → All IsSound cs
    → (kept : List Held) × (filter_commands (map held cs) none ≡ ok kept)
      × Selects default_category (map held cs) kept
filter_commands-held cs h =
    let (kept, _, s) = select_total default_category (map held cs) (map-held-Keeps cs h) in
    (
      kept,
      (filter_commands_iff (map held cs) none kept).1
          (default_category, unfold permitted_by in refl, map-held-Keeps cs h, s),
      s,
    )
