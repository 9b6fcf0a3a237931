-- ===== src/Commands/Policy.antt =====
-- reconkg/commands.py: the policy that every emission path runs last. A command may reach it by a route
-- that skipped `__post_init__`, so it holds its category as a tag here.
pub mod Filter
use reconkg.Base.{
  ℕ, Bool, true, false, ◌||◌, ◌&&◌, not, Option, none, some, List, [], ◌∷◌, ◌++◌, if◌then◌else◌,
  is_empty, any, All, ◌≡◌, refl, sym, arith, Bool-cases, inl, inr,
}
use reconkg.Base.Text.{Text, codes, text_eq}
use reconkg.Commands.{
  Category, value, Tag, member, Command, Result, ok, err, boundary_violation, ◌>>=◌, never_composed,
  default_category, coerce_category,
}
use reconkg.Commands.Build.Sound.{IsSound}

pub record Held : Type 0 where
  pub tool : Text
  pub category : Tag
  pub argv : Option (List Text)
  pub reference : Text
  pub source : Text

-- A command that was constructed.
unfoldable pub held : Command → Held
held c = record {
  tool = c.tool;
  category = member c.category;
  argv = c.argv;
  reference = c.reference;
  source = c.source;
}

unfoldable pub is_composed : Held → Bool
is_composed c = elim c.argv [ none ↦ false | some argv ↦ true ]

-- `coerce_category`, with its `ValueError` turned into a `BoundaryViolation`.
unfoldable pub interpret : Tag → Result Category
interpret tag = elim (coerce_category tag) [ ok c ↦ ok c | err e ↦ err boundary_violation ]

-- The test of one command in `assert_no_composed_exploits`.
unfoldable pub assert_one : Held → Category → Result (Unit {0})
assert_one c category =
    if never_composed category && is_composed c then err boundary_violation else ok tt

unfoldable pub assert_no_composed_exploits : List Held → Result (Unit {0})
assert_no_composed_exploits [] = ok tt
assert_no_composed_exploits (c ∷ cs) =
    let rest = assert_no_composed_exploits cs in
    do category ← interpret c.category; _ ← assert_one c category; rest

unfoldable pub coerce_all : List Tag → Result (List Category)
coerce_all [] = ok []
coerce_all (t ∷ ts) = do c ← coerce_category t; cs ← coerce_all ts; ok (c ∷ cs)

unfoldable pub in_categories : Category → List Category → Bool
in_categories c cs = any (λ d. text_eq (value d) (value c)) cs

-- `allowed` is none for the default selection.
unfoldable pub permitted_by : Option (List Tag) → Result (Category → Bool)
permitted_by none = ok default_category
permitted_by (some allowed) = do cs ← coerce_all allowed; ok (λ c. in_categories c cs)

-- The list at the end of `filter_commands`.
unfoldable pub select : (Category → Bool) → List Held → Result (List Held)
select permitted [] = ok []
select permitted (c ∷ cs) = do
  category ← coerce_category c.category
  kept ← select permitted cs
  ok ((if permitted category || not (is_composed c) then c ∷ [] else []) ++ kept)

unfoldable pub filter_commands : List Held → Option (List Tag) → Result (List Held)
filter_commands commands allowed = do
  permitted ← permitted_by allowed
  _ ← assert_no_composed_exploits commands
  select permitted commands
