-- ===== src/Commands.antt =====
-- reconkg/commands.py: NSE categories, commands and the policy on what is composed. The rationale of
-- a command, prose that nothing reads back, is left out.
pub mod Validate
pub mod Resolve
pub mod Build
pub mod Policy
mod Tests
use reconkg.Base.{
  ℕ, Bool, true, false, ◌&&◌, ◌||◌, not, Option, none, some, List, [], ◌∷◌, if◌then◌else◌, ◌==◌,
  is_empty, any,
}
use reconkg.Base.Text.{Text, codes, text_eq, lower, strip}

pub data Category : Type 0 where
  auth broadcast brute default discovery dos exploit external fuzzer intrusive : Category
  malware safe version vuln unclassified : Category

-- `Category.value`.
unfoldable pub value : Category → Text
value auth = codes "auth"
value broadcast = codes "broadcast"
value brute = codes "brute"
value default = codes "default"
value discovery = codes "discovery"
value dos = codes "dos"
value exploit = codes "exploit"
value external = codes "external"
value fuzzer = codes "fuzzer"
value intrusive = codes "intrusive"
value malware = codes "malware"
value safe = codes "safe"
value version = codes "version"
value vuln = codes "vuln"
value unclassified = codes "unclassified"

abbrev pub all_categories : List Category
all_categories =
    auth ∷ broadcast ∷ brute ∷ default ∷ discovery ∷ dos ∷ exploit ∷ external ∷ fuzzer ∷ intrusive
    ∷ malware ∷ safe ∷ version ∷ vuln ∷ unclassified ∷ []

-- `Category(text)`, which raises where this is `none`.
unfoldable pub find_category : Text → List Category → Option Category
unfolding value
find_category text [] = none
find_category text (c ∷ cs) = if text_eq (value c) text then some c else find_category text cs

unfoldable pub category_of : Text → Option Category
unfolding find_category
category_of text = find_category text all_categories

unfoldable pub never_composed : Category → Bool
never_composed exploit = true
never_composed dos = true
never_composed fuzzer = true
never_composed brute = true
never_composed _ = false

unfoldable pub default_category : Category → Bool
default_category safe = true
default_category discovery = true
default_category version = true
default_category _ = false

unfoldable pub opt_in_category : Category → Bool
opt_in_category vuln = true
opt_in_category intrusive = true
opt_in_category unclassified = true
opt_in_category auth = true
opt_in_category default = true
opt_in_category malware = true
opt_in_category broadcast = true
opt_in_category external = true
opt_in_category _ = false

-- `BoundaryViolation` and `ValueError`.
pub data Refusal : Type 0 where
  boundary_violation value_error : Refusal

pub data Result {ℓ} (A : Type ℓ) : Type ℓ where
  ok : A → Result A
  err : Refusal → Result A

infixl 5 ◌>>=◌
abbrev pub ◌>>=◌ {ℓ κ} : {A : Type ℓ} {B : Type κ} → Result A → (A → Result B) → Result B
ok a >>= f = f a
err e >>= f = err e

-- A category as callers hand it over: a member of the enum, or a text.
pub data Tag : Type 0 where
  member : Category → Tag
  spelled : Text → Tag

unfoldable pub or_value_error : Option Category → Result Category
or_value_error none = err value_error
or_value_error (some c) = ok c

unfoldable pub coerce_category : Tag → Result Category
unfolding or_value_error
coerce_category (member c) = ok c
coerce_category (spelled text) = or_value_error (category_of (lower (strip text)))

-- `_clean_argv`: no element has a NUL, a line feed or a carriage return.
unfoldable pub is_control : ℕ → Bool
is_control c = c == 0 || c == 10 || c == 13

unfoldable pub clean_argv : List Text → Result (List Text)
clean_argv argv = if any (any is_control) argv then err value_error else ok argv

pub record Command : Type 0 where
  pub tool : Text
  pub category : Category
  pub argv : Option (List Text)
  pub reference : Text
  pub source : Text

unfoldable pub composed : Command → Bool
composed c = elim c.argv [ none ↦ false | some argv ↦ true ]

unfoldable pub requires_opt_in : Command → Bool
unfolding opt_in_category
requires_opt_in c = opt_in_category c.category

unfoldable pub clean_optional : Option (List Text) → Result (Option (List Text))
clean_optional none = ok none
clean_optional (some argv) = do cleaned ← clean_argv argv; ok (some cleaned)

-- The two tests at the end of `__post_init__`.
unfoldable pub checked : Command → Result Command
checked c =
    if never_composed c.category && composed c
    then err boundary_violation
    else if not (composed c) && is_empty c.reference
    then err value_error
    else ok c

-- `Command(...)` with its `__post_init__`.
unfoldable pub make_command :
    (tool : Text) → Tag → Option (List Text) → (reference source : Text) → Result Command
make_command tool tag argv reference source = do
  category ← coerce_category tag
  cleaned ← clean_optional argv
  checked (record {
    tool = tool;
    category = category;
    argv = cleaned;
    reference = reference;
    source = source;
  })
