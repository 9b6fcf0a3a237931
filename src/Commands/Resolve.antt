-- ===== src/Commands/Resolve.antt =====
-- reconkg/commands.py: the category that a list of declared tags, or a script name, amounts to.
pub mod Worst
use reconkg.Base.{
  ℕ, zero, suc, Bool, true, false, ◌||◌, Option, none, some, List, [], ◌∷◌, ◌++◌, if◌then◌else◌,
  ◌==◌, map, any,
}
use reconkg.Base.Text.{Text, codes, text_eq, lower, strip}
use reconkg.Commands.{
  Category, vuln, broadcast, external, intrusive, version, safe, unclassified, exploit, dos, fuzzer,
  brute, value, category_of, Tag, member, spelled, Result, ok, err, ◌>>=◌,
}
use reconkg.Commands.Validate.{validate_script_name}

-- A collection of declared categories as callers hand it over: none, one bare text, or a list.
pub data Declared : Type 0 where
  absent : Declared
  bare : Text → Declared
  many : List Tag → Declared

-- `_token`.
unfoldable pub token : Tag → Text
token (member c) = value c
token (spelled text) = text

unfoldable pub normalise_categories : Declared → List Text
unfolding token
normalise_categories absent = []
normalise_categories (bare text) = text ∷ []
normalise_categories (many tags) = map token tags

-- One tag's contribution to `seen`: an unknown one counts as unclassified.
unfoldable pub or_unclassified : Option Category → Category
or_unclassified none = unclassified
or_unclassified (some c) = c

unfoldable pub seen_category : Text → Category
unfolding or_unclassified
seen_category name = or_unclassified (category_of (lower (strip name)))

-- Equality of the enum's members, by their values.
unfoldable pub same_category : Category → Category → Bool
same_category c d = text_eq (value c) (value d)

unfoldable pub is_seen : Category → List Category → Bool
unfolding same_category
is_seen c seen = any (same_category c) seen

-- The last loop of `_worst_category` and its fallback.
unfoldable pub worst_safety : List Category → Category
worst_safety seen =
    if is_seen intrusive seen
    then intrusive
    else if is_seen version seen
    then version
    else if is_seen safe seen
    then safe
    else unclassified

-- The first loop over the escalating categories, and what follows it.
unfoldable pub worst_seen : List Category → Category
worst_seen seen =
    if is_seen exploit seen
    then exploit
    else if is_seen dos seen
    then dos
    else if is_seen fuzzer seen
    then fuzzer
    else if is_seen brute seen
    then brute
    else if is_seen vuln seen
    then vuln
    else if is_seen broadcast seen
    then broadcast
    else if is_seen external seen
    then external
    else if is_seen unclassified seen
    then unclassified
    else worst_safety seen

-- `_worst_category` of normalised tokens; nothing seen is unclassified.
unfoldable pub worst_category : List Text → Category
worst_category [] = unclassified
worst_category (t ∷ ts) = worst_seen (map seen_category (t ∷ ts))

-- What the name itself selects.
unfoldable pub own_tokens : Text → List Text
own_tokens lowered =
    if text_eq lowered (codes "all")
    then value exploit ∷ []
    else elim (category_of lowered) [ none ↦ [] | some c ↦ value c ∷ [] ]

unfoldable pub script_selection_category : Text → Declared → Result Category
script_selection_category script declared = do
  name ← validate_script_name script
  ok (worst_category (normalise_categories declared ++ own_tokens (lower name)))
